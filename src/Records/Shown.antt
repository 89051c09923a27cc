-- ===== src/Records/Shown.antt =====
-- RecordsPage.tsx: which rows the filter and the search leave.
use tidybridge.Base.{
  Str, true, ◌&&◌, ◌≡◌, refl, ap, ◌↔◌, ◌⊎◌, inl, inr, Option, none, some, [], ◌∷◌, ◌++◌, arith,
  trim, starts_with, starts_with-append, Option-cases, Bool-cases, Mem-keep_iff, any-of_Mem,
  Mem-of_any,
}
use mathlib.Core.List.{Mem, Perm}
use mathlib.Core.List.Perm
use tidybridge.Base.{sort_by-perm}
use tidybridge.Types.{ClientRecord}
use tidybridge.Client.Request.{contains}
use tidybridge.Records.{
  Status, clean, needs_review, approved, Filter, every, only, Runtime, State, status_label,
  passes_filter, value_matches, matches_query, filtered_records, sorted_records, not_after,
  status_eq,
}

-- `part` stands somewhere in `s`.
abbrev pub IsPart : Str → Str → Type 0
IsPart part s = (before : Str) × (after : Str) × (s ≡ before ++ (part ++ after))

starts_with-split : (s part : Str) → starts_with s part ≡ true → (after : Str) × (s ≡ part ++ after)
unfolding starts_with
starts_with-split s [] h = (s, refl)
starts_with-split [] (d ∷ p) h = cc
starts_with-split (c ∷ s) (d ∷ p) h =
    let (after, rest) = starts_with-split s p (ground arith) in
    let same : c ≡ d = ground arith in (after, rw (same, rest) refl)

contains-IsPart : (s part : Str) → contains s part ≡ true → IsPart part s
unfolding contains
contains-IsPart [] part h = let (after, e) = starts_with-split [] part h in ([], after, e)
contains-IsPart (c ∷ s) part h = elim (Bool-cases (starts_with (c ∷ s) part)) [
  | inl here ↦ let (after, e) = starts_with-split (c ∷ s) part here in ([], after, e)
  | inr later ↦
      let (before, after, e) = contains-IsPart s part (ground arith) in
      (c ∷ before, after, ap (λ t. c ∷ t) e)
]

contains-start : (s part : Str) → starts_with s part ≡ true → contains s part ≡ true
unfolding contains
contains-start [] part h = h
contains-start (c ∷ s) part h = ground arith

contains-append : (before part after : Str) → contains (before ++ (part ++ after)) part ≡ true
unfolding contains
contains-append [] part after = contains-start (part ++ after) part (starts_with-append part after)
contains-append (c ∷ before) part after = ground (arith, contains-append before part after)

-- The filter's status is the record's, if one is chosen.
abbrev pub IsOfFilter : Filter → ClientRecord → Type 0
IsOfFilter every r = Unit
IsOfFilter (only status) r = status_label r ≡ status

status_eq→eq : (a b : Status) → status_eq a b ≡ true → a ≡ b
status_eq→eq clean clean h = refl
status_eq→eq needs_review needs_review h = refl
status_eq→eq approved approved h = refl
status_eq→eq clean needs_review h = cc
status_eq→eq clean approved h = cc
status_eq→eq needs_review clean h = cc
status_eq→eq needs_review approved h = cc
status_eq→eq approved clean h = cc
status_eq→eq approved needs_review h = cc

status_eq_refl : (a : Status) → status_eq a a ≡ true
status_eq_refl clean = refl
status_eq_refl needs_review = refl
status_eq_refl approved = refl

passes_filter_iff : (f : Filter) (r : ClientRecord) → (passes_filter f r ≡ true) ↔ IsOfFilter f r
passes_filter_iff every r = (λ h. tt, λ h. refl)
passes_filter_iff (only status) r =
    (status_eq→eq (status_label r) status, λ e. rw e (status_eq_refl status))

module _ (rt : Runtime) where
  -- The query is empty, or stands in the value of a field, in lower case.
  abbrev pub HasText : Str → ClientRecord → Type 0
  HasText query r =
      (query ≡ [])
      ⊎ ((f : Str × Option Str) × Mem f r.fields
          × ((v : Str) × (f.1 ≡ some v) × IsPart query (rt.lower v)))

  value_matches-IsPart :
      (query : Str) (f : Str × Option Str)
      → value_matches rt query f ≡ true
      → (v : Str) × (f.1 ≡ some v) × IsPart query (rt.lower v)
  value_matches-IsPart query (k, none) h = cc
  value_matches-IsPart query (k, some v) h = (v, refl, contains-IsPart (rt.lower v) query h)

  IsPart-value_matches :
      (query : Str) (f : Str × Option Str) (v : Str)
      → f.1 ≡ some v
      → IsPart query (rt.lower v)
      → value_matches rt query f ≡ true
  IsPart-value_matches query (k, o) v e (before, after, e') =
      rw (e, e') (contains-append before query after)

  matches_query_iff :
      (query : Str) (r : ClientRecord) → (matches_query rt query r ≡ true) ↔ HasText query r
  unfolding matches_query
  matches_query_iff [] r = (λ h. inl refl, λ h. refl)
  matches_query_iff (c ∷ query) r = (
    λ h.
        let (f, there, matched) = Mem-of_any (value_matches rt (c ∷ query)) r.fields h in
        inr (f, there, value_matches-IsPart (c ∷ query) f matched),
    λ h. elim h [
      | inl e ↦ cc
      | inr (f, there, (v, e, part)) ↦
          any-of_Mem (value_matches rt (c ∷ query)) f r.fields there
            (IsPart-value_matches (c ∷ query) f v e part)
    ],
  )

  -- The rows are the filtered records, each as often, whatever the order.
  sorted_records-perm : (s : State) → Perm (sorted_records rt s) (filtered_records rt s)
  unfolding sorted_records
  sorted_records-perm s = elim (Option-cases s.sort) [
    | inl unsorted ↦ rw unsorted (Perm.refl _)
    | inr (sort, sorted) ↦ rw sorted (sort_by-perm (not_after rt sort) _)
  ]

  Mem-filtered_records_iff :
      (s : State) (r : ClientRecord)
      → Mem r (filtered_records rt s)
        ↔ (Mem r s.records × IsOfFilter s.filter r × HasText (rt.lower (trim s.search)) r)
  unfolding filtered_records
  Mem-filtered_records_iff s r =
      let listed =
        Mem-keep_iff
          (λ q. passes_filter s.filter q && matches_query rt (rt.lower (trim s.search)) q) r
          s.records in
      let filter = passes_filter_iff s.filter r in
      let query = matches_query_iff (rt.lower (trim s.search)) r in
      (
        λ m.
            let (there, passes) = listed.0 m in
            (there, filter.0 (ground (arith, passes)), query.0 (ground (arith, passes))),
        λ h.
            let (there, of_filter, has_text) = h in
            listed.1 (there, rw (filter.1 of_filter, query.1 has_text) refl),
      )

  -- A record is among the rows exactly if it was loaded, has the chosen status, if one is chosen, and
  -- one of its values has what was searched in it, in lower case and without the blanks around it,
  -- if anything was searched; however the rows are sorted.
  pub Mem-sorted_records_iff :
      (s : State) (r : ClientRecord)
      → Mem r (sorted_records rt s)
        ↔ (Mem r s.records × IsOfFilter s.filter r × HasText (rt.lower (trim s.search)) r)
  Mem-sorted_records_iff s r =
      let same = Perm.mem_iff {a = r} (sorted_records-perm s) in
      let shown = Mem-filtered_records_iff s r in (λ m. shown.0 (same.0 m), λ h. same.1 (shown.1 h))
