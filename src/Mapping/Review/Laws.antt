-- ===== src/Mapping/Review/Laws.antt =====
-- ColumnMappingReviewPage.tsx: what the load shows, and what a save leaves behind.
use tidybridge.Base.{
  Str, str_eq, Bool, true, false, ◌≡◌, refl, ◌⊎◌, inl, inr, Option, none, some, List, [], ◌∷◌, ◌++◌,
  arith, includes, or_else, if◌then◌else◌, js,
}
use tidybridge.I18n.{Lang, t}
use tidybridge.Types.{ColumnMapping, ColumnMappingIn, IngestResult}
use tidybridge.Client.Errors.{Result, ok, fail}
use tidybridge.Records.Handlers.{toggle_id, drop_id}
use tidybridge.Records.Selection.{includes-toggle_id}
use tidybridge.Mapping.Stored.{update_stored, update_result}
use tidybridge.Mapping.Review.{
  Props, Review, stored_result, effective_initial, load_end, load_failed, is_not_found,
  toggle_dedup_key, save_end, resolutions_of,
}

-- The mapping that an answer leads to: the saved one, or after a 404 the initial one.
abbrev pub LeadsTo : Result ColumnMapping → Option ColumnMapping → ColumnMapping → Type 0
LeadsTo (ok m) initial shown = m ≡ shown
LeadsTo (fail e) initial shown = (is_not_found e ≡ true) × (initial ≡ some shown)

-- Why there is nothing to show after an answer, and what is said: no such mapping, and no initial
-- one; or another failure.
abbrev pub IsUnshown : Lang → Result ColumnMapping → Option ColumnMapping → Str → Type 0
IsUnshown lang (ok m) initial message = ⊥
IsUnshown lang (fail e) initial message =
    ((is_not_found e ≡ true) × (initial ≡ none) × (message ≡ t lang (js "mappingNothingYet") []))
    ⊎ ((is_not_found e ≡ false) × (message ≡ t lang (js "mappingLoadFailed") []))

-- The page shows a mapping and no new error.
abbrev pub Adopts : ColumnMapping → Review → Review → Type 0
Adopts m before after =
    (after.resolutions ≡ m.field_resolutions)
    × (after.dedup_key_fields ≡ m.dedup_key_fields)
    × (after.load_error ≡ before.load_error)

-- The page shows an error and keeps what it had.
abbrev pub Says : Str → Review → Review → Type 0
Says message before after =
    (after.load_error ≡ some message)
    × (after.resolutions ≡ before.resolutions)
    × (after.dedup_key_fields ≡ before.dedup_key_fields)

load_failed_cases :
    (lang : Lang) (initial : Option ColumnMapping) (missing : Bool) (s : Review)
    → ((load_failed lang initial missing s).loading ≡ false)
      × (((m : ColumnMapping) × (missing ≡ true)
            × (initial ≡ some m)
            × Adopts m s (load_failed lang initial missing s))
          ⊎ ((message : Str) × (((missing ≡ true)
                  × (initial ≡ none)
                  × (message ≡ t lang (js "mappingNothingYet") []))
                ⊎ ((missing ≡ false) × (message ≡ t lang (js "mappingLoadFailed") [])))
              × Says message s (load_failed lang initial missing s)))
unfolding load_failed
load_failed_cases lang (some m) true s = (refl, inl (m, refl, refl, (refl, refl, refl)))
load_failed_cases lang none true s = (refl, inr (_, inl (refl, refl, refl), (refl, refl, refl)))
load_failed_cases lang initial false s = (refl, inr (_, inr (refl, refl), (refl, refl, refl)))

-- After the load's answer the page is no longer loading. Either it shows the mapping that the answer
-- leads to, which is the one answered with, or after a 404 the initial one, and no new error; or it
-- keeps what it had and says that there is nothing yet, after a 404 without an initial mapping, or
-- that the load failed, after any other failure.
pub load_end_cases :
    (lang : Lang) (initial : Option ColumnMapping) (r : Result ColumnMapping) (s : Review)
    → ((load_end lang initial r s).loading ≡ false)
      × (((m : ColumnMapping) × LeadsTo r initial m × Adopts m s (load_end lang initial r s))
          ⊎ ((message : Str) × IsUnshown lang r initial message
              × Says message s (load_end lang initial r s)))
unfolding load_end
load_end_cases lang initial (ok m) s = (refl, inl (m, refl, (refl, refl, refl)))
load_end_cases lang initial (fail e) s =
    let (loaded, cases) = load_failed_cases lang initial (is_not_found e) s in
    (
      loaded,
      elim cases [
        | inl (m, missing, given, adopted) ↦ inl (m, (missing, given), adopted)
        | inr failed ↦ inr failed
      ],
    )

toggle_keys :
    (field : Str) (keys : List Str)
    → (if includes keys field then drop_id field keys else keys ++ field ∷ [])
      ≡ toggle_id field keys
unfolding toggle_id
toggle_keys field keys = ground arith

-- Clicking a column's key box twice leaves the same key fields.
pub toggle_dedup_key_twice :
    (field j : Str) (s : Review)
    → includes (toggle_dedup_key field (toggle_dedup_key field s)).dedup_key_fields j
      ≡ includes s.dedup_key_fields j
unfolding toggle_dedup_key
toggle_dedup_key_twice field j s =
    let once = toggle_keys field s.dedup_key_fields in
    let twice = toggle_keys field (toggle_id field s.dedup_key_fields) in
    rw (once, twice)
      (ground (
        arith,
        includes-toggle_id (toggle_id field s.dedup_key_fields) field j,
        includes-toggle_id s.dedup_key_fields field j,
      ))

-- A save that succeeds right after the upload of this shape, with no mapping from the router: the
-- next review of the shape starts from what was sent, and the upload no longer counts as
-- unreviewed.
pub save_end-effective_initial :
    {T : Type 0} (lang : Lang) (props : Props) (sent : ColumnMappingIn) (answer : T)
    (stored : IngestResult) (s : Review)
    → props.initial_resolution ≡ none
    → str_eq stored.fingerprint props.fingerprint ≡ true
    → (effective_initial props
          (save_end lang props.fingerprint
            (effective_initial props (some stored))
            sent
            (ok answer)
            (some stored)
            s).stored
        ≡ some (record {
          field_resolutions = sent.field_resolutions;
          dedup_key_fields = sent.dedup_key_fields;
        }))
      × ((r : IngestResult) × ((save_end lang props.fingerprint
              (effective_initial props (some stored))
              sent
              (ok answer)
              (some stored)
              s).stored
            ≡ some r)
          × (r.mapping_is_default ≡ false)
          × (r.ingestion_run_id ≡ stored.ingestion_run_id))
unfolding save_end effective_initial update_stored update_result stored_result
save_end-effective_initial lang props sent answer stored s none_given shape = (
  ground arith,
  (
    update_result (or_else (resolutions_of (effective_initial props (some stored))) [])
        sent.field_resolutions sent.dedup_key_fields stored,
    rw shape,
    refl,
    refl,
  ),
)
