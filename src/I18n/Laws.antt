-- ===== src/I18n/Laws.antt =====
-- lib/i18n.ts: what `t` fills in, and that the two dictionaries ask for the same values.
use tidybridge.Base.{
  ℕ, String, Str, js, str_eq, str_eq_iff, Bool, true, false, not, ◌&&◌, ◌≡◌, refl, ◌∙◌, ap, Option,
  none, some, List, [], ◌∷◌, ◌++◌, arith, if◌then◌else◌, ◌==◌, is_word, is_empty, all, append_assoc,
  append-nil, includes, Bool-cases, inl, inr, ◌⊎◌,
}
use tidybridge.I18n.{spanish, english, dictionary, entry, Vars, fill_in, scan, replace}

-- A text of the dictionaries: characters other than "{", and places with a name.
pub data Part : Type 0 where
  char : ℕ → Part
  place : Str → Part

abbrev pub print : List Part → Str
print [] = []
print (char c ∷ ps) = c ∷ print ps
print (place name ∷ ps) = b'{' ∷ (name ++ b'}' ∷ print ps)

abbrev pub IsTemplate : List Part → Type 0
IsTemplate [] = Unit
IsTemplate (char c ∷ ps) = ((c == b'{') ≡ false) × IsTemplate ps
IsTemplate (place name ∷ ps) = (is_empty name ≡ false) × (all is_word name ≡ true) × IsTemplate ps

abbrev pub render : Vars → List Part → Str
render vars [] = []
render vars (char c ∷ ps) = c ∷ render vars ps
render vars (place name ∷ ps) = fill_in vars name ++ render vars ps

replace_name :
    (vars : Vars) (rest read name : Str)
    → all is_word name ≡ true
    → is_empty (read ++ name) ≡ false
    → replace vars (some read) (name ++ b'}' ∷ rest)
      ≡ fill_in vars (read ++ name) ++ replace vars none rest
unfolding replace scan
replace_name vars rest read [] w h =
    let same = append-nil read in
    let full : is_empty read ≡ false = rw same at h in rw same (ground arith)
replace_name vars rest read (c ∷ name) w h =
    let joined = append_assoc read (c ∷ []) name in
    rw (← joined) (
      let ih = replace_name vars rest (read ++ c ∷ []) name (ground arith) (rw joined h) in
      ground (arith, ih))

-- In a text of characters other than "{" and of places with names of word characters, `t`
-- writes each place's value, and everything else as it stands.
pub replace-print :
    (vars : Vars) (ps : List Part) → IsTemplate ps → replace vars none (print ps) ≡ render vars ps
unfolding replace scan
replace-print vars [] h = refl
replace-print vars (char c ∷ ps) (p, h) = ground (arith, replace-print vars ps h)
replace-print vars (place name ∷ ps) (p, w, h) =
    replace_name vars (print ps) [] name w p
    ∙ ap (λ r. fill_in vars name ++ r) (replace-print vars ps h)

-- The names of the places of a text, read once more from the left.
unfoldable pub places : Option Str → Str → List Str
places pending [] = []
places none (c ∷ s) = places (if c == b'{' then some [] else none) s
places (some name) (c ∷ s) =
    let longer = places (some (name ++ c ∷ [])) s in
    let closed = name ∷ places none s in
    let over = places (if c == b'{' then some [] else none) s in
    if is_word c then longer else if c == b'}' && not (is_empty name) then closed else over

-- Each of the names stands in the text.
abbrev within : List Str → List Str → Bool
within names others = all (includes others) names

agree : List (String × String) → List (String × String) → Bool
agree [] [] = true
agree [] (_ ∷ _) = false
agree (_ ∷ _) [] = false
agree ((k, s) ∷ d) ((j, e) ∷ d') =
    str_eq (js k) (js j)
    && ((within (places none (js s)) (places none (js e))
          && within (places none (js e)) (places none (js s)))
        && agree d d')

dictionaries_agree : agree (dictionary spanish) (dictionary english) ≡ true
unfolding agree dictionary js places includes str_eq
dictionaries_agree = refl

within-includes :
    (names others : List Str) (j : Str)
    → within names others ≡ true
    → includes names j ≡ true
    → includes others j ≡ true
unfolding includes
within-includes [] others j h k = cc
within-includes (n ∷ names) others j h k = elim (Bool-cases (str_eq n j)) [
  | inl same ↦ rw (← (str_eq_iff n j).0 same) (ground arith)
  | inr other ↦ within-includes names others j (ground arith) (ground arith)
]

-- Two texts with places of the same names.
abbrev pub SamePlaces : Str → Str → Type 0
SamePlaces s e = (name : Str) → includes (places none s) name ≡ includes (places none e) name

same_places :
    (s e : Str)
    → within (places none s) (places none e) ≡ true
    → within (places none e) (places none s) ≡ true
    → SamePlaces s e
same_places s e h k name = ground (
  arith,
  within-includes (places none s) (places none e) name h,
  within-includes (places none e) (places none s) name k,
)

entry-agree :
    (d d' : List (String × String)) (key : Str)
    → agree d d' ≡ true
    → ((entry key d ≡ none) × (entry key d' ≡ none))
      ⊎ ((s : Str) × (e : Str) × (entry key d ≡ some s) × (entry key d' ≡ some e) × SamePlaces s e)
unfolding entry agree
entry-agree [] [] key h = inl (refl, refl)
entry-agree [] (_ ∷ _) key h = cc
entry-agree (_ ∷ _) [] key h = cc
entry-agree ((k, s) ∷ d) ((j, e) ∷ d') key h =
    let same : js k ≡ js j = (str_eq_iff (js k) (js j)).0 (ground arith) in
    elim (Bool-cases (str_eq (js k) key)) [
      | inl hit ↦ inr (
        js s,
        js e,
        rw hit,
        rw (← same, hit),
        same_places (js s) (js e) (ground arith) (ground arith),
      )
      | inr miss ↦ rw (← same, miss) (entry-agree d d' key (ground arith))
    ]

-- A key is in both dictionaries or in neither, and its two texts have places of the same names:
-- what a call of `t` gives for one language fills in the other.
pub dictionaries_same :
    (key : Str)
    → ((entry key (dictionary spanish) ≡ none) × (entry key (dictionary english) ≡ none))
      ⊎ ((s : Str) × (e : Str) × (entry key (dictionary spanish) ≡ some s)
          × (entry key (dictionary english) ≡ some e)
          × SamePlaces s e)
dictionaries_same key = entry-agree (dictionary spanish) (dictionary english) key dictionaries_agree
