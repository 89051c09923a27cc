-- ===== src/Mapping/View/Laws.antt =====
-- ColumnMappingReviewPage.tsx: when a mapping can be saved.
use tidybridge.Base.{
  ◌≡◌, ◌↔◌, refl, ◌||◌, Bool, true, false, Bool-cases, inl, inr, ◌⊎◌, List, [], ◌∷◌, truthy,
  or_else, any, All,
}
use tidybridge.I18n.{Lang}
use tidybridge.Types.{FieldResolution}
use tidybridge.Mapping.Changes.{field_name_error, is_field_name}
use tidybridge.Mapping.Review.{Review, has_invalid_field_name, is_some}
use tidybridge.Mapping.View.{save_button}

-- The column is left out, or its field has a name that is allowed.
abbrev pub IsNamed : FieldResolution → Type 0
IsNamed e = (truthy e.target_field ≡ false) ⊎ (is_field_name (or_else e.target_field []) ≡ true)

neither : (a b : Bool) → ((a || b) ≡ false) ↔ ((a ≡ false) × (b ≡ false))
neither true b = ((λ h. cc), (λ h. cc))
neither false b = ((λ h. (refl, h)), (λ h. h.1))

no_note :
    (lang : Lang) (e : FieldResolution)
    → (is_some (field_name_error lang e.target_field) ≡ false) ↔ IsNamed e
unfolding field_name_error
no_note lang e = elim (Bool-cases (truthy e.target_field)) [
  | inl named ↦ elim (Bool-cases (is_field_name (or_else e.target_field []))) [
    | inl allowed ↦ rw (named, allowed) ((λ h. inr refl), (λ h. refl))
    | inr refused ↦ rw (named, refused) ((λ h. cc), (λ h. elim h [ inl e ↦ cc | inr e ↦ cc ]))
  ]
  | inr left_out ↦ rw left_out ((λ h. inl refl), (λ h. refl))
]

none_invalid :
    (lang : Lang) (es : List FieldResolution)
    → (any (λ (e : FieldResolution). is_some (field_name_error lang e.target_field)) es ≡ false)
      ↔ All IsNamed es
none_invalid lang [] = ((λ h. tt), (λ h. refl))
none_invalid lang (e ∷ es) =
    let note = is_some (field_name_error lang e.target_field) in
    let others = any (λ (e : FieldResolution). is_some (field_name_error lang e.target_field)) es in
    (
      (λ h.
          let (first, rest) = (neither note others).0 h in
          ((no_note lang e).0 first, (none_invalid lang es).0 rest)),
      (λ (first, rest).
          (neither note others).1 ((no_note lang e).1 first, (none_invalid lang es).1 rest)),
    )

-- The button that saves is enabled exactly if no save is on its way and each column is left out or
-- has a field name that is allowed.
pub save_button_enabled_iff :
    (lang : Lang) (s : Review)
    → ((save_button lang s).1 ≡ false) ↔ ((s.saving ≡ false) × All IsNamed s.resolutions)
unfolding save_button has_invalid_field_name
save_button_enabled_iff lang s =
    let invalid =
      any (λ (e : FieldResolution). is_some (field_name_error lang e.target_field)) s.resolutions in
    (
      (λ h.
          let (idle, valid) = (neither s.saving invalid).0 h in
          (idle, (none_invalid lang s.resolutions).0 valid)),
      (λ (idle, named).
          (neither s.saving invalid).1 (idle, (none_invalid lang s.resolutions).1 named)),
    )
