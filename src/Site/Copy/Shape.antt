-- ===== src/Site/Copy/Shape.antt =====
-- i18n.ts of the landing site: two copies of one shape have their texts in the same places.
use tidybridge.Base.{
  ℕ, zero, suc, Str, js, str_eq, str_eq_iff, Bool, true, false, ◌&&◌, ◌≡◌, refl, ◌↔◌, Option, none,
  some, List, [], ◌∷◌, Bool-cases, inl, inr,
}
use tidybridge.Site.Copy.{
  Copy, text, list, group, Items, nil, cons, Fields, end, field, Access, key, index, field_of,
  item_of, child, text_at,
}

-- The same keys in the same order, arrays of one length, and texts in the same places.
unfoldable mutual
  pub same_shape : Copy → Copy → Bool
  same_shape (text s) (text s') = true
  same_shape (list xs) (list ys) = same_items xs ys
  same_shape (group fs) (group gs) = same_fields fs gs
  same_shape c d = false

  pub same_items : Items → Items → Bool
  same_items nil nil = true
  same_items (cons c cs) (cons d ds) = same_shape c d && same_items cs ds
  same_items cs ds = false

  pub same_fields : Fields → Fields → Bool
  same_fields end end = true
  same_fields (field k c fs) (field l d gs) =
      str_eq (js k) (js l) && (same_shape c d && same_fields fs gs)
  same_fields fs gs = false

abbrev AreAlike : Option Copy → Option Copy → Type 0
AreAlike none none = Unit
AreAlike (some c) (some d) = same_shape c d ≡ true
AreAlike _ _ = ⊥

both : (a b : Bool) → (a && b) ≡ true → (a ≡ true) × (b ≡ true)
both true b h = (refl, h)
both false b h = cc

field_of-AreAlike :
    (name : Str) (fs gs : Fields)
    → same_fields fs gs ≡ true
    → AreAlike (field_of name fs) (field_of name gs)
unfolding field_of same_shape
field_of-AreAlike name end end h = tt
field_of-AreAlike name end (field l d gs) h = cc
field_of-AreAlike name (field k c fs) end h = cc
field_of-AreAlike name (field k c fs) (field l d gs) h =
    let (named, values) = both (str_eq (js k) (js l)) (same_shape c d && same_fields fs gs) h in
    let (value, others) = both (same_shape c d) (same_fields fs gs) values in
    let same : js k ≡ js l = (str_eq_iff (js k) (js l)).0 named in
    elim (Bool-cases (str_eq name (js l))) [
      | inl here ↦ rw (same, here) value
      | inr there ↦ rw (same, there) (field_of-AreAlike name fs gs others)
    ]

item_of-AreAlike :
    (n : ℕ) (cs ds : Items) → same_items cs ds ≡ true → AreAlike (item_of n cs) (item_of n ds)
unfolding item_of same_shape
item_of-AreAlike n nil nil h = tt
item_of-AreAlike n nil (cons d ds) h = cc
item_of-AreAlike n (cons c cs) nil h = cc
item_of-AreAlike zero (cons c cs) (cons d ds) h = (both (same_shape c d) (same_items cs ds) h).0
item_of-AreAlike (suc n) (cons c cs) (cons d ds) h =
    item_of-AreAlike n cs ds (both (same_shape c d) (same_items cs ds) h).1

child-AreAlike :
    (a : Access) (c d : Copy) → same_shape c d ≡ true → AreAlike (child a c) (child a d)
unfolding child same_shape
child-AreAlike (key name) (group fs) (group gs) h = field_of-AreAlike name fs gs h
child-AreAlike (index n) (list cs) (list ds) h = item_of-AreAlike n cs ds h
child-AreAlike (key name) (text s) (text s') h = tt
child-AreAlike (key name) (list cs) (list ds) h = tt
child-AreAlike (index n) (text s) (text s') h = tt
child-AreAlike (index n) (group fs) (group gs) h = tt
child-AreAlike a (text s) (list ds) h = cc
child-AreAlike a (text s) (group gs) h = cc
child-AreAlike a (list cs) (text s) h = cc
child-AreAlike a (list cs) (group gs) h = cc
child-AreAlike a (group fs) (text s) h = cc
child-AreAlike a (group fs) (list ds) h = cc

-- Where one of two alike copies has a text, so has the other.
pub text_at-alike :
    (path : List Access) (o p : Option Copy)
    → AreAlike o p
    → (text_at path o ≡ none) ↔ (text_at path p ≡ none)
unfolding text_at same_shape
text_at-alike [] none none h = (λ e. e, λ e. e)
text_at-alike (a ∷ path) none none h = (λ e. e, λ e. e)
text_at-alike path none (some d) h = absurd h
text_at-alike path (some c) none h = absurd h
text_at-alike (a ∷ path) (some c) (some d) h =
    text_at-alike path (child a c) (child a d) (child-AreAlike a c d h)
text_at-alike [] (some (text s)) (some (text s')) h = (λ e. cc, λ e. cc)
text_at-alike [] (some (list cs)) (some (list ds)) h = (λ e. refl, λ e. refl)
text_at-alike [] (some (group fs)) (some (group gs)) h = (λ e. refl, λ e. refl)
text_at-alike [] (some (text s)) (some (list ds)) h = cc
text_at-alike [] (some (text s)) (some (group gs)) h = cc
text_at-alike [] (some (list cs)) (some (text s)) h = cc
text_at-alike [] (some (list cs)) (some (group gs)) h = cc
text_at-alike [] (some (group fs)) (some (text s)) h = cc
text_at-alike [] (some (group fs)) (some (list ds)) h = cc
