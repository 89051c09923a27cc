-- ===== src/Site/Copy.antt =====
-- marketing/src/i18n.ts: the copy as the tree of objects, arrays and texts that it is.
pub mod Shape
use tidybridge.Base.{
  ℕ, zero, suc, String, Str, js, str_eq, Bool, true, false, ◌&&◌, Option, none, some, List, [], ◌∷◌,
  if◌then◌else◌,
}

mutual
  pub data Copy : Type 0 where
    text : String → Copy
    list : Items → Copy
    group : Fields → Copy

  pub data Items : Type 0 where
    nil : Items
    cons : Copy → Items → Items

  pub data Fields : Type 0 where
    end : Fields
    field : String → Copy → Fields → Fields

-- An object and an array as they are written.
abbrev fields : List (String × Copy) → Fields
fields [] = end
fields ((k, c) ∷ cs) = field k c (fields cs)

abbrev items : List Copy → Items
items [] = nil
items (c ∷ cs) = cons c (items cs)

abbrev pub object : List (String × Copy) → Copy
object cs = group (fields cs)

abbrev pub array : List Copy → Copy
array cs = list (items cs)

-- copy.key, copy[index]
pub data Access : Type 0 where
  key : Str → Access
  index : ℕ → Access

unfoldable pub field_of : Str → Fields → Option Copy
field_of name end = none
field_of name (field k c fs) =
    let rest = field_of name fs in if str_eq name (js k) then some c else rest

unfoldable pub item_of : ℕ → Items → Option Copy
item_of n nil = none
item_of zero (cons c cs) = some c
item_of (suc n) (cons c cs) = item_of n cs

unfoldable pub child : Access → Copy → Option Copy
child (key name) (group fs) = field_of name fs
child (index n) (list cs) = item_of n cs
child _ _ = none

-- The text that a component reads, if there is one.
unfoldable pub text_at : List Access → Option Copy → Option String
text_at [] (some (text s)) = some s
text_at (a ∷ path) (some c) = text_at path (child a c)
text_at path c = none
