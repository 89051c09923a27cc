-- ===== src/I18n.antt =====
-- frontend/src/lib/i18n.ts: the two dictionaries, the current language and `t`.
mod Spanish
mod English
pub mod Laws
pub mod Decimal
pub mod Choice
use tidybridge.Base.{
  ℕ, zero, suc, ◌+◌, ◌/◌, ◌%◌, String, Str, js, str_eq, Bool, true, false, ◌&&◌, not, Option, none,
  some, List, [], ◌∷◌, ◌++◌, if◌then◌else◌, ◌==◌, is_word, is_empty, or_else, lookup,
}
use Spanish.{es}
use English.{en}

pub data Lang : Type 0 where
  spanish english : Lang

pub dictionary : Lang → List (String × String)
unfolding es en
dictionary spanish = es
dictionary english = en

-- dict[key]
unfoldable pub entry : Str → List (String × String) → Option Str
unfolding js
entry key [] = none
entry key ((k, text) ∷ dict) = if str_eq (js k) key then some (js text) else entry key dict

-- A value of `vars`: a string or a number.
pub data Var : Type 0 where
  str : Str → Var
  num : ℕ → Var

abbrev pub Vars : Type 0
Vars = List (Str × Var)

-- String(n) for a whole number; ten digits to a round, so n + 1 rounds are enough.
decimal_from : ℕ → ℕ → Str → Str
decimal_from zero n out = out
decimal_from (suc fuel) n out =
    let more = decimal_from fuel (n / 10) ((48 + n % 10) ∷ out) in
    let last = (48 + n % 10) ∷ out in if n / 10 == 0 then last else more

unfoldable pub decimal : ℕ → Str
unfolding decimal_from
decimal n = decimal_from (suc n) n []

unfoldable pub show : Var → Str
unfolding decimal
show (str s) = s
show (num n) = decimal n

-- String(vars[name] ?? `{${name}}`)
unfoldable pub fill_in : Vars → Str → Str
unfolding show lookup
fill_in vars name = elim (lookup name vars) [ some v ↦ show v | none ↦ b'{' ∷ (name ++ b'}' ∷ []) ]

-- The state of the scan for /\{(\w+)\}/g: nothing open, or the name read since the last "{".
-- A step gives what is written and the state after one more character.
unfoldable pub scan : Vars → Option Str → ℕ → Str × Option Str
unfolding fill_in
scan vars none c = if c == b'{' then ([], some []) else (c ∷ [], none)
scan vars (some name) c =
    if is_word c
    then ([], some (name ++ c ∷ []))
    else if c == b'}' && not (is_empty name)
    then (fill_in vars name, none)
    else if c == b'{'
    then (b'{' ∷ name, some [])
    else (b'{' ∷ (name ++ c ∷ []), none)

abbrev pub unread : Option Str → Str
unread none = []
unread (some name) = b'{' ∷ name

-- text.replace(/\{(\w+)\}/g, …)
unfoldable pub replace : Vars → Option Str → Str → Str
unfolding scan
replace vars pending [] = unread pending
replace vars pending (c ∷ text) =
    let (out, pending') = scan vars pending c in out ++ replace vars pending' text

-- `"count" in vars ? ${key}_one / ${key}_other : null`
unfoldable pub plural : Str → Vars → Option Str
unfolding lookup js
plural key vars = elim (lookup (js "count") vars) [
  | none ↦ none
  | some (str s) ↦ some (key ++ js "_other")
  | some (num n) ↦ some (key ++ (if n == 1 then js "_one" else js "_other"))
]

-- (plural && dict[plural]) ?? dict[key] ?? key
unfoldable pub pick : List (String × String) → Str → Vars → Str
unfolding plural entry
pick dict key vars =
    let single = or_else (entry key dict) key in
    elim (plural key vars) [ none ↦ single | some key' ↦ or_else (entry key' dict) single ]

unfoldable pub t : Lang → Str → Vars → Str
unfolding dictionary pick replace
t lang key vars = replace vars none (pick (dictionary lang) key vars)

-- The label of a schema field, or null for a custom column.
unfoldable pub field_label : Lang → Str → Option Str
unfolding dictionary entry js
field_label lang name = entry (js "field_" ++ name) (dictionary lang)
