-- ===== src/Client/Walk/Ends.antt =====
-- client.ts: the walk ends against every server whose totals stay bounded.
use tidybridge.Base.{
  ℕ, zero, suc, ◌+◌, ◌≤◌, ◌<◌, ◌≡◌, refl, ◌≢◌, none, Option, List, ◌++◌, arith, length,
}
use tidybridge.Types.{Page}
use tidybridge.Client.Errors.{Result, ok, fail}
use tidybridge.Client.Request.{Session}
use tidybridge.Client.Walk.{round, walk}

module _ {A S : Type 0} where
  -- A round ends the walk, or goes on at a later offset that is below the total.
  round_ends :
      (again : ℕ → List A → Session S → Option (Result (List A) × Session S)) (bound offset : ℕ)
      (all : List A) (p : Result (Page A) × Session S)
      → ((page : Page A) → p.0 ≡ ok page → page.total ≤ bound)
      → ((o : ℕ) (xs : List A) (w : Session S) → offset < o → o < bound → again o xs w ≢ none)
      → round again offset all p ≢ none
  unfolding round
  round_ends again bound offset all (fail e, w) h k = cc
  round_ends again bound offset all (ok page, w) h k =
      ground (arith, h page refl, k (offset + length page.items) (all ++ page.items) w)

module _ {A S : Type 0} (fetch : ℕ → Session S → Result (Page A) × Session S) (bound : ℕ)
    (bounded : (offset : ℕ) (w : Session S) (page : Page A)
      → (fetch offset w).0 ≡ ok page
      → page.total ≤ bound) where
  -- If every page states a total of at most `bound`, the walk returns on any fuel that is not zero
  -- and, with the offset it starts at, is more than `bound`, whatever the pages hold.
  pub walk_ends :
      (fuel offset : ℕ) (all : List A) (w : Session S)
      → bound + 1 ≤ fuel + offset
      → 0 < fuel
      → walk fetch fuel offset all w ≢ none
  unfolding walk
  walk_ends zero offset all w h p = absurd (omega arith)
  walk_ends (suc fuel) offset all w h p =
      round_ends (walk fetch fuel) bound offset all (fetch offset w) (bounded offset w)
        (λ o xs w' later below. walk_ends fuel o xs w' (omega arith) (omega arith))
