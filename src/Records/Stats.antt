-- ===== src/Records/Stats.antt =====
-- RecordsPage.tsx: the cards' counts.
use tidybridge.Base.{◌+◌, Bool, ◌≡◌, refl, ap, List, [], ◌∷◌, arith, keep, length, trim}
use tidybridge.Types.{ClientRecord}
use tidybridge.Records.{
  Status, only, Runtime, State, count_status, stats, matches_query, filtered_records,
}

-- Every record is in exactly one status, so the three cards add up to the first.
pub stats_total :
    (records : List ClientRecord)
    → (stats records).total
      ≡ (stats records).clean + (stats records).needs_review + (stats records).approved
unfolding stats
stats_total [] = omega arith
stats_total (r ∷ records) = ground (arith, stats_total records)

keep_same {ℓ} :
    {A : Type ℓ} (p q : A → Bool) (xs : List A) → ((x : A) → p x ≡ q x) → keep p xs ≡ keep q xs
keep_same p q [] h = refl
keep_same p q (x ∷ xs) h = rw (h x, keep_same p q xs h)

module _ (rt : Runtime) where
  -- With a status chosen and nothing searched, as many rows pass as the status's card counts.
  pub length-filtered_records :
      (s : State) (status : Status)
      → s.filter ≡ only status
      → rt.lower (trim s.search) ≡ []
      → length (filtered_records rt s) ≡ count_status status s.records
  unfolding filtered_records matches_query
  length-filtered_records s status chosen nothing =
      rw (chosen, nothing) (ap length (keep_same _ _ s.records (λ r. ground arith)))
