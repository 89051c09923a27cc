-- ===== src/Site/Samples/Laws.antt =====
-- format.ts and Samples.tsx: the tabs and the values.
use tidybridge.Base.{ℕ, ◌<◌, arith}
use tidybridge.Site.Samples.{TabKey, arrow_right, arrow_left, other_key, next_tab}

-- An arrow leads from a tab to a tab.
pub next_tab-lt :
    (tabs : ℕ) (key : TabKey) (active : ℕ) → active < tabs → next_tab tabs key active < tabs
unfolding next_tab
next_tab-lt tabs arrow_right active h = omega arith
next_tab-lt tabs arrow_left active h = omega arith
next_tab-lt tabs other_key active h = h
