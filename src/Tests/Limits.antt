-- ===== src/Tests/Limits.antt =====
-- Runs of the threshold.
use frame_work.Prelude.{ℕ, List, [], ◌∷◌}

-- Three events in the cycle from 100 on, after one in the cycle before.
abbrev event_times : List ℕ
event_times = 130 ∷ 110 ∷ 100 ∷ 90 ∷ []
