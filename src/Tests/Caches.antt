-- ===== src/Tests/Caches.antt =====
-- Runs of the map with its order.
use frame_work.Prelude.{ℕ, ◌≡◌, true, false, List, [], ◌∷◌}
use frame_work.LruMap.{LruMap, fresh, add}
use frame_work.LruMap.Order.{IsLru, fresh-IsLru, add-IsLru}
use frame_work.LruMap.Uses.{Use, gets, adds, removes, oldest, run, ordered_run, run-IsLru}

-- Key 7 was added before key 8.
abbrev two : LruMap ℕ
two = (add (add fresh 7 40).1 8 50).1

two-IsLru : IsLru two (8 ∷ 7 ∷ [])
two-IsLru = (add-IsLru 8 50 (add-IsLru 7 40 fresh-IsLru).2).2

abbrev uses : List (Use ℕ)
uses = oldest ∷ gets 7 true ∷ oldest ∷ adds 9 60 ∷ removes 8 ∷ gets 8 false ∷ oldest ∷ []

run-IsLru_example : run two uses ≡ ordered_run two.values (8 ∷ 7 ∷ []) uses
run-IsLru_example = run-IsLru uses {m = two} (8 ∷ 7 ∷ []) two-IsLru
