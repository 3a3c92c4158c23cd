-- ===== src/Tests/Queues.antt =====
-- Runs of the circular queue.
use frame_work.Prelude.{ℕ, ◌≡◌, refl, true, List, [], ◌∷◌, arith}
use frame_work.CircularQueue.{CircularQueue}
use frame_work.CircularQueue.Inv.{IsValid}
use frame_work.CircularQueue.Refine.{Call, puts, takes, Holds, queue_run, run, run-refines}

-- Two elements, of which the second stands at the front of the array.
abbrev wrapped : CircularQueue ℕ
wrapped = record { live = true; maxsize = 4; items = 6 ∷ 0 ∷ 0 ∷ 5 ∷ []; front = 1; back = 3 }

wrapped-IsValid : IsValid wrapped
wrapped-IsValid = record {
  alive = refl;
  size = omega arith;
  array = refl;
  front_in = omega arith;
  back_in = omega arith;
}

wrapped-Holds : Holds wrapped (5 ∷ 6 ∷ [])
wrapped-Holds = ((λ e. absurd (omega arith)), refl, ((λ e. absurd (omega arith)), refl, (refl, tt)))

abbrev calls : List (Call ℕ)
calls = puts 7 ∷ puts 8 ∷ takes ∷ puts 9 ∷ takes ∷ takes ∷ takes ∷ takes ∷ []

run-refines_example : run wrapped calls ≡ queue_run 3 (5 ∷ 6 ∷ []) calls
run-refines_example = run-refines calls {q = wrapped} (5 ∷ 6 ∷ []) wrapped-IsValid wrapped-Holds
