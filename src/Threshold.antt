-- ===== src/Threshold.antt =====
-- public/threshold.h: a counter of events within one cycle of time. `time` is the answer of time(0),
-- which is not negative; cycles and counters keep the 32 bits of an int.
use frame_work.Prelude.{
  ℕ, suc, ◌&&◌, ◌+◌, ◌/◌, ◌%◌, ◌^◌, Bool, List, [], ◌∷◌, ℤ, pos, negsuc, ltb, ◌==◌, if◌then◌else◌,
}

pub record Threshold : Type 0 where
  pub cur_cycle : ℕ
  pub cur_counter : ℕ
  pub limit : ℕ
  pub cycle_second : ℕ

abbrev pub at_least_one : ℤ → ℕ
at_least_one (negsuc n) = 1
at_least_one (pos n) = if ltb n 1 then 1 else n

unfoldable pub init : ℤ → ℤ → Threshold
init cycle_second limit = record {
  cur_cycle = 0;
  cur_counter = 0;
  limit = at_least_one limit;
  cycle_second = at_least_one cycle_second;
}

abbrev pub cycle_of : Threshold → ℕ → ℕ
cycle_of t time = (time / t.cycle_second) % 2 ^ 32

unfoldable pub inc : Threshold → ℕ → Threshold
inc t time =
    if cycle_of t time == t.cur_cycle
    then record t { cur_counter = (t.cur_counter + 1) % 2 ^ 32 }
    else record t { cur_cycle = cycle_of t time; cur_counter = 1 }

-- Bits from 2 ^ 31 on are those of a negative counter.
abbrev pub is_limit : Threshold → Bool
is_limit t = ltb t.cur_counter (2 ^ 31) && ltb t.limit t.cur_counter

-- The counter after calls of inc at these times, the last one first.
unfoldable pub after : Threshold → List ℕ → Threshold
after t [] = t
after t (time ∷ times) = inc (after t times) time

-- How many of the times, from the last one back, lie in one cycle.
unfoldable pub run_length : Threshold → ℕ → List ℕ → ℕ
run_length t cycle [] = 0
run_length t cycle (time ∷ times) =
    let rest = run_length t cycle times in if cycle_of t time == cycle then suc rest else 0
