-- ===== src/TimerManager/Start.antt =====
-- framework/timer_manager.cpp, init: the wheel that it makes.
use native.Mathlib.Nat.{pow-le-pow_right}
use frame_work.Prelude.{
  ℕ, ◌+◌, ◌*◌, ◌^◌, ◌≤◌, ◌<◌, ◌≡◌, refl, true, false, ◌||◌, [], some, pos, ok, ltb, arith,
}
use frame_work.TimerManager.{Manager, allocate, init, to_int16}
use frame_work.TimerManager.Inv.{IsWheel}

-- What the constructor and init leave is an empty wheel.
span_bounds : (bits : ℕ) → 3 ≤ bits → bits ≤ 14 → (8 ≤ 2 ^ bits) × (2 ^ bits ≤ 2 ^ 14)
span_bounds bits h k = (pow-le-pow_right (omega arith) h, pow-le-pow_right (omega arith) k)

square_bound : (s : ℕ) → s ≤ 2 ^ 14 → s * s < 2 ^ 31
square_bound s h = grind arith

-- init(start, slot_bits) with slot_bits from 3 to 14, of a manager that has no arrays, answers 0
-- and leaves a wheel with no timer in any slot, whose clock stands at start and whose
-- m_next_expired is one span later; the record of calls stays.
pub init-IsWheel :
    (m : Manager) (start bits : ℕ)
    → m.live ≡ false
    → 3 ≤ bits
    → bits ≤ 14
    → (m' : Manager) × (init m start (pos bits) ≡ some (ok, m'))
      × IsWheel m'
      × (m'.curr ≡ start)
      × (m'.next ≡ start + 2 ^ bits)
      × ((j : ℕ) → (m'.low j ≡ []) × (m'.high j ≡ []))
      × (m'.fired ≡ m.fired)
unfolding init allocate
init-IsWheel m start bits e h k =
    let b = span_bounds bits h k in
    let size : to_int16 (2 ^ bits) ≡ pos (2 ^ bits) = ground arith in
    let test : (ltb bits 3 || ltb 20 bits) ≡ false = ground arith in
    (
      record m {
        live = true;
        span = 2 ^ bits;
        slot_size = 2 ^ bits;
        max_expired = 2 ^ bits * 2 ^ bits;
        curr = start;
        next = start + 2 ^ bits;
        low_pos = 0;
        high_pos = 0;
        low = λ i. [];
        high = λ i. [];
      },
      rw (test, e, size, allocate) refl,
      record {
        alive = refl;
        wide = omega (arith, b.0);
        size = refl;
        reach = refl;
        small = square_bound (2 ^ bits) b.1;
        hand = omega (arith, b.0);
        high_hand = omega (arith, b.0);
        lows = λ j. tt;
        highs = λ j. tt;
        next_lem = record { first = λ h j. tt; cycle = λ h. omega arith };
      },
      refl,
      refl,
      λ j. (refl, refl),
      refl,
    )
