-- ===== src/TimerManager/Skip.antt =====
-- framework/timer_manager.cpp, run_until: the jump before the loop.
use native.Mathlib.Nat.{mod-eq_of_lt, div-eq_of_lt}
use frame_work.Prelude.{
  ℕ, zero, suc, ◌+◌, ◌-◌, ◌*◌, ◌/◌, ◌%◌, ◌^◌, ◌≤◌, ◌<◌, ◌≡◌, refl, ap, ◌∙◌, List, [], ◌∷◌, ℤ, pos,
  negsuc, ltb, if◌then◌else◌, All, All-map, arith,
}
use frame_work.TimerManager.{Timer, Manager, to_int32, skip_by, skip}
use frame_work.TimerManager.Inv.{IsWheel, InLow, InHigh}

div_back : (x s : ℕ) → 0 < s → 1 ≤ x / s → s ≤ x
div_back x s h k = grind arith

-- A jump to a time before m_next_expired passes no timer and stays within the cycle.
module _ {m : Manager} (w : IsWheel m) (n : ℕ) (h : m.curr + suc n < m.next) where
  jump-stays : m.low_pos + suc n < m.span
  jump-stays = omega (arith, w.next_lem.cycle (omega arith))

  jump-IsWheel : IsWheel (skip_by m (pos (suc n)))
  jump-IsWheel = record {
    alive = w.alive;
    wide = w.wide;
    size = w.size;
    reach = w.reach;
    small = w.small;
    hand = omega (arith, mod-eq_of_lt jump-stays, jump-stays);
    high_hand = omega (arith, same_cycle, w.high_hand);
    lows = λ j. lows' j (w.lows j) (w.next_lem.first (omega arith) j);
    highs = λ j. All-map _ _ (m.high j) (highs' j) (w.highs j);
    next_lem = record {
      first = λ k. w.next_lem.first (omega arith);
      cycle = λ k. omega (arith, mod-eq_of_lt jump-stays, w.next_lem.cycle (omega arith));
    };
  }
    where
      hand' : (m.low_pos + suc n) % m.span ≡ m.low_pos + suc n
      hand' = mod-eq_of_lt jump-stays

      same_cycle : (m.high_pos + (m.low_pos + suc n) / m.span) % m.span ≡ m.high_pos
      same_cycle =
          let d : m.high_pos + (m.low_pos + suc n) / m.span ≡ m.high_pos =
            omega (arith, div-eq_of_lt jump-stays) in
          ap (λ x. x % m.span) d ∙ mod-eq_of_lt w.high_hand

      lows' :
          (j : ℕ)
          → All (InLow m.span m.curr m.low_pos j) (m.low j)
          → All (λ t. m.next ≤ t.expired) (m.low j)
          → All (InLow m.span (m.curr + suc n) ((m.low_pos + suc n) % m.span) j) (m.low j)
      lows' j = go (m.low j)
        where
          go :
              (ts : List Timer)
              → All (InLow m.span m.curr m.low_pos j) ts
              → All (λ t. m.next ≤ t.expired) ts
              → All (InLow m.span (m.curr + suc n) ((m.low_pos + suc n) % m.span) j) ts
          go [] a b = tt
          go (t ∷ ts) (a, as') (b, bs) = (
            record {
              due = omega (arith, b, h);
              near = omega (arith, a.near);
              place =
                  let d : t.expired - (m.curr + suc n) + (m.low_pos + suc n) % m.span
                      ≡ t.expired - m.curr + m.low_pos =
                    omega (arith, hand', b, h) in
                  rw d a.place;
            },
            go ts as' bs,
          )

      highs' :
          (j : ℕ) (t : Timer)
          → InHigh m.span m.curr m.low_pos m.high_pos j t
          → InHigh m.span
              (m.curr + suc n)
              ((m.low_pos + suc n) % m.span)
              ((m.high_pos + (m.low_pos + suc n) / m.span) % m.span)
              j
              t
      highs' j t a =
          let far =
            div_back (t.expired - m.curr + m.low_pos) m.span (omega (arith, w.hand)) a.cycle in
          let d : t.expired - (m.curr + suc n) + (m.low_pos + suc n) % m.span
              ≡ t.expired - m.curr + m.low_pos =
            omega (arith, hand', far, jump-stays) in
          record {
            due = omega (arith, far, jump-stays, a.due);
            cycle = rw d a.cycle;
            far = rw d a.far;
            place = rw (d, same_cycle) a.place;
          }

le_square : (s : ℕ) → 2 ≤ s → s ≤ s * s
le_square s h = grind arith

jump_size :
    (x c n : ℕ)
    → c < x + 2 ^ 31
    → x ≤ c + 2 ^ 31
    → to_int32 (x + 2 ^ 64 - c - 1) ≡ pos (suc n)
    → c + suc n + 1 ≡ x
jump_size x c n h k e = ground arith

-- What skip leaves: the clock has not passed m_next_expired, nor a later `now`.
pub skip-IsWheel :
    {m : Manager} (now : ℕ)
    → IsWheel m
    → m.curr ≤ m.next
    → m.curr < now + 2 ^ 31
    → let m' = skip m now in
      IsWheel m'
      × (m'.fired ≡ m.fired)
      × (m.curr ≤ m'.curr)
      × (m.curr ≤ now → m'.curr ≤ now)
      × (now ≤ m.curr → m'.curr ≡ m.curr)
unfolding skip
skip-IsWheel {m} now w k r = cases (to_int32 (target + 2 ^ 64 - m.curr - 1)) refl
  where
    target : ℕ
    target = if ltb m.next now then m.next else now

    cases :
        (z : ℤ)
        → to_int32 (target + 2 ^ 64 - m.curr - 1) ≡ z
        → let m' = skip_by m z in
          IsWheel m'
          × (m'.fired ≡ m.fired)
          × (m.curr ≤ m'.curr)
          × (m.curr ≤ now → m'.curr ≤ now)
          × (now ≤ m.curr → m'.curr ≡ m.curr)
    cases (negsuc n) e = (w, refl, omega arith, (λ h. h), (λ h. refl))
    cases (pos zero) e = (w, refl, omega arith, (λ h. h), (λ h. refl))
    cases (pos (suc n)) e =
        let small : m.next ≤ m.curr + m.span = omega (arith, w.next_lem.cycle k) in
        let size : m.span < 2 ^ 31 = omega (arith, le_square m.span w.wide, w.small) in
        let t : (target ≤ m.next) × (target ≤ now) × (m.curr < target + 2 ^ 31) = ground arith in
        let s : (m.curr + suc n + 1 ≡ target) =
          jump_size target m.curr n t.2 (omega (arith, t.0)) e in
        (
          jump-IsWheel w n (omega (arith, s, t.0)),
          refl,
          omega arith,
          (λ h. omega (arith, s, t.1)),
          (λ h. absurd (omega (arith, s, t.1))),
        )
