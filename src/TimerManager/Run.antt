-- ===== src/TimerManager/Run.antt =====
-- framework/timer_manager.cpp, run_until: one round of the outer loop, and the loop.
use native.Mathlib.Nat.{add-mod_right, mod-eq_of_lt, mod_self}
use frame_work.Prelude.{
  ℕ, zero, suc, ◌+◌, ◌-◌, ◌/◌, ◌%◌, ◌≤◌, ◌<◌, ◌≡◌, ◌≢◌, ◌⊎◌, inl, inr, refl, sym, ap, subst, ◌∙◌,
  true, false, List, [], ◌∷◌, ltb, ◌==◌, length, All, All-map, arith, Bool-cases,
}
use frame_work.TimerManager.{
  Timer, Manager, Callback, fire_all, spread, cascade, advance, tick, rounds,
}
use frame_work.TimerManager.Inv.{IsWheel, IsNext, InLow, InHigh, All-insert}
use frame_work.TimerManager.Fire.{IsCallback, IsExact, fire_all-Fires}

-- Arithmetic of one step of the hand `p` of a wheel of `s` slots.
hand_cases :
    (p s : ℕ) → p < s → ((p + 1 < s) × ((p + 1) % s ≡ p + 1)) ⊎ ((p + 1 ≡ s) × ((p + 1) % s ≡ 0))
hand_cases p s h = grind arith

low_step :
    (s c p j e : ℕ)
    → c ≤ e
    → p < s
    → (e - c + p) % s ≡ j
    → j ≢ p
    → (c + 1 ≤ e) × ((e - (c + 1) + (p + 1) % s) % s ≡ j)
low_step s c p j e h k q n = (later, place)
  where
    later : c + 1 ≤ e
    later = elim (Bool-cases (ltb c e)) [
      | inl y ↦ ground arith
      | inr z ↦
          let d : e - c + p ≡ p = ground arith in
          absurd (n (sym q ∙ ap (λ x. x % s) d ∙ mod-eq_of_lt k))
    ]

    place : (e - (c + 1) + (p + 1) % s) % s ≡ j
    place = elim (hand_cases p s k) [
      | inl (lt, m) ↦
          let d : e - (c + 1) + (p + 1) % s ≡ e - c + p = omega (arith, m, later) in
          ap (λ x. x % s) d ∙ q
      | inr (eq, m) ↦
          let d : e - (c + 1) + (p + 1) % s ≡ e - (c + 1) = omega (arith, m) in
          let d' : e - (c + 1) + s ≡ e - c + p = omega (arith, later, eq) in
          ap (λ x. x % s) d ∙ sym (add-mod_right (e - (c + 1)) s) ∙ ap (λ x. x % s) d' ∙ q
    ]

-- The cycle of a timer of the high slots, when the hand comes round and when it does not.
high_step :
    (s c p e : ℕ)
    → 0 < s
    → 1 ≤ (e - c + p) / s
    → p + 1 < s
    → (c + 1 ≤ e) × (e - (c + 1) + (p + 1) ≡ e - c + p)
high_step s c p e z h k = grind arith

high_wrap :
    (s c p e : ℕ)
    → 0 < s
    → 1 ≤ (e - c + p) / s
    → p + 1 ≡ s
    → (c + 1 ≤ e) × (((e - (c + 1)) / s) + 1 ≡ (e - c + p) / s)
high_wrap s c p e z h k = grind arith

-- The slot of a cycle `k` is the one under the high hand `q` exactly for the next cycle.
slot_next : (s k q : ℕ) → 1 ≤ k → k ≤ s → q < s → (k + (s - 1) + q) % s ≡ q → k ≡ 1
slot_next s k q h l m e = grind arith

slot_shift :
    (s k q : ℕ) → 0 < s → q < s → (k + (s - 1) + (q + 1) % s) % s ≡ (k + 1 + (s - 1) + q) % s
slot_shift s k q h l = elim (hand_cases q s l) [
  | inl (lt, m) ↦
      let d : k + (s - 1) + (q + 1) % s ≡ k + 1 + (s - 1) + q = omega (arith, m) in
      ap (λ x. x % s) d
  | inr (eq, m) ↦
      let d : k + (s - 1) + (q + 1) % s ≡ k + (s - 1) = omega (arith, m) in
      let d' : k + (s - 1) + s ≡ k + 1 + (s - 1) + q = omega (arith, eq) in
      ap (λ x. x % s) d ∙ sym (add-mod_right (k + (s - 1)) s) ∙ ap (λ x. x % s) d'
]

one_cycle : (x s : ℕ) → 0 < s → x / s ≡ 1 → x < s + s
one_cycle x s h e = grind arith

slot_first : (s q : ℕ) → q < s → (1 + (s - 1) + q) % s ≡ q
slot_first s q h =
    let d : 1 + (s - 1) + q ≡ q + s = omega arith in
    ap (λ x. x % s) d ∙ add-mod_right q s ∙ mod-eq_of_lt h

-- The timers of the slot under the high hand, when the hand of the low slots comes round.
spread-All :
    (P : ℕ → Timer → Type 0) (m : Manager) (ts : List Timer) (low : ℕ → List Timer)
    → All (λ u. P ((u.expired - m.curr + m.low_pos) % m.span) u) ts
    → ((j : ℕ) → All (P j) (low j))
    → (j : ℕ) → All (P j) (spread m low ts j)
unfolding spread
spread-All P m [] low h k j = k j
spread-All P m (t ∷ ts) low h k j =
    spread-All P m ts _ h.1
      (λ i. All-insert P low ((t.expired - m.curr + m.low_pos) % m.span) i t h.0 k) j

module _ {m : Manager} (w : IsWheel m) (z : m.low m.low_pos ≡ []) where
  advance-lows : (j : ℕ) → All (InLow m.span (m.curr + 1) ((m.low_pos + 1) % m.span) j) (m.low j)
  advance-lows j = elim (Bool-cases (j == m.low_pos)) [
    | inl e ↦
        let q : m.low j ≡ [] = ap m.low (ground arith) ∙ z in
        subst (All (InLow m.span (m.curr + 1) ((m.low_pos + 1) % m.span) j)) (sym q) tt
    | inr n ↦
        All-map _ _ (m.low j)
          (λ t a.
            let s =
              low_step m.span m.curr m.low_pos j t.expired a.due w.hand a.place (ground arith) in
            record { due = s.0; near = omega (arith, a.near); place = s.1 })
          (w.lows j)
  ]

  advance-IsNext : IsNext (advance m)
  advance-IsNext = record {
    first = λ h j. w.next_lem.first (omega arith) j;
    cycle = λ h. omega (arith, w.next_lem.cycle (omega arith), hand_cases m.low_pos m.span w.hand);
  }

  -- The hand moves on within a cycle.
  advance-IsWheel : m.low_pos + 1 < m.span → IsWheel (advance m)
  advance-IsWheel h = record {
    alive = w.alive;
    wide = w.wide;
    size = w.size;
    reach = w.reach;
    small = w.small;
    hand = omega (arith, hand_cases m.low_pos m.span w.hand, h);
    high_hand = w.high_hand;
    lows = advance-lows;
    highs = λ j. All-map _ _ (m.high j) (λ t a. moved t j a) (w.highs j);
    next_lem = advance-IsNext;
  }
    where
      p' : (m.low_pos + 1) % m.span ≡ m.low_pos + 1
      p' = mod-eq_of_lt h

      moved :
          (t : Timer) (j : ℕ)
          → InHigh m.span m.curr m.low_pos m.high_pos j t
          → InHigh m.span (m.curr + 1) ((m.low_pos + 1) % m.span) m.high_pos j t
      moved t j a =
          let s = high_step m.span m.curr m.low_pos t.expired (omega (arith, h)) a.cycle h in
          let d : t.expired - (m.curr + 1) + (m.low_pos + 1) % m.span
              ≡ t.expired - m.curr + m.low_pos =
            omega (arith, p', s.1) in
          record { due = s.0; cycle = rw d a.cycle; far = rw d a.far; place = rw d a.place }

  module _ (h : m.low_pos + 1 ≡ m.span) where
    hand_zero : (m.low_pos + 1) % m.span ≡ 0
    hand_zero = rw h (mod_self m.span)

    -- A timer under the high hand falls due in the cycle that begins.
    comes_down :
        (t : Timer)
        → InHigh m.span m.curr m.low_pos m.high_pos m.high_pos t
        → InLow m.span
            (m.curr + 1)
            ((m.low_pos + 1) % m.span)
            ((t.expired - (m.curr + 1) + (m.low_pos + 1) % m.span) % m.span)
            t
    comes_down t a =
        let one =
          slot_next m.span ((t.expired - m.curr + m.low_pos) / m.span) m.high_pos a.cycle a.far
            w.high_hand a.place in
        let s = high_wrap m.span m.curr m.low_pos t.expired (omega (arith, h)) a.cycle h in
        record {
          due = s.0;
          near =
              omega (
                arith,
                one_cycle (t.expired - m.curr + m.low_pos) m.span (omega (arith, h)) one,
                h,
              );
          place = refl;
        }

    -- Any other timer of the high slots is one cycle nearer.
    stays_up :
        (t : Timer) (j : ℕ)
        → j ≢ m.high_pos
        → InHigh m.span m.curr m.low_pos m.high_pos j t
        → InHigh m.span (m.curr + 1) ((m.low_pos + 1) % m.span) ((m.high_pos + 1) % m.span) j t
    stays_up t j n a =
        let s = high_wrap m.span m.curr m.low_pos t.expired (omega (arith, h)) a.cycle h in
        let d : t.expired - (m.curr + 1) + (m.low_pos + 1) % m.span ≡ t.expired - (m.curr + 1) =
          omega (arith, hand_zero) in
        let k = (t.expired - (m.curr + 1)) / m.span in
        let place : (k + (m.span - 1) + (m.high_pos + 1) % m.span) % m.span ≡ j =
          slot_shift m.span k m.high_pos (omega (arith, h)) w.high_hand
          ∙ ap (λ x. (x + (m.span - 1) + m.high_pos) % m.span) s.1
          ∙ a.place in
        let later : 1 ≤ k = elim (Bool-cases (k == 0)) [
          | inr y ↦ ground arith
          | inl y ↦
              let one : (t.expired - m.curr + m.low_pos) / m.span ≡ 1 = ground (arith, s.1) in
              absurd (
                n (
                  sym a.place
                  ∙ ap (λ x. (x + (m.span - 1) + m.high_pos) % m.span) one
                  ∙ slot_first m.span m.high_pos w.high_hand))
        ] in
        record {
          due = s.0;
          cycle = rw d later;
          far = rw d (omega (arith, s.1, a.far));
          place = rw d place;
        }

    cascade-IsWheel : IsWheel (cascade (advance m))
    unfolding cascade
    cascade-IsWheel = record {
      alive = w.alive;
      wide = w.wide;
      size = w.size;
      reach = w.reach;
      small = w.small;
      hand = omega (arith, hand_zero, h);
      high_hand = omega (arith, hand_cases m.high_pos m.span w.high_hand);
      lows = λ j.
          spread-All (InLow m.span (m.curr + 1) ((m.low_pos + 1) % m.span)) (advance m)
            (m.high m.high_pos) m.low
            (All-map _ _ (m.high m.high_pos) comes_down (w.highs m.high_pos)) advance-lows j;
      highs = λ j. elim (Bool-cases (j == m.high_pos)) [
        | inl e ↦ rw e tt
        | inr n ↦ rw n (All-map _ _ (m.high j) (λ t. stays_up t j (ground arith)) (w.highs j))
      ];
      next_lem = record {
        first = λ k j.
            spread-All (λ _ t. m.next ≤ t.expired) (advance m) (m.high m.high_pos) m.low
              (All-map _ _ (m.high m.high_pos)
                (λ t a. omega (arith, (comes_down t a).due, w.next_lem.cycle (omega arith), h))
                (w.highs m.high_pos))
              (advance-IsNext.first k) j;
        cycle = advance-IsNext.cycle;
      };
    }

-- One round of run_until on a wheel with an exact record of calls, with callbacks that ask only
-- for timers in reach, keeps the wheel and the exactness of the record, and moves the clock on by
-- one.
pub tick-IsWheel :
    (on_timeout : Callback) {m : Manager}
    → IsCallback on_timeout
    → IsWheel m
    → IsExact m
    → let m' = tick on_timeout m in IsWheel m' × IsExact m' × (m'.curr ≡ m.curr + 1)
unfolding tick
tick-IsWheel on_timeout {m} c w x =
    let f =
      fire_all-Fires on_timeout (length (m.low m.low_pos)) m.low_pos c w x refl (omega arith) in
    let m' = fire_all on_timeout (length (m.low m.low_pos)) m m.low_pos in
    let z : m'.low m'.low_pos ≡ [] = ap m'.low f.0.hand_lem ∙ f.1 in
    let v = f.0.wheel in
    elim (hand_cases m'.low_pos m'.span v.hand) [
      | inl (lt, p) ↦
          let test : ((m'.low_pos + 1) % m'.span == 0) ≡ false = ground arith in
          rw test (advance-IsWheel v z lt, f.0.exact, omega (arith, f.0.curr_lem))
      | inr (eq, p) ↦
          let test : ((m'.low_pos + 1) % m'.span == 0) ≡ true = ground arith in
          unfold cascade in rw test (cascade-IsWheel v z eq, f.0.exact, omega (arith, f.0.curr_lem))
    ]

pub rounds-IsWheel :
    (on_timeout : Callback) (n : ℕ) {m : Manager}
    → IsCallback on_timeout
    → IsWheel m
    → IsExact m
    → let m' = rounds on_timeout n m in IsWheel m' × IsExact m' × (m'.curr ≡ m.curr + n)
unfolding rounds
rounds-IsWheel on_timeout zero {m} c w x = (w, x, omega arith)
rounds-IsWheel on_timeout (suc n) {m} c w x =
    let t = tick-IsWheel on_timeout c w x in
    let r = rounds-IsWheel on_timeout n {m = tick on_timeout m} c t.0 t.1 in
    (r.0, r.1, omega (arith, r.2, t.2))
