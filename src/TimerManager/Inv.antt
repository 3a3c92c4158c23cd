-- ===== src/TimerManager/Inv.antt =====
-- framework/timer_manager.cpp: where a timer stands in the wheel; add_timer and del_timer.
use frame_work.Prelude.{
  ℕ, ◌+◌, ◌-◌, ◌*◌, ◌/◌, ◌%◌, ◌^◌, ◌≤◌, ◌<◌, ◌≡◌, ◌⊎◌, inl, inr, refl, sym, ap, subst, true, false,
  not, ◌||◌, List, [], ◌∷◌, ◌++◌, ℤ, pos, negsuc, ok, minus_one, minus_two, ltb, leb, ◌==◌,
  if◌then◌else◌, All, All-append, All-map, arith, Bool-cases,
}
use frame_work.TimerManager.{
  Timer, Manager, to_int32, insert, high_slot, low_slot, placed, add_interval, add_timer, without,
  unlink, del_timer,
}

-- A timer in low slot `j` falls due within one span of now, when the hand stands at `j`.
pub record InLow (span curr low_pos j : ℕ) (t : Timer) : Type 0 where
  pub due : curr ≤ t.expired
  pub near : t.expired < curr + span
  pub place : (t.expired - curr + low_pos) % span ≡ j

-- A timer in high slot `j` falls due in a later cycle, whose number, counted from this one, picks
-- the slot.
pub record InHigh (span curr low_pos high_pos j : ℕ) (t : Timer) : Type 0 where
  pub due : curr ≤ t.expired
  pub cycle : 1 ≤ (t.expired - curr + low_pos) / span
  pub far : (t.expired - curr + low_pos) / span ≤ span
  pub place : ((t.expired - curr + low_pos) / span + (span - 1) + high_pos) % span ≡ j

-- m_next_expired, unless it lies behind, is no later than any timer of the low slots, and no later
-- than the end of the cycle.
pub record IsNext (m : Manager) : Type 0 where
  pub first : m.curr ≤ m.next → (j : ℕ) → All (λ t. m.next ≤ t.expired) (m.low j)
  pub cycle : m.curr ≤ m.next → m.next + m.low_pos ≤ m.curr + m.span

pub record IsWheel (m : Manager) : Type 0 where
  pub alive : m.live ≡ true
  pub wide : 2 ≤ m.span
  pub size : m.slot_size ≡ m.span
  pub reach : m.max_expired ≡ m.span * m.span
  pub small : m.span * m.span < 2 ^ 31
  pub hand : m.low_pos < m.span
  pub high_hand : m.high_pos < m.span
  pub lows : (j : ℕ) → All (InLow m.span m.curr m.low_pos j) (m.low j)
  pub highs : (j : ℕ) → All (InHigh m.span m.curr m.low_pos m.high_pos j) (m.high j)
  pub next_lem : IsNext m

pub All-without {κ} :
    (P : Timer → Type κ) (id : ℕ) (ts : List Timer) → All P ts → All P (without id ts)
All-without P id [] h = tt
All-without P id (t ∷ ts) h = elim (Bool-cases (t.id == id)) [
  | inl e ↦ rw e (All-without P id ts h.1)
  | inr e ↦ rw e (h.0, All-without P id ts h.1)
]

pub All-insert {κ} :
    (P : ℕ → Timer → Type κ) (slots : ℕ → List Timer) (i j : ℕ) (t : Timer)
    → P i t
    → ((k : ℕ) → All (P k) (slots k))
    → All (P j) (insert slots i t j)
All-insert P slots i j t p h = elim (Bool-cases (j == i)) [
  | inl e ↦
      let q : j ≡ i = ground arith in
      rw e (
        subst (λ k. All (P k) (slots i ++ (t ∷ []))) (sym q)
          (All-append (P i) (slots i) (t ∷ []) (h i) (p, tt)))
  | inr e ↦ rw e (h j)
]

-- Facts on `/` and `%` by the span.
pub div_step : (x s : ℕ) → 0 < s → (x + s) / s ≡ x / s + 1
div_step x s h = grind arith

pub div_pos : (x s : ℕ) → 0 < s → s ≤ x → 1 ≤ x / s
div_pos x s h k = grind arith

pub div_small : (x s k : ℕ) → 0 < s → x < s * k + s → x / s ≤ k
div_small x s k h l = grind arith

module _ {m : Manager} (w : IsWheel m) (id : ℕ) where
  pub unlink-IsWheel : IsWheel (unlink m id)
  unlink-IsWheel = record {
    alive = w.alive;
    wide = w.wide;
    size = w.size;
    reach = w.reach;
    small = w.small;
    hand = w.hand;
    high_hand = w.high_hand;
    lows = λ j. All-without _ id (m.low j) (w.lows j);
    highs = λ j. All-without _ id (m.high j) (w.highs j);
    next_lem = record {
      first = λ e j. All-without _ id (m.low j) (w.next_lem.first e j);
      cycle = w.next_lem.cycle;
    };
  }

  pub del_timer-IsWheel : IsWheel (del_timer m id)
  unfolding del_timer
  del_timer-IsWheel = elim (Bool-cases (m.linked id)) [
    | inl e ↦ rw e unlink-IsWheel
    | inr e ↦ rw e w
  ]

-- The interval that add_timer computes, for a timer less than 2 ^ 31 ahead.
to_int32-ahead : (e c : ℕ) → c ≤ e → e < c + 2 ^ 31 → to_int32 (e + 2 ^ 64 - c) ≡ pos (e - c)
to_int32-ahead e c h k = ground arith

-- One slot has the timer behind those it had, the low one of its time within one span, and else
-- the high one of its cycle; all other slots stay.
abbrev pub Stands : Manager → Timer → Manager → Type 0
Stands m t m' =
    let ahead = t.expired - m.curr in
    ((t.expired < m.curr + m.span)
      × (m'.low ≡ insert m.low ((ahead + m.low_pos) % m.span) t)
      × (m'.high ≡ m.high))
    ⊎ ((m.curr + m.span ≤ t.expired)
        × (m'.low ≡ m.low)
        × (m'.high
            ≡ insert m.high (((ahead + m.low_pos) / m.span + (m.span - 1) + m.high_pos) % m.span)
                t))

module _ {m : Manager} (w : IsWheel m) (t : Timer) (i : ℕ) (e : t.expired ≡ m.curr + i) (lo : 1 ≤ i)
    (hi : i ≤ m.span * m.span) where
  low-place : i < m.span → InLow m.span m.curr m.low_pos (low_slot m i) t
  low-place h = record {
    due = omega (arith, e);
    near = omega (arith, e);
    place = ap (λ k. (k + m.low_pos) % m.span) (omega (arith, e));
  }

  high-place : m.span ≤ i → InHigh m.span m.curr m.low_pos m.high_pos (high_slot m i) t
  high-place h =
      let d : t.expired - m.curr ≡ i = omega (arith, e) in
      record {
        due = omega (arith, e);
        cycle = rw d (div_pos (i + m.low_pos) m.span (omega arith) (omega arith));
        far = rw d (div_small (i + m.low_pos) m.span m.span (omega arith) (omega (arith, w.hand)));
        place = ap (λ k. ((k + m.low_pos) / m.span + (m.span - 1) + m.high_pos) % m.span) d;
      }

  -- m_next_expired after the insertion.
  abbrev next' : ℕ
  next' = if ltb t.expired m.next then t.expired else m.next

  next'-le : (next' ≤ t.expired) × (next' ≤ m.next)
  next'-le = ground arith

  first' : m.curr ≤ next' → (j : ℕ) → All (λ u. next' ≤ u.expired) (m.low j)
  first' h j =
      All-map _ _ (m.low j) (λ u k. omega (arith, next'-le.1, k))
        (w.next_lem.first (omega (arith, next'-le.1, h)) j)

  cycle' : m.curr ≤ next' → next' + m.low_pos ≤ m.curr + m.span
  cycle' h = omega (arith, next'-le.1, w.next_lem.cycle (omega (arith, next'-le.1, h)))

  added : Manager
  added = record (placed m t i) { next = next' }

  added-IsWheel : IsWheel added
  unfolding added
  added-IsWheel = elim (Bool-cases (leb m.slot_size i)) [
    | inl far ↦ rw far (record {
      alive = w.alive;
      wide = w.wide;
      size = w.size;
      reach = w.reach;
      small = w.small;
      hand = w.hand;
      high_hand = w.high_hand;
      lows = w.lows;
      highs = λ j.
          All-insert (InHigh m.span m.curr m.low_pos m.high_pos) m.high (high_slot m i) j t
            (high-place (ground (arith, w.size))) w.highs;
      next_lem = record { first = first'; cycle = cycle' };
    })
    | inr near ↦ rw near (record {
      alive = w.alive;
      wide = w.wide;
      size = w.size;
      reach = w.reach;
      small = w.small;
      hand = w.hand;
      high_hand = w.high_hand;
      lows = λ j.
          All-insert (InLow m.span m.curr m.low_pos) m.low (low_slot m i) j t
            (low-place (ground (arith, w.size))) w.lows;
      highs = w.highs;
      next_lem = record {
        first = λ h j.
            All-insert (λ k u. next' ≤ u.expired) m.low (low_slot m i) j t next'-le.0 (first' h);
        cycle = cycle';
      };
    })
  ]

module _ {m : Manager} (w : IsWheel m) (t : Timer) (i : ℕ) (e : t.expired ≡ m.curr + i) (lo : 1 ≤ i)
    (hi : i ≤ m.span * m.span) where
  added-Stands : ((added w t i e lo hi).curr ≡ m.curr) × Stands m t (added w t i e lo hi)
  unfolding added
  added-Stands =
      let d : t.expired - m.curr ≡ i = omega (arith, e) in
      elim (Bool-cases (leb m.slot_size i)) [
        | inl far ↦ rw (far, d) (refl, inr (ground (arith, w.size), refl, refl))
        | inr near ↦ rw (near, d) (refl, inl (ground (arith, w.size), refl, refl))
      ]

-- The timer lies less than 2 ^ 31 before or behind the clock, so that no bits of the interval are
-- lost.
pub record InReach (m : Manager) (t : Timer) : Type 0 where
  pub behind : m.curr ≤ t.expired + 2 ^ 31
  pub ahead : t.expired < m.curr + 2 ^ 31

to_int32-behind :
    (e c : ℕ) → c ≤ e + 2 ^ 31 → e < c → to_int32 (e + 2 ^ 64 - c) ≡ negsuc (c - e - 1)
to_int32-behind e c h k = ground arith

-- The three answers of add_timer.
abbrev pub Answers : Manager → Timer → ℤ × Manager → Type 0
Answers m t r =
    ((m.linked t.id ≡ true) × (r ≡ (minus_one, m)))
    ⊎ ((m.linked t.id ≡ false)
        × ((t.expired ≤ m.curr) ⊎ (m.curr + m.span * m.span < t.expired))
        × (r ≡ (minus_two, m)))
    ⊎ ((m.linked t.id ≡ false)
        × (m.curr < t.expired)
        × (t.expired ≤ m.curr + m.span * m.span)
        × (r.0 ≡ ok)
        × IsWheel r.1
        × (r.1.linked t.id ≡ true)
        × (r.1.next ≤ t.expired)
        × (r.1.curr ≡ m.curr)
        × Stands m t r.1)

module _ {m : Manager} (t : Timer) (w : IsWheel m) (free : m.linked t.id ≡ false) where
  not_ahead : t.expired < m.curr → (n : ℕ) → Answers m t (add_interval m t (negsuc n))
  not_ahead h n = inr (inl (free, inl (omega arith), refl))

  ahead_of : m.curr ≤ t.expired → Answers m t (add_interval m t (pos (t.expired - m.curr)))
  ahead_of h =
      elim (Bool-cases (ltb (t.expired - m.curr) 1 || ltb m.max_expired (t.expired - m.curr))) [
        | inl out ↦ rw out (inr (inl (free, ground (arith, w.reach), refl)))
        | inr fits ↦
            let e : t.expired ≡ m.curr + (t.expired - m.curr) = omega arith in
            let lo : 1 ≤ t.expired - m.curr = ground arith in
            let hi : t.expired - m.curr ≤ m.span * m.span = ground (arith, w.reach) in
            let v : IsWheel (added w t (t.expired - m.curr) e lo hi) =
              added-IsWheel w t (t.expired - m.curr) e lo hi in
            unfold added in
            rw fits (
              inr (
                inr (
                  free,
                  omega (arith, lo),
                  omega (arith, hi, e),
                  refl,
                  v,
                  ground arith,
                  (next'-le w t (t.expired - m.curr) e lo hi).0,
                  (added-Stands w t (t.expired - m.curr) e lo hi).0,
                  (added-Stands w t (t.expired - m.curr) e lo hi).1,
                )))
      ]

-- add_timer on a wheel, for a timer whose m_expired is less than 2 ^ 31 away from the clock: it
-- answers -1 and changes nothing for a timer that is linked; -2 and changes nothing for one that
-- is due at or before the clock or later than the square of the span; and otherwise 0, the timer
-- is linked, it stands behind the timers of the low slot of its time, if that is within one span
-- of the clock, or else of the high slot of its cycle, all other slots are as before,
-- m_next_expired is not later, the clock stays, and the wheel is kept.
pub add_timer-Answers :
    {m : Manager} (t : Timer) → IsWheel m → InReach m t → Answers m t (add_timer m t)
unfolding add_timer
add_timer-Answers {m} t w r = elim (Bool-cases (m.linked t.id)) [
  | inl on ↦
      let stop : not m.live || m.linked t.id ≡ true = ground arith in rw stop (inl (on, refl))
  | inr free ↦
      let go : not m.live || m.linked t.id ≡ false = ground (arith, w.alive) in
      rw go (elim (Bool-cases (leb m.curr t.expired)) [
        | inl h ↦
            rw (to_int32-ahead t.expired m.curr (ground arith) r.ahead)
              (ahead_of t w free (ground arith))
        | inr h ↦
            rw (to_int32-behind t.expired m.curr r.behind (ground arith))
              (not_ahead t w free (ground arith) (m.curr - t.expired - 1))
      ])
]
