-- ===== src/TimerManager/Until.antt =====
-- framework/timer_manager.cpp, run_until as a whole: the jump, the rounds, the new m_next_expired.
use native.Mathlib.Nat.{mod-eq_of_lt, add-mod_right}
use frame_work.Prelude.{
  List-cases, ℕ, zero, suc, ◌+◌, ◌-◌, ◌%◌, ◌^◌, ◌≤◌, ◌<◌, ◌≡◌, ◌⊎◌, inl, inr, refl, sym, ap, subst,
  ◌∙◌, ◌&&◌, List, [], ltb, leb, ◌==◌, if◌then◌else◌, All, All-map, arith, Bool-cases,
}
use frame_work.TimerManager.{
  Timer, Manager, Callback, rounds, skip, first_slot, update_next, run_until,
}
use frame_work.TimerManager.Inv.{IsWheel}
use frame_work.TimerManager.Fire.{IsCallback, IsExact}
use frame_work.TimerManager.Run.{rounds-IsWheel}
use frame_work.TimerManager.Skip.{skip-IsWheel}

-- The first slot from `i` on that is not empty, or the end.
first_slot_lem :
    (low : ℕ → List Timer) (i n : ℕ)
    → let r = first_slot low i n in (i ≤ r) × (r ≤ i + n) × ((j : ℕ) → i ≤ j → j < r → low j ≡ [])
unfolding first_slot
first_slot_lem low i zero = (omega arith, omega arith, λ j h k. absurd (omega arith))
first_slot_lem low i (suc n) = elim (List-cases (low i)) [
  | inr (t, ts, q) ↦ rw (q, first_slot) (omega arith, omega arith, λ j h k. absurd (omega arith))
  | inl q ↦
      let r = first_slot_lem low (i + 1) n in
      rw (q, first_slot)
        (
          omega (arith, r.0),
          omega (arith, r.1),
          λ j h k. elim (Bool-cases (j == i)) [
            | inl e ↦ ap low (ground arith) ∙ q
            | inr e ↦ r.2 j (ground arith) k
          ],
        )
]

slot_time :
    (s c p j e : ℕ)
    → c ≤ e
    → e < c + s
    → p < s
    → (e - c + p) % s ≡ j
    → ((p ≤ j) × (e - c + p ≡ j)) ⊎ (e - c + p ≡ j + s)
slot_time s c p j e h k l q = elim (Bool-cases (ltb (e - c + p) s)) [
  | inl y ↦
      let d : e - c + p ≡ j = sym (mod-eq_of_lt (ground arith)) ∙ q in inl (omega (arith, d), d)
  | inr n ↦
      let d : e - c + p ≡ e - c + p - s + s = ground arith in
      let d' : e - c + p - s ≡ j =
        sym (mod-eq_of_lt (omega arith))
        ∙ sym (add-mod_right (e - c + p - s) s)
        ∙ ap (λ x. x % s) (sym d)
        ∙ q in
      inr (omega (arith, d, d'))
]

-- The new m_next_expired is right, and no longer behind.
update_next-IsWheel :
    {m : Manager}
    → IsWheel m
    → let m' = update_next m in
      IsWheel m'
      × (m'.fired ≡ m.fired)
      × (m'.curr ≡ m.curr)
      × (m'.curr ≤ m'.next)
      × (m'.low ≡ m.low)
      × (m'.high ≡ m.high)
unfolding update_next
update_next-IsWheel {m} w = elim (Bool-cases (ltb m.next m.curr)) [
  | inr e ↦ rw e (w, refl, refl, ground arith, refl, refl)
  | inl e ↦ rw e (new, refl, refl, omega (arith, r.0), refl, refl)
]
  where
    s : ℕ
    s = first_slot m.low m.low_pos (m.slot_size - m.low_pos)

    r :
        (m.low_pos ≤ s)
        × (s ≤ m.low_pos + (m.slot_size - m.low_pos))
        × ((j : ℕ) → m.low_pos ≤ j → j < s → m.low j ≡ [])
    r = first_slot_lem m.low m.low_pos (m.slot_size - m.low_pos)

    later : (j : ℕ) → All (λ t. m.curr + s - m.low_pos ≤ t.expired) (m.low j)
    later j = elim (Bool-cases (leb m.low_pos j && ltb j s)) [
      | inl gap ↦
          subst (All (λ t. m.curr + s - m.low_pos ≤ t.expired))
            (sym (r.2 j (ground arith) (ground arith))) tt
      | inr h ↦
          All-map _ _ (m.low j)
            (λ t a. ground (
              arith,
              slot_time m.span m.curr m.low_pos j t.expired a.due a.near w.hand a.place,
              r.0,
              r.1,
              w.size,
              w.hand,
            ))
            (w.lows j)
    ]

    new : IsWheel (record m { next = m.curr + s - m.low_pos })
    new = record {
      alive = w.alive;
      wide = w.wide;
      size = w.size;
      reach = w.reach;
      small = w.small;
      hand = w.hand;
      high_hand = w.high_hand;
      lows = w.lows;
      highs = w.highs;
      next_lem = record {
        first = λ h. later;
        cycle = λ h. omega (arith, r.0, r.1, w.size, w.hand);
      };
    }

-- No timer on any list falls due before `now`.
pub record NoneBefore (now : ℕ) (m : Manager) : Type 0 where
  pub low_later : (j : ℕ) → All (λ t. now ≤ t.expired) (m.low j)
  pub high_later : (j : ℕ) → All (λ t. now ≤ t.expired) (m.high j)

-- run_until(now) on a wheel whose m_next_expired is not behind, with now less than 2 ^ 31 behind
-- the clock and callbacks that ask only for timers in reach: the wheel is kept; every call of
-- on_timeout, earlier or new, was made when the clock stood at the timer's own time; no timer due
-- before now is left on a list; m_next_expired is not behind; and the clock stands at now, or
-- where it stood if that is later.
pub run_until-IsWheel :
    (on_timeout : Callback) {m : Manager} (now : ℕ)
    → IsCallback on_timeout
    → IsWheel m
    → IsExact m
    → m.curr ≤ m.next
    → m.curr < now + 2 ^ 31
    → let m' = run_until on_timeout m now in
      IsWheel m'
      × IsExact m'
      × NoneBefore now m'
      × (m'.curr ≤ m'.next)
      × (m'.curr ≡ (if leb m.curr now then now else m.curr))
unfolding run_until
run_until-IsWheel on_timeout {m} now c w x k h =
    let s = skip-IsWheel now w k h in
    let exact = subst (All (λ (e : Timer × ℕ). e.0.expired ≡ e.1)) (sym s.1) x in
    let r = rounds-IsWheel on_timeout (now - (skip m now).curr) c s.0 exact in
    let u = update_next-IsWheel r.0 in
    let clock = (rounds on_timeout (now - (skip m now).curr) (skip m now)).curr in
    let stand : clock ≡ (if leb m.curr now then now else m.curr) =
      elim (Bool-cases (leb m.curr now)) [
        | inl e ↦ let b : m.curr ≤ now = ground arith in rw e (omega (arith, r.2, s.3 b))
        | inr e ↦ let b : now ≤ m.curr = ground arith in rw e (omega (arith, r.2, s.4 b))
      ] in
    let later : (e : ℕ)
        → (update_next (rounds on_timeout (now - (skip m now).curr) (skip m now))).curr ≤ e
        → now ≤ e =
      λ e d. omega (arith, u.2, r.2, d) in
    (
      u.0,
      subst (All (λ (e : Timer × ℕ). e.0.expired ≡ e.1)) (sym u.1) r.1,
      record {
        low_later = λ j. All-map _ _ _ (λ t a. later t.expired a.due) (u.0.lows j);
        high_later = λ j. All-map _ _ _ (λ t a. later t.expired a.due) (u.0.highs j);
      },
      u.3,
      u.2 ∙ stand,
    )
