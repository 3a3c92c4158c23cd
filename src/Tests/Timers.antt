-- ===== src/Tests/Timers.antt =====
-- Runs of the timing wheel.
use frame_work.Prelude.{
  ℕ, ◌+◌, ◌^◌, ◌≤◌, ◌==◌, inl, inr, Bool-cases, sym, ◌≡◌, refl, true, List, [], ◌∷◌, some, pos, ok,
  leb, if◌then◌else◌, arith,
}
use frame_work.TimerManager.{Timer, Manager, fresh, init, add_timer, adds, Callback, run_until}
use frame_work.TimerManager.Inv.{IsWheel, Answers, add_timer-Answers}
use frame_work.TimerManager.Fire.{IsCallback, IsExact}
use frame_work.TimerManager.Until.{NoneBefore, run_until-IsWheel}
use frame_work.TimerManager.Start.{init-IsWheel}

-- Two levels of eight slots at time 100. Timer 1 is due at once, timer 2 in this cycle, timer 3 in
-- the next.
abbrev clock : Manager
clock = record {
  live = true;
  span = 8;
  slot_size = 8;
  max_expired = 64;
  curr = 100;
  next = 100;
  low_pos = 5;
  high_pos = 0;
  low = λ j. if j == 5 then due_now else if j == 6 then due_next else [];
  high = λ j. if j == 0 then due_later else [];
  linked = λ id. leb id 3;
  fired = [];
}
  where
    due_now : List Timer
    due_now = record { id = 1; expired = 100 } ∷ []

    due_next : List Timer
    due_next = record { id = 2; expired = 101 } ∷ []

    due_later : List Timer
    due_later = record { id = 3; expired = 104 } ∷ []

clock-IsWheel : IsWheel clock
clock-IsWheel = record {
  alive = refl;
  wide = omega arith;
  size = refl;
  reach = refl;
  small = omega arith;
  hand = omega arith;
  high_hand = omega arith;
  lows = λ j. elim (Bool-cases (j == 5)) [
    | inl e ↦
        let q : j ≡ 5 = ground arith in
        rw e (record { due = omega arith; near = omega arith; place = sym q }, tt)
    | inr e ↦ elim (Bool-cases (j == 6)) [
      | inl d ↦
          let q : j ≡ 6 = ground arith in
          rw (e, d) (record { due = omega arith; near = omega arith; place = sym q }, tt)
      | inr d ↦ rw (e, d) tt
    ]
  ];
  highs = λ j. elim (Bool-cases (j == 0)) [
    | inl e ↦
        let q : j ≡ 0 = ground arith in
        rw e
          (record { due = omega arith; cycle = omega arith; far = omega arith; place = sym q }, tt)
    | inr e ↦ rw e tt
  ];
  next_lem = record {
    first = λ h j. elim (Bool-cases (j == 5)) [
      | inl e ↦ rw e (omega arith, tt)
      | inr e ↦ elim (Bool-cases (j == 6)) [
        | inl d ↦ rw (e, d) (omega arith, tt)
        | inr d ↦ rw (e, d) tt
      ]
    ];
    cycle = λ h. omega arith;
  };
}

-- A timer that asks for another one, three units later.
abbrev repeats : Callback
repeats m t = adds (record { id = t.id + 10; expired = m.curr + 3 }) ∷ []

repeats-IsCallback : IsCallback repeats
repeats-IsCallback m t = (record { behind = omega arith; ahead = omega arith }, tt)

run_until-IsWheel_example :
    let m' = run_until repeats clock 105 in
    IsWheel m'
    × IsExact m'
    × NoneBefore 105 m'
    × (m'.curr ≤ m'.next)
    × (m'.curr ≡ (if leb clock.curr 105 then 105 else clock.curr))
run_until-IsWheel_example =
    run_until-IsWheel repeats {m = clock} 105 repeats-IsCallback clock-IsWheel tt (omega arith)
      (omega arith)

abbrev new_timer : Timer
new_timer = record { id = 7; expired = 120 }

add_timer-Answers_example : Answers clock new_timer (add_timer clock new_timer)
add_timer-Answers_example =
    add_timer-Answers {m = clock} new_timer clock-IsWheel
      (record { behind = omega arith; ahead = omega arith })

init-IsWheel_example :
    (m' : Manager) × (init fresh 100 (pos 3) ≡ some (ok, m'))
    × IsWheel m'
    × (m'.curr ≡ 100)
    × (m'.next ≡ 100 + 2 ^ 3)
    × ((j : ℕ) → (m'.low j ≡ []) × (m'.high j ≡ []))
    × (m'.fired ≡ fresh.fired)
unfolding fresh
init-IsWheel_example = init-IsWheel fresh 100 3 refl (omega arith) (omega arith)
