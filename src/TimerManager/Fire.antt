-- ===== src/TimerManager/Fire.antt =====
-- framework/timer_manager.cpp, run_until: the inner loop, which calls the timers under the hand.
use frame_work.Prelude.{
  nil_of_length, List-cases, ℕ, zero, suc, ◌+◌, ◌-◌, ◌%◌, ◌^◌, ◌≤◌, ◌<◌, ◌≡◌, ◌≢◌, inl, inr, refl,
  sym, ap, subst, ◌∙◌, not, ◌||◌, List, [], ◌∷◌, ℤ, pos, negsuc, ◌==◌, length, All, All-map, arith,
  Bool-cases,
}
use frame_work.TimerManager.{
  Timer, Manager, to_int32, add_interval, add_timer, without, unlink, del_timer, Request, adds,
  removes, serve, Callback, fire_one, fire_all,
}
use frame_work.TimerManager.Inv.{
  IsWheel, InLow, InReach, Answers, add_timer-Answers, unlink-IsWheel, del_timer-IsWheel,
}

-- A request whose timer is in reach of the clock.
abbrev pub Asks : Manager → Request → Type 0
Asks m (adds t) = InReach m t
Asks m (removes id) = Unit {0}

-- A callback asks only for timers that are in reach when it is called.
abbrev pub IsCallback : Callback → Type 0
IsCallback on_timeout = (m : Manager) (t : Timer) → All (Asks m) (on_timeout m t)

-- What the calls of a callback leave alone: the hand and the clock, the record of calls; and they
-- put no timer under the hand.
pub record Keeps (m m' : Manager) : Type 0 where
  pub wheel : IsWheel m'
  pub curr_lem : m'.curr ≡ m.curr
  pub hand_lem : m'.low_pos ≡ m.low_pos
  pub fired_lem : m'.fired ≡ m.fired
  pub fewer : length (m'.low m.low_pos) ≤ length (m.low m.low_pos)

length-without : (id : ℕ) (ts : List Timer) → length (without id ts) ≤ length ts
length-without id [] = omega arith
length-without id (t ∷ ts) = ground (arith, length-without id ts)

pub ahead_of_hand : (i p s : ℕ) → 0 < i → i < s → p < s → (i + p) % s ≢ p
ahead_of_hand i p s h k l = grind arith

add_interval-Keeps :
    {m : Manager} (t : Timer) (z : ℤ)
    → IsWheel m
    → IsWheel (add_interval m t z).1
    → Keeps m (add_interval m t z).1
add_interval-Keeps {m} t (negsuc n) w w' = record {
  wheel = w;
  curr_lem = refl;
  hand_lem = refl;
  fired_lem = refl;
  fewer = omega arith;
}
add_interval-Keeps {m} t (pos i) w w' = record {
  wheel = w';
  curr_lem = ground arith;
  hand_lem = ground arith;
  fired_lem = ground arith;
  fewer = ground (arith, ahead_of_hand i m.low_pos m.span, w.size, w.hand);
}

Keeps-refl : {m : Manager} → IsWheel m → Keeps m m
Keeps-refl w = record {
  wheel = w;
  curr_lem = refl;
  hand_lem = refl;
  fired_lem = refl;
  fewer = omega arith;
}

Answers-IsWheel :
    {m : Manager} {t : Timer} {r : ℤ × Manager} → IsWheel m → Answers m t r → IsWheel r.1
Answers-IsWheel w (inl (_, e)) = subst (λ r. IsWheel r.1) (sym e) w
Answers-IsWheel w (inr (inl (_, _, e))) = subst (λ r. IsWheel r.1) (sym e) w
Answers-IsWheel w (inr (inr (_, _, _, _, v, _, _, _, _))) = v

pub add_timer-Keeps :
    {m : Manager} (t : Timer) → IsWheel m → InReach m t → Keeps m (add_timer m t).1
unfolding add_timer
add_timer-Keeps {m} t w r =
    let v = Answers-IsWheel w (add_timer-Answers t w r) in
    elim (Bool-cases (not m.live || m.linked t.id)) [
      | inl e ↦ rw e (Keeps-refl w)
      | inr e ↦ rw e (add_interval-Keeps t (to_int32 (t.expired + 2 ^ 64 - m.curr)) w (rw e at v))
    ]

del_timer-Keeps : {m : Manager} (id : ℕ) → IsWheel m → Keeps m (del_timer m id)
unfolding del_timer
del_timer-Keeps {m} id w = record {
  wheel = del_timer-IsWheel w id;
  curr_lem = ground arith;
  hand_lem = ground arith;
  fired_lem = ground arith;
  fewer = ground (arith, length-without id (m.low m.low_pos));
}

Keeps-trans : {m m' m'' : Manager} → Keeps m m' → Keeps m' m'' → Keeps m m''
Keeps-trans {m} {m'} {m''} a b = record {
  wheel = b.wheel;
  curr_lem = b.curr_lem ∙ a.curr_lem;
  hand_lem = b.hand_lem ∙ a.hand_lem;
  fired_lem = b.fired_lem ∙ a.fired_lem;
  fewer =
      subst (λ p. length (m''.low p) ≤ length (m.low m.low_pos)) a.hand_lem
        (omega (
          arith,
          b.fewer,
          subst (λ p. length (m'.low p) ≤ length (m.low m.low_pos)) (sym a.hand_lem) a.fewer,
        ));
}

Asks-curr : (m m' : Manager) (r : Request) → m'.curr ≡ m.curr → Asks m r → Asks m' r
Asks-curr m m' (adds t) e k = record {
  behind = omega (arith, e, k.behind);
  ahead = omega (arith, e, k.ahead);
}
Asks-curr m m' (removes id) e k = tt

pub serve-Keeps :
    (rs : List Request) {m : Manager} → IsWheel m → All (Asks m) rs → Keeps m (serve m rs)
unfolding serve
serve-Keeps [] w k = Keeps-refl w
serve-Keeps (adds t ∷ rs) {m} w (k, ks) =
    let a = add_timer-Keeps t w k in
    Keeps-trans a
      (serve-Keeps rs a.wheel (All-map _ _ rs (λ r. Asks-curr m (add_timer m t).1 r a.curr_lem) ks))
serve-Keeps (removes id ∷ rs) {m} w (k, ks) =
    let a = del_timer-Keeps id w in
    Keeps-trans a
      (serve-Keeps rs a.wheel (All-map _ _ rs (λ r. Asks-curr m (del_timer m id) r a.curr_lem) ks))

-- Each call of on_timeout was made when the clock stood at m_expired of the timer.
abbrev pub IsExact : Manager → Type 0
IsExact m = All (λ (e : Timer × ℕ). e.0.expired ≡ e.1) m.fired

-- A timer under the hand falls due now.
due_now : (s c p e : ℕ) → c ≤ e → e < c + s → p < s → (e - c + p) % s ≡ p → e ≡ c
due_now s c p e h k l q = elim (Bool-cases (e == c)) [
  | inl y ↦ ground arith
  | inr n ↦ absurd (ahead_of_hand (e - c) p s (ground arith) (omega arith) l q)
]

logged-IsWheel :
    {m : Manager} (log : List (Timer × ℕ)) → IsWheel m → IsWheel (record m { fired = log })
logged-IsWheel log w = record {
  alive = w.alive;
  wide = w.wide;
  size = w.size;
  reach = w.reach;
  small = w.small;
  hand = w.hand;
  high_hand = w.high_hand;
  lows = w.lows;
  highs = w.highs;
  next_lem = record { first = w.next_lem.first; cycle = w.next_lem.cycle };
}

-- What a round of calls leaves: the wheel, the hand and the clock, and a record that is exact.
pub record Fires (m m' : Manager) : Type 0 where
  pub wheel : IsWheel m'
  pub curr_lem : m'.curr ≡ m.curr
  pub hand_lem : m'.low_pos ≡ m.low_pos
  pub exact : IsExact m'

fire_one-Fires :
    (on_timeout : Callback) {m : Manager} (t : Timer) (ts : List Timer)
    → IsCallback on_timeout
    → IsWheel m
    → IsExact m
    → m.low m.low_pos ≡ t ∷ ts
    → let m' = fire_one on_timeout m t in Fires m m' × (length (m'.low m.low_pos) ≤ length ts)
unfolding fire_one
fire_one-Fires on_timeout {m} t ts c w x e =
    let m' = record (unlink m t.id) { fired = (t, m.curr) ∷ m.fired } in
    let at = (subst (All (InLow m.span m.curr m.low_pos m.low_pos)) e (w.lows m.low_pos)).0 in
    let s = serve-Keeps (on_timeout m' t) (logged-IsWheel _ (unlink-IsWheel w t.id)) (c m' t) in
    (
      record {
        wheel = s.wheel;
        curr_lem = s.curr_lem;
        hand_lem = s.hand_lem;
        exact =
            subst (All (λ (e : Timer × ℕ). e.0.expired ≡ e.1)) (sym s.fired_lem)
              (due_now m.span m.curr m.low_pos t.expired at.due at.near w.hand at.place, x);
      },
      omega (arith, s.fewer, fewer_left),
    )
  where
    fewer_left : length (without t.id (m.low m.low_pos)) ≤ length ts
    fewer_left = rw e (ground (arith, length-without t.id ts))

-- The loop over the slot under the hand ends with the slot empty.
pub fire_all-Fires :
    (on_timeout : Callback) (f : ℕ) {m : Manager} (p : ℕ)
    → IsCallback on_timeout
    → IsWheel m
    → IsExact m
    → p ≡ m.low_pos
    → length (m.low m.low_pos) ≤ f
    → let m' = fire_all on_timeout f m p in Fires m m' × (m'.low p ≡ [])
unfolding fire_all
fire_all-Fires on_timeout zero {m} p c w x e h = (
  record { wheel = w; curr_lem = refl; hand_lem = refl; exact = x },
  ap m.low e ∙ nil_of_length (m.low m.low_pos) (omega arith),
)
fire_all-Fires on_timeout (suc f) {m} p c w x e h = elim (List-cases (m.low p)) [
  | inl q ↦ rw (q, fire_all) (record { wheel = w; curr_lem = refl; hand_lem = refl; exact = x }, q)
  | inr (t, ts, q) ↦
      let one = fire_one-Fires on_timeout t ts c w x (ap m.low (sym e) ∙ q) in
      let m' = fire_one on_timeout m t in
      let p' : p ≡ m'.low_pos = e ∙ sym one.0.hand_lem in
      let short : length (m'.low m'.low_pos) ≤ f =
        subst (λ k. length (m'.low k) ≤ f) (sym one.0.hand_lem)
          (omega (arith, one.1, ap length q, ap (λ k. length (m.low k)) e)) in
      let rest = fire_all-Fires on_timeout f {m = m'} p c one.0.wheel one.0.exact p' short in
      rw (q, fire_all)
        (
          record {
            wheel = rest.0.wheel;
            curr_lem = rest.0.curr_lem ∙ one.0.curr_lem;
            hand_lem = rest.0.hand_lem ∙ one.0.hand_lem;
            exact = rest.0.exact;
          },
          rest.1,
        )
]
