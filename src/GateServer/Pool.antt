-- ===== src/GateServer/Pool.antt =====
-- Where a connection is: in use, in the pool, or deleted.
use frame_work.Prelude.{
  ℕ, zero, suc, ◌+◌, ◌≤◌, ◌<◌, ◌≡◌, inl, inr, refl, ap, subst, true, false, List, [], ◌∷◌, none,
  some, ℤ, pos, negsuc, ltb, ◌==◌, if◌then◌else◌, length, get_elem?, Bool-cases, arith,
}
use frame_work.GateServer.Client.{no_threshold, Client, status_default, reset, closes_idle}
use frame_work.GateServer.Gate.{
  Gate, Answers, new_client, set_client, from_pool, alloc_connection, without, free_connection,
  set_user_connection, set_role_connection, is_online_threshold, connected, on_connection, forget,
  on_event, on_idle_timeout,
}

abbrev pub count : ℕ → List ℕ → ℕ
count i [] = 0
count i (x ∷ xs) = (if x == i then 1 else 0) + count i xs

count-without :
    (xs : List ℕ) (conn i : ℕ)
    → 0 < count conn xs
    → count i xs ≡ (if conn == i then 1 else 0) + count i (without xs conn)
count-without [] conn i = λ h. absurd (omega (arith, h))
count-without (x ∷ xs) conn i = elim (Bool-cases (x == conn)) [
  | inl q ↦
      let same : x ≡ conn = ground arith in
      rw q (λ h. ap (λ y. (if y == i then 1 else 0) + count i xs) same)
  | inr q ↦ rw q (λ h. omega (arith, count-without xs conn i (omega (arith, h))))
]

pub count-get_elem? : (xs : List ℕ) (k conn : ℕ) → get_elem? xs k ≡ some conn → 0 < count conn xs
count-get_elem? [] k conn h = absurd (cc)
count-get_elem? (x ∷ xs) zero conn h = let same : x ≡ conn = cc in ground arith
count-get_elem? (x ∷ xs) (suc k) conn h = omega (arith, count-get_elem? xs k conn h)

-- A connection without a user, as reset leaves it.
pub record IsBlank (c : Client) : Type 0 where
  pub no_counter : c.seq_counter ≡ 0
  pub no_status : c.status ≡ status_default
  pub no_uid : c.uid ≡ 0
  pub no_role : c.role_id ≡ 0
  pub no_server : c.server_id ≡ 0
  pub no_seq : c.client_seq ≡ pos 0
  pub no_last_heart : c.last_heart ≡ pos 0
  pub no_heart : c.cur_heart ≡ pos 0
  pub no_heart_time : c.heart_time ≡ 0
  pub no_thresholds : (i : ℕ) → c.threshold i ≡ no_threshold
  pub no_timer : c.idle_timer ≡ none

abbrev pub places : Gate → ℕ → ℕ
places g i = count i g.in_use + count i g.pool + count i g.deleted

pub record IsKept (g : Gate) : Type 0 where
  pub once : (i : ℕ) → i < g.fresh → places g i ≡ 1
  pub unborn : (i : ℕ) → g.fresh ≤ i → places g i ≡ 0
  pub small : length g.pool ≤ 101
  pub blank : (i : ℕ) → 0 < count i g.pool → IsBlank (g.clients i)

at_most_once : {g : Gate} (i : ℕ) → IsKept g → places g i ≤ 1
at_most_once {g} i v = elim (Bool-cases (ltb i g.fresh)) [
  | inl q ↦ let h : i < g.fresh = ground arith in omega (arith, v.once i h)
  | inr q ↦ let h : g.fresh ≤ i = ground arith in omega (arith, v.unborn i h)
]

pub set_client-IsKept :
    {g : Gate} (conn : ℕ) (c : Client)
    → IsKept g
    → 0 < count conn g.in_use
    → IsKept (set_client g conn c)
set_client-IsKept {g} conn c v h = record {
  once = v.once;
  unborn = v.unborn;
  small = v.small;
  blank = λ i p. elim (Bool-cases (i == conn)) [
    | inr q ↦ rw q (v.blank i p)
    | inl q ↦ absurd (
        let same : i ≡ conn = ground arith in
        let p' : 0 < count conn g.pool = subst (λ j. 0 < count j g.pool) same p in
        omega (arith, at_most_once conn v))
  ];
}

free_connection-IsKept :
    {g : Gate} (conn : ℕ)
    → IsKept g
    → 0 < count conn g.in_use
    → IsBlank (g.clients conn)
    → IsKept (free_connection g conn)
unfolding free_connection
free_connection-IsKept {g} conn v h b = elim (Bool-cases (ltb 100 (length g.pool))) [
  | inl q ↦ rw q (record {
    once = λ i l. omega (arith, v.once i l, count-without g.in_use conn i h);
    unborn = λ i l. omega (arith, v.unborn i l, count-without g.in_use conn i h);
    small = v.small;
    blank = v.blank;
  })
  | inr q ↦
      let s : length g.pool ≤ 100 = ground arith in
      rw q (record {
        once = λ i l. omega (arith, v.once i l, count-without g.in_use conn i h);
        unborn = λ i l. omega (arith, v.unborn i l, count-without g.in_use conn i h);
        small = omega (arith, s);
        blank = λ i p. elim (Bool-cases (conn == i)) [
          | inl t ↦ let same : conn ≡ i = ground arith in subst (λ j. IsBlank (g.clients j)) same b
          | inr t ↦ v.blank i (ground (arith, p))
        ];
      })
]

new_client-IsBlank : IsBlank new_client
new_client-IsBlank = record {
  no_counter = refl;
  no_status = refl;
  no_uid = refl;
  no_role = refl;
  no_server = refl;
  no_seq = refl;
  no_last_heart = refl;
  no_heart = refl;
  no_heart_time = refl;
  no_thresholds = λ i. refl;
  no_timer = refl;
}

-- What alloc_connection answers: a blank connection that is in use now.
record Gives (r : ℕ × Gate) : Type 0 where
  kept : IsKept r.1
  used : 0 < count r.0 r.1.in_use
  clean : IsBlank (r.1.clients r.0)

alloc_connection-Gives : {g : Gate} → IsKept g → Gives (alloc_connection g)
unfolding alloc_connection
alloc_connection-Gives {g} v = given g.pool refl
  where
    given : (ns : List ℕ) → g.pool ≡ ns → Gives (from_pool g ns)
    given [] e = record {
      kept = record {
        once = λ i l. elim (Bool-cases (g.fresh == i)) [
          | inl q ↦
              let same : g.fresh ≡ i = ground arith in
              rw q (omega (arith, v.unborn i (omega arith)))
          | inr q ↦ let less : i < g.fresh = ground arith in rw q (omega (arith, v.once i less))
        ];
        unborn = λ i l.
            let q : (g.fresh == i) ≡ false = ground arith in
            rw q (omega (arith, v.unborn i (omega arith)));
        small = v.small;
        blank = λ i p. elim (Bool-cases (i == g.fresh)) [
          | inl q ↦ rw q new_client-IsBlank
          | inr q ↦ rw q (v.blank i p)
        ];
      };
      used = let q : (g.fresh == g.fresh) ≡ true = ground arith in rw q (omega arith);
      clean = let q : (g.fresh == g.fresh) ≡ true = ground arith in rw q new_client-IsBlank;
    }
    given (conn ∷ conns) e =
        let c : (i : ℕ) → count i g.pool ≡ (if conn == i then 1 else 0) + count i conns =
          λ i. ap (count i) e in
        record {
          kept = record {
            once = λ i l. omega (arith, v.once i l, c i);
            unborn = λ i l. omega (arith, v.unborn i l, c i);
            small = omega (arith, v.small, ap length e);
            blank = λ i p. v.blank i (omega (arith, c i, p));
          };
          used = let q : (conn == conn) ≡ true = ground arith in rw q (omega arith);
          clean = v.blank conn (
              let q : 0 < (if conn == conn then 1 else 0) = ground arith in
              omega (arith, c conn, q));
        }

connected-IsKept : (a : Answers) (o : ℤ) (r : ℕ × Gate) → Gives r → IsKept (connected a o r).1
connected-IsKept a (pos zero) (conn, g) v = set_client-IsKept conn _ v.kept v.used
connected-IsKept a (pos (suc n)) (conn, g) v = free_connection-IsKept conn v.kept v.used v.clean
connected-IsKept a (negsuc n) (conn, g) v = free_connection-IsKept conn v.kept v.used v.clean

pub on_connection-IsKept : {g : Gate} (a : Answers) → IsKept g → IsKept (on_connection a g).1
unfolding on_connection
on_connection-IsKept {g} a v = elim (Bool-cases (is_online_threshold g)) [
  | inl q ↦ rw q v
  | inr q ↦ rw q (connected-IsKept a a.init (alloc_connection g) (alloc_connection-Gives v))
]

-- The indices are not among the places of a connection.
forget-IsKept :
    {g : Gate} (c : Client) (conn : ℕ)
    → IsKept g
    → 0 < count conn g.in_use
    → IsKept (forget g c) × (0 < count conn (forget g c).in_use)
unfolding set_role_connection set_user_connection
forget-IsKept {g} c conn v h = elim (Bool-cases (ltb 0 c.uid)) [
  | inr q ↦ rw q (v, h)
  | inl q ↦ rw q (elim (Bool-cases (ltb 0 c.role_id)) [
    | inr t ↦
        rw t (record { once = v.once; unborn = v.unborn; small = v.small; blank = v.blank }, h)
    | inl t ↦
        rw t (record { once = v.once; unborn = v.unborn; small = v.small; blank = v.blank }, h)
  ])
]

reset-IsBlank : (c : Client) → IsBlank (reset c)
unfolding reset
reset-IsBlank c = record {
  no_counter = refl;
  no_status = refl;
  no_uid = refl;
  no_role = refl;
  no_server = refl;
  no_seq = refl;
  no_last_heart = refl;
  no_heart = refl;
  no_heart_time = refl;
  no_thresholds = λ i. refl;
  no_timer = refl;
}

pub on_event-IsKept :
    {g : Gate} (conn : ℕ) → IsKept g → 0 < count conn g.in_use → IsKept (on_event g conn)
unfolding on_event
on_event-IsKept {g} conn v h =
    let c = g.clients conn in
    let f = forget-IsKept c conn v h in
    let q : (conn == conn) ≡ true = ground arith in
    free_connection-IsKept conn (set_client-IsKept conn (reset c) f.0 f.1) f.1
      (rw q (reset-IsBlank c))

pub on_idle_timeout-IsKept :
    {g : Gate} (a : Answers) (conn : ℕ)
    → IsKept g
    → 0 < count conn g.in_use
    → IsKept (on_idle_timeout a g conn)
unfolding on_idle_timeout
on_idle_timeout-IsKept {g} a conn v h = elim (Bool-cases (closes_idle (g.clients conn) a.now)) [
  | inl q ↦ rw q (on_event-IsKept conn v h)
  | inr q ↦ rw q (set_client-IsKept conn _ v h)
]
