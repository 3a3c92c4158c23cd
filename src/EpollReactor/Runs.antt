-- ===== src/EpollReactor/Runs.antt =====
-- Sequences of calls of the reactor.
use frame_work.Prelude.{
  ℕ, subst, ◌+◌, ◌*◌, ◌^◌, zero, suc, tests, ◌≤◌, ◌<◌, ◌≡◌, inl, inr, refl, sym, ap, ◌∙◌, Bool,
  true, false, List, [], ◌∷◌, Option, none, some, ℤ, pos, negsuc, ok, leb, ◌==◌, ◌||◌,
  if◌then◌else◌, get_elem?, length, length-replicate, Bool-cases, arith,
}
use frame_work.EpollReactor.{
  Events, Epoll, Reactor, is_open, slots_of, table_of, opened, init, get_handler, put_handler,
  add_handler, mod_handler, del_handler, below_min, to_nat,
}
use frame_work.EpollReactor.Table.{
  is_some, handled, IsEpoll, IsTable, Puts, put_handler-Puts, del_handler-Removes,
  get_elem?-replicate, self,
}

-- A call with any arguments, a NULL handler and a descriptor that is out of range included.
pub data Op {κ} (H : Type κ) : Type κ where
  add : ℤ → Option H → ℕ → Op H
  modify : ℤ → Option H → ℕ → Op H
  del : ℤ → Op H

get_elem?_lt {ℓ} :
    {A : Type ℓ} (xs : List A) (i : ℕ) → i < length xs → (x : A) × (get_elem? xs i ≡ some x)
get_elem?_lt [] i h = absurd (omega arith)
get_elem?_lt (x ∷ xs) zero h = (x, refl)
get_elem?_lt (x ∷ xs) (suc i) h = get_elem?_lt xs i (omega arith)

get_elem?_ge {ℓ} : {A : Type ℓ} (xs : List A) (i : ℕ) → length xs ≤ i → get_elem? xs i ≡ none
get_elem?_ge [] i h = refl
get_elem?_ge (x ∷ xs) zero h = absurd (omega arith)
get_elem?_ge (x ∷ xs) (suc i) h = get_elem?_ge xs i (omega arith)

module _ {ℓ κ} {K : Type ℓ} {H : Type κ} (e : Epoll K) where
  -- add_handler with any arguments on a valid table: what Puts states, or nothing happens.
  pub add_handler-Puts :
      {r : Reactor K H} (fd : ℕ) (h : H) (event_type : ℕ)
      → IsEpoll e
      → IsTable e r
      → Puts e false r fd h event_type (add_handler e r (pos fd) (some h) event_type)
  unfolding add_handler
  add_handler-Puts {r} fd h event_type law v =
      put_handler-Puts e false fd h event_type e.ctl_add
        (λ k' q. let l = law.added _ fd _ k' q in (ap is_some l.0, l.1)) v

  pub mod_handler-Puts :
      {r : Reactor K H} (fd : ℕ) (h : H) (event_type : ℕ)
      → IsEpoll e
      → IsTable e r
      → Puts e true r fd h event_type (mod_handler e r (pos fd) (some h) event_type)
  unfolding mod_handler
  mod_handler-Puts {r} fd h event_type law v =
      put_handler-Puts e true fd h event_type e.ctl_mod (λ k' q. law.modified _ fd _ k' q) v

  abbrev pub step : Reactor K H → Op H → Reactor K H
  step r (add fd h t) = (add_handler e r fd h t).1
  step r (modify fd h t) = (mod_handler e r fd h t).1
  step r (del fd) = del_handler e r fd

  abbrev pub run : Reactor K H → List (Op H) → Reactor K H
  run r [] = r
  run r (op ∷ ops) = run (step r op) ops

  -- A put that its guards refuse.
  refused_put :
      {r : Reactor K H} (ctl : K → ℕ → Events → Option K) (n : ℕ) (h : H) (t : ℕ)
      → IsTable e r
      → IsTable e (put_handler e ctl r (negsuc n) (some h) t).1
  unfolding put_handler
  refused_put ctl n h t v = simp v.opened v

  null_put :
      {r : Reactor K H} (ctl : K → ℕ → Events → Option K) (fd : ℤ) (t : ℕ)
      → IsTable e r
      → IsTable e (put_handler e ctl r fd none t).1
  unfolding put_handler
  null_put ctl fd t v = v

  del_any :
      {r : Reactor K H} (fd : ℕ) → IsEpoll e → IsTable e r → IsTable e (del_handler e r (pos fd))
  unfolding del_handler
  del_any {r} fd law v = elim (Bool-cases (leb r.maxfd fd)) [
    | inr q ↦ (del_handler-Removes e fd law v (ground arith)).table
    | inl q ↦ simp (v.opened, q) v
  ]

  pub step-IsTable : {r : Reactor K H} (op : Op H) → IsEpoll e → IsTable e r → IsTable e (step r op)
  unfolding add_handler mod_handler del_handler
  step-IsTable (add fd none t) law v = null_put e.ctl_add fd t v
  step-IsTable (add (negsuc n) (some h) t) law v = refused_put e.ctl_add n h t v
  step-IsTable (add (pos fd) (some h) t) law v = (add_handler-Puts fd h t law v).table
  step-IsTable (modify fd none t) law v = null_put e.ctl_mod fd t v
  step-IsTable (modify (negsuc n) (some h) t) law v = refused_put e.ctl_mod n h t v
  step-IsTable (modify (pos fd) (some h) t) law v = (mod_handler-Puts fd h t law v).table
  step-IsTable (del (negsuc n)) law v = v
  step-IsTable (del (pos fd)) law v = del_any fd law v

  run_lem : {r : Reactor K H} (ops : List (Op H)) → IsEpoll e → IsTable e r → IsTable e (run r ops)
  run_lem [] law v = v
  run_lem {r = r} (op ∷ ops) law v = run_lem {r = step r op} ops law (step-IsTable op law v)

  init-IsTable :
      (r : Reactor K H) (maxfd created : ℤ) (enough : Bool)
      → IsEpoll e
      → 3072 + 8 * to_nat maxfd < 2 ^ 31
      → (init e r maxfd created enough).0 ≡ ok
      → IsTable e (init e r maxfd created enough).1
  unfolding init
  init-IsTable r maxfd created enough law small =
      elim (Bool-cases (below_min maxfd || is_open r.epfd)) [
        | inl q ↦ rw q (λ p. absurd (cc))
        | inr q ↦ rw q (opened_lem (to_nat maxfd) created enough small)
      ]
    where
      opened_lem :
          (n : ℕ) (created : ℤ) (enough : Bool)
          → 3072 + 8 * n < 2 ^ 31
          → (opened e r n enough created).0 ≡ ok
          → IsTable e (opened e r n enough created).1
      opened_lem n (negsuc k) enough b p = absurd (cc)
      opened_lem n (pos k) false b p = absurd (cc)
      opened_lem n (pos k) true b p =
          let all : slots_of n ≡ some n = ground arith in
          subst (λ o. IsTable e (table_of e r n (pos k) o).1) (sym all)
            (record {
              opened = refl;
              slots = length-replicate n none;
              agrees = λ fd. get_elem?-replicate H n fd ∙ sym (ap is_some (law.created fd));
            })

  get_handler-answers :
      {r : Reactor K H} → IsTable e r → (fd : ℤ) → (o : Option H) × (get_handler r fd ≡ some o)
  unfolding get_handler
  get_handler-answers v (negsuc n) = (none, refl)
  get_handler-answers {r} v (pos fd) = elim (Bool-cases (leb r.maxfd fd)) [
    | inl q ↦ (none, rw q refl)
    | inr q ↦
        let b : fd < r.maxfd = ground arith in
        let (o, p) = get_elem?_lt r.handlers fd (omega (arith, v.slots)) in (o, rw q p)
  ]

  -- After an init that returns 0, with a maxfd for which memsize fits an int, and any calls of
  -- add_handler, mod_handler and del_handler, with arguments that are NULL or out of range too, on
  -- an epoll that does as documented: the descriptors with a handler are those that epoll watches,
  -- and get_handler of any number reads no slot outside the table.
  pub run-IsTable :
      (r : Reactor K H) (maxfd created : ℤ) (enough : Bool) (ops : List (Op H))
      → IsEpoll e
      → 3072 + 8 * to_nat maxfd < 2 ^ 31
      → (init e r maxfd created enough).0 ≡ ok
      → IsTable e (run (init e r maxfd created enough).1 ops)
        × ((fd : ℤ)
            → (o : Option H) × (get_handler (run (init e r maxfd created enough).1 ops) fd
                ≡ some o))
  run-IsTable r maxfd created enough ops law small p =
      let v = run_lem ops law (init-IsTable r maxfd created enough law small p) in
      (v, get_handler-answers v)

  pub in_range :
      (r : Reactor K H) (fd : ℕ) (h : H) → get_handler r (pos fd) ≡ some (some h) → fd < r.maxfd
  unfolding get_handler
  in_range r fd h q = elim (Bool-cases (leb r.maxfd fd)) [
    | inr t ↦ ground arith
    | inl t ↦ absurd (let n : get_handler r (pos fd) ≡ some none = rw t refl in cc)
  ]

  handled-get_handler :
      {r : Reactor K H} (j : ℕ)
      → IsTable e r
      → handled (get_handler r (pos j)) ≡ is_some (e.watches r.instance_of j)
  unfolding get_handler
  handled-get_handler {r} j v = elim (Bool-cases (leb r.maxfd j)) [
    | inr t ↦ rw t (v.agrees j)
    | inl t ↦
        rw t (ap handled (sym (get_elem?_ge r.handlers j (omega (tests, v.slots)))) ∙ v.agrees j)
  ]

  unhandled :
      (r : Reactor K H) (fd : ℕ) (o : Option H)
      → get_handler r (pos fd) ≡ some o
      → is_some o ≡ false
      → get_handler r (pos fd) ≡ some none
  unhandled r fd none q n = q
  unhandled r fd (some h) q n = absurd (cc)

  pub free-get_handler :
      {r : Reactor K H} (fd : ℕ)
      → IsTable e r
      → is_some (e.watches r.instance_of fd) ≡ false
      → get_handler r (pos fd) ≡ some none
  free-get_handler {r} fd v n =
      let (o, q) = get_handler-answers v (pos fd) in
      unhandled r fd o q (ap handled (sym q) ∙ handled-get_handler fd v ∙ n)

  -- A table that reads as another watches as it does.
  same_watches :
      {r r' : Reactor K H}
      → IsTable e r
      → IsTable e r'
      → ((j : ℕ) → get_handler r' (pos j) ≡ get_handler r (pos j))
      → (j : ℕ) → is_some (e.watches r'.instance_of j) ≡ is_some (e.watches r.instance_of j)
  same_watches v v' s j =
      sym (handled-get_handler j v') ∙ ap handled (s j) ∙ handled-get_handler j v

  undone :
      {r : Reactor K H} (r1 r2 : Reactor K H) (fd : ℕ) (h : H)
      → IsTable e r
      → is_some (e.watches r.instance_of fd) ≡ false
      → ((j : ℕ)
          → get_handler r1 (pos j) ≡ (if j == fd then some (some h) else get_handler r (pos j)))
      → ((j : ℕ) → get_handler r2 (pos j) ≡ (if j == fd then some none else get_handler r1 (pos j)))
      → (j : ℕ) → get_handler r2 (pos j) ≡ get_handler r (pos j)
  undone {r} r1 r2 fd h v n g1 g2 j = g2 j ∙ elim (Bool-cases (j == fd)) [
    | inr t ↦ rw t (g1 j ∙ rw t refl)
    | inl t ↦
        let same : j ≡ fd = ground arith in
        rw t (sym (ap (λ i. get_handler r (pos i)) same ∙ free-get_handler fd v n))
  ]

  -- On a table that agrees with an epoll that does as documented, del_handler after an add_handler
  -- that returns 0 leaves the handlers and the watched descriptors as they were before.
  pub del_handler-add_handler :
      {r : Reactor K H} (fd : ℕ) (h : H) (event_type : ℕ)
      → IsEpoll e
      → IsTable e r
      → (add_handler e r (pos fd) (some h) event_type).0 ≡ ok
      → (j : ℕ)
      → (get_handler
            (del_handler e (add_handler e r (pos fd) (some h) event_type).1 (pos fd))
            (pos j)
          ≡ get_handler r (pos j))
        × (is_some (
              e.watches
                (del_handler e
                  (add_handler e r (pos fd) (some h) event_type).1
                  (pos fd)).instance_of
                j)
            ≡ is_some (e.watches r.instance_of j))
  del_handler-add_handler {r} fd h event_type law v p j =
      let puts = add_handler-Puts fd h event_type law v in
      elim puts.outcome [
        | inr (n, _) ↦ absurd (n p)
        | inl (_, n, _, g) ↦
            let b = in_range _ fd h (g fd ∙ self _ fd) in
            let d = del_handler-Removes e fd law puts.table b in
            let same = undone _ _ fd h v n g d.others in (same j, same_watches v d.table same j)
      ]
