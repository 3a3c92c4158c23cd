-- ===== src/TcpAcceptor/Uses.antt =====
-- What the reactor's table has for an acceptor, after any calls.
use frame_work.Prelude.{
  ℕ, zero, suc, ◌≡◌, ◌≢◌, inl, inr, refl, sym, ap, ◌∙◌, subst, false, List, [], ◌∷◌, Option, none,
  some, ℤ, pos, negsuc, ◌==◌, Bool-cases, arith,
}
use frame_work.EpollReactor.{Epoll, Reactor, get_handler, add_handler, del_handler, event_read}
use frame_work.EpollReactor.Table.{IsEpoll, IsTable, self, Puts, del_handler-Removes}
use frame_work.EpollReactor.Runs.{add_handler-Puts, in_range}
use frame_work.TcpAcceptor.{
  Acceptor, Accepted, client, exhausted, interrupted, failed, accept, constructed, init,
  unless_listening, listens, stopped, max_accept_once, fini, given, accept_rounds, on_read,
}

module _ {ℓ κ} {K : Type ℓ} {H : Type κ} (e : Epoll K) (me : H) where
  abbrev pub HasMe : Reactor K H → ℕ → Type κ
  HasMe r j = get_handler r (pos j) ≡ some (some me)

  -- on_connection of a subclass, which may add, change and remove the handlers of others.
  pub record IsFriendly (f : ℕ → ℕ → Reactor K H → ℤ × Reactor K H) : Type (ℓ ⊔ κ) where
    pub table : (i cfd : ℕ) (r : Reactor K H) → IsTable e r → IsTable e (f i cfd r).1
    pub stays :
        (i cfd : ℕ) (r : Reactor K H) (j : ℕ) → IsTable e r → HasMe r j → HasMe (f i cfd r).1 j
    pub alone :
        (i cfd : ℕ) (r : Reactor K H) (j : ℕ) → IsTable e r → HasMe (f i cfd r).1 j → HasMe r j

  -- A call, with what the kernel and on_connection answer.
  pub data Use : Type (ℓ ⊔ κ) where
    inits : Option ℕ → Use
    reads : (ℕ → Accepted) → (ℕ → ℕ → Reactor K H → ℤ × Reactor K H) → Use
    finis : Use

  abbrev pub AllFriendly : List Use → Type (ℓ ⊔ κ)
  AllFriendly [] = Unit {ℓ ⊔ κ}
  AllFriendly (reads answers f ∷ us) = IsFriendly f × AllFriendly us
  AllFriendly (u ∷ us) = AllFriendly us

  abbrev pub step : Acceptor K H → Use → Acceptor K H
  unfolding init fini on_read
  step a (inits created) = (init e me a created).1
  step a (reads answers f) = on_read e me f answers a
  step a finis = fini e me a

  abbrev pub run : Acceptor K H → List Use → Acceptor K H
  run a [] = a
  run a (u ∷ us) = run (step a u) us

  -- The reactor has the acceptor for its descriptor, and for no other.
  pub record IsListening (fd : Option ℕ) (r : Reactor K H) : Type (ℓ ⊔ κ) where
    pub table : IsTable e r
    pub entry : (j : ℕ) → fd ≡ some j → HasMe r j
    pub alone : (j : ℕ) → HasMe r j → fd ≡ some j

  abbrev pub Listens : Acceptor K H → Type (ℓ ⊔ κ)
  Listens a = IsListening a.fd a.reactor

  fini-Listens : (a : Acceptor K H) → IsEpoll e → Listens a → Listens (fini e me a)
  unfolding fini
  fini-Listens a law v = stopped_at a.fd refl
    where
      stopped_at : (fd : Option ℕ) → a.fd ≡ fd → Listens (stopped e me a fd)
      stopped_at none q = v
      stopped_at (some fd) q =
          let d =
            del_handler-Removes e fd law v.table (in_range e a.reactor fd me (v.entry fd q)) in
          record {
            table = d.table;
            entry = λ j p. absurd (cc);
            alone = λ j h. elim (Bool-cases (j == fd)) [
              | inl t ↦ absurd (
                  let p : get_handler (del_handler e a.reactor (pos fd)) (pos j) ≡ some none =
                    d.others j ∙ rw t refl in
                  cc)
              | inr t ↦ absurd (
                  let p : get_handler a.reactor (pos j) ≡ some (some me) =
                    sym (d.others j ∙ rw t refl) ∙ h in
                  let same : fd ≡ j = let s = v.alone j p in cc in ground arith)
            ];
          }

  init-Listens :
      (a : Acceptor K H) (created : Option ℕ)
      → IsEpoll e
      → Listens a
      → Listens (init e me a created).1
  unfolding init
  init-Listens a created law v = at_fd created a.fd refl
    where
      refused : (r : Reactor K H) → r ≡ a.reactor → IsListening a.fd r
      refused r q = subst (IsListening a.fd) (sym q) v

      added :
          (sfd : ℕ) (o : ℤ × Reactor K H)
          → a.fd ≡ none
          → Puts e false a.reactor sfd me event_read o
          → Listens (listens e me a sfd o).1
      added sfd (pos (suc n), r) c u = elim u.outcome [
        | inl (q, _, _, _) ↦ absurd (cc)
        | inr (_, q) ↦ refused r q
      ]
      added sfd (negsuc n, r) c u = elim u.outcome [
        | inl (q, _, _, _) ↦ absurd (cc)
        | inr (_, q) ↦ refused r q
      ]
      added sfd (pos zero, r) c u = elim u.outcome [
        | inr (n, _) ↦ absurd (n refl)
        | inl (_, _, _, g) ↦ record {
          table = u.table;
          entry = λ j q. let same : sfd ≡ j = cc in subst (HasMe r) same (g sfd ∙ self _ sfd);
          alone = λ j h. elim (Bool-cases (j == sfd)) [
            | inl t ↦ let same : sfd ≡ j = ground arith in ap some same
            | inr t ↦ absurd (let s = v.alone j (sym (g j ∙ rw t refl) ∙ h) in cc)
          ];
        }
      ]

      at_fd : (created fd : Option ℕ) → a.fd ≡ fd → Listens (unless_listening e me a created fd).1
      at_fd created (some old) q = v
      at_fd none none q = v
      at_fd (some sfd) none q =
          added sfd (add_handler e a.reactor (pos sfd) (some me) event_read) q
            (add_handler-Puts e sfd me event_read law v.table)

  module _ {f : ℕ → ℕ → Reactor K H → ℤ × Reactor K H} (friendly : IsFriendly f)
      (law : IsEpoll e) where
    given-Listens :
        (a : Acceptor K H) (i cfd : ℕ)
        → Listens a
        → Listens (given e me f a cfd (f i cfd a.reactor))
    given-Listens a i cfd v = at_answer (f i cfd a.reactor) refl
      where
        changed : IsListening a.fd (f i cfd a.reactor).1
        changed = record {
          table = friendly.table i cfd a.reactor v.table;
          entry = λ j q. friendly.stays i cfd a.reactor j v.table (v.entry j q);
          alone = λ j h. v.alone j (friendly.alone i cfd a.reactor j v.table h);
        }

        at_answer : (z : ℤ × Reactor K H) → f i cfd a.reactor ≡ z → Listens (given e me f a cfd z)
        at_answer (pos zero, r) q = subst (λ z. IsListening a.fd z.1) q changed
        at_answer (pos (suc n), r) q = subst (λ z. IsListening a.fd z.1) q changed
        at_answer (negsuc n, r) q = subst (λ z. IsListening a.fd z.1) q changed

    rounds-Listens :
        (answers : ℕ → Accepted) (n i : ℕ) (a : Acceptor K H)
        → Listens a
        → Listens (accept_rounds e me f answers n i a)
    unfolding accept_rounds
    rounds-Listens answers zero i a v = v
    rounds-Listens answers (suc n) i a v =
        by_answer (accept (answers i) a.fd) refl (λ a' v'. rounds-Listens answers n (suc i) a' v')
      where
        by_answer :
            (x : Accepted)
            → accept (answers i) a.fd ≡ x
            → ((a' : Acceptor K H)
                → Listens a'
                → Listens (accept_rounds e me f answers n (suc i) a'))
            → Listens (accept_rounds e me f answers (suc n) i a)
        by_answer exhausted q rest = rw (q, accept_rounds) v
        by_answer interrupted q rest = rw (q, accept_rounds) (rest a v)
        by_answer failed q rest = rw (q, accept_rounds) (rest (fini e me a) (fini-Listens a law v))
        by_answer (client cfd) q rest =
            rw (q, accept_rounds)
              (rest (given e me f a cfd (f i cfd a.reactor)) (given-Listens a i cfd v))

  run_lem :
      (a : Acceptor K H) (us : List Use)
      → IsEpoll e
      → AllFriendly us
      → Listens a
      → Listens (run a us)
  unfolding on_read init step
  run_lem a [] law fs v = v
  run_lem a (inits created ∷ us) law fs v =
      run_lem (init e me a created).1 us law fs (init-Listens a created law v)
  run_lem a (finis ∷ us) law fs v = run_lem (fini e me a) us law fs (fini-Listens a law v)
  run_lem a (reads answers f ∷ us) law (friendly, fs) v =
      run_lem (on_read e me f answers a) us law fs
        (rounds-Listens friendly law answers max_accept_once 0 a v)

  -- After any calls of init, on_read and fini on a new acceptor, whatever create_tcp_service,
  -- accept and on_connection answer, where each on_connection may add and remove handlers of
  -- others but leaves a valid table and those of the acceptor, on a reactor with a valid table
  -- that has the acceptor nowhere and an epoll that does as documented: the table is valid, and
  -- has the acceptor for the descriptor on which it listens, if it does, and for no other.
  pub run-IsListening :
      (r : Reactor K H) (us : List Use)
      → IsEpoll e
      → IsTable e r
      → ((j : ℕ) → get_handler r (pos j) ≢ some (some me))
      → AllFriendly us
      → IsListening (run (constructed r) us).fd (run (constructed r) us).reactor
  run-IsListening r us law v free fs =
      run_lem (constructed r) us law fs
        (record { table = v; entry = λ j q. absurd (cc); alone = λ j h. absurd (free j h) })
