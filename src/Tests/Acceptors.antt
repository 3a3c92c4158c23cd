-- ===== src/Tests/Acceptors.antt =====
-- Runs of an acceptor, on the reactor of the reactor's runs.
use frame_work.Prelude.{
  ℕ, zero, suc, ◌≡◌, ◌≢◌, refl, sym, ◌∙◌, subst, inl, inr, List, [], ◌∷◌, none, some, ℤ, pos, ok,
  minus_one, ◌==◌, if◌then◌else◌, Bool-cases, arith, get_elem?, Option, leb, false,
}
use frame_work.EpollReactor.{Reactor, get_handler, add_handler}
use frame_work.EpollReactor.Table.{handled, IsTable}
use frame_work.EpollReactor.Runs.{add_handler-Puts, free-get_handler}
use frame_work.TcpAcceptor.{Acceptor, Accepted, client, interrupted, failed, constructed}
use frame_work.TcpAcceptor.Uses.{
  Use, inits, reads, finis, run, IsFriendly, IsListening, run-IsListening,
}
use frame_work.Tests.Reactors.{Watched, epoll, epoll-IsEpoll, served}

abbrev queue : ℕ → Accepted
queue zero = client 7
queue (suc zero) = interrupted
queue (suc (suc zero)) = client 8
queue (suc (suc (suc n))) = failed

-- A connection that adds its handler, number 30, and is refused but in the first round.
abbrev connects : ℕ → ℕ → Reactor Watched ℕ → ℤ × Reactor Watched ℕ
connects i cfd r = (if i == 0 then ok else minus_one, (add_handler epoll r (pos cfd) (some 30) 1).1)

connects-IsFriendly : IsFriendly epoll 4 connects
connects-IsFriendly = record {
  table = λ i cfd r v. (add_handler-Puts epoll cfd 30 1 epoll-IsEpoll v).table;
  stays = λ i cfd r j v h. elim (add_handler-Puts epoll cfd 30 1 epoll-IsEpoll v).outcome [
    | inr (_, q) ↦ subst (λ r. get_handler r (pos j) ≡ some (some 4)) (sym q) h
    | inl (_, n, _, g) ↦ elim (Bool-cases (j == cfd)) [
      | inl t ↦ absurd (
          let same : cfd ≡ j = ground arith in
          let p =
            subst (λ j. get_handler r (pos j) ≡ some none) same (free-get_handler epoll cfd v n) in
          cc)
      | inr t ↦ g j ∙ rw t h
    ]
  ];
  alone = λ i cfd r j v h. elim (add_handler-Puts epoll cfd 30 1 epoll-IsEpoll v).outcome [
    | inr (_, q) ↦ subst (λ r. get_handler r (pos j) ≡ some (some 4)) q h
    | inl (_, n, _, g) ↦ elim (Bool-cases (j == cfd)) [
      | inl t ↦ absurd (
          let p : ◌≡◌ {A = Option (Option ℕ)} (some (some 30)) (some (some 4)) =
            sym (g j ∙ rw t refl) ∙ h in
          let same : ◌≡◌ {A = ℕ} 30 4 = cc in omega (arith, same))
      | inr t ↦ sym (g j ∙ rw t refl) ∙ h
    ]
  ];
}

abbrev listening : Acceptor Watched ℕ
listening = record (constructed served) { fd = some 6 }

abbrev unused : Reactor Watched ℕ
unused = record { epfd = pos 3; maxfd = 2; handlers = none ∷ none ∷ []; instance_of = epoll.fresh }

unused-IsTable : IsTable epoll unused
unused-IsTable = record { opened = refl; slots = refl; agrees = agrees }
  where
    agrees : (fd : ℕ) → handled (get_elem? unused.handlers fd) ≡ false
    agrees zero = refl
    agrees (suc zero) = refl
    agrees (suc (suc n)) = refl

unused-free : (j : ℕ) → get_handler unused (pos j) ≢ some (some 4)
unfolding get_handler
unused-free j = elim (Bool-cases (leb 2 j)) [ inl t ↦ rw t (λ e. cc) | inr t ↦ rw t (empty j) ]
  where
    empty : (j : ℕ) → get_elem? unused.handlers j ≢ some (some 4)
    empty zero e = cc
    empty (suc zero) e = cc
    empty (suc (suc n)) e = cc

abbrev uses : List (Use {H = ℕ} epoll 4)
uses = inits (some 1) ∷ reads queue connects ∷ inits (some 1) ∷ finis ∷ inits (some 0) ∷ []

run-IsListening_example :
    IsListening epoll 4
      (run epoll 4 (constructed unused) uses).fd
      (run epoll 4 (constructed unused) uses).reactor
run-IsListening_example =
    run-IsListening epoll 4 unused uses epoll-IsEpoll unused-IsTable unused-free
      (connects-IsFriendly, tt)
