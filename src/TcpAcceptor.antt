-- ===== src/TcpAcceptor.antt =====
-- framework/tcp_acceptor.h and framework/tcp_acceptor.cpp: a listening descriptor, on a reactor.
-- on_connection, which a subclass has, is an argument; on_error is that of the source.
pub mod Loop
pub mod Uses
use frame_work.Prelude.{
  ℕ, zero, suc, ◌+◌, ◌++◌, List, [], ◌∷◌, Option, none, some, ℤ, pos, negsuc, ok, minus_one,
  minus_two, minus_three,
}
use frame_work.EpollReactor.{Epoll, Reactor, add_handler, del_handler, event_read}

-- `fd` is none where m_fd is -1; `reactor` is what m_reactor refers to, where it is not NULL. `served`
-- lists the descriptors for which on_connection answered 0, and `closed` the calls of close.
pub record Acceptor {ℓ κ} (K : Type ℓ) (H : Type κ) : Type (ℓ ⊔ κ) where
  pub fd : Option ℕ
  pub reactor : Reactor K H
  pub served : List ℕ
  pub closed : List ℕ

-- The constructor, for a reactor to come.
abbrev pub constructed {ℓ κ} : {K : Type ℓ} {H : Type κ} → Reactor K H → Acceptor K H
constructed r = record { fd = none; reactor = r; served = []; closed = [] }

-- What accept answers: a descriptor, or an errno: EAGAIN, EMFILE or ENFILE; EINTR or ECONNABORTED;
-- or another.
pub data Accepted : Type 0 where
  client : ℕ → Accepted
  exhausted : Accepted
  interrupted : Accepted
  failed : Accepted

abbrev pub max_accept_once : ℕ
max_accept_once = 32

-- accept on m_fd; without a descriptor errno is EBADF.
abbrev pub accept : Accepted → Option ℕ → Accepted
accept answer none = failed
accept answer (some fd) = answer

module _ {ℓ κ} {K : Type ℓ} {H : Type κ} (e : Epoll K) (self : H) where
  abbrev pub listens : Acceptor K H → ℕ → ℤ × Reactor K H → ℤ × Acceptor K H
  listens a sfd (pos zero, r) = (ok, record a { fd = some sfd; reactor = r })
  listens a sfd (_, r) = (minus_three, record a { reactor = r; closed = a.closed ++ (sfd ∷ []) })

  abbrev pub unless_listening : Acceptor K H → Option ℕ → Option ℕ → ℤ × Acceptor K H
  unless_listening a created (some old) = (minus_one, a)
  unless_listening a none none = (minus_two, a)
  unless_listening a (some sfd) none =
      listens a sfd (add_handler e a.reactor (pos sfd) (some self) event_read)

  -- init, given what create_tcp_service answers; the host and the reactor are not NULL.
  unfoldable pub init : Acceptor K H → Option ℕ → ℤ × Acceptor K H
  init a created = unless_listening a created a.fd

  abbrev pub stopped : Acceptor K H → Option ℕ → Acceptor K H
  stopped a none = a
  stopped a (some fd) = record a {
    fd = none;
    reactor = del_handler e a.reactor (pos fd);
    closed = a.closed ++ (fd ∷ []);
  }

  unfoldable pub fini : Acceptor K H → Acceptor K H
  fini a = stopped a a.fd

  abbrev pub on_error : Acceptor K H → Acceptor K H
  unfolding fini
  on_error = fini

  -- on_connection in a round of the loop, which may add a handler to the reactor.
  module _ (on_connection : ℕ → ℕ → Reactor K H → ℤ × Reactor K H) where
    abbrev pub given : Acceptor K H → ℕ → ℤ × Reactor K H → Acceptor K H
    given a cfd (pos zero, r) = record a { reactor = r; served = a.served ++ (cfd ∷ []) }
    given a cfd (_, r) = record a { reactor = r; closed = a.closed ++ (cfd ∷ []) }

    -- The loop from round i, of which n are left; `answers` numbers the calls of accept.
    unfoldable pub accept_rounds : (ℕ → Accepted) → ℕ → ℕ → Acceptor K H → Acceptor K H
    unfolding fini
    accept_rounds answers zero i a = a
    accept_rounds answers (suc n) i a = elim (accept (answers i) a.fd) [
      | client cfd ↦ accept_rounds answers n (suc i) (given a cfd (on_connection i cfd a.reactor))
      | exhausted ↦ a
      | interrupted ↦ accept_rounds answers n (suc i) a
      | failed ↦ accept_rounds answers n (suc i) (on_error a)
    ]

    unfoldable pub on_read : (ℕ → Accepted) → Acceptor K H → Acceptor K H
    unfolding accept_rounds
    on_read answers a = accept_rounds answers max_accept_once 0 a
