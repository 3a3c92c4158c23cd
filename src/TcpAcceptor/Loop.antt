-- ===== src/TcpAcceptor/Loop.antt =====
-- Where the descriptors of one call of on_read go.
use frame_work.Prelude.{
  ℕ, zero, suc, ◌+◌, ◌≡◌, refl, ap, ◌∙◌, List, [], ◌∷◌, Option, none, some, ℤ, ◌==◌, if◌then◌else◌,
}
use frame_work.EpollReactor.{Epoll, Reactor}
use frame_work.TcpAcceptor.{
  Acceptor, Accepted, client, exhausted, interrupted, failed, accept, stopped, accept_rounds, fini,
}

-- The descriptors that accept makes in n rounds from i, up to an answer that ends them.
abbrev pub clients : (ℕ → Accepted) → ℕ → ℕ → List ℕ
clients answers zero i = []
clients answers (suc n) i = elim (answers i) [
  | client cfd ↦ cfd ∷ clients answers n (suc i)
  | exhausted ↦ []
  | interrupted ↦ clients answers n (suc i)
  | failed ↦ []
]

-- How often a number is in a list, and whether it is the listening descriptor.
abbrev pub count : ℕ → List ℕ → ℕ
count d [] = 0
count d (x ∷ xs) = (if x == d then 1 else 0) + count d xs

abbrev pub held : Option ℕ → ℕ → ℕ
held none d = 0
held (some fd) d = if fd == d then 1 else 0

module _ {ℓ κ} {K : Type ℓ} {H : Type κ} where
  -- The places of a descriptor: served, closed, listening.
  abbrev pub places : Acceptor K H → ℕ → ℕ
  places a d = count d a.served + count d a.closed + held a.fd d

module _ {ℓ κ} {K : Type ℓ} {H : Type κ} (e : Epoll K) (self : H)
    (f : ℕ → ℕ → Reactor K H → ℤ × Reactor K H) where
  fini-closed : (a : Acceptor K H) → a.fd ≡ none → fini e self a ≡ a
  unfolding fini
  fini-closed a c = ap (stopped e self a) c

  pub closed_rounds :
      (answers : ℕ → Accepted) (n i : ℕ) (a : Acceptor K H)
      → a.fd ≡ none
      → accept_rounds e self f answers n i a ≡ a
  unfolding accept_rounds
  closed_rounds answers zero i a c = refl
  closed_rounds answers (suc n) i a c =
      let q : accept (answers i) a.fd ≡ failed = ap (accept (answers i)) c in
      rw (q, accept_rounds)
        (ap (accept_rounds e self f answers n (suc i)) (fini-closed a c)
          ∙ closed_rounds answers n (suc i) a c)
