-- ===== src/UdpDataHandler/Lifecycle.antt =====
-- udp_data_handler::init, both of them, and udp_data_handler::fini. m_port and service_addr, which
-- they only pass on, are left out.
use frame_work.Prelude.{
  ℕ, zero, ◌≡◌, ◌≢◌, ◌⊎◌, inl, inr, refl, ap, ◌∙◌, Bool, true, false, ◌&&◌, List, ◌∷◌, ℤ, pos, ok,
  minus_one, minus_two, minus_three, Option, none, some, if◌then◌else◌, Bool-cases,
}
use frame_work.Buffer.{Buffer, null_buffer, init, fini}
use frame_work.Buffer.Alloc.{Allocator}
use frame_work.TcpDataHandler.Lifecycle.{mark}

-- `fd` is none where sock_fd is negative, and `has_reactor` says that m_reactor is not NULL.
-- `registered` and `closed` are as those of a tcp connection.
pub record Socket : Type 0 where
  pub fd : Option ℕ
  pub has_reactor : Bool
  pub rbuf : Buffer
  pub sbuf : Buffer
  pub registered : ℕ → Bool
  pub closed : List ℕ

abbrev pub init_recv_buf_size : ℤ
init_recv_buf_size = pos 4096

abbrev pub init_send_buf_size : ℤ
init_send_buf_size = pos 8192

-- add_handler and what is behind it; `adds` says that it answers 0.
abbrev pub watched : Bool → ℕ → Socket → ℤ × Socket
watched true fd s =
    (ok, record s { fd = some fd; has_reactor = true; registered = mark s.registered fd true })
watched false fd s = (minus_three, s)

-- init(reactor, fd), whose reactor is not NULL. The answers of the two init are not read, but
-- whether there is memory.
unfoldable pub init_socket : Allocator → Bool → Socket → Option ℕ → ℤ × Socket
unfolding init
init_socket a adds s none = (minus_one, s)
init_socket a adds s (some fd) =
    let s' = record s {
      rbuf = (init a s.rbuf init_recv_buf_size).1;
      sbuf = (init a s.sbuf init_send_buf_size).1;
    } in
    if s'.rbuf.live && s'.sbuf.live then watched adds fd s' else (minus_two, s')

-- close(sock_fd), which stays as it is.
abbrev pub or_close : ℕ → ℤ × Socket → ℤ × Socket
or_close fd (pos zero, s) = (ok, s)
or_close fd (ret, s) = (ret, record s { closed = fd ∷ s.closed })

-- init(reactor, host, port), given what create_udp_client answers.
unfoldable pub init_service : Allocator → Bool → Socket → Option ℕ → ℤ × Socket
unfolding init_socket
init_service a adds s none = (minus_two, record s { fd = none })
init_service a adds s (some fd) =
    or_close fd (init_socket a adds (record s { fd = some fd }) (some fd))

-- Without a reactor the call of del_handler is one through NULL.
abbrev pub ended : Socket → Option ℕ → Bool → Option Socket
ended s none has_reactor = some s
ended s (some fd) false = none
ended s (some fd) true = some (record {
  fd = none;
  has_reactor = false;
  rbuf = fini s.rbuf;
  sbuf = fini s.sbuf;
  registered = mark s.registered fd false;
  closed = fd ∷ s.closed;
})

unfoldable pub fini_socket : Socket → Option Socket
fini_socket s = ended s s.fd s.has_reactor

-- The ends of init(reactor, host, port) on a handler without a reactor, and of the fini behind.
pub record Ends (s : Socket) (created : Option ℕ) (r : ℤ × Socket) : Type 0 where
  pub outcome :
      ((fd : ℕ) × (created ≡ some fd)
        × (r.0 ≡ ok)
        × (r.1.fd ≡ some fd)
        × (r.1.rbuf.live ≡ true)
        × (r.1.sbuf.live ≡ true)
        × (r.1.registered ≡ mark s.registered fd true)
        × (r.1.closed ≡ s.closed)
        × ((s' : Socket) × (fini_socket r.1 ≡ some s')
            × (s'.fd ≡ none)
            × (s'.rbuf ≡ null_buffer)
            × (s'.sbuf ≡ null_buffer)
            × (s'.registered ≡ mark (mark s.registered fd true) fd false)
            × (s'.closed ≡ fd ∷ s.closed)))
      ⊎ (((fd : ℕ) × (created ≡ some fd)
            × (r.0 ≢ ok)
            × (r.1.registered ≡ s.registered)
            × (r.1.closed ≡ fd ∷ s.closed)
            × (fini_socket r.1 ≡ none))
          ⊎ ((created ≡ none) × (r.0 ≢ ok) × (r.1 ≡ record s { fd = none })))

and-both : (b c : Bool) → b && c ≡ true → (b ≡ true) × (c ≡ true)
and-both true true q = (refl, refl)
and-both true false q = absurd (cc)
and-both false c q = absurd (cc)

fini-live : (b : Buffer) → b.live ≡ true → fini b ≡ null_buffer
unfolding fini
fini-live b q = rw q refl

refused-Ends :
    (s s0 : Socket) (fd : ℕ) (ret : ℤ)
    → ret ≢ ok
    → s0.fd ≡ some fd
    → s0.has_reactor ≡ false
    → s0.registered ≡ s.registered
    → s0.closed ≡ fd ∷ s.closed
    → Ends s (some fd) (ret, s0)
unfolding fini_socket
refused-Ends s s0 fd ret n f h g k = record {
  outcome =
      inr (
        inl (fd, refl, n, g, k, ap (λ o. ended s0 o s0.has_reactor) f ∙ ap (ended s0 (some fd)) h));
}

watched-Ends :
    (adds : Bool) (s s0 : Socket) (fd : ℕ)
    → s0.fd ≡ some fd
    → s0.has_reactor ≡ false
    → s0.registered ≡ s.registered
    → s0.closed ≡ s.closed
    → s0.rbuf.live ≡ true
    → s0.sbuf.live ≡ true
    → Ends s (some fd) (or_close fd (watched adds fd s0))
unfolding fini_socket
watched-Ends true s s0 fd f h g k u v = record {
  outcome = inl (
    fd,
    refl,
    refl,
    refl,
    u,
    v,
    ap (λ m. mark m fd true) g,
    k,
    (
      _,
      refl,
      refl,
      fini-live s0.rbuf u,
      fini-live s0.sbuf v,
      ap (λ m. mark (mark m fd true) fd false) g,
      ap (◌∷◌ fd) k,
    ),
  );
}
watched-Ends false s s0 fd f h g k u v =
    refused-Ends s (record s0 { closed = fd ∷ s0.closed }) fd minus_three (λ t. cc) f h g
      (ap (◌∷◌ fd) k)

-- On a handler without a reactor, init with a host ends in one of three ways. It returns 0, has
-- the new descriptor, both buffers have memory, the reactor has the handler, nothing is closed,
-- and the fini behind it takes the handler out, closes the descriptor once and gives both buffers
-- back. Or it returns an error with a descriptor made: this is closed once, the reactor is as
-- before, and the fini behind it reads through NULL. Or no descriptor was made, and only sock_fd
-- is set.
pub init_service-Ends :
    (a : Allocator) (adds : Bool) (s : Socket) (created : Option ℕ)
    → s.has_reactor ≡ false
    → Ends s created (init_service a adds s created)
unfolding init_service
init_service-Ends a adds s none h = record { outcome = inr (inr (refl, (λ t. cc), refl)) }
init_service-Ends a adds s (some fd) h = elim (Bool-cases (rbuf.live && sbuf.live)) [
  | inl q ↦
      let (u, v) = and-both rbuf.live sbuf.live q in
      rw q (watched-Ends adds s s' fd refl h refl refl u v)
  | inr q ↦ rw q (
      refused-Ends s (record s' { closed = fd ∷ s.closed }) fd minus_two (λ t. cc) refl h refl refl)
]
  where
    rbuf : Buffer
    rbuf = (init a s.rbuf init_recv_buf_size).1

    sbuf : Buffer
    sbuf = (init a s.sbuf init_send_buf_size).1

    s' : Socket
    s' = record s { fd = some fd; rbuf = rbuf; sbuf = sbuf }
