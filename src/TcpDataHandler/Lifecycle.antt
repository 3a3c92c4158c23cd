-- ===== src/TcpDataHandler/Lifecycle.antt =====
-- tcp_data_handler::init, both of them, and tcp_data_handler::fini. `registered` says which
-- descriptors the reactor has this handler for, and `closed` lists the calls of close, newest first.
use frame_work.Prelude.{
  ℕ, zero, suc, ◌≡◌, ◌≢◌, ◌⊎◌, inl, inr, refl, ap, Bool, true, false, List, ◌∷◌, ℤ, pos, negsuc, ok,
  minus_one, minus_two, minus_three, Option, none, some, ◌==◌, if◌then◌else◌, Bool-cases,
}
use frame_work.Buffer.{Buffer, null_buffer, data_size, clear, fini, resize}
use frame_work.Buffer.Alloc.{Allocator, IsLawful}
use frame_work.Buffer.Inv.{IsValid, resize-IsValid}

-- `fd` is none where m_id.fd is -1.
pub record Connection : Type 0 where
  pub fd : Option ℕ
  pub timestamp : ℕ
  pub rbuf : Buffer
  pub sbuf : Buffer
  pub readall_flag : Bool
  pub registered : ℕ → Bool
  pub closed : List ℕ

abbrev pub mark : (ℕ → Bool) → ℕ → Bool → ℕ → Bool
mark f i v j = if j == i then v else f j

-- What the reactor and the clock answer: `adds` that add_handler succeeds, `time` the time.
pub record World : Type 0 where
  pub adds : Bool
  pub time : ℕ

abbrev pub registers : World → ℕ → Connection → ℤ × Connection
registers w fd c =
    if w.adds
    then (
      ok,
      record c {
        fd = some fd;
        timestamp = w.time;
        readall_flag = true;
        registered = mark c.registered fd true;
      },
    )
    else (minus_three, c)

abbrev pub with_sbuf : World → ℕ → Connection → ℤ × Buffer → ℤ × Connection
with_sbuf w fd c (pos zero, b) = registers w fd (record c { sbuf = b })
with_sbuf w fd c (_, b) = (minus_two, record c { sbuf = b })

abbrev pub with_rbuf : Allocator → World → ℕ → ℤ → Connection → ℤ × Buffer → ℤ × Connection
with_rbuf a w fd buf_size c (pos zero, b) =
    with_sbuf w fd (record c { rbuf = b }) (resize a c.sbuf buf_size)
with_rbuf a w fd buf_size c (_, b) = (minus_two, record c { rbuf = b })

-- The last argument is m_id.fd.
abbrev pub unless_open : Allocator → World → ℕ → ℤ → Connection → Option ℕ → ℤ × Connection
unless_open a w fd buf_size c (some old) = (minus_one, c)
unless_open a w fd buf_size c none = with_rbuf a w fd buf_size c (resize a c.rbuf buf_size)

-- init(reactor, fd, buf_size); `none` is a negative fd. The reactor is not NULL.
unfoldable pub init_fd : Allocator → World → Connection → Option ℕ → ℤ → ℤ × Connection
init_fd a w c none buf_size = (minus_one, c)
init_fd a w c (some fd) buf_size = unless_open a w fd buf_size c c.fd

abbrev pub or_close : ℕ → ℤ × Connection → ℤ × Connection
or_close fd (pos zero, c) = (ok, c)
or_close fd (ret, c) = (ret, record c { closed = fd ∷ c.closed })

unfoldable pub unless_connected :
    Allocator → World → Option ℕ → ℤ → Connection → Option ℕ → ℤ × Connection
unfolding init_fd
unless_connected a w connected buf_size c (some old) = (minus_one, c)
unless_connected a w none buf_size c none = (minus_two, c)
unless_connected a w (some fd) buf_size c none = or_close fd (init_fd a w c (some fd) buf_size)

-- init(reactor, host, port, buf_size), given what create_tcp_client answers. The host is not NULL.
unfoldable pub init_host : Allocator → World → Connection → Option ℕ → ℤ → ℤ × Connection
unfolding unless_connected
init_host a w c connected buf_size = unless_connected a w connected buf_size c c.fd

abbrev pub released : Bool → Connection → Connection
released release c = if release then record c { rbuf = fini c.rbuf; sbuf = fini c.sbuf } else c

abbrev pub ended : Connection → Option ℕ → Connection
ended c none = c
ended c (some fd) = record c {
  fd = none;
  timestamp = 0;
  rbuf = clear c.rbuf;
  sbuf = clear c.sbuf;
  registered = mark c.registered fd false;
  closed = fd ∷ c.closed;
}

-- fini(release)
unfoldable pub fini_connection : Bool → Connection → Connection
fini_connection release c = released release (ended c c.fd)

abbrev number : Option ℕ → ℕ
number none = 0
number (some fd) = fd

abbrev closes : Option ℕ → List ℕ → List ℕ
closes none fds = fds
closes (some fd) fds = fd ∷ fds

-- The two ends of init(reactor, host, ...): a connection that the reactor watches and nothing
-- closed; or no connection, the reactor's table as before, and the new descriptor, if there is one,
-- closed once.
pub record Opens (c : Connection) (connected : Option ℕ) (r : ℤ × Connection) : Type 0 where
  pub rbuf_valid : IsValid r.1.rbuf
  pub sbuf_valid : IsValid r.1.sbuf
  pub outcome :
      ((r.0 ≡ ok)
        × (r.1.fd ≡ connected)
        × (connected ≢ none)
        × (r.1.closed ≡ c.closed)
        × (r.1.registered ≡ mark c.registered (number connected) true))
      ⊎ ((r.0 ≢ ok)
          × (r.1.fd ≡ none)
          × (r.1.registered ≡ c.registered)
          × (r.1.closed ≡ closes connected c.closed))

registers-Opens :
    (w : World) (c c0 : Connection) (fd : ℕ)
    → c0.fd ≡ none
    → c0.closed ≡ c.closed
    → c0.registered ≡ c.registered
    → IsValid c0.rbuf
    → IsValid c0.sbuf
    → Opens c (some fd) (or_close fd (registers w fd c0))
registers-Opens w c c0 fd n k g v u = elim (Bool-cases w.adds) [
  | inl e ↦ simp e (record {
    rbuf_valid = v;
    sbuf_valid = u;
    outcome = inl (refl, refl, (λ t. cc), k, ap (λ f. mark f fd true) g);
  })
  | inr e ↦
      simp e
        (record { rbuf_valid = v; sbuf_valid = u; outcome = inr ((λ t. cc), n, g, ap (◌∷◌ fd) k) })
]

with_sbuf-Opens :
    (w : World) (c c0 : Connection) (fd : ℕ) (r : ℤ × Buffer)
    → c0.fd ≡ none
    → c0.closed ≡ c.closed
    → c0.registered ≡ c.registered
    → IsValid c0.rbuf
    → IsValid r.1
    → Opens c (some fd) (or_close fd (with_sbuf w fd c0 r))
with_sbuf-Opens w c c0 fd (pos zero, b) n k g v u =
    registers-Opens w c (record c0 { sbuf = b }) fd n k g v u
with_sbuf-Opens w c c0 fd (pos (suc i), b) n k g v u = record {
  rbuf_valid = v;
  sbuf_valid = u;
  outcome = inr ((λ t. cc), n, g, ap (◌∷◌ fd) k);
}
with_sbuf-Opens w c c0 fd (negsuc i, b) n k g v u = record {
  rbuf_valid = v;
  sbuf_valid = u;
  outcome = inr ((λ t. cc), n, g, ap (◌∷◌ fd) k);
}

with_rbuf-Opens :
    (a : Allocator) (w : World) (c : Connection) (fd : ℕ) (buf_size : ℤ) (r : ℤ × Buffer)
    → buf_size ≢ pos 0
    → IsLawful a
    → c.fd ≡ none
    → IsValid r.1
    → IsValid c.sbuf
    → Opens c (some fd) (or_close fd (with_rbuf a w fd buf_size c r))
with_rbuf-Opens a w c fd buf_size (pos zero, b) z l n v u =
    with_sbuf-Opens w c (record c { rbuf = b }) fd (resize a c.sbuf buf_size) n refl refl v
      (resize-IsValid buf_size z l u)
with_rbuf-Opens a w c fd buf_size (pos (suc i), b) z l n v u = record {
  rbuf_valid = v;
  sbuf_valid = u;
  outcome = inr ((λ t. cc), n, refl, refl);
}
with_rbuf-Opens a w c fd buf_size (negsuc i, b) z l n v u = record {
  rbuf_valid = v;
  sbuf_valid = u;
  outcome = inr ((λ t. cc), n, refl, refl);
}

opened :
    (a : Allocator) (w : World) (c : Connection) (fd : ℕ) (buf_size : ℤ) (old : Option ℕ)
    → buf_size ≢ pos 0
    → IsLawful a
    → c.fd ≡ none
    → old ≡ none
    → IsValid c.rbuf
    → IsValid c.sbuf
    → Opens c (some fd) (or_close fd (unless_open a w fd buf_size c old))
opened a w c fd buf_size (some o) z l n e v u = absurd (some-ne-none e)
  where
    some-ne-none : {o : ℕ} → some o ≢ none
    some-ne-none q = cc
opened a w c fd buf_size none z l n e v u =
    with_rbuf-Opens a w c fd buf_size (resize a c.rbuf buf_size) z l n
      (resize-IsValid buf_size z l v) u

connected-Opens :
    (a : Allocator) (w : World) (c : Connection) (connected : Option ℕ) (buf_size : ℤ)
    (old : Option ℕ)
    → buf_size ≢ pos 0
    → IsLawful a
    → c.fd ≡ none
    → old ≡ none
    → IsValid c.rbuf
    → IsValid c.sbuf
    → Opens c connected (unless_connected a w connected buf_size c old)
unfolding unless_connected init_fd
connected-Opens a w c connected buf_size (some o) z l n e v u = absurd (some-ne-none e)
  where
    some-ne-none : {o : ℕ} → some o ≢ none
    some-ne-none q = cc
connected-Opens a w c none buf_size none z l n e v u = record {
  rbuf_valid = v;
  sbuf_valid = u;
  outcome = inr ((λ t. cc), n, refl, refl);
}
connected-Opens a w c (some fd) buf_size none z l n e v u =
    opened a w c fd buf_size c.fd z l n n v u

-- init(reactor, host, port, buf_size), with a buf_size that is not 0, of a handler that is not
-- connected, with a lawful allocator and valid buffers: it leaves valid buffers, and either
-- returns 0, with the new descriptor kept and registered and nothing closed, or returns another
-- value, with no descriptor kept, the reactor's table as before, and the new descriptor, if
-- create_tcp_client gave one, closed once.
pub init_host-Opens :
    {a : Allocator} (w : World) (c : Connection) (connected : Option ℕ) (buf_size : ℤ)
    → buf_size ≢ pos 0
    → IsLawful a
    → c.fd ≡ none
    → IsValid c.rbuf
    → IsValid c.sbuf
    → Opens c connected (init_host a w c connected buf_size)
unfolding init_host
init_host-Opens {a} w c connected buf_size z l n v u =
    connected-Opens a w c connected buf_size c.fd z l n n v u

freed : (b : Buffer) → data_size (fini (clear b)) ≡ 0
unfolding fini clear null_buffer
freed b = elim (Bool-cases b.live) [ inl e ↦ simp e refl | inr e ↦ simp e refl ]

-- fini, with or without release, of a handler that has a descriptor: it keeps none, has closed it
-- once more, the reactor has no handler for it, the table is otherwise as before, and both buffers
-- hold no bytes.
pub fini_connection-closes :
    (release : Bool) (c : Connection) (fd : ℕ)
    → c.fd ≡ some fd
    → let c' = fini_connection release c in
      (c'.fd ≡ none)
      × (c'.closed ≡ fd ∷ c.closed)
      × (c'.registered ≡ mark c.registered fd false)
      × (data_size c'.rbuf ≡ 0)
      × (data_size c'.sbuf ≡ 0)
unfolding fini_connection clear
fini_connection-closes true c fd e = rw e (refl, refl, refl, freed c.rbuf, freed c.sbuf)
fini_connection-closes false c fd e = rw e (refl, refl, refl, refl, refl)
