-- ===== src/TcpConnection/Lifecycle.antt =====
-- tcp_connection::init, both of them, and tcp_connection::fini. `registered` says which descriptors
-- the reactor has this connection for, and `closed` lists the calls of close, newest first.
use frame_work.Prelude.{
  ℕ, zero, Bool, true, false, not, ◌||◌, List, ◌∷◌, ℤ, pos, ok, minus_one, minus_two, minus_three,
  Option, none, some, if◌then◌else◌,
}
use frame_work.Buffer.{Buffer, init, fini}
use frame_work.Buffer.Alloc.{Allocator}
use frame_work.TcpDataHandler.Lifecycle.{mark, World}

-- The calls of the packet_processor, newest first.
pub data Notice : Type 0 where
  on_connected on_disconnect : Notice

-- `fd` is none where m_id.fd is -1.
pub record TcpConnection : Type 0 where
  pub fd : Option ℕ
  pub timestamp : ℕ
  pub rbuf : Buffer
  pub sbuf : Buffer
  pub registered : ℕ → Bool
  pub closed : List ℕ
  pub notices : List Notice

abbrev pub added : World → ℕ → TcpConnection → ℤ × TcpConnection
added w fd c =
    if w.adds
    then (
      ok,
      record c {
        fd = some fd;
        timestamp = w.time;
        registered = mark c.registered fd true;
        notices = on_connected ∷ c.notices;
      },
    )
    else (minus_three, c)

-- The answers of the two calls of buffer::init are not read, but whether there is memory is.
abbrev pub with_buffers : World → ℕ → TcpConnection → ℤ × TcpConnection
with_buffers w fd c = if not c.rbuf.live || not c.sbuf.live then (minus_two, c) else added w fd c

-- The last argument is m_id.fd.
abbrev pub unless_used : Allocator → World → ℕ → TcpConnection → Option ℕ → ℤ × TcpConnection
unless_used a w fd c (some old) = (minus_one, c)
unless_used a w fd c none =
    with_buffers w fd
      (record c { rbuf = (init a c.rbuf (pos 1024)).1; sbuf = (init a c.sbuf (pos 1024)).1 })

-- init(reactor, fd, processor); `none` is a negative fd. The pointers are not NULL.
unfoldable pub init_with : Allocator → World → TcpConnection → Option ℕ → ℤ × TcpConnection
init_with a w c none = (minus_one, c)
init_with a w c (some fd) = unless_used a w fd c c.fd

abbrev pub or_closed : ℕ → ℤ × TcpConnection → ℤ × TcpConnection
or_closed fd (pos zero, c) = (ok, c)
or_closed fd (ret, c) = (ret, record c { closed = fd ∷ c.closed })

abbrev pub connected_to :
    Allocator → World → Option ℕ → TcpConnection → Option ℕ → ℤ × TcpConnection
connected_to a w created c (some old) = (minus_one, c)
connected_to a w none c none = (minus_two, c)
connected_to a w (some fd) c none = or_closed fd (init_with a w c (some fd))

-- init(reactor, host, port, processor), given what create_tcp_client answers.
unfoldable pub init_to : Allocator → World → TcpConnection → Option ℕ → ℤ × TcpConnection
unfolding init_with
init_to a w c created = connected_to a w created c c.fd

abbrev pub ended : TcpConnection → Option ℕ → TcpConnection
ended c none = c
ended c (some fd) = record c {
  fd = none;
  timestamp = 0;
  rbuf = fini c.rbuf;
  sbuf = fini c.sbuf;
  registered = mark c.registered fd false;
  closed = fd ∷ c.closed;
  notices = on_disconnect ∷ c.notices;
}

unfoldable pub fini_all : TcpConnection → TcpConnection
fini_all c = ended c c.fd
