-- ===== src/EpollReactor.antt =====
-- framework/epoll_reactor.h and framework/epoll_reactor.cpp: the table of handlers by descriptor,
-- beside the descriptors that an epoll instance watches, and one round of its events. epoll is the
-- parameter `Epoll`; `H` is the type of io_handler pointers that are not NULL.
pub mod Table
pub mod Round
pub mod Runs
pub mod Dispatch
use frame_work.Prelude.{
  ℕ, ◌+◌, ◌*◌, ◌/◌, ◌%◌, ◌-◌, ◌^◌, ◌≡◌, Bool, true, false, ◌||◌, List, [], Option, none, some, ℤ,
  pos, negsuc, ok, minus_one, minus_two, minus_three, ltb, leb, ◌==◌, if◌then◌else◌, get_elem?, set,
  replicate,
}

-- ev.events of a registration.
pub record Events : Type 0 where
  pub epollin : Bool
  pub epollout : Bool
  pub epolloneshot : Bool

-- epoll_ctl with EPOLL_CTL_ADD, EPOLL_CTL_MOD and EPOLL_CTL_DEL, which answers none where it fails,
-- epoll_create, and what an instance watches a descriptor for.
pub record Epoll {ℓ} (K : Type ℓ) : Type ℓ where
  pub fresh : K
  pub ctl_add : K → ℕ → Events → Option K
  pub ctl_mod : K → ℕ → Events → Option K
  pub ctl_del : K → ℕ → Option K
  pub watches : K → ℕ → Option Events

-- `epfd` is m_epfd, and `instance_of` what it refers to. `handlers` is the memory of m_handlers.
pub record Reactor {ℓ κ} (K : Type ℓ) (H : Type κ) : Type (ℓ ⊔ κ) where
  pub epfd : ℤ
  pub maxfd : ℕ
  pub handlers : List (Option H)
  pub instance_of : K

abbrev pub is_open : ℤ → Bool
is_open (pos n) = true
is_open (negsuc n) = false

-- A bit of an int, by its weight.
abbrev has_bit : ℕ → ℕ → Bool
has_bit n weight = n / weight % 2 == 1

-- EVENT_READ, EVENT_WRITE and EVENT_ONESHOT: EPOLLIN, EPOLLOUT and EPOLLONESHOT of sys/epoll.h.
abbrev pub event_read : ℕ
event_read = 1

abbrev pub event_write : ℕ
event_write = 4

abbrev pub event_oneshot : ℕ
event_oneshot = 1073741824

-- ev.events, as add_handler and mod_handler build it from event_type.
unfoldable pub events_of : ℕ → Events
events_of event_type = record {
  epollin = has_bit event_type event_read;
  epollout = has_bit event_type event_write;
  epolloneshot = has_bit event_type event_oneshot;
}

abbrev pub min_fd_size : ℕ
min_fd_size = 8

abbrev pub max_events_once : ℕ
max_events_once = 256

abbrev pub below_min : ℤ → Bool
below_min (pos n) = ltb n min_fd_size
below_min (negsuc n) = true

abbrev pub to_nat : ℤ → ℕ
to_nat (pos n) = n
to_nat (negsuc n) = 0

-- Outside none: m_handlers is read where there is no memory.
unfoldable pub get_handler {ℓ κ} : {K : Type ℓ} {H : Type κ} → Reactor K H → ℤ → Option (Option H)
get_handler r (negsuc n) = some none
get_handler r (pos fd) = if leb r.maxfd fd then some none else get_elem? r.handlers fd

-- The answer of epoll_ctl is not read.
abbrev pub after_del {ℓ} : {K : Type ℓ} → K → Option K → K
after_del k none = k
after_del k (some k') = k'

-- How many slots the memory has behind the events, which take 3072 bytes: memsize is an int, and
-- malloc takes a negative one for more bytes than there are.
abbrev pub slots_of : ℕ → Option ℕ
slots_of maxfd =
    let memsize = (3072 + 8 * maxfd) % 2 ^ 32 in
    if ltb memsize (2 ^ 31) then some ((memsize - 3072) / 8) else none

module _ {ℓ κ} {K : Type ℓ} {H : Type κ} (e : Epoll K) where
  -- The constructor.
  unfoldable pub closed : Reactor K H
  closed = record { epfd = minus_one; maxfd = 0; handlers = []; instance_of = e.fresh }
      -- Once epoll_create has answered; `enough` says that malloc gives the memory. Where it does not,

  -- the new descriptor is closed but stays in m_epfd.
  abbrev pub table_of : Reactor K H → ℕ → ℤ → Option ℕ → ℤ × Reactor K H
  table_of r maxfd epfd none = (minus_one, record r { epfd = epfd })
  table_of r maxfd epfd (some slots) = (
    ok,
    record { epfd = epfd; maxfd = maxfd; handlers = replicate slots none; instance_of = e.fresh },
  )

  abbrev pub opened : Reactor K H → ℕ → Bool → ℤ → ℤ × Reactor K H
  opened r maxfd enough (negsuc n) = (minus_one, record r { epfd = negsuc n })
  opened r maxfd false (pos n) = (minus_one, record r { epfd = pos n })
  opened r maxfd true (pos n) = table_of r maxfd (pos n) (slots_of maxfd)

  -- init, given what epoll_create answers.
  unfoldable pub init : Reactor K H → ℤ → ℤ → Bool → ℤ × Reactor K H
  init r maxfd created enough =
      if below_min maxfd || is_open r.epfd
      then (minus_one, r)
      else opened r (to_nat maxfd) enough created

  unfoldable pub fini : Reactor K H → Reactor K H
  fini r = if is_open r.epfd then record r { epfd = minus_one; handlers = [] } else r

  abbrev pub registered : Reactor K H → ℕ → H → Option K → ℤ × Reactor K H
  registered r fd h none = (minus_three, r)
  registered r fd h (some k) =
      (ok, record r { handlers = set r.handlers fd (some h); instance_of = k })

  -- What add_handler and mod_handler share; `ctl` is the epoll_ctl of one of them.
  unfoldable pub put_handler :
      (K → ℕ → Events → Option K) → Reactor K H → ℤ → Option H → ℕ → ℤ × Reactor K H
  put_handler ctl r fd none event_type = (minus_one, r)
  put_handler ctl r (negsuc n) (some h) event_type =
      if is_open r.epfd then (minus_two, r) else (minus_one, r)
  put_handler ctl r (pos fd) (some h) event_type =
      if is_open r.epfd
      then (if leb r.maxfd fd
          then (minus_two, r)
          else registered r fd h (ctl r.instance_of fd (events_of event_type)))
      else (minus_one, r)

  unfoldable pub add_handler : Reactor K H → ℤ → Option H → ℕ → ℤ × Reactor K H
  unfolding put_handler
  add_handler = put_handler e.ctl_add

  unfoldable pub mod_handler : Reactor K H → ℤ → Option H → ℕ → ℤ × Reactor K H
  unfolding put_handler
  mod_handler = put_handler e.ctl_mod

  unfoldable pub del_handler : Reactor K H → ℤ → Reactor K H
  del_handler r (negsuc n) = r
  del_handler r (pos fd) =
      if is_open r.epfd
      then (if leb r.maxfd fd then r else record r {
        handlers = set r.handlers fd none;
        instance_of = after_del r.instance_of (e.ctl_del r.instance_of fd);
      })
      else r
