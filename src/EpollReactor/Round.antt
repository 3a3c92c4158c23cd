-- ===== src/EpollReactor/Round.antt =====
-- epoll_reactor::run_once. `W` is all state that the callbacks can change, the reactor with it.
use frame_work.Prelude.{
  ℕ, Bool, ◌||◌, List, [], ◌∷◌, Option, none, some, ℤ, pos, negsuc, if◌then◌else◌, get_elem?,
  length,
}
use frame_work.EpollReactor.{Reactor}

-- One event that epoll_wait hands over, with the bits of ev->events that run_once tests.
pub record Ready : Type 0 where
  pub fd : ℕ
  pub epollpri : Bool
  pub epollerr : Bool
  pub epollhup : Bool
  pub epollin : Bool
  pub epollout : Bool

pub data Call : Type 0 where
  on_read on_write on_error : Call

-- What epoll_wait answers: an error, or at most MAX_EVENTS_ONCE events.
pub data Waited : Type 0 where
  failed : Waited
  events : List Ready → Waited

module _ {ℓ κ μ} {K : Type ℓ} {H : Type κ} {W : Type μ} (reactor : W → Reactor K H)
    (callback : Call → H → ℕ → W → W) where
  abbrev pub handler_at : W → ℕ → Option (Option H)
  handler_at w fd = get_elem? (reactor w).handlers fd

  -- A slot outside the table is read where there is no memory, as in a table that fini has freed.
  abbrev pub invoked : Call → ℕ → W → Option (Option H) → Option W
  invoked c fd w (some (some h)) = some (callback c h fd w)
  invoked c fd w (some none) = some w
  invoked c fd w none = none

  -- if ( m_handlers[fd] != NULL) m_handlers[fd]->c(fd)
  unfoldable pub invoke : Call → ℕ → W → Option W
  invoke c fd w = invoked c fd w (handler_at w fd)

  unfoldable pub when : Bool → Call → ℕ → W → Option W
  unfolding invoke
  when b c fd w = if b then invoke c fd w else some w

  abbrev pub and_then : Option W → (W → Option W) → Option W
  and_then none next = none
  and_then (some w) next = next w

  unfoldable pub dispatch : W → Ready → Option W
  unfolding invoke when
  dispatch w ev =
      if ev.epollpri || (ev.epollerr || ev.epollhup)
      then invoke on_error ev.fd w
      else and_then (when ev.epollout on_write ev.fd w) (when ev.epollin on_read ev.fd)

  unfoldable pub dispatch_all : W → List Ready → Option W
  unfolding dispatch
  dispatch_all w [] = some w
  dispatch_all w (ev ∷ evs) = and_then (dispatch w ev) (λ w'. dispatch_all w' evs)

  abbrev pub answered : ℤ → Option W → Option (ℤ × W)
  answered n none = none
  answered n (some w) = some (n, w)

  -- None where a slot is read that is not there.
  unfoldable pub run_once : W → Waited → Option (ℤ × W)
  unfolding dispatch_all
  run_once w failed = some (negsuc 0, w)
  run_once w (events evs) = answered (pos (length evs)) (dispatch_all w evs)
