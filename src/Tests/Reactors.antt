-- ===== src/Tests/Reactors.antt =====
-- Runs of the reactor, on an epoll instance that is a function of the descriptor.
use frame_work.Prelude.{
  arith, ℕ, ◌∙◌, length, ◌≡◌, refl, ap, sym, true, false, List, [], ◌∷◌, Option, none, some, ℤ, pos,
  negsuc, ◌==◌, if◌then◌else◌,
}
use frame_work.EpollReactor.{
  Events, Epoll, Reactor, closed, init, get_handler, add_handler, del_handler,
}
use frame_work.EpollReactor.Table.{is_some, IsEpoll, IsTable}
use frame_work.EpollReactor.Runs.{
  Op, add, modify, del, run, step-IsTable, run-IsTable, del_handler-add_handler,
}
use frame_work.EpollReactor.Round.{Ready, Call, on_read, on_write, on_error, events, run_once}
use frame_work.EpollReactor.Dispatch.{made_all, run_once-made, run_once-keeps}

abbrev pub Watched : Type 0
Watched = ℕ → Option Events

abbrev put : Watched → ℕ → Option Events → Watched
put k fd o j = if j == fd then o else k j

abbrev if_free : Option Events → Watched → Option Watched
if_free none k = some k
if_free (some ev) k = none

abbrev if_watched : Option Events → Watched → Option Watched
if_watched none k = none
if_watched (some ev) k = some k

abbrev pub epoll : Epoll Watched
epoll = record {
  fresh = λ fd. none;
  ctl_add = λ k fd ev. if_free (k fd) (put k fd (some ev));
  ctl_mod = λ k fd ev. if_watched (k fd) (put k fd (some ev));
  ctl_del = λ k fd. if_watched (k fd) (put k fd none);
  watches = λ k. k;
}

if_free_lem : (o : Option Events) (k k' : Watched) → if_free o k ≡ some k' → (o ≡ none) × (k ≡ k')
if_free_lem none k k' e = (refl, cc)
if_free_lem (some ev) k k' e = absurd (cc)

if_watched_lem :
    (o : Option Events) (k k' : Watched) → if_watched o k ≡ some k' → (is_some o ≡ true) × (k ≡ k')
if_watched_lem none k k' e = absurd (cc)
if_watched_lem (some ev) k k' e = (refl, cc)

if_watched-none : (o : Option Events) (k : Watched) → if_watched o k ≡ none → o ≡ none
if_watched-none none k e = refl
if_watched-none (some ev) k e = absurd (cc)

pub epoll-IsEpoll : IsEpoll epoll
epoll-IsEpoll = record {
  created = λ fd. refl;
  added = λ k fd ev k' e. let l = if_free_lem (k fd) _ k' e in (l.0, λ j. ap (λ f. f j) (sym l.1));
  modified =
      λ k fd ev k' e. let l = if_watched_lem (k fd) _ k' e in (l.0, λ j. ap (λ f. f j) (sym l.1));
  deleted = λ k fd k' e j. ap (λ f. f j) (sym (if_watched_lem (k fd) _ k' e).1);
  refused = λ k fd e. if_watched-none (k fd) _ e;
}

abbrev pub Slots : Type 0
Slots = Reactor Watched ℕ

abbrev start : Slots
start = closed epoll

abbrev calls : List (Op ℕ)
calls =
    add (pos 5) (some 7) 5
    ∷ add (pos 9) (some 8) 1
    ∷ modify (pos 5) (some 9) 1
    ∷ del (negsuc 0)
    ∷ []

run-IsTable_example :
    IsTable epoll (run epoll (init epoll start (pos 9) (pos 3) true).1 calls)
    × ((fd : ℤ)
        → (o : Option ℕ) × (get_handler
              (run epoll (init epoll start (pos 9) (pos 3) true).1 calls)
              fd
            ≡ some o))
unfolding init closed
run-IsTable_example =
    run-IsTable epoll start (pos 9) (pos 3) true calls epoll-IsEpoll (omega arith) refl

abbrev pub served : Slots
served = run epoll (init epoll start (pos 9) (pos 3) true).1 calls

pub served-IsTable : IsTable epoll served
unfolding init closed
served-IsTable =
    (run-IsTable epoll start (pos 9) (pos 3) true calls epoll-IsEpoll (omega arith) refl).0

-- A server that writes down its calls.
abbrev Logged : Type 0
Logged = Slots × List (Call × ℕ × ℕ)

abbrev table_of : Logged → Slots
table_of w = w.0

abbrev log : Call → ℕ → ℕ → Logged → Logged
log c h fd (r, done) = (r, (c, h, fd) ∷ done)

abbrev both : Ready
both = record {
  fd = 5;
  epollpri = false;
  epollerr = false;
  epollhup = false;
  epollin = true;
  epollout = true;
}

abbrev hung_up : Ready
hung_up = record both { fd = 4; epollhup = true }

served-wide : length served.handlers ≡ 9
unfolding init closed frame_work.EpollReactor.add_handler frame_work.EpollReactor.mod_handler
    del_handler
served-wide = served-IsTable.slots

run_once-made_example :
    run_once table_of log (served, []) (events (both ∷ hung_up ∷ []))
    ≡ some (pos 2, made_all table_of log served.handlers (served, []) (both ∷ hung_up ∷ []))
run_once-made_example =
    run_once-made table_of log (served, []) (both ∷ hung_up ∷ [])
      (omega (arith, served-wide), (omega (arith, served-wide), tt)) λ c h fd w. refl

-- A handler that leaves the table when it can write, so that it is not called to read.
abbrev leave : Call → ℕ → ℕ → Logged → Logged
leave on_write h fd (r, done) = (del_handler epoll r (pos fd), (on_write, h, fd) ∷ done)
leave c h fd w = log c h fd w

abbrev Safe : Logged → Type 0
Safe w = IsTable epoll w.0 × (w.0.maxfd ≡ 9)

del_handler-maxfd : (r : Slots) (fd : ℕ) → (del_handler epoll r (pos fd)).maxfd ≡ r.maxfd
unfolding del_handler
del_handler-maxfd r fd = ground arith

leave-Safe : (c : Call) (h fd : ℕ) (w : Logged) → Safe w → Safe (leave c h fd w)
leave-Safe on_write h fd w (v, m) =
    (step-IsTable epoll (del (pos fd)) epoll-IsEpoll v, del_handler-maxfd w.0 fd ∙ m)
leave-Safe on_read h fd w v = v
leave-Safe on_error h fd w v = v

served-Safe : Safe (served, [])
unfolding init closed frame_work.EpollReactor.add_handler frame_work.EpollReactor.mod_handler
    del_handler
served-Safe = (served-IsTable, refl)

run_once-keeps_example :
    (w' : Logged) × (run_once table_of leave (served, []) (events (both ∷ [])) ≡ some (pos 1, w'))
    × Safe w'
run_once-keeps_example =
    run_once-keeps table_of leave {I = Safe} (served, []) (events (both ∷ [])) 9
      ((λ c h w a g v. leave-Safe c h 5 w v), tt) (λ w v. omega (arith, v.0.slots, v.1))
      (omega arith, tt) served-Safe

del_handler-add_handler_example :
    (get_handler (del_handler epoll (add_handler epoll served (pos 6) (some 4) 1).1 (pos 6)) (pos 6)
      ≡ get_handler served (pos 6))
    × (is_some (
          epoll.watches
            (del_handler epoll (add_handler epoll served (pos 6) (some 4) 1).1 (pos 6)).instance_of
            6)
        ≡ is_some (epoll.watches served.instance_of 6))
unfolding add_handler init closed del_handler frame_work.EpollReactor.mod_handler
del_handler-add_handler_example =
    del_handler-add_handler epoll 6 4 1 epoll-IsEpoll served-IsTable refl 6
