-- ===== src/TimerManager.antt =====
-- framework/timer_manager.h and framework/timer_manager.cpp: a timing wheel of two levels.
-- A circular list with its sentinel is the list of its timers from head->m_next on. The slots of an
-- array are a function of the index, and `linked id` says that m_next of the timer is not NULL.
-- Times are counters of 64 bits below 2 ^ 63; an `int` that is cut out of one keeps 32 bits.
pub mod Inv
pub mod Fire
pub mod Run
pub mod Skip
pub mod Until
pub mod Start
use frame_work.Prelude.{
  ℕ, zero, suc, ◌+◌, ◌-◌, ◌*◌, ◌/◌, ◌%◌, ◌^◌, Bool, true, false, not, ◌||◌, List, [], ◌∷◌, ◌++◌,
  Option, none, some, ℤ, pos, negsuc, ok, minus_one, minus_two, ltb, leb, ◌==◌, if◌then◌else◌,
  length,
}

pub record Timer : Type 0 where
  pub id : ℕ
  pub expired : ℕ

-- `span` is 1 << m_step_slot_bits, so that `x >> bits` is `x / span` and `x & mask` is `x % span`;
-- `slot_size` is m_step_slot_size. `fired` records the calls of on_timeout, newest first, with
-- m_curr_expired at the call.
pub record Manager : Type 0 where
  pub live : Bool
  pub span : ℕ
  pub slot_size : ℕ
  pub max_expired : ℕ
  pub curr : ℕ
  pub next : ℕ
  pub low_pos : ℕ
  pub high_pos : ℕ
  pub low : ℕ → List Timer
  pub high : ℕ → List Timer
  pub linked : ℕ → Bool
  pub fired : List (Timer × ℕ)

-- The value of an int32_t and of an int16_t with these low bits.
abbrev pub to_int32 : ℕ → ℤ
to_int32 x =
    if ltb (x % 2 ^ 32) (2 ^ 31) then pos (x % 2 ^ 32) else negsuc (2 ^ 32 - x % 2 ^ 32 - 1)

abbrev pub to_int16 : ℕ → ℤ
to_int16 x =
    if ltb (x % 2 ^ 16) (2 ^ 15) then pos (x % 2 ^ 16) else negsuc (2 ^ 16 - x % 2 ^ 16 - 1)

abbrev pub update {ℓ} : {A : Type ℓ} → (ℕ → A) → ℕ → A → ℕ → A
update f i v j = if j == i then v else f j

-- base_timer::base_timer_insert(head->m_prev, timer, head): at the end of the list.
abbrev pub insert : (ℕ → List Timer) → ℕ → Timer → ℕ → List Timer
insert slots i t = update slots i (slots i ++ (t ∷ []))

-- A timer_manager whose constructor has run; what the constructor leaves unset is 0.
unfoldable pub fresh : Manager
fresh = record {
  live = false;
  span = 1;
  slot_size = 0;
  max_expired = 0;
  curr = 0;
  next = 0;
  low_pos = 0;
  high_pos = 0;
  low = λ i. [];
  high = λ i. [];
  linked = λ id. false;
  fired = [];
}

-- init, once slot_bits and m_low_array have been tested; `none` is the exception that `new` throws
-- at a negative size.
unfoldable pub allocate : Manager → ℕ → ℕ → ℤ → Option (ℤ × Manager)
allocate m start bits (negsuc n) = none
allocate m start bits (pos size) = some (
  ok,
  record m {
    live = true;
    span = 2 ^ bits;
    slot_size = size;
    max_expired = size * 2 ^ bits;
    curr = start;
    next = start + size;
    low_pos = 0;
    high_pos = 0;
    low = λ i. [];
    high = λ i. [];
  },
)

unfoldable pub init : Manager → ℕ → ℤ → Option (ℤ × Manager)
unfolding allocate
init m start (negsuc n) = some (minus_one, m)
init m start (pos bits) =
    if ltb bits 3 || ltb 20 bits
    then some (minus_one, m)
    else (if m.live then some (minus_two, m) else allocate m start bits (to_int16 (2 ^ bits)))

-- The arrays are deleted; the timers that were on them keep their links to one another.
unfoldable pub fini : Manager → Manager
fini m = if m.live then record m { live = false; low = λ i. []; high = λ i. [] } else m

-- base_timer::set_expired, which answers -1 on both paths.
unfoldable pub set_expired : Manager → Timer → ℕ → ℤ × Timer
set_expired m t expired =
    if m.linked t.id then (minus_one, t) else (minus_one, record t { expired = expired })

-- The slot of a timer that is `interval` ahead of m_curr_expired.
abbrev pub high_slot : Manager → ℕ → ℕ
high_slot m interval = ((interval + m.low_pos) / m.span + (m.span - 1) + m.high_pos) % m.span

abbrev pub low_slot : Manager → ℕ → ℕ
low_slot m interval = (interval + m.low_pos) % m.span

-- The insertion links the timer.
abbrev pub placed : Manager → Timer → ℕ → Manager
placed m t interval =
    if leb m.slot_size interval
    then record m {
      high = insert m.high (high_slot m interval) t;
      linked = update m.linked t.id true;
    }
    else record m { low = insert m.low (low_slot m interval) t; linked = update m.linked t.id true }

abbrev pub add_interval : Manager → Timer → ℤ → ℤ × Manager
add_interval m t (negsuc n) = (minus_two, m)
add_interval m t (pos i) =
    if ltb i 1 || ltb m.max_expired i
    then (minus_two, m)
    else (ok, record (placed m t i) { next = if ltb t.expired m.next then t.expired else m.next })

unfoldable pub add_timer : Manager → Timer → ℤ × Manager
add_timer m t =
    if not m.live || m.linked t.id
    then (minus_one, m)
    else add_interval m t (to_int32 (t.expired + 2 ^ 64 - m.curr))

-- base_timer::base_timer_remove: the timer leaves the list that it is on.
abbrev pub without : ℕ → List Timer → List Timer
without id [] = []
without id (t ∷ ts) = if t.id == id then without id ts else t ∷ without id ts

abbrev pub unlink : Manager → ℕ → Manager
unlink m id = record m {
  low = λ i. without id (m.low i);
  high = λ i. without id (m.high i);
  linked = update m.linked id false;
}

unfoldable pub del_timer : Manager → ℕ → Manager
del_timer m id = if m.linked id then unlink m id else m

-- What a callback on_timeout does to the manager: it adds and removes timers.
pub data Request : Type 0 where
  adds : Timer → Request
  removes : ℕ → Request

unfoldable pub serve : Manager → List Request → Manager
serve m [] = m
serve m (adds t ∷ rs) = serve (add_timer m t).1 rs
serve m (removes id ∷ rs) = serve (del_timer m id) rs

-- The classes that derive from base_timer: what on_timeout asks for.
abbrev pub Callback : Type 0
Callback = Manager → Timer → List Request

-- The first timer of the list leaves it and is called.
unfoldable pub fire_one : Callback → Manager → Timer → Manager
fire_one on_timeout m t =
    let m' = record (unlink m t.id) { fired = (t, m.curr) ∷ m.fired } in serve m' (on_timeout m' t)

-- while(head != head->m_next), for the low slot at `pos`.

unfoldable pub fire_all : Callback → ℕ → Manager → ℕ → Manager
fire_all on_timeout zero m p = m
fire_all on_timeout (suc f) m p = elim (m.low p) [
  | [] ↦ m
  | t ∷ ts ↦ fire_all on_timeout f (fire_one on_timeout m t) p
]

-- The timers of a high slot, each put in its low slot.
unfoldable pub spread : Manager → (ℕ → List Timer) → List Timer → ℕ → List Timer
spread m low [] = low
spread m low (t ∷ ts) = spread m (insert low ((t.expired - m.curr + m.low_pos) % m.span) t) ts

unfoldable pub cascade : Manager → Manager
cascade m = record m {
  low = spread m m.low (m.high m.high_pos);
  high = update m.high m.high_pos [];
  high_pos = (m.high_pos + 1) % m.span;
}

abbrev pub advance : Manager → Manager
advance m = record m { curr = m.curr + 1; low_pos = (m.low_pos + 1) % m.span }

-- One round of while(m_curr_expired < now).
unfoldable pub tick : Callback → Manager → Manager
tick on_timeout m =
    let m' = advance (fire_all on_timeout (length (m.low m.low_pos)) m m.low_pos) in
    if m'.low_pos == 0 then cascade m' else m'

-- The loop makes one round for each unit from m_curr_expired up to now.
unfoldable pub rounds : Callback → ℕ → Manager → Manager
rounds on_timeout zero m = m
rounds on_timeout (suc n) m = rounds on_timeout n (tick on_timeout m)

abbrev pub skip_by : Manager → ℤ → Manager
skip_by m (negsuc n) = m
skip_by m (pos zero) = m
skip_by m (pos (suc s)) = record m {
  curr = m.curr + suc s;
  high_pos = (m.high_pos + (m.low_pos + suc s) / m.span) % m.span;
  low_pos = (m.low_pos + suc s) % m.span;
}

unfoldable pub skip : Manager → ℕ → Manager
skip m now =
    let target = if ltb m.next now then m.next else now in
    skip_by m (to_int32 (target + 2 ^ 64 - m.curr - 1))

-- for( ; i < m_step_slot_size ; ++i): `n` slots are left.
unfoldable pub first_slot : (ℕ → List Timer) → ℕ → ℕ → ℕ
first_slot low i zero = i
first_slot low i (suc n) = elim (low i) [ [] ↦ first_slot low (i + 1) n | t ∷ ts ↦ i ]

unfoldable pub update_next : Manager → Manager
update_next m =
    if ltb m.next m.curr
    then record m {
      next = m.curr + first_slot m.low m.low_pos (m.slot_size - m.low_pos) - m.low_pos;
    }
    else m

unfoldable pub run_until : Callback → Manager → ℕ → Manager
run_until on_timeout m now =
    let m' = skip m now in update_next (rounds on_timeout (now - m'.curr) m')
