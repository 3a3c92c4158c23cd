-- ===== src/FsmManager.antt =====
-- framework/fsm_manager.h and framework/fsm_manager.cpp: objects that are found by an identifier.
-- An object is its address. `ids` is m_id of every object, `freed` the objects that free_fsm was
-- called with, newest first; std::map is the list of its entries, in the order of the identifiers.
pub mod Lives
use frame_work.Prelude.{
  ℕ, zero, suc, ◌+◌, ◌%◌, ◌^◌, Bool, true, false, List, [], ◌∷◌, ◌++◌, Option, none, some, ltb,
  ◌==◌, if◌then◌else◌, length,
}

pub record FsmManager : Type 0 where
  pub container : List (ℕ × ℕ)
  pub seq : ℕ
  pub ids : ℕ → ℕ
  pub freed : List ℕ

-- std::map: find, operator[] with an assignment, and erase.
abbrev pub find : ℕ → List (ℕ × ℕ) → Option ℕ
find id [] = none
find id ((k, object) ∷ es) = if k == id then some object else find id es

abbrev pub store : ℕ → ℕ → List (ℕ × ℕ) → List (ℕ × ℕ)
store id object [] = (id, object) ∷ []
store id object ((k, o) ∷ es) =
    if k == id
    then (id, object) ∷ es
    else (if ltb id k then (id, object) ∷ ((k, o) ∷ es) else (k, o) ∷ store id object es)

abbrev pub erase_entry : ℕ → List (ℕ × ℕ) → List (ℕ × ℕ)
erase_entry id [] = []
erase_entry id ((k, o) ∷ es) = if k == id then es else (k, o) ∷ erase_entry id es

unfoldable pub fresh : FsmManager
fresh = record { container = []; seq = 0; ids = λ object. 0; freed = [] }

-- FSM_ID_MASK is 0xffffff.
abbrev pub next_id : FsmManager → ℕ
next_id m = (m.seq + 1) % 2 ^ 24

-- create_fsm, given what alloc_fsm answers.
unfoldable pub create_fsm : FsmManager → Option ℕ → Option ℕ × FsmManager
create_fsm m none = (none, m)
create_fsm m (some object) = (
  some object,
  record m {
    seq = next_id m;
    ids = λ o. if o == object then next_id m else m.ids o;
    container = store (next_id m) object m.container;
  },
)

unfoldable pub get_fsm : FsmManager → ℕ → Option ℕ
get_fsm m fsm_id = find fsm_id m.container

abbrev pub destroyed : FsmManager → ℕ → Option ℕ → FsmManager
destroyed m object none = m
destroyed m object (some it) = record m {
  container = erase_entry (m.ids object) m.container;
  freed = object ∷ m.freed;
}

unfoldable pub destroy_fsm : FsmManager → ℕ → FsmManager
destroy_fsm m object = destroyed m object (find (m.ids object) m.container)

abbrev pub free_all : List (ℕ × ℕ) → List ℕ → List ℕ
free_all [] freed = freed
free_all ((k, o) ∷ es) freed = free_all es (o ∷ freed)

unfoldable pub clear : FsmManager → FsmManager
clear m = record m { container = []; freed = free_all m.container m.freed }

abbrev pub size : FsmManager → ℕ
size m = length m.container
