-- ===== src/Tests/Fsms.antt =====
-- Runs of the manager of objects.
use frame_work.Prelude.{
  ℕ, ◌≡◌, ◌≢◌, ◌==◌, inl, inr, ap, refl, Bool-cases, true, false, [], ◌∷◌, Option, some, none,
  if◌then◌else◌, arith,
}
use frame_work.FsmManager.{FsmManager, find, next_id, create_fsm, get_fsm, destroy_fsm}
use frame_work.FsmManager.Lives.{IsSound, create_fsm-IsSound, destroy_fsm-IsSound, create_fsm-loses}

-- Two objects, and a counter that has come round to the first of them.
abbrev two_fsms : FsmManager
two_fsms = record {
  container = (1, 100) ∷ (5, 200) ∷ [];
  seq = 0;
  ids = λ object. if object == 100 then 1 else 5;
  freed = [];
}

abbrev value : Option ℕ → ℕ
value none = 0
value (some object) = object

none-ne : {a : ℕ} → none ≢ some a
none-ne e = cc

-- What the map has.
entries : (id object : ℕ) → find id two_fsms.container ≡ some object → two_fsms.ids object ≡ id
entries id object e = elim (Bool-cases (1 == id)) [
  | inl q ↦
      let k : 100 ≡ object = ap value (rw q at e) in
      let t : (object == 100) ≡ true = ground arith in rw t (ground arith)
  | inr q ↦ elim (Bool-cases (5 == id)) [
    | inl r ↦
        let k : 200 ≡ object = ap value (rw (q, r) at e) in
        let t : (object == 100) ≡ false = ground arith in rw t (ground arith)
    | inr r ↦ absurd (none-ne (rw (q, r) at e))
  ]
]

not_300 : (id : ℕ) → find id two_fsms.container ≢ some 300
not_300 id e = elim (Bool-cases (1 == id)) [
  | inl q ↦ let k : ◌≡◌ {A = ℕ} 100 300 = ap value (rw q at e) in absurd (omega arith)
  | inr q ↦ elim (Bool-cases (5 == id)) [
    | inl r ↦ let k : ◌≡◌ {A = ℕ} 200 300 = ap value (rw (q, r) at e) in absurd (omega arith)
    | inr r ↦ absurd (none-ne (rw (q, r) at e))
  ]
]

two_fsms-IsSound : IsSound two_fsms
two_fsms-IsSound = record { ordered = (omega arith, (omega arith, tt)); own_id = entries }

create_fsm-IsSound_example :
    let (out, m') = create_fsm two_fsms (some 300) in
    IsSound m'
    × (get_fsm m' (m'.ids 300) ≡ some 300)
    × ((id : ℕ)
        → get_fsm m' id ≡ (if id == next_id two_fsms then some 300 else get_fsm two_fsms id))
create_fsm-IsSound_example = create_fsm-IsSound {m = two_fsms} 300 two_fsms-IsSound not_300

destroy_fsm-IsSound_example :
    let m' = destroy_fsm two_fsms 200 in
    IsSound m'
    × (m'.freed ≡ 200 ∷ [])
    × ((id : ℕ) → get_fsm m' id ≡ (if id == two_fsms.ids 200 then none else get_fsm two_fsms id))
unfolding get_fsm
destroy_fsm-IsSound_example = destroy_fsm-IsSound {m = two_fsms} 200 two_fsms-IsSound refl

create_fsm-loses_example :
    let m' = (create_fsm two_fsms (some 300)).1 in
    ((id : ℕ) → get_fsm m' id ≢ some 100) × (m'.freed ≡ two_fsms.freed)
unfolding get_fsm
create_fsm-loses_example = create_fsm-loses {m = two_fsms} 300 100 two_fsms-IsSound not_300 refl
