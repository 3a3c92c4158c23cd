-- ===== src/FsmManager/Lives.antt =====
-- framework/fsm_manager.cpp: the map as a function of the identifier, and what the calls do to it.
use frame_work.Prelude.{
  ℕ, suc, ◌≤◌, ◌<◌, ◌≡◌, ◌≢◌, inl, inr, refl, sym, ap, subst, ◌∙◌, true, false, List, [], ◌∷◌, none,
  some, ltb, ◌==◌, if◌then◌else◌, Bool-cases, arith,
}
use frame_work.FsmManager.{
  FsmManager, find, store, erase_entry, next_id, create_fsm, get_fsm, destroy_fsm,
}

-- No key is below `bound`, and the keys go up.
abbrev pub Ascends : ℕ → List (ℕ × ℕ) → Type 0
Ascends bound [] = Unit {0}
Ascends bound ((k, o) ∷ es) = (bound ≤ k) × Ascends (suc k) es

Ascends-find :
    (bound id : ℕ) (es : List (ℕ × ℕ)) → Ascends bound es → id < bound → find id es ≡ none
Ascends-find bound id [] a h = refl
Ascends-find bound id ((k, o) ∷ es) (b, a) h =
    let e : (k == id) ≡ false = ground arith in rw e (Ascends-find (suc k) id es a (omega arith))

Ascends-store :
    (bound id object : ℕ) (es : List (ℕ × ℕ))
    → Ascends bound es
    → bound ≤ id
    → Ascends bound (store id object es)
Ascends-store bound id object [] a h = (h, tt)
Ascends-store bound id object ((k, o) ∷ es) (b, a) h = elim (Bool-cases (k == id)) [
  | inl e ↦ let q : k ≡ id = ground arith in rw e (h, subst (λ i. Ascends (suc i) es) q a)
  | inr e ↦ elim (Bool-cases (ltb id k)) [
    | inl l ↦ rw (e, l) (h, (ground arith, a))
    | inr l ↦ rw (e, l) (b, Ascends-store (suc k) id object es a (ground arith))
  ]
]

Ascends-lower :
    (low bound : ℕ) (es : List (ℕ × ℕ)) → low ≤ bound → Ascends bound es → Ascends low es
Ascends-lower low bound [] h a = tt
Ascends-lower low bound ((k, o) ∷ es) h (b, a) = (omega arith, a)

Ascends-erase_entry :
    (bound id : ℕ) (es : List (ℕ × ℕ)) → Ascends bound es → Ascends bound (erase_entry id es)
Ascends-erase_entry bound id [] a = tt
Ascends-erase_entry bound id ((k, o) ∷ es) (b, a) = elim (Bool-cases (k == id)) [
  | inl e ↦ rw e (Ascends-lower bound (suc k) es (omega arith) a)
  | inr e ↦ rw e (b, Ascends-erase_entry (suc k) id es a)
]

-- std::map as a function.
find-store :
    (bound id object other : ℕ) (es : List (ℕ × ℕ))
    → Ascends bound es
    → find other (store id object es) ≡ (if other == id then some object else find other es)
find-store bound id object other [] a = ground arith
find-store bound id object other ((k, o) ∷ es) (b, a) = elim (Bool-cases (k == id)) [
  | inl e ↦ rw e (ground arith)
  | inr e ↦ elim (Bool-cases (ltb id k)) [
    | inl l ↦ rw (e, l) (ground arith)
    | inr l ↦
        rw (e, l)
          (elim (Bool-cases (k == other)) [
            | inl q ↦ let n : (other == id) ≡ false = ground arith in rw (q, n) refl
            | inr q ↦ rw q (find-store (suc k) id object other es a)
          ])
  ]
]

find-erase_entry :
    (bound id other : ℕ) (es : List (ℕ × ℕ))
    → Ascends bound es
    → find other (erase_entry id es) ≡ (if other == id then none else find other es)
find-erase_entry bound id other [] a = ground arith
find-erase_entry bound id other ((k, o) ∷ es) (b, a) = elim (Bool-cases (k == id)) [
  | inl e ↦ rw e (elim (Bool-cases (other == id)) [
    | inl q ↦ rw q (Ascends-find (suc k) other es a (ground arith))
    | inr q ↦ let n : (k == other) ≡ false = ground arith in rw (q, n) refl
  ])
  | inr e ↦ rw e (elim (Bool-cases (k == other)) [
    | inl q ↦ let n : (other == id) ≡ false = ground arith in rw (q, n) refl
    | inr q ↦ rw q (find-erase_entry (suc k) id other es a)
  ])
]

-- The map is in order, and an entry's key is m_id of its object.
pub record IsSound (m : FsmManager) : Type 0 where
  pub ordered : Ascends 0 m.container
  pub own_id : (id object : ℕ) → find id m.container ≡ some object → m.ids object ≡ id

none-ne-some : {a : ℕ} → none ≢ some a
none-ne-some e = cc

some_eq : {a b : ℕ} → some a ≡ some b → a ≡ b
some_eq {a} {b} e = ap (λ o. elim o [ none ↦ a | some x ↦ x ]) e

-- create_fsm on a sound manager, given an object that is not in the map: the manager stays sound,
-- the object is found by its m_id, and every other identifier finds what it found before.
pub create_fsm-IsSound :
    {m : FsmManager} (object : ℕ)
    → IsSound m
    → ((id : ℕ) → find id m.container ≢ some object)
    → let (out, m') = create_fsm m (some object) in
      IsSound m'
      × (get_fsm m' (m'.ids object) ≡ some object)
      × ((id : ℕ) → get_fsm m' id ≡ (if id == next_id m then some object else get_fsm m id))
unfolding create_fsm get_fsm
create_fsm-IsSound {m} object v new = (
  record {
    ordered = Ascends-store 0 (next_id m) object m.container v.ordered (omega arith);
    own_id =
        λ id o e. own id o (sym (find-store 0 (next_id m) object id m.container v.ordered) ∙ e);
  },
  rw self found,
  λ id. find-store 0 (next_id m) object id m.container v.ordered,
)
  where
    self : (object == object) ≡ true
    self = ground arith

    found : find (next_id m) (store (next_id m) object m.container) ≡ some object
    found =
        let e : (next_id m == next_id m) ≡ true = ground arith in
        find-store 0 (next_id m) object (next_id m) m.container v.ordered ∙ rw e

    own :
        (id o : ℕ)
        → (if id == next_id m then some object else find id m.container) ≡ some o
        → (if o == object then next_id m else m.ids o) ≡ id
    own id o e = elim (Bool-cases (id == next_id m)) [
      | inl q ↦
          let same : object ≡ o = some_eq (rw q at e) in
          let t : (o == object) ≡ true = ground arith in rw t (ground arith)
      | inr q ↦
          let old : find id m.container ≡ some o = rw q at e in
          elim (Bool-cases (o == object)) [
            | inl t ↦ let same : o ≡ object = ground arith in absurd (new id (old ∙ ap some same))
            | inr t ↦ rw t (v.own_id id o old)
          ]
    ]

-- destroy_fsm on a sound manager, of an object that is found by its m_id: the manager stays sound,
-- free_fsm is called with the object, its identifier finds nothing, and every other finds what it
-- found before.
pub destroy_fsm-IsSound :
    {m : FsmManager} (object : ℕ)
    → IsSound m
    → get_fsm m (m.ids object) ≡ some object
    → let m' = destroy_fsm m object in
      IsSound m'
      × (m'.freed ≡ object ∷ m.freed)
      × ((id : ℕ) → get_fsm m' id ≡ (if id == m.ids object then none else get_fsm m id))
unfolding destroy_fsm get_fsm
destroy_fsm-IsSound {m} object v there = rw there (
  record {
    ordered = Ascends-erase_entry 0 (m.ids object) m.container v.ordered;
    own_id =
        λ id o e. own id o (sym (find-erase_entry 0 (m.ids object) id m.container v.ordered) ∙ e);
  },
  refl,
  λ id. find-erase_entry 0 (m.ids object) id m.container v.ordered,
)
  where
    own :
        (id o : ℕ)
        → (if id == m.ids object then none else find id m.container) ≡ some o
        → m.ids o ≡ id
    own id o e = elim (Bool-cases (id == m.ids object)) [
      | inl q ↦ absurd (none-ne-some (rw q at e))
      | inr q ↦ v.own_id id o (rw q at e)
    ]

-- create_fsm on a sound manager, given an object that is not in the map, where the next identifier
-- is that of an object in the map: afterwards no identifier finds that object, and free_fsm was
-- not called.
pub create_fsm-loses :
    {m : FsmManager} (object old : ℕ)
    → IsSound m
    → ((id : ℕ) → find id m.container ≢ some object)
    → get_fsm m (next_id m) ≡ some old
    → let m' = (create_fsm m (some object)).1 in
      ((id : ℕ) → get_fsm m' id ≢ some old) × (m'.freed ≡ m.freed)
unfolding create_fsm get_fsm
create_fsm-loses {m} object old v new there =
    ((λ id e. lost id (sym (find-store 0 (next_id m) object id m.container v.ordered) ∙ e)), refl)
  where
    lost : (id : ℕ) → (if id == next_id m then some object else find id m.container) ≢ some old
    lost id e = elim (Bool-cases (id == next_id m)) [
      | inl q ↦ new (next_id m) (there ∙ ap some (sym (some_eq (rw q at e))))
      | inr q ↦
          let here : find id m.container ≡ some old = rw q at e in
          let same : id ≡ next_id m = sym (v.own_id id old here) ∙ v.own_id (next_id m) old there in
          absurd (ground arith)
    ]
