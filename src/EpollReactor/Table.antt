-- ===== src/EpollReactor/Table.antt =====
-- The table of handlers and the descriptors that epoll watches.
use frame_work.Prelude.{
  ℕ, zero, suc, ◌<◌, ◌≡◌, ◌≢◌, ◌⊎◌, inl, inr, refl, sym, ap, ◌∙◌, Bool, true, false, List, Option,
  none, some, ℤ, pos, ok, leb, ◌==◌, if◌then◌else◌, get_elem?, set, replicate, length, length-set,
  get_elem?-set_self, get_elem?-set_ne, Bool-cases, Option-cases, arith,
}
use frame_work.EpollReactor.{
  Events, Epoll, Reactor, is_open, events_of, get_handler, put_handler, registered, del_handler,
  after_del,
}

abbrev pub is_some {ℓ} : {A : Type ℓ} → Option A → Bool
is_some none = false
is_some (some a) = true

abbrev pub handled {ℓ} : {H : Type ℓ} → Option (Option H) → Bool
handled none = false
handled (some o) = is_some o

-- What epoll_ctl(2) says of the three operations.
pub record IsEpoll {ℓ} {K : Type ℓ} (e : Epoll K) : Type ℓ where
  pub created : (fd : ℕ) → e.watches e.fresh fd ≡ none
  pub added :
      (k : K) (fd : ℕ) (ev : Events) (k' : K)
      → e.ctl_add k fd ev ≡ some k'
      → (e.watches k fd ≡ none)
        × ((j : ℕ) → e.watches k' j ≡ (if j == fd then some ev else e.watches k j))
  pub modified :
      (k : K) (fd : ℕ) (ev : Events) (k' : K)
      → e.ctl_mod k fd ev ≡ some k'
      → (is_some (e.watches k fd) ≡ true)
        × ((j : ℕ) → e.watches k' j ≡ (if j == fd then some ev else e.watches k j))
  pub deleted :
      (k : K) (fd : ℕ) (k' : K)
      → e.ctl_del k fd ≡ some k'
      → (j : ℕ) → e.watches k' j ≡ (if j == fd then none else e.watches k j)
  pub refused : (k : K) (fd : ℕ) → e.ctl_del k fd ≡ none → e.watches k fd ≡ none

-- The reactor is open, its table has a slot for each descriptor below m_maxfd, and the slots with a
-- handler are those of the descriptors that epoll watches.
pub record IsTable {ℓ κ} {K : Type ℓ} {H : Type κ} (e : Epoll K) (r : Reactor K H)
    : Type (ℓ ⊔ κ) where
  pub opened : is_open r.epfd ≡ true
  pub slots : length r.handlers ≡ r.maxfd
  pub agrees : (fd : ℕ) → handled (get_elem? r.handlers fd) ≡ is_some (e.watches r.instance_of fd)

pub get_elem?-set {ℓ} :
    {A : Type ℓ} (xs : List A) (i j : ℕ) (v : A)
    → i < length xs
    → get_elem? (set xs i v) j ≡ (if j == i then some v else get_elem? xs j)
get_elem?-set xs i j v h = elim (Bool-cases (j == i)) [
  | inl e ↦
      let q : j ≡ i = ground arith in
      rw e (ap (get_elem? (set xs i v)) q ∙ get_elem?-set_self xs i v h)
  | inr e ↦ let q : i ≢ j = ground arith in rw e (get_elem?-set_ne xs v q)
]

pub self {ℓ} : {A : Type ℓ} {x : A} (y : A) (i : ℕ) → (if i == i then x else y) ≡ x
self y i = ground arith

-- What get_handler reads once a slot below m_maxfd is written.
read_back {ℓ} :
    {A : Type ℓ} (xs : List (Option A)) (n fd j : ℕ) (v : Option A)
    → length xs ≡ n
    → fd < n
    → (if leb n j then some none else get_elem? (set xs fd v) j)
      ≡ (if j == fd then some v else (if leb n j then some none else get_elem? xs j))
read_back xs n fd j v e h = elim (Bool-cases (leb n j)) [
  | inr q ↦ rw q (get_elem?-set xs fd j v (omega arith))
  | inl q ↦ let ne : (j == fd) ≡ false = ground arith in simp (q, ne)
]

pub get_elem?-replicate {ℓ} :
    (H : Type ℓ) (n i : ℕ) → handled (get_elem? (replicate {A = Option H} n none) i) ≡ false
get_elem?-replicate H zero i = refl
get_elem?-replicate H (suc n) zero = refl
get_elem?-replicate H (suc n) (suc i) = get_elem?-replicate H n i

-- A write of one slot beside the same change of what is watched.
written {ℓ κ} :
    {A : Type ℓ} {B : Type κ} (xs : List (Option A)) (fd : ℕ) (o : Option A) (w w' : ℕ → Option B)
    (o' : Option B)
    → fd < length xs
    → is_some o ≡ is_some o'
    → ((j : ℕ) → handled (get_elem? xs j) ≡ is_some (w j))
    → ((j : ℕ) → w' j ≡ (if j == fd then o' else w j))
    → (j : ℕ) → handled (get_elem? (set xs fd o) j) ≡ is_some (w' j)
written xs fd o w w' o' h q a k j =
    ap handled (get_elem?-set xs fd j o h) ∙ both j ∙ sym (ap is_some (k j))
  where
    both :
        (j : ℕ)
        → handled (if j == fd then some o else get_elem? xs j)
          ≡ is_some (if j == fd then o' else w j)
    both j = elim (Bool-cases (j == fd)) [ inl e ↦ rw e q | inr e ↦ rw e (a j) ]

module _ {ℓ κ} {K : Type ℓ} {H : Type κ} (e : Epoll K) where
  -- What add_handler (`watched` is false) and mod_handler (`watched` is true) do to a descriptor.
  pub record Puts (watched : Bool) (r : Reactor K H) (fd : ℕ) (h : H) (event_type : ℕ)
      (res : ℤ × Reactor K H) : Type (ℓ ⊔ κ) where
    pub table : IsTable e res.1
    pub outcome :
        ((res.0 ≡ ok)
          × (is_some (e.watches r.instance_of fd) ≡ watched)
          × (e.watches res.1.instance_of fd ≡ some (events_of event_type))
          × ((j : ℕ)
              → get_handler res.1 (pos j)
                ≡ (if j == fd then some (some h) else get_handler r (pos j))))
        ⊎ ((res.0 ≢ ok) × (res.1 ≡ r))

  module _ {r : Reactor K H} (watched : Bool) (fd : ℕ) (h : H) (event_type : ℕ) where
    unchanged : {s : ℤ} → s ≢ ok → IsTable e r → Puts watched r fd h event_type (s, r)
    unchanged n v = record { table = v; outcome = inr (n, refl) }

    registered-Puts :
        (o : Option K)
        → fd < r.maxfd
        → ((k' : K)
            → o ≡ some k'
            → (is_some (e.watches r.instance_of fd) ≡ watched)
              × ((j : ℕ)
                  → e.watches k' j
                    ≡ (if j == fd then some (events_of event_type) else e.watches r.instance_of j)))
        → IsTable e r
        → Puts watched r fd h event_type (registered e r fd h o)
    unfolding get_handler
    registered-Puts none b law v = unchanged (λ q. cc) v
    registered-Puts (some k') b law v =
        let l = law k' refl in
        record {
          table = record {
            opened = v.opened;
            slots = length-set r.handlers fd (some h) ∙ v.slots;
            agrees =
                written r.handlers fd (some h) (e.watches r.instance_of) (e.watches k')
                  (some (events_of event_type)) (omega (arith, v.slots)) refl v.agrees l.1;
          };
          outcome = inl (
            refl,
            l.0,
            l.1 fd ∙ self _ fd,
            λ j. read_back r.handlers r.maxfd fd j (some h) v.slots b,
          );
        }

    pub put_handler-Puts :
        (ctl : K → ℕ → Events → Option K)
        → ((k' : K)
            → ctl r.instance_of fd (events_of event_type) ≡ some k'
            → (is_some (e.watches r.instance_of fd) ≡ watched)
              × ((j : ℕ)
                  → e.watches k' j
                    ≡ (if j == fd then some (events_of event_type) else e.watches r.instance_of j)))
        → IsTable e r
        → Puts watched r fd h event_type (put_handler e ctl r (pos fd) (some h) event_type)
    unfolding put_handler
    put_handler-Puts ctl law v = elim (Bool-cases (leb r.maxfd fd)) [
      | inl q ↦ simp (v.opened, q) (unchanged (λ q. cc) v)
      | inr q ↦
          simp (v.opened, q)
            (registered-Puts (ctl r.instance_of fd (events_of event_type)) (ground arith) law v)
    ]

  pub record Removes (r : Reactor K H) (fd : ℕ) (r' : Reactor K H) : Type (ℓ ⊔ κ) where
    pub table : IsTable e r'
    pub unwatched : e.watches r'.instance_of fd ≡ none
    pub others :
        (j : ℕ) → get_handler r' (pos j) ≡ (if j == fd then some none else get_handler r (pos j))

  pub del_handler-Removes :
      {r : Reactor K H} (fd : ℕ)
      → IsEpoll e
      → IsTable e r
      → fd < r.maxfd
      → Removes r fd (del_handler e r (pos fd))
  unfolding del_handler get_handler
  del_handler-Removes {r} fd law v b =
      let q : leb r.maxfd fd ≡ false = ground arith in
      simp (v.opened, q)
        (record {
          table = record {
            opened = v.opened;
            slots = length-set r.handlers fd none ∙ v.slots;
            agrees =
                written r.handlers fd none (e.watches r.instance_of) _ none (omega (arith, v.slots))
                  refl v.agrees after;
          };
          unwatched = after fd ∙ self _ fd;
          others = λ j. read_back r.handlers r.maxfd fd j none v.slots b;
        })
    where
      after :
          (j : ℕ)
          → e.watches (after_del r.instance_of (e.ctl_del r.instance_of fd)) j
            ≡ (if j == fd then none else e.watches r.instance_of j)
      after j = elim (Option-cases (e.ctl_del r.instance_of fd)) [
        | inr (k', q) ↦ rw q (law.deleted _ fd k' q j)
        | inl q ↦ rw q (elim (Bool-cases (j == fd)) [
          | inr t ↦ rw t refl
          | inl t ↦
              let same : j ≡ fd = ground arith in
              rw t (ap (e.watches r.instance_of) same ∙ law.refused _ fd q)
        ])
      ]
