-- ===== src/UnixConfig/Chain.antt =====
-- One chain of nodes: the first node of a key, and chains in which no key stands twice.
use frame_work.Prelude.{
  ℕ, ◌≡◌, inl, inr, refl, sym, ap, ap₂, ◌∙◌, Bool, true, false, ◌&&◌, List, [], ◌∷◌, ◌++◌, Option,
  none, some, ◌==◌, if◌then◌else◌, length, All, All-append, Bool-cases, arith,
}
use frame_work.UnixConfig.{Node, same_text, matches, Found, pass, walk, hash}

pub same_text_refl : (s : List ℕ) → same_text s s ≡ true
same_text_refl [] = refl
same_text_refl (x ∷ xs) = let q : (x == x) ≡ true = ground arith in rw q (same_text_refl xs)

pub same_text_eq : (s s' : List ℕ) → same_text s s' ≡ true → s ≡ s'
same_text_eq [] [] = λ h. refl
same_text_eq [] (y ∷ ys) = λ h. absurd (cc)
same_text_eq (x ∷ xs) [] = λ h. absurd (cc)
same_text_eq (x ∷ xs) (y ∷ ys) = elim (Bool-cases (x == y)) [
  | inl q ↦ let same : x ≡ y = ground arith in rw q (λ h. ap₂ ◌∷◌ same (same_text_eq xs ys h))
  | inr q ↦ rw q (λ h. absurd (cc))
]

-- The value of the first node of a key.
abbrev pub lookup : List ℕ → List Node → Option (List ℕ)
lookup key [] = none
lookup key (n ∷ ns) = if same_text key n.key then some n.value else lookup key ns

abbrev pub Differs : List ℕ → Node → Type 0
Differs key n = same_text key n.key ≡ false

-- A walk for a key splits the chain at the key's first node, where there is one.
abbrev pub Walks : List ℕ → List Node → Option Found → Type 0
Walks key ns none = All (Differs key) ns
Walks key ns (some (pre, n, post)) =
    All (Differs key) pre × (key ≡ n.key) × (ns ≡ pre ++ (n ∷ post))

passed :
    (key : List ℕ) (n : Node) (ns : List Node) (o : Option Found)
    → Differs key n
    → Walks key ns o
    → Walks key (n ∷ ns) (pass n o)
passed key n ns none q v = (q, v)
passed key n ns (some (pre, m, post)) q (v, e, c) = ((q, v), e, ap (◌∷◌ n) c)

pub walk-Walks :
    (key : List ℕ) (t : Node → Bool) (ns : List Node)
    → All (λ n. t n ≡ same_text key n.key) ns
    → Walks key ns (walk t ns)
walk-Walks key t [] h = tt
walk-Walks key t (n ∷ ns) (h, hs) = elim (Bool-cases (same_text key n.key)) [
  | inl q ↦ rw h (rw q (tt, same_text_eq key n.key q, refl))
  | inr q ↦ rw h (rw q (passed key n ns (walk t ns) q (walk-Walks key t ns hs)))
]

-- The hash of a node is that of its key, so that a test of the hashes, the sizes and the texts
-- is one of the texts.
pub matches-same_text :
    (key : List ℕ) (n : Node)
    → n.hash_value ≡ hash n.key
    → matches (hash key) key n ≡ same_text key n.key
matches-same_text key n h = elim (Bool-cases (same_text key n.key)) [
  | inl q ↦
      let e : key ≡ n.key = same_text_eq key n.key q in
      let a : (hash key == n.hash_value) ≡ true = equal (ap hash e ∙ sym h) in
      let b : (length key == length n.key) ≡ true = equal (ap length e) in simp (a, b, q)
  | inr q ↦ let f = both_false (hash key == n.hash_value) (length key == length n.key) in rw q f
]
  where
    equal : {i j : ℕ} → i ≡ j → (i == j) ≡ true
    equal e = ground arith

    both_false : (a b : Bool) → a && (b && false) ≡ false
    both_false true true = refl
    both_false true false = refl
    both_false false b = refl

pub lookup-skips :
    (key : List ℕ) (pre : List Node) (n : Node) (post : List Node)
    → same_text key n.key ≡ false
    → lookup key (pre ++ (n ∷ post)) ≡ lookup key (pre ++ post)
lookup-skips key [] n post q = rw q refl
lookup-skips key (m ∷ pre) n post q =
    ap (λ r. if same_text key m.key then some m.value else r) (lookup-skips key pre n post q)

pub lookup-hits :
    (key : List ℕ) (pre : List Node) (n : Node) (post : List Node)
    → All (Differs key) pre
    → key ≡ n.key
    → lookup key (pre ++ (n ∷ post)) ≡ some n.value
lookup-hits key [] n post v e =
    let q : same_text key n.key ≡ true = ap (same_text key) (sym e) ∙ same_text_refl key in
    rw q refl
lookup-hits key (m ∷ pre) n post (q, v) e = rw q (lookup-hits key pre n post v e)

pub lookup-misses : (key : List ℕ) (ns : List Node) → All (Differs key) ns → lookup key ns ≡ none
lookup-misses key [] v = refl
lookup-misses key (n ∷ ns) (q, v) = rw q (lookup-misses key ns v)

-- No key stands twice.
abbrev pub NoDup : List Node → Type 0
NoDup [] = Unit
NoDup (n ∷ ns) = All (Differs n.key) ns × NoDup ns

pub all_left : (P : Node → Type 0) (xs ys : List Node) → All P (xs ++ ys) → All P xs × All P ys
all_left P [] ys v = (tt, v)
all_left P (x ∷ xs) ys (h, v) = let (a, b) = all_left P xs ys v in ((h, a), b)

-- A key that is in the middle is not behind, so that the rest of the chain can stand without it.
pub NoDup-without :
    (pre : List Node) (n : Node) (post : List Node)
    → NoDup (pre ++ (n ∷ post))
    → NoDup (pre ++ post) × All (Differs n.key) post
NoDup-without [] n post (h, v) = (v, h)
NoDup-without (m ∷ pre) n post (h, v) =
    let (a, b) = all_left (Differs m.key) pre (n ∷ post) h in
    let (c, d) = NoDup-without pre n post v in ((All-append (Differs m.key) pre post a b.1, c), d)

pub NoDup-replaced :
    (pre : List Node) (n n' : Node) (post : List Node)
    → n.key ≡ n'.key
    → NoDup (pre ++ (n ∷ post))
    → NoDup (pre ++ (n' ∷ post))
NoDup-replaced [] n n' post e (h, v) = (rw (sym e) h, v)
NoDup-replaced (m ∷ pre) n n' post e (h, v) =
    let (a, b) = all_left (Differs m.key) pre (n ∷ post) h in
    let q : same_text m.key n'.key ≡ false = ap (same_text m.key) (sym e) ∙ b.0 in
    (All-append (Differs m.key) pre (n' ∷ post) a (q, b.1), NoDup-replaced pre n n' post e v)
