-- ===== src/UnixConfig/Refine.antt =====
-- The configuration as a function from keys to values.
use frame_work.Prelude.{
  ℕ, ◌≤◌, ◌<◌, ◌≡◌, inl, inr, refl, sym, ap, subst, ◌∙◌, List, Option, none, some, ltb, ◌==◌,
  if◌then◌else◌, length, All, All-map, Bool-cases, arith,
}
use frame_work.UnixConfig.{
  Node, UnixConfig, max_line_size, hash, bucket, same_text, matches, Found, chain_of, get_node,
  value_or, get, put_chain,
}
use frame_work.UnixConfig.Chain.{
  same_text_eq, lookup, Differs, Walks, walk-Walks, matches-same_text, lookup-hits, lookup-misses,
  NoDup,
}

pub record IsNode (i : ℕ) (n : Node) : Type 0 where
  pub hashed : n.hash_value ≡ hash n.key
  pub placed : bucket n.hash_value ≡ i
  pub short_key : length n.key ≤ max_line_size
  pub short_value : length n.value ≤ max_line_size

-- Each node is in the chain of its key, and no key stands twice.
abbrev pub IsConfig : UnixConfig → Type 0
IsConfig c = (i : ℕ) → All (IsNode i) (c.buckets i) × NoDup (c.buckets i)

too_long :
    (key : List ℕ) (i : ℕ) (n : Node) → max_line_size < length key → IsNode i n → Differs key n
too_long key i n h v = elim (Bool-cases (same_text key n.key)) [
  | inr q ↦ q
  | inl q ↦ absurd (omega (arith, ap length (same_text_eq key n.key q), v.short_key))
]

pub get_node-Walks :
    (c : UnixConfig) (key : List ℕ) → IsConfig c → Walks key (chain_of c key) (get_node c key)
unfolding get_node
get_node-Walks c key v = elim (Bool-cases (ltb max_line_size (length key))) [
  | inl q ↦
      let h : max_line_size < length key = ground arith in
      rw q (
        All-map (IsNode (bucket (hash key))) (Differs key) (chain_of c key)
          (λ n w. too_long key (bucket (hash key)) n h w) (v (bucket (hash key))).0)
  | inr q ↦ rw q (
      walk-Walks key (matches (hash key) key) (chain_of c key) (
        All-map (IsNode (bucket (hash key))) (λ n. matches (hash key) key n ≡ same_text key n.key)
          (chain_of c key) (λ n w. matches-same_text key n w.hashed) (v (bucket (hash key))).0))
]

value-lookup :
    (key : List ℕ) (ns : List Node) (o : Option Found)
    → Walks key ns o
    → value_or none o ≡ lookup key ns
value-lookup key ns none v = sym (lookup-misses key ns v)
value-lookup key ns (some (pre, n, post)) (v, e, s) =
    sym (ap (lookup key) s ∙ lookup-hits key pre n post v e)

pub get-lookup :
    (c : UnixConfig) (key : List ℕ) → IsConfig c → get c key none ≡ lookup key (chain_of c key)
unfolding get
get-lookup c key v = value-lookup key (chain_of c key) (get_node c key) (get_node-Walks c key v)

pub put_chain-IsConfig :
    (c : UnixConfig) (i : ℕ) (ns : List Node)
    → IsConfig c
    → All (IsNode i) ns
    → NoDup ns
    → IsConfig (put_chain c i ns)
put_chain-IsConfig c i ns v a d j = elim (Bool-cases (j == i)) [
  | inr q ↦ rw q (v j)
  | inl q ↦ let same : i ≡ j = ground arith in rw q (subst (λ k. All (IsNode k) ns) same a, d)
]

-- What one key finds is changed to `r`.
abbrev pub Changes :
    (List ℕ → Option (List ℕ)) → List ℕ → Option (List ℕ) → (List ℕ → Option (List ℕ)) → Type 0
Changes old key r new = (k : List ℕ) → new k ≡ (if same_text k key then r else old k)

pub put_chain-Changes :
    (c : UnixConfig) (key : List ℕ) (ns : List Node) (r : Option (List ℕ))
    → IsConfig c
    → IsConfig (put_chain c (bucket (hash key)) ns)
    → Changes (λ k. lookup k (chain_of c key)) key r (λ k. lookup k ns)
    → Changes (λ k. get c k none) key r (λ k. get (put_chain c (bucket (hash key)) ns) k none)
put_chain-Changes c key ns r v v' h k =
    get-lookup (put_chain c (bucket (hash key)) ns) k v'
    ∙ at_bucket
    ∙ sym (ap (λ o. if same_text k key then r else o) (get-lookup c k v))
  where
    at_bucket :
        lookup k (chain_of (put_chain c (bucket (hash key)) ns) k)
        ≡ (if same_text k key then r else lookup k (chain_of c k))
    at_bucket = elim (Bool-cases (bucket (hash k) == bucket (hash key))) [
      | inl q ↦
          let same : bucket (hash key) ≡ bucket (hash k) = ground arith in
          rw q (h k ∙ ap (λ i. if same_text k key then r else lookup k (c.buckets i)) same)
      | inr q ↦ rw q (elim (Bool-cases (same_text k key)) [
        | inr t ↦ rw t refl
        | inl t ↦
            absurd (let same = ap (λ s. bucket (hash s)) (same_text_eq k key t) in ground arith)
      ])
    ]
