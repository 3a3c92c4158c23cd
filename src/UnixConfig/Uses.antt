-- ===== src/UnixConfig/Uses.antt =====
-- set, remove and clear as changes of the function from keys to values.
use frame_work.Prelude.{
  ℕ, ◌≤◌, ◌≡◌, inl, inr, refl, sym, ap, subst, ◌∙◌, List, ◌∷◌, ◌++◌, Option, none, some,
  if◌then◌else◌, length, All, All-append, Bool-cases,
}
use frame_work.UnixConfig.{
  Node, UnixConfig, max_line_size, hash, bucket, same_text, Found, chain_of, get_node, get,
  put_chain, unlinked, remove, linked,
}
use frame_work.UnixConfig.Chain.{
  same_text_eq, lookup, Differs, Walks, lookup-skips, lookup-hits, lookup-misses, NoDup,
  NoDup-without, NoDup-replaced, all_left,
}
use frame_work.UnixConfig.Refine.{
  IsNode, IsConfig, get_node-Walks, put_chain-IsConfig, put_chain-Changes, Changes, get-lookup,
}

-- The value of a key, where it has one.
abbrev pub find : UnixConfig → List ℕ → Option (List ℕ)
find c k = get c k none

-- What a call leaves: a sound configuration in which one key finds `r`.
pub record Puts (c : UnixConfig) (key : List ℕ) (r : Option (List ℕ)) (c' : UnixConfig)
    : Type 0 where
  pub sound : IsConfig c'
  pub changes : Changes (find c) key r (find c')

-- A chain in which a key's first node is given, and the others keep theirs.
replaced :
    (key : List ℕ) (pre : List Node) (old new : Node) (post : List Node)
    → All (Differs key) pre
    → key ≡ old.key
    → key ≡ new.key
    → Changes
        (λ k. lookup k (pre ++ (old ∷ post)))
        key
        (some new.value)
        (λ k. lookup k (pre ++ (new ∷ post)))
replaced key pre old new post v e e' k = elim (Bool-cases (same_text k key)) [
  | inl q ↦
      let same : key ≡ k = sym (same_text_eq k key q) in
      rw q (ap (λ s. lookup s (pre ++ (new ∷ post))) (sym same) ∙ lookup-hits key pre new post v e')
  | inr q ↦ rw q (
      lookup-skips k pre new post (ap (same_text k) (sym e') ∙ q)
      ∙ sym (lookup-skips k pre old post (ap (same_text k) (sym e) ∙ q)))
]

removed :
    (key : List ℕ) (pre : List Node) (old : Node) (post : List Node)
    → All (Differs key) pre
    → All (Differs key) post
    → key ≡ old.key
    → Changes (λ k. lookup k (pre ++ (old ∷ post))) key none (λ k. lookup k (pre ++ post))
removed key pre old post v w e k = elim (Bool-cases (same_text k key)) [
  | inl q ↦
      let same : key ≡ k = sym (same_text_eq k key q) in
      rw q (
        ap (λ s. lookup s (pre ++ post)) (sym same)
        ∙ lookup-misses key (pre ++ post) (All-append (Differs key) pre post v w))
  | inr q ↦ rw q (sym (lookup-skips k pre old post (ap (same_text k) (sym e) ∙ q)))
]

pub linked-Puts :
    (c : UnixConfig) (key value : List ℕ) (o : Option Found)
    → IsConfig c
    → length key ≤ max_line_size
    → length value ≤ max_line_size
    → Walks key (chain_of c key) o
    → Puts c key (some value) (linked c key value o)
linked-Puts c key value none v hk hv w =
    let n : Node = record { hash_value = hash key; key = key; value = value } in
    let i = bucket (hash key) in
    let node : IsNode i n = record {
      hashed = refl;
      placed = refl;
      short_key = hk;
      short_value = hv;
    } in
    let (a, d) = v i in
    let sound = put_chain-IsConfig c i (n ∷ chain_of c key) v (node, a) (w, d) in
    record {
      sound = sound;
      changes = put_chain-Changes c key (n ∷ chain_of c key) (some value) v sound (λ k. refl);
    }
linked-Puts c key value (some (pre, old, post)) v hk hv (wv, e, s) =
    let i = bucket (hash key) in
    let n : Node = record { hash_value = old.hash_value; key = key; value = value } in
    let (a, d) = v i in
    let (a1, a2) = all_left (IsNode i) pre (old ∷ post) (subst (All (IsNode i)) s a) in
    let at : bucket old.hash_value ≡ i = (a2.0).placed in
    let node : IsNode i n = record {
      hashed = (a2.0).hashed ∙ ap hash (sym e);
      placed = at;
      short_key = hk;
      short_value = hv;
    } in
    let d' = NoDup-replaced pre old n post (sym e) (subst NoDup s d) in
    let sound =
      put_chain-IsConfig c i (pre ++ (n ∷ post)) v
        (All-append (IsNode i) pre (n ∷ post) a1 (node, a2.1)) d' in
    let changes = put_chain-Changes c key (pre ++ (n ∷ post)) (some value) v sound (λ k.
      replaced key pre old n post wv e refl k
      ∙ ap (λ ns. if same_text k key then some value else lookup k ns) (sym s)) in
    subst (λ j. Puts c key (some value) (put_chain c j (pre ++ (n ∷ post)))) (sym at)
      (record { sound = sound; changes = changes })

unlinked-Puts :
    (c : UnixConfig) (key : List ℕ) (o : Option Found)
    → IsConfig c
    → Walks key (chain_of c key) o
    → Puts c key none (unlinked c key o)
unlinked-Puts c key none v w = record {
  sound = v;
  changes = λ k. elim (Bool-cases (same_text k key)) [
    | inr q ↦ rw q refl
    | inl q ↦
        let same : k ≡ key = same_text_eq k key q in
        rw q (ap (find c) same ∙ get-lookup c key v ∙ lookup-misses key (chain_of c key) w)
  ];
}
unlinked-Puts c key (some (pre, old, post)) v (wv, e, s) =
    let i = bucket (hash key) in
    let (a, d) = v i in
    let (a1, a2) = all_left (IsNode i) pre (old ∷ post) (subst (All (IsNode i)) s a) in
    let (d1, d2) = NoDup-without pre old post (subst NoDup s d) in
    let sound =
      put_chain-IsConfig c i (pre ++ post) v (All-append (IsNode i) pre post a1 a2.1) d1 in
    let behind : All (Differs key) post = subst (λ t. All (Differs t) post) (sym e) d2 in
    record {
      sound = sound;
      changes = put_chain-Changes c key (pre ++ post) none v sound (λ k.
          removed key pre old post wv behind e k
          ∙ ap (λ ns. if same_text k key then none else lookup k ns) (sym s));
    }

pub remove-Puts : (c : UnixConfig) (key : List ℕ) → IsConfig c → Puts c key none (remove c key)
unfolding remove
remove-Puts c key v = unlinked-Puts c key (get_node c key) v (get_node-Walks c key v)
