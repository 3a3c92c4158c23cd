-- ===== src/UnixConfig/Runs.antt =====
-- Sequences of the calls that change a configuration.
use frame_work.Prelude.{
  ℕ, ◌+◌, ◌%◌, ◌≡◌, inl, inr, refl, ap, ◌∙◌, Bool, true, false, ◌&&◌, ◌||◌, List, [], ◌∷◌, Option,
  none, some, ℤ, ok, minus_one, ltb, if◌then◌else◌, length, Bool-cases, arith,
}
use frame_work.UnixConfig.{
  UnixConfig, max_line_size, hash, bucket, same_text, get_node, remove, linked, set, empty, clear,
}
use frame_work.UnixConfig.Chain.{lookup}
use frame_work.UnixConfig.Refine.{IsConfig, get_node-Walks, get-lookup}
use frame_work.UnixConfig.Uses.{find, Puts, linked-Puts, remove-Puts}

pub data Call : Type 0 where
  sets : List ℕ → List ℕ → Call
  removes : List ℕ → Call
  clears : Call

abbrev pub Map : Type 0
Map = List ℕ → Option (List ℕ)

-- A sound configuration that finds what a function answers.
abbrev pub Serves : UnixConfig → Map → Type 0
Serves c m = IsConfig c × ((k : List ℕ) → find c k ≡ m k)

clear-Serves : (c : UnixConfig) → IsConfig c → Serves (clear c) (λ k. none)
unfolding clear
clear-Serves c v = (sound, λ k. get-lookup (clear c) k sound ∙ cleared k (hash k))
  where
    sound : IsConfig (clear c)
    sound i = elim (Bool-cases (ltb i 1024)) [ inl q ↦ rw q (tt, tt) | inr q ↦ rw q (v i) ]

    cleared : (k : List ℕ) (h : ℕ) → lookup k ((clear c).buckets (bucket h)) ≡ none
    cleared k h = let q : ltb (h % 1024) 1024 ≡ true = ground arith in rw q refl

module _ (malloc : ℕ → Bool) where
  -- The tests of set in turn.
  abbrev pub accepts : List ℕ → List ℕ → Bool
  accepts key value =
      if ltb max_line_size (length key) || ltb max_line_size (length value)
      then false
      else malloc (16 + length key + 1 + length value + 1)

  abbrev pub step : UnixConfig → Call → UnixConfig
  step c (sets key value) = (set malloc c key value).1
  step c (removes key) = remove c key
  step c clears = clear c

  abbrev pub run : UnixConfig → List Call → UnixConfig
  run c [] = c
  run c (call ∷ calls) = run (step c call) calls

  -- The same calls on a function from keys to values.
  abbrev pub spec_step : Map → Call → Map
  spec_step m (sets key value) k = if same_text k key && accepts key value then some value else m k
  spec_step m (removes key) k = if same_text k key then none else m k
  spec_step m clears k = none

  abbrev pub spec_run : Map → List Call → Map
  spec_run m [] = m
  spec_run m (call ∷ calls) = spec_run (spec_step m call) calls

  set-Serves :
      (c : UnixConfig) (key value : List ℕ)
      → IsConfig c
      → Serves (set malloc c key value).1 (spec_step (find c) (sets key value))
  unfolding set
  set-Serves c key value v =
      tested (ltb max_line_size (length key) || ltb max_line_size (length value)) (malloc _) λ q.
        linked-Puts c key value (get_node c key) v (ground arith) (ground arith)
          (get_node-Walks c key v)
    where
      put : UnixConfig
      put = linked c key value (get_node c key)

      answer : Bool → Bool → ℤ × UnixConfig
      answer long room =
          if long then (minus_one, c) else (if room then (ok, put) else (minus_one, c))

      off : (b : Bool) (o : Option (List ℕ)) → o ≡ (if b && false then some value else o)
      off true o = refl
      off false o = refl

      on :
          (b : Bool) (o : Option (List ℕ))
          → (if b then some value else o) ≡ (if b && true then some value else o)
      on true o = refl
      on false o = refl

      tested :
          (long room : Bool)
          → (long ≡ false → Puts c key (some value) put)
          → Serves (answer long room).1 (λ k.
            if same_text k key && (if long then false else room) then some value else find c k)
      tested true room p = (v, λ k. off (same_text k key) (find c k))
      tested false false p = (v, λ k. off (same_text k key) (find c k))
      tested false true p =
          let q = p refl in (q.sound, λ k. q.changes k ∙ on (same_text k key) (find c k))

  step-Serves :
      (c : UnixConfig) (m : Map) (call : Call)
      → Serves c m
      → Serves (step c call) (spec_step m call)
  step-Serves c m (sets key value) (v, e) =
      let (w, f) = set-Serves c key value v in
      (w, λ k. f k ∙ ap (λ o. if same_text k key && accepts key value then some value else o) (e k))
  step-Serves c m (removes key) (v, e) =
      let p = remove-Puts c key v in
      (p.sound, λ k. p.changes k ∙ ap (λ o. if same_text k key then none else o) (e k))
  step-Serves c m clears (v, e) = clear-Serves c v

  run_lem :
      (c : UnixConfig) (m : Map) (calls : List Call)
      → Serves c m
      → Serves (run c calls) (spec_run m calls)
  run_lem c m [] s = s
  run_lem c m (call ∷ calls) s =
      run_lem (step c call) (spec_step m call) calls (step-Serves c m call s)

  empty-Serves : Serves empty (λ k. none)
  empty-Serves =
      let sound : IsConfig empty = λ i. (tt, tt) in (sound, λ k. get-lookup empty k sound)

  -- After any calls of set, remove and clear on a new configuration, get answers for each key what
  -- the same calls on a function from keys to values leave, where set is refused for a key or a
  -- value above 2048 bytes and when malloc fails.
  pub run-Serves : (calls : List Call) → Serves (run empty calls) (spec_run (λ k. none) calls)
  run-Serves calls = run_lem empty (λ k. none) calls empty-Serves
