-- ===== src/UnixConfig.antt =====
-- framework/unix_config.h and framework/unix_config.cpp: keys and values, as texts without NUL, in
-- chains of nodes, one for each of 1024 buckets. A chain is the list of the nodes from m_buckets[i]
-- on, along `next`; `malloc` says which sizes it answers.
pub mod Lines
pub mod Chain
pub mod Refine
pub mod Uses
pub mod Runs
pub mod Printed
use frame_work.Prelude.{
  ℕ, ◌+◌, ◌-◌, ◌*◌, ◌/◌, ◌%◌, ◌^◌, Bool, true, false, ◌&&◌, ◌||◌, List, [], ◌∷◌, ◌++◌, Option, none,
  some, ℤ, ok, minus_one, ltb, ◌==◌, if◌then◌else◌, length,
}

-- The size of the key is its length.
pub record Node : Type 0 where
  pub hash_value : ℕ
  pub key : List ℕ
  pub value : List ℕ

pub record UnixConfig : Type 0 where
  pub buckets : ℕ → List Node

abbrev pub max_line_size : ℕ
max_line_size = 2048

-- *p << 4 and *p >> 4 for a signed char, as they enter a sum of 32-bit numbers.
abbrev pub shift_left : ℕ → ℕ
shift_left c = if ltb c 128 then c * 16 else 2 ^ 32 - (256 - c) * 16

abbrev pub shift_right : ℕ → ℕ
shift_right c = if ltb c 128 then c / 16 else 2 ^ 32 - (256 - c + 15) / 16

abbrev pub hash_from : ℕ → List ℕ → ℕ
hash_from h [] = h
hash_from h (c ∷ cs) = hash_from ((h * 11 + shift_left c + shift_right c) % 2 ^ 32) cs

unfoldable pub hash : List ℕ → ℕ
hash key = hash_from 0 key

abbrev pub bucket : ℕ → ℕ
bucket hash_value = hash_value % 1024

-- strncmp(...) == 0 of texts of one size.
abbrev pub same_text : List ℕ → List ℕ → Bool
same_text [] [] = true
same_text [] (y ∷ ys) = false
same_text (x ∷ xs) [] = false
same_text (x ∷ xs) (y ∷ ys) = (x == y) && same_text xs ys

abbrev pub matches : ℕ → List ℕ → Node → Bool
matches hash_value key n =
    (hash_value == n.hash_value) && ((length key == length n.key) && same_text key n.key)

-- A node, and the nodes of its chain before it, whose last is pre_node, and behind it.
abbrev pub Found : Type 0
Found = List Node × Node × List Node

abbrev pub pass : Node → Option Found → Option Found
pass n none = none
pass n (some (pre, m, post)) = some (n ∷ pre, m, post)

abbrev pub walk : (Node → Bool) → List Node → Option Found
walk t [] = none
walk t (n ∷ ns) = if t n then some ([], n, ns) else pass n (walk t ns)

abbrev pub chain_of : UnixConfig → List ℕ → List Node
chain_of c key = c.buckets (bucket (hash key))

-- get_node of a key that is not NULL
unfoldable pub get_node : UnixConfig → List ℕ → Option Found
get_node c key =
    if ltb max_line_size (length key) then none else walk (matches (hash key) key) (chain_of c key)

abbrev pub value_or : Option (List ℕ) → Option Found → Option (List ℕ)
value_or default none = default
value_or default (some (pre, n, post)) = some n.value

-- get(key, default_value), where a default of NULL is none
unfoldable pub get : UnixConfig → List ℕ → Option (List ℕ) → Option (List ℕ)
unfolding get_node
get c key default = value_or default (get_node c key)

abbrev pub number_or : (List ℕ → ℤ) → ℤ → Option (List ℕ) → ℤ
number_or atoi default none = default
number_or atoi default (some v) = atoi v

-- get(key, default_value) of a number
unfoldable pub get_int : (List ℕ → ℤ) → UnixConfig → List ℕ → ℤ → ℤ
unfolding get
get_int atoi c key default = number_or atoi default (get c key none)

abbrev pub put_chain : UnixConfig → ℕ → List Node → UnixConfig
put_chain c i ns = record { buckets = λ j. if j == i then ns else c.buckets j }

abbrev pub unlinked : UnixConfig → List ℕ → Option Found → UnixConfig
unlinked c key none = c
unlinked c key (some (pre, n, post)) = put_chain c (bucket (hash key)) (pre ++ post)

unfoldable pub remove : UnixConfig → List ℕ → UnixConfig
unfolding get_node
remove c key = unlinked c key (get_node c key)

-- The new node takes the place of the old one, or stands in front.
abbrev pub linked : UnixConfig → List ℕ → List ℕ → Option Found → UnixConfig
linked c key value (some (pre, old, post)) =
    put_chain c (bucket old.hash_value)
      (pre ++ (record { hash_value = old.hash_value; key = key; value = value } ∷ post))
linked c key value none =
    put_chain c (bucket (hash key))
      (record { hash_value = hash key; key = key; value = value } ∷ chain_of c key)

-- set(key, key_size, value, value_size); the set of two texts calls it with their lengths.
unfoldable pub set : (ℕ → Bool) → UnixConfig → List ℕ → List ℕ → ℤ × UnixConfig
unfolding get_node
set malloc c key value =
    if ltb max_line_size (length key) || ltb max_line_size (length value)
    then (minus_one, c)
    else (if malloc (16 + length key + 1 + length value + 1)
        then (ok, linked c key value (get_node c key))
        else (minus_one, c))

-- set(key, value), where a NULL is none
unfoldable pub set_text :
    (ℕ → Bool) → UnixConfig → Option (List ℕ) → Option (List ℕ) → ℤ × UnixConfig
unfolding set
set_text malloc c none value = (minus_one, c)
set_text malloc c (some key) none = (minus_one, c)
set_text malloc c (some key) (some value) = set malloc c key value

-- unix_config() and clear().
abbrev pub empty : UnixConfig
empty = record { buckets = λ i. [] }

unfoldable pub clear : UnixConfig → UnixConfig
clear c = record { buckets = λ i. if ltb i 1024 then [] else c.buckets i }
