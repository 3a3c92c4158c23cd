-- ===== src/UnixConfig/Printed.antt =====
-- parse_line reads back a line that dump writes.
use frame_work.Prelude.{
  ℕ, ◌+◌, ◌≤◌, ◌≡◌, ◌≢◌, refl, ap, ap₂, ◌∙◌, Bool, true, false, ◌||◌, List, [], ◌∷◌, ◌++◌,
  minus_one, ◌==◌, if◌then◌else◌, length, All, length-append, take-length, arith,
}
use frame_work.UnixConfig.{Node, UnixConfig, set}
use frame_work.UnixConfig.Lines.{
  is_delimiter, skip_delimiters, word_at, behind_word, is_stop, parse_value, parse_key, parse_line,
  line_of,
}

-- A text that parse_line takes for one word: it is not empty, does not begin with # and has no
-- delimiter.
abbrev pub IsWord : List ℕ → Type 0
IsWord [] = ⊥
IsWord (c ∷ cs) = (c ≢ 35) × All (λ b. is_delimiter b ≡ false) (c ∷ cs)

word_at-append :
    (w rest : List ℕ) (d : ℕ)
    → All (λ b. is_delimiter b ≡ false) w
    → is_delimiter d ≡ true
    → (word_at (w ++ (d ∷ rest)) ≡ w) × (behind_word (w ++ (d ∷ rest)) ≡ d ∷ rest)
word_at-append [] rest d v h = rw h (refl, refl)
word_at-append (c ∷ cs) rest d (q, v) h =
    let (a, b) = word_at-append cs rest d v h in rw q (ap (◌∷◌ c) a, b)

skip-word :
    (w rest : List ℕ)
    → IsWord w
    → (skip_delimiters (w ++ rest) ≡ w ++ rest) × (is_stop (w ++ rest) ≡ false)
skip-word [] rest v = absurd v
skip-word (c ∷ cs) rest (h, (q, v)) = (rw q refl, stop c h q)
  where
    stop : (c : ℕ) → c ≢ 35 → is_delimiter c ≡ false → (c == 35) || (c == 10) ≡ false
    stop c h q = ground arith

letters : (w : List ℕ) → IsWord w → All (λ b. is_delimiter b ≡ false) w
letters [] v = absurd v
letters (c ∷ cs) (h, v) = v

line_lem :
    (n : Node)
    → length n.key + length n.value ≤ 2045
    → line_of n ≡ n.key ++ (61 ∷ (n.value ++ (10 ∷ [])))
line_lem n h = take-length (n.key ++ (61 ∷ (n.value ++ (10 ∷ [])))) 2047 (
    omega
      (arith, length-append n.key (61 ∷ (n.value ++ (10 ∷ []))), length-append n.value (10 ∷ [])))

-- parse_line of the line that dump writes for a node sets the node's value for its key, where both
-- are words without delimiters that do not begin with #, and the line fits the array.
pub parse_line-line_of :
    (malloc : ℕ → Bool) (c : UnixConfig) (n : Node)
    → IsWord n.key
    → IsWord n.value
    → length n.key + length n.value ≤ 2045
    → parse_line malloc c (line_of n) ≡ set malloc c n.key n.value
unfolding parse_line
parse_line-line_of malloc c n hk hv h =
    let tail = n.value ++ (10 ∷ []) in
    let (a1, a2) = skip-word n.key (61 ∷ tail) hk in
    let (b1, b2) = word_at-append n.key tail 61 (letters n.key hk) refl in
    let (c1, c2) = skip-word n.value (10 ∷ []) hv in
    let (d1, d2) = word_at-append n.value [] 10 (letters n.value hv) refl in
    ap (λ l. parse_key malloc c (skip_delimiters l)) (line_lem n h)
    ∙ ap (parse_key malloc c) a1
    ∙ ap
        (λ b.
          if b
          then (minus_one, c)
          else parse_value malloc c (word_at (n.key ++ (61 ∷ tail)))
              (skip_delimiters (behind_word (n.key ++ (61 ∷ tail)))))
        a2
    ∙ ap₂ (λ w p. parse_value malloc c w (skip_delimiters p)) b1 b2
    ∙ ap (parse_value malloc c n.key) c1
    ∙ ap (λ b. if b then (minus_one, c) else set malloc c n.key (word_at tail)) c2
    ∙ ap (set malloc c n.key) d1
