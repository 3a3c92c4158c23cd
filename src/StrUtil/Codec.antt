-- ===== src/StrUtil/Codec.antt =====
-- Decode takes back what Encode makes.
use frame_work.Prelude.{
  ℕ, zero, suc, ◌+◌, ◌*◌, ◌/◌, ◌%◌, ◌^◌, ◌≤◌, ◌<◌, ◌≡◌, inl, inr, refl, sym, ap, ap₂, ◌∙◌, Bool,
  true, false, ◌&&◌, ◌||◌, List, [], ◌∷◌, ◌++◌, Option, none, some, ltb, ◌==◌, length, take, All,
  append-nil, append_assoc, length-append, take-append_le, take-length, Bool-cases, arith,
}
use frame_work.StrUtil.Base64.{
  code, pad, encode, Decoder, decoded, group, take_six, take_char, lookup, and_then, goes,
  decode_from, decode, encode_into, word, as_text, base64_str_to_normal,
}

abbrev all_below : (ℕ → Bool) → ℕ → Bool
all_below t zero = true
all_below t (suc n) = t n && all_below t n

all_below_lem : (t : ℕ → Bool) (n i : ℕ) → all_below t n ≡ true → i < n → t i ≡ true
all_below_lem t zero i h b = absurd (omega arith)
all_below_lem t (suc n) i h b = elim (Bool-cases (i == n)) [
  | inl e ↦ let same : i ≡ n = ground arith in ap t same ∙ left (t n) h
  | inr e ↦ all_below_lem t n i (right (t n) h) (ground arith)
]
  where
    left : (a : Bool) → a && all_below t n ≡ true → a ≡ true
    left true q = refl
    left false q = q

    right : (a : Bool) → a && all_below t n ≡ true → all_below t n ≡ true
    right true q = q
    right false q = absurd (cc)

abbrev is_at : ℕ → Option ℕ → Bool
is_at i none = false
is_at i (some j) = j == i

is_at_lem : (i : ℕ) (o : Option ℕ) → is_at i o ≡ true → o ≡ some i
is_at_lem i none h = absurd (cc)
is_at_lem i (some j) h = let same : j ≡ i = ground arith in ap some same

lookup-code : (i : ℕ) → i < 64 → lookup (code i) ≡ some i
lookup-code i b =
    is_at_lem i (lookup (code i)) (all_below_lem (λ i. is_at i (lookup (code i))) 64 i refl b)

char_six :
    (cap : ℕ) (d : Decoder) (i : ℕ) → i < 64 → take_char cap d (lookup (code i)) ≡ take_six cap d i
char_six cap d i b =
    let x : (i == 255) ≡ false = ground arith in
    let y : (i == 254) ≡ false = ground arith in rw (lookup-code i b) (simp (x, y))

abbrev at : ℕ → ℕ → ℕ → List ℕ → Decoder
at t y g out = record { t = t; y = y; g = g; out = out }

-- A character of g_codes in the first three places of a group, and in the fourth.
one_char :
    (cap i : ℕ) (cs : List ℕ) (d : Decoder)
    → i < 64
    → decode_from cap (code i ∷ cs) d ≡ and_then (decode_from cap cs) (take_six cap d i)
unfolding decode_from
one_char cap i cs d b = ap (and_then (decode_from cap cs)) (char_six cap d i b)

fits : (cap n g : ℕ) → n + g ≤ cap → cap < word → ltb cap ((n + g) % word) ≡ false
fits cap n g h b = let k : (n + g) % word ≤ cap = omega arith in ground arith

fourth :
    (cap i t g : ℕ) (out : List ℕ)
    → length out + g ≤ cap
    → cap < word
    → take_six cap (at t 3 g out) i ≡ goes (at 0 0 g (out ++ group g (t * 64 + i)))
fourth cap i t g out h b = simp (fits cap (length out) g h b)

four_chars :
    (cap i j k l : ℕ) (cs out : List ℕ)
    → i < 64
    → j < 64
    → k < 64
    → l < 64
    → length out + 3 ≤ cap
    → cap < word
    → decode_from cap (code i ∷ code j ∷ code k ∷ code l ∷ cs) (at 0 0 3 out)
      ≡ decode_from cap cs (at 0 0 3 (out ++ group 3 ((((0 * 64 + i) * 64 + j) * 64 + k) * 64 + l)))
four_chars cap i j k l cs out bi bj bk bl h b =
    one_char cap i _ _ bi
    ∙ one_char cap j _ (at (0 * 64 + i) 1 3 out) bj
    ∙ one_char cap k _ (at ((0 * 64 + i) * 64 + j) 2 3 out) bk
    ∙ one_char cap l _ (at (((0 * 64 + i) * 64 + j) * 64 + k) 3 3 out) bl
    ∙ ap (and_then (decode_from cap cs)) (fourth cap l _ 3 out h b)

three_bytes :
    (a b c : ℕ)
    → a < 256
    → b < 256
    → c < 256
    → group 3 (
        (((0 * 64 + a / 4) * 64 + (a % 4 * 16 + b / 16)) * 64 + (b % 16 * 4 + c / 64)) * 64
        + c % 64)
      ≡ a ∷ b ∷ c ∷ []
three_bytes a b c ha hb hc =
    ap₂ ◌∷◌ (omega arith) (ap₂ ◌∷◌ (omega arith) (ap (λ x. x ∷ []) (omega arith)))

two_bytes :
    (a b : ℕ)
    → a < 256
    → b < 256
    → group 2 ((((0 * 64 + a / 4) * 64 + (a % 4 * 16 + b / 16)) * 64 + b % 16 * 4) * 64 + 0)
      ≡ a ∷ b ∷ []
two_bytes a b ha hb = ap₂ ◌∷◌ (omega arith) (ap (λ x. x ∷ []) (omega arith))

one_byte :
    (a : ℕ) → a < 256 → group 1 ((((0 * 64 + a / 4) * 64 + a % 4 * 16) * 64 + 0) * 64 + 0) ≡ a ∷ []
one_byte a ha = ap (λ x. x ∷ []) (omega arith)

abbrev pub Byte : ℕ → Type 0
Byte c = c < 256

decode_from-encode :
    (cap : ℕ) (bytes out : List ℕ)
    → All Byte bytes
    → length out + length bytes ≤ cap
    → cap < word
    → decode_from cap (encode bytes) (at 0 0 3 out) ≡ decoded (out ++ bytes)
unfolding decode_from
decode_from-encode cap [] out v h b = ap decoded (sym (append-nil out))
decode_from-encode cap (x ∷ []) out (hx, _) h b =
    one_char cap (x / 4) (code (x % 4 * 16) ∷ pad ∷ pad ∷ []) (at 0 0 3 out) (omega arith)
    ∙ one_char cap (x % 4 * 16) (pad ∷ pad ∷ []) (at (0 * 64 + x / 4) 1 3 out) (omega arith)
    ∙ ap (and_then (decode_from cap [])) (fourth cap 0 _ 1 out (omega arith) b)
    ∙ ap (λ g. decoded (out ++ g)) (one_byte x hx)
decode_from-encode cap (x ∷ y ∷ []) out (hx, (hy, _)) h b =
    let j = x % 4 * 16 + y / 16 in
    let k = y % 16 * 4 in
    one_char cap (x / 4) (code j ∷ code k ∷ pad ∷ []) (at 0 0 3 out) (omega arith)
    ∙ one_char cap j (code k ∷ pad ∷ []) (at (0 * 64 + x / 4) 1 3 out) (omega arith)
    ∙ one_char cap k (pad ∷ []) (at ((0 * 64 + x / 4) * 64 + j) 2 3 out) (omega arith)
    ∙ ap (and_then (decode_from cap [])) (fourth cap 0 _ 2 out (omega arith) b)
    ∙ ap (λ g. decoded (out ++ g)) (two_bytes x y hx hy)
decode_from-encode cap (x ∷ y ∷ z ∷ rest) out (hx, (hy, (hz, v))) h b =
    four_chars cap (x / 4) (x % 4 * 16 + y / 16) (y % 16 * 4 + z / 64) (z % 64) (encode rest) out
      (omega arith) (omega arith) (omega arith) (omega arith) (omega arith) b
    ∙ ap (λ g. decode_from cap (encode rest) (at 0 0 3 (out ++ g))) (three_bytes x y z hx hy hz)
    ∙ decode_from-encode cap rest (out ++ (x ∷ y ∷ z ∷ [])) v
        (omega (arith, length-append out (x ∷ y ∷ z ∷ []))) b
    ∙ ap decoded (append_assoc out (x ∷ y ∷ z ∷ []) rest)

-- x
pub decode-encode :
    (bytes : List ℕ) (cap : ℕ)
    → All Byte bytes
    → length bytes ≤ cap
    → cap < word
    → decode (encode bytes) cap ≡ decoded bytes
unfolding decode
decode-encode bytes cap v h b = decode_from-encode cap bytes [] v (omega (arith, h)) b

length-encode : (bytes : List ℕ) → length (encode bytes) ≡ (length bytes + 2) / 3 * 4
length-encode [] = refl
length-encode (x ∷ []) = refl
length-encode (x ∷ y ∷ []) = refl
length-encode (x ∷ y ∷ z ∷ rest) = omega (arith, length-encode rest)

-- base64_str_to_normal of what Encode makes of any bytes gives these bytes back, where the encoded
-- text is shorter than 2 ^ 31.
pub base64_str_to_normal-encode :
    (bytes : List ℕ)
    → All Byte bytes
    → length (encode bytes) < 2 ^ 31
    → base64_str_to_normal (encode bytes) ≡ some bytes
unfolding base64_str_to_normal
base64_str_to_normal-encode bytes v h = ap (as_text (length (encode bytes))) (
    decode-encode bytes (length (encode bytes)) v (omega (arith, length-encode bytes))
      (omega arith))

take-written : (xs : List ℕ) (x : ℕ) → take (length xs) (xs ++ (x ∷ [])) ≡ xs
take-written xs x =
    take-append_le xs (x ∷ []) (length xs) (omega arith) ∙ take-length xs (length xs) (omega arith)

-- Where Encode into memory of fewer than 2 ^ 64 bytes succeeds, it writes no more bytes than the
-- memory has, the NUL at the end counted, and Decode of the bytes that it reports, into memory of
-- the same size, gives back what was encoded.
pub encode_into-decode :
    (bytes : List ℕ) (cap : ℕ) (written : List ℕ) (out_len : ℕ)
    → All Byte bytes
    → cap < word
    → encode_into bytes true cap ≡ some (written, out_len)
    → (length written ≤ cap) × (decode (take out_len written) cap ≡ decoded bytes)
unfolding encode_into
encode_into-decode bytes cap written out_len v b =
    elim (Bool-cases (cap == 0 || ltb cap ((length bytes + 2) / 3 * 4 + 1))) [
      | inl q ↦ rw q (λ p. absurd (cc))
      | inr q ↦ rw q (λ p.
          let w : encode bytes ++ (0 ∷ []) ≡ written = cc in
          let l : length (encode bytes) ≡ out_len = cc in
          let room : (length bytes + 2) / 3 * 4 + 1 ≤ cap = ground arith in
          let fill : length written ≤ cap =
            omega
              (arith, ap length w, length-append (encode bytes) (0 ∷ []), length-encode bytes) in
          (
            fill,
            ap₂ (λ n t. decode (take n t) cap) (sym l) (sym w)
                ∙ ap (λ t. decode t cap) (take-written (encode bytes) 0)
                ∙ decode-encode bytes cap v (omega (arith, room)) b,
          ))
    ]
