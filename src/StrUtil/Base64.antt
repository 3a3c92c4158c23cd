-- ===== src/StrUtil/Base64.antt =====
-- CBase64 and base64_str_to_normal of public/str_util.cpp. A byte is a number below 256.
use frame_work.Prelude.{
  ℕ, suc, ◌+◌, ◌-◌, ◌*◌, ◌/◌, ◌%◌, Bool, true, false, ◌||◌, List, [], ◌∷◌, ◌++◌, Option, none, some,
  ltb, ◌==◌, if◌then◌else◌, get_or, get_elem?, length, replicate,
}
use frame_work.StrUtil.Table.{g_codes, g_map}

abbrev pub code : ℕ → ℕ
code i = get_or g_codes i 0

abbrev pub pad : ℕ
pad = 61

-- Encode into a string: three bytes at a time, then what is left of them.
abbrev pub encode : List ℕ → List ℕ
encode [] = []
encode (a ∷ []) = code (a / 4) ∷ code (a % 4 * 16) ∷ pad ∷ pad ∷ []
encode (a ∷ b ∷ []) = code (a / 4) ∷ code (a % 4 * 16 + b / 16) ∷ code (b % 16 * 4) ∷ pad ∷ []
encode (a ∷ b ∷ c ∷ rest) =
    code (a / 4)
    ∷ code (a % 4 * 16 + b / 16)
    ∷ code (b % 16 * 4 + c / 64)
    ∷ code (c % 64)
    ∷ encode rest

-- Encode into memory of `cap` bytes: the bytes that are written, the NUL at the end with them, of
-- which *uOutLen counts all but the NUL. `given` says that pOut is not NULL.
unfoldable pub encode_into : List ℕ → Bool → ℕ → Option (List ℕ × ℕ)
encode_into bytes false cap = none
encode_into bytes true cap =
    if cap == 0 || ltb cap ((length bytes + 2) / 3 * 4 + 1)
    then none
    else some (encode bytes ++ (0 ∷ []), length (encode bytes))

-- `out` is what stands in pOut, so that z is its length; t, y and g are those of the source, g with
-- the wrap-around of an unsigned long.
pub record Decoder : Type 0 where
  pub t : ℕ
  pub y : ℕ
  pub g : ℕ
  pub out : List ℕ

-- How Decode ends: it returns true; it returns false with these bytes written; or it reads g_pMap
-- outside its 256 entries, which the index of a char above 127 does.
pub data Decoded : Type 0 where
  decoded : List ℕ → Decoded
  overflow : List ℕ → Decoded
  outside : Decoded

abbrev pub word : ℕ
word = 18446744073709551616

-- The bytes of the group that is complete in t.
abbrev pub group : ℕ → ℕ → List ℕ
group g t =
    t / 65536 % 256
    ∷ ((if ltb 1 g then t / 256 % 256 ∷ [] else []) ++ (if ltb 2 g then t % 256 ∷ [] else []))

-- What one round of the loop does.
pub data Round : Type 0 where
  goes : Decoder → Round
  fails : Decoded → Round

-- From `t = (t << 6) | c` on, where c is below 64.
abbrev pub take_six : ℕ → Decoder → ℕ → Round
take_six cap d c =
    let t = d.t * 64 + c in
    if suc d.y == 4
    then (if ltb cap ((length d.out + d.g) % word)
        then fails (overflow d.out)
        else goes (record { t = 0; y = 0; g = d.g; out = d.out ++ group d.g t }))
    else goes (record d { t = t; y = suc d.y })

-- c == 255 and c == 254 come first.
abbrev pub take_char : ℕ → Decoder → Option ℕ → Round
take_char cap d none = fails outside
take_char cap d (some c) =
    if c == 255
    then goes d
    else (if c == 254
        then take_six cap (record d { g = (d.g + (word - 1)) % word }) 0
        else take_six cap d c)

-- g_pMap[(size_t)strIn[x]], for a signed char.
abbrev pub lookup : ℕ → Option ℕ
lookup c = if ltb 127 c then none else get_elem? g_map c

abbrev pub and_then : (Decoder → Decoded) → Round → Decoded
and_then next (goes d) = next d
and_then next (fails r) = r

unfoldable pub decode_from : ℕ → List ℕ → Decoder → Decoded
decode_from cap [] d = decoded d.out
decode_from cap (c ∷ cs) d = and_then (decode_from cap cs) (take_char cap d (lookup c))

unfoldable pub decode : List ℕ → ℕ → Decoded
unfolding decode_from
decode text cap = decode_from cap text (record { t = 0; y = 0; g = 3; out = [] })

-- The answer of Decode is not read, so that the buffer, which was zero, is taken as it stands.
abbrev pub as_text : ℕ → Decoded → Option (List ℕ)
as_text len (decoded out) = some out
as_text len (overflow out) = some (out ++ replicate (len - length out) 0)
as_text len outside = none

unfoldable pub base64_str_to_normal : List ℕ → Option (List ℕ)
unfolding decode
base64_str_to_normal text = as_text (length text) (decode text (length text))
