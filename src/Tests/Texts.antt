-- ===== src/Tests/Texts.antt =====
-- Runs of the functions on text.
use frame_work.Prelude.{ℕ, ◌≤◌, ◌≡◌, refl, List, [], ◌∷◌, some, ◌++◌, length, take, arith}
use frame_work.StrUtil.Base64.{encode, decode, decoded, encode_into, base64_str_to_normal}
use frame_work.StrUtil.Codec.{base64_str_to_normal-encode, encode_into-decode}
use frame_work.StrUtil.Split.{str_split_by, join}
use frame_work.StrUtil.Pieces.{join-str_split_by}
use frame_work.StrUtil.Rejoin.{str_split_by-join}
use frame_work.StrUtil.Trim.{str_trim}

-- "Man!"
abbrev man : List ℕ
man = b'M' ∷ b'a' ∷ b'n' ∷ b'!' ∷ []

-- "TWFuIQ=="
man_encoded : encode man ≡ b'T' ∷ b'W' ∷ b'F' ∷ b'u' ∷ b'I' ∷ b'Q' ∷ b'=' ∷ b'=' ∷ []
man_encoded = refl

base64_str_to_normal-encode_example : base64_str_to_normal (encode man) ≡ some man
base64_str_to_normal-encode_example =
    base64_str_to_normal-encode man (omega arith, (omega arith, (omega arith, (omega arith, tt))))
      (omega arith)

encode_into-decode_example :
    (length (encode man ++ (0 ∷ [])) ≤ 9)
    × (decode (take 8 (encode man ++ (0 ∷ []))) 9 ≡ decoded man)
unfolding encode_into
encode_into-decode_example =
    encode_into-decode man 9 (encode man ++ (0 ∷ [])) 8
      (omega arith, (omega arith, (omega arith, (omega arith, tt)))) (omega arith) refl

-- "a,,bc"
abbrev commas : List ℕ
commas = b'a' ∷ b',' ∷ b',' ∷ b'b' ∷ b'c' ∷ []

commas_split : str_split_by commas b',' ≡ (b'a' ∷ []) ∷ [] ∷ (b'b' ∷ b'c' ∷ []) ∷ []
unfolding str_split_by
commas_split = refl

join-str_split_by_example : join (str_split_by commas b',') b',' ≡ commas
join-str_split_by_example = join-str_split_by commas b','

str_split_by-join_example :
    str_split_by (join ((b'a' ∷ []) ∷ [] ∷ (b'b' ∷ []) ∷ []) b',') b','
    ≡ (b'a' ∷ []) ∷ [] ∷ (b'b' ∷ []) ∷ []
str_split_by-join_example =
    str_split_by-join (b'a' ∷ []) ([] ∷ (b'b' ∷ []) ∷ []) b','
      (((λ e. absurd (omega arith)), tt), (tt, (((λ e. absurd (omega arith)), tt), tt))) (λ e. cc)

-- "  a b " and "\ta"
trimmed : str_trim (32 ∷ 32 ∷ b'a' ∷ 32 ∷ b'b' ∷ 32 ∷ []) ≡ b'a' ∷ 32 ∷ b'b' ∷ []
unfolding str_trim
trimmed = refl

not_trimmed : str_trim (9 ∷ b'a' ∷ []) ≡ 9 ∷ b'a' ∷ []
unfolding str_trim
not_trimmed = refl
