-- ===== src/UnixConfig/Lines.antt =====
-- unix_config::parse_line, load and dump.
use frame_work.Prelude.{
  ℕ, zero, suc, ◌+◌, Bool, true, false, ◌||◌, List, [], ◌∷◌, ◌++◌, Option, none, some, ℤ, ok,
  minus_one, leb, ◌==◌, if◌then◌else◌, length, take,
}
use frame_work.UnixConfig.{Node, UnixConfig, max_line_size, set}

-- node_delimiter_string: space, tab, CR, = and newline.
abbrev pub is_delimiter : ℕ → Bool
is_delimiter c = (c == 32) || ((c == 9) || ((c == 13) || ((c == 61) || (c == 10))))

-- p + strspn(p, node_delimiter_string)
abbrev pub skip_delimiters : List ℕ → List ℕ
skip_delimiters [] = []
skip_delimiters (c ∷ cs) = if is_delimiter c then skip_delimiters cs else c ∷ cs

-- The strcspn(p, node_delimiter_string) bytes at p, and what is behind them.
abbrev pub word_at : List ℕ → List ℕ
word_at [] = []
word_at (c ∷ cs) = if is_delimiter c then [] else c ∷ word_at cs

abbrev pub behind_word : List ℕ → List ℕ
behind_word [] = []
behind_word (c ∷ cs) = if is_delimiter c then c ∷ cs else behind_word cs

-- *p == '\0' || *p == '#' || *p == '\n'
abbrev pub is_stop : List ℕ → Bool
is_stop [] = true
is_stop (c ∷ cs) = (c == 35) || (c == 10)

module _ (malloc : ℕ → Bool) where
  abbrev pub parse_value : UnixConfig → List ℕ → List ℕ → ℤ × UnixConfig
  parse_value c key p = if is_stop p then (minus_one, c) else set malloc c key (word_at p)

  abbrev pub parse_key : UnixConfig → List ℕ → ℤ × UnixConfig
  parse_key c p =
      if is_stop p
      then (minus_one, c)
      else parse_value c (word_at p) (skip_delimiters (behind_word p))

  -- parse_line of the bytes before the NUL
  unfoldable pub parse_line : UnixConfig → List ℕ → ℤ × UnixConfig
  parse_line c line = parse_key c (skip_delimiters line)

  -- The bytes of an array up to the first NUL.
  abbrev pub text_of : List ℕ → List ℕ
  text_of [] = []
  text_of (b ∷ bs) = if b == 0 then [] else b ∷ text_of bs

  abbrev pub is_last : List ℕ → Bool
  is_last [] = true
  is_last (b ∷ bs) = false

  -- load(data, size): `line` is what stands from `begin` to p. None: a line that does not fit the
  -- array `line` with its NUL is written beyond its end.
  abbrev pub load_from : UnixConfig → List ℕ → List ℕ → Option UnixConfig
  load_from c line [] = some c
  load_from c line (b ∷ bs) =
      let line' = line ++ (b ∷ []) in
      let over = leb max_line_size (length line') in
      let ends = (b == 10) || is_last bs in
      let rest =
        load_from (if ends then (parse_line c (text_of line')).1 else c)
          (if ends then [] else line') bs in
      if ends then (if over then none else rest) else rest

  unfoldable pub load : UnixConfig → List ℕ → Option UnixConfig
  unfolding parse_line
  load c bytes = load_from c [] bytes

  -- load(filename): fgets cuts the file behind a newline, and at MAX_LINE_SIZE - 2 bytes.
  abbrev pub load_lines : UnixConfig → List ℕ → List ℕ → UnixConfig
  load_lines c line [] = c
  load_lines c line (b ∷ bs) =
      let line' = line ++ (b ∷ []) in
      let ends = (b == 10) || (is_last bs || (length line' + 2 == max_line_size)) in
      load_lines (if ends then (parse_line c (text_of line')).1 else c) (if ends then [] else line')
        bs

  -- fopen answers the bytes of the file, or fails.
  unfoldable pub load_file : UnixConfig → Option (List ℕ) → ℤ × UnixConfig
  unfolding parse_line
  load_file c none = (minus_one, c)
  load_file c (some bytes) = (ok, load_lines c [] bytes)

-- "%s=%s\n", as snprintf cuts it.
abbrev pub line_of : Node → List ℕ
line_of n = take 2047 (n.key ++ (61 ∷ (n.value ++ (10 ∷ []))))

abbrev pub dump_chain : List Node → List ℕ
dump_chain [] = []
dump_chain (n ∷ ns) = line_of n ++ dump_chain ns

-- The chains of the buckets from the one that is `n` before the end.
abbrev pub dump_buckets : UnixConfig → ℕ → ℕ → List ℕ
dump_buckets c i zero = []
dump_buckets c i (suc n) = dump_chain (c.buckets i) ++ dump_buckets c (i + 1) n

unfoldable pub dump : UnixConfig → List ℕ
dump c = dump_buckets c 0 1024
