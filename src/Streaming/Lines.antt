-- ===== src/Streaming/Lines.antt =====
-- The lines of streaming/writer.rs as bytes: `str::trim` of the standard library, and
-- `normalize_jsonl_line`.
use compact_core.Common.{
  ℕ, List, [], ◌∷◌, ◌++◌, Bool, true, false, not, ◌&&◌, ◌||◌, leb, ◌==◌, if◌then◌else◌, Result, ok,
  ◌>>◌, ensure, invalid_input,
}

-- The UTF-8 forms of the characters with the property White_Space.
abbrev space_of_one : ℕ → Bool
space_of_one a = (leb 9 a && leb a 13) || a == 32

abbrev space_of_two : ℕ → ℕ → Bool
space_of_two a b = a == 0xc2 && (b == 0x85 || b == 0xa0)

abbrev space_of_three : ℕ → ℕ → ℕ → Bool
space_of_three a b c =
    (a == 0xe1 && (b == 0x9a && c == 0x80))
    || (a == 0xe2
        && (b == 0x80 && ((leb 0x80 c && leb c 0x8a) || (c == 0xa8 || (c == 0xa9 || c == 0xaf)))))
    || (a == 0xe2 && (b == 0x81 && c == 0x9f))
    || (a == 0xe3 && (b == 0x80 && c == 0x80))

-- `line.trim().is_empty()`
unfoldable pub is_blank : List ℕ → Bool
is_blank [] = true
is_blank (a ∷ []) = space_of_one a
is_blank (a ∷ b ∷ []) =
    let one = is_blank (b ∷ []) in if space_of_one a then one else space_of_two a b
is_blank (a ∷ b ∷ c ∷ rest) =
    let one = is_blank (b ∷ c ∷ rest) in
    let two = is_blank (c ∷ rest) in
    let three = is_blank rest in
    if space_of_one a then one else if space_of_two a b then two else space_of_three a b c && three

-- `strip_suffix(c).unwrap_or(line)` for a character of one byte.
unfoldable pub strip_last : ℕ → List ℕ → List ℕ
strip_last c [] = []
strip_last c (a ∷ []) = if a == c then [] else a ∷ []
strip_last c (a ∷ b ∷ line) = a ∷ strip_last c (b ∷ line)

abbrev pub has_newline : List ℕ → Bool
has_newline [] = false
has_newline (a ∷ line) = (a == 10 || a == 13) || has_newline line

unfoldable pub normalize_jsonl_line : List ℕ → Result (List ℕ)
unfolding strip_last
normalize_jsonl_line line =
    let stripped = strip_last 13 (strip_last 10 line) in
    (do
      ensure (not (has_newline stripped))
          (invalid_input "jsonl line must not contain embedded newline")
      ok (stripped ++ 10 ∷ []))
