-- ===== src/Common/Text.antt =====
-- `str` of the standard library as its bytes: the UTF-8 encoding of its characters, the order of
-- `str::cmp` and the check of `std::str::from_utf8`, which are those of Rust's documentation.
use Prim.Native.Nat.{ℕ, ◌+◌, ◌/◌, ◌%◌}
use Prim.Native.Char.{code}
use Prim.Native.String.{String, [] as no_chars, ◌∷◌ as char_before}
use mathlib.Core.Bool.{Bool, true, false, ◌&&◌, ◌||◌}
use mathlib.Core.List.{List, [], ◌∷◌, ◌++◌}
use compact_core.Common.Booleans.{ltb, leb, ◌==◌, if◌then◌else◌}

abbrev char_bytes : ℕ → List ℕ
char_bytes c =
    if ltb c 0x80
    then c ∷ []
    else if ltb c 0x800
    then (0xc0 + c / 64) ∷ (0x80 + c % 64) ∷ []
    else if ltb c 0x10000
    then (0xe0 + c / 4096) ∷ (0x80 + c / 64 % 64) ∷ (0x80 + c % 64) ∷ []
    else (0xf0 + c / 262144) ∷ (0x80 + c / 4096 % 64) ∷ (0x80 + c / 64 % 64) ∷ (0x80 + c % 64) ∷ []

-- `text.as_bytes()`
unfoldable pub as_bytes : String → List ℕ
as_bytes no_chars = []
as_bytes (char_before c text) = char_bytes (code c) ++ as_bytes text

-- `a < b` for two texts, byte by byte.
unfoldable pub text_ltb : List ℕ → List ℕ → Bool
text_ltb [] [] = false
text_ltb [] (y ∷ ys) = true
text_ltb (x ∷ xs) [] = false
text_ltb (x ∷ xs) (y ∷ ys) = ltb x y || (x == y && text_ltb xs ys)

abbrev continuation : ℕ → Bool
continuation b = leb 0x80 b && leb b 0xbf

-- The second bytes that may stand behind the first byte of a sequence of three.
abbrev second_of_three : ℕ → ℕ → Bool
second_of_three first b =
    if first == 0xe0
    then leb 0xa0 b && leb b 0xbf
    else if first == 0xed
    then leb 0x80 b && leb b 0x9f
    else continuation b

-- The same for a sequence of four.
abbrev second_of_four : ℕ → ℕ → Bool
second_of_four first b =
    if first == 0xf0
    then leb 0x90 b && leb b 0xbf
    else if first == 0xf4
    then leb 0x80 b && leb b 0x8f
    else continuation b

-- A sequence of one to four bytes after another: no overlong form, no surrogate, none above
-- U+10FFFF.
unfoldable pub is_utf8 : List ℕ → Bool
is_utf8 [] = true
is_utf8 (a ∷ []) = ltb a 0x80
is_utf8 (a ∷ b ∷ []) =
    if ltb a 0x80 then is_utf8 (b ∷ []) else leb 0xc2 a && leb a 0xdf && continuation b
is_utf8 (a ∷ b ∷ c ∷ []) =
    let one = is_utf8 (b ∷ c ∷ []) in
    let two = is_utf8 (c ∷ []) in
    if ltb a 0x80
    then one
    else if leb 0xc2 a && leb a 0xdf
    then continuation b && two
    else leb 0xe0 a && leb a 0xef && second_of_three a b && continuation c
is_utf8 (a ∷ b ∷ c ∷ d ∷ rest) =
    let one = is_utf8 (b ∷ c ∷ d ∷ rest) in
    let two = is_utf8 (c ∷ d ∷ rest) in
    let three = is_utf8 (d ∷ rest) in
    let four = is_utf8 rest in
    if ltb a 0x80
    then one
    else if leb 0xc2 a && leb a 0xdf
    then continuation b && two
    else if leb 0xe0 a && leb a 0xef
    then second_of_three a b && continuation c && three
    else leb 0xf0 a && leb a 0xf4 && second_of_four a b && continuation c && continuation d && four
