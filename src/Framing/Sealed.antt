-- ===== src/Framing/Sealed.antt =====
-- A checksum of four bytes before the body that it covers, as the search blocks have it.
use compact_core.Common.{
  ℕ, ◌+◌, ◌≡◌, ap, ◌∙◌, arith, List, ◌++◌, true, ◌==◌, ==_iff, refl, length, length-append,
  length-to_le_bytes, take, drop, take-append_exact, drop-append_exact, to_le_bytes, from_le_bytes,
  from_le_bytes-to_le_bytes, IsU32,
}

module _ (sum : ℕ) (body : List ℕ) (word : IsU32 sum) where
  crc_size : length (to_le_bytes 4 sum) ≡ 4
  crc_size = length-to_le_bytes 4 sum

  pub sealed_sum : from_le_bytes (take 4 (to_le_bytes 4 sum ++ body)) ≡ sum
  sealed_sum =
      ap from_le_bytes (take-append_exact 4 (to_le_bytes 4 sum) body crc_size)
      ∙ from_le_bytes-to_le_bytes 4 sum word

  pub sealed_body : drop 4 (to_le_bytes 4 sum ++ body) ≡ body
  sealed_body = drop-append_exact 4 (to_le_bytes 4 sum) body crc_size

  pub sealed_length : length (to_le_bytes 4 sum ++ body) ≡ 4 + length body
  sealed_length = omega (arith, length-append (to_le_bytes 4 sum) body, crc_size)

pub ==_self : (n : ℕ) → (n == n) ≡ true
==_self n = (==_iff n n).1 refl
