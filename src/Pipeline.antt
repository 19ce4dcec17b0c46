-- ===== src/Pipeline.antt =====
-- crates/compact-core/src/pipeline/delta_varint.rs.
pub mod RoundTrip
mod Tests
use compact_core.Common.{ℕ, List, Result, ok, ◌>>=◌}
use compact_core.Primitives.Delta.{encode_delta_u64, decode_delta_u64}
use compact_core.Primitives.Varint

unfoldable pub encode_u64 : List ℕ → Result (List ℕ)
encode_u64 values = do deltas ← encode_delta_u64 values; ok (Varint.encode_u64 deltas)

unfoldable pub decode_u64 : List ℕ → Result (List ℕ)
decode_u64 bytes = do deltas ← Varint.decode_u64 bytes; decode_delta_u64 deltas
