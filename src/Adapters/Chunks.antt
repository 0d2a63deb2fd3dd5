-- ===== src/Adapters/Chunks.antt =====
-- The size of the chunks of an upload, src/adapters/common.rs.
use marlin_binary_transfer.Common.{ℕ, ◌≤◌, ◌<◌, min, arith, ◌==◌, if◌then◌else◌}
use marlin_binary_transfer.Codec.{max_payload}

abbrev pub fallback_chunk_size : ℕ
fallback_chunk_size = 256

-- `resolve_chunk_size`.
unfoldable pub resolve_chunk_size : (requested device_max : ℕ) → ℕ
resolve_chunk_size requested device_max =
    let device_max' = if device_max == 0 then fallback_chunk_size else device_max in
    if requested == 0 then device_max' else min requested device_max'

-- The size is positive, so that the payload can be cut; it fits the payload of a packet whenever
-- the device's block size is a u16; it is at most what the device advertises, or the fallback when
-- it advertises 0, and at most what the caller requests, if that is not 0.
pub resolve_chunk_size_lem :
    (requested device_max : ℕ)
    → device_max < 65536
    → (0 < resolve_chunk_size requested device_max)
      × (resolve_chunk_size requested device_max ≤ max_payload)
      × (resolve_chunk_size requested device_max
          ≤ (if device_max == 0 then fallback_chunk_size else device_max))
      × (resolve_chunk_size requested device_max
          ≤ (if requested == 0 then max_payload else requested))
unfolding resolve_chunk_size
resolve_chunk_size_lem requested device_max h =
    (ground arith, ground arith, ground arith, ground arith)
