-- ===== src/Codec.antt =====
-- Layer 1, src/codec.rs: packets, their wire format, and the Fletcher-16 checksum.
pub mod Checksum
pub mod Frame
pub mod Decode
pub mod Answers
pub mod Sound
pub mod Corruption
mod Runs
use marlin_binary_transfer.Common.{
  zero, suc, ℕ, zero, suc, ◌+◌, ◌-◌, ◌*◌, ◌/◌, ◌%◌, ◌^◌, bit_and, bit_or, Bool, true, false, not,
  List, [], ◌∷◌, ◌++◌, Bytes, ltb, ◌==◌, if◌then◌else◌, is_empty, length, get_or, take, drop, u8,
  u16, shr, shl, Result, ok, err, Checked, done, panic, ◌>>=◌,
}

abbrev pub packet_token : ℕ
packet_token = 0xB5AD

abbrev pub header_len : ℕ
header_len = 8

-- `u16::MAX as usize`
abbrev pub max_payload : ℕ
max_payload = 65535

pub record Packet : Type 0 where
  pub sync : ℕ  -- u8
  pub protocol : ℕ  -- u8
  pub packet_type : ℕ  -- u8
  pub payload : Bytes

pub data DecodeError : Type 0 where
  incomplete : (need have : ℕ) → DecodeError
  bad_token : (expected got : ℕ) → DecodeError
  header_checksum : (stored computed : ℕ) → DecodeError
  payload_checksum : (stored computed : ℕ) → DecodeError

pub data EncodeError : Type 0 where
  payload_too_large : (len : ℕ) → EncodeError
  bad_protocol : ℕ → EncodeError
  bad_packet_type : ℕ → EncodeError

-- `Packet::new`.
unfoldable pub new : (sync protocol packet_type : ℕ) → Bytes → Result Packet EncodeError
new sync protocol packet_type payload =
    if ltb 0xF protocol
    then err (bad_protocol protocol)
    else if ltb 0xF packet_type
    then err (bad_packet_type packet_type)
    else if ltb max_payload (length payload)
    then err (payload_too_large (length payload))
    else ok
        (record { sync = sync; protocol = protocol; packet_type = packet_type; payload = payload })

-- `Packet::wire_len`.
unfoldable pub wire_len : Packet → ℕ
wire_len packet =
    if is_empty packet.payload then header_len else header_len + length packet.payload + 2

-- One round of the loop of `fletcher16`. Nothing wraps: each sum stays below 2 ^ 16.
unfoldable pub fletcher_step : ℕ → ℕ → ℕ
fletcher_step cs b =
    let cs_low : ℕ = (bit_and cs 0xFF + b) % 255 in
    bit_or (shl 16 ((shr cs 8 + cs_low) % 255) 8) cs_low

unfoldable pub fletcher_from : ℕ → Bytes → ℕ
fletcher_from cs [] = cs
fletcher_from cs (b ∷ bs) = fletcher_from (fletcher_step cs b) bs

unfoldable pub fletcher16 : Bytes → ℕ
fletcher16 buf = fletcher_from 0 buf

-- `u16::to_le_bytes` and `u16::from_le_bytes`.
abbrev pub to_le_bytes : ℕ → Bytes
to_le_bytes n = n % 256 ∷ (n / 256 % 256 ∷ [])

abbrev pub from_le_bytes : ℕ → ℕ → ℕ
from_le_bytes lo hi = lo + 256 * hi

-- The writes of `encode` behind its guards: the start token and the header.
unfoldable pub encode_header : Packet → Bytes → Bytes
encode_header packet out0 =
    let out1 = out0 ++ to_le_bytes packet_token in
    let header_payload_start = length out1 in
    let out2 = out1 ++ packet.sync ∷ [] in
    let out3 =
      out2
      ++ bit_or (shl 8 (bit_and packet.protocol 0xF) 4) (bit_and packet.packet_type 0xF) ∷ [] in
    let out4 = out3 ++ to_le_bytes (u16 (length packet.payload)) in
    let header_cs = fletcher16 (drop header_payload_start out4) in out4 ++ to_le_bytes header_cs

-- The payload and its checksum, over all that follows the start token.
unfoldable pub encode_payload : ℕ → Packet → Bytes → Bytes
encode_payload header_payload_start packet out =
    if is_empty packet.payload
    then out
    else let out5 = out ++ packet.payload in
      let payload_cs = fletcher16 (drop header_payload_start out5) in out5 ++ to_le_bytes payload_cs

-- `encode`: the buffer afterwards and the result. Every error returns before the first write.
unfoldable pub encode : Packet → Bytes → Bytes × Result ℕ EncodeError
encode packet out =
    if ltb 0xF packet.protocol
    then (out, err (bad_protocol packet.protocol))
    else if ltb 0xF packet.packet_type
    then (out, err (bad_packet_type packet.packet_type))
    else if ltb max_payload (length packet.payload)
    then (out, err (payload_too_large (length packet.payload)))
    else let start = length out in
      let out' = encode_payload (start + 2) packet (encode_header packet out) in
      (out', ok (length out' - start))

-- `buf[i]`, `buf[lo..]` and `buf[..n]`, which panic out of range.
abbrev pub index : Bytes → ℕ → Checked ℕ
index [] i = panic
index (b ∷ bs) zero = done b
index (b ∷ bs) (suc i) = index bs i

abbrev pub slice_from : ℕ → Bytes → Checked Bytes
slice_from zero bs = done bs
slice_from (suc lo) [] = panic
slice_from (suc lo) (b ∷ bs) = slice_from lo bs

abbrev pub slice_to : ℕ → Bytes → Checked Bytes
slice_to zero bs = done []
slice_to (suc n) [] = panic
slice_to (suc n) (b ∷ bs) = do rest ← slice_to n bs; done (b ∷ rest)

-- `buf[lo..hi]`.
abbrev pub slice : Bytes → ℕ → ℕ → Checked Bytes
slice buf lo hi = if ltb hi lo then panic else do rest ← slice_from lo buf; slice_to (hi - lo) rest

abbrev pub Decoded : Type 0
Decoded = Result (Packet × ℕ) DecodeError

-- `decode` from the check for an empty payload on.
unfoldable pub decode_payload :
    Bytes → (sync protocol packet_type payload_len : ℕ) → Checked Decoded
decode_payload buf sync protocol packet_type payload_len =
    if payload_len == 0
    then done (
        ok (
          record { sync = sync; protocol = protocol; packet_type = packet_type; payload = [] },
          header_len,
        ))
    else let total_len = header_len + payload_len + 2 in
      let cs_off = header_len + payload_len in
      if ltb (length buf) total_len then done (err (incomplete total_len (length buf))) else do
        payload ← slice buf header_len (header_len + payload_len)
        lo ← index buf cs_off
        hi ← index buf (cs_off + 1)
        let stored = from_le_bytes lo hi
        body ← slice buf 2 cs_off
        let computed = fletcher16 body
        if not (stored == computed)
            then done (err (payload_checksum stored computed))
            else done (
                ok (
                  record {
                    sync = sync;
                    protocol = protocol;
                    packet_type = packet_type;
                    payload = payload;
                  },
                  total_len,
                ))

-- `decode` from the header fields on, behind the checks of length and token.
unfoldable pub decode_header : Bytes → Checked Decoded
decode_header buf = do
  sync ← index buf 2
  proto_type ← index buf 3
  len_lo ← index buf 4
  len_hi ← index buf 5
  cs_lo ← index buf 6
  cs_hi ← index buf 7
  header ← slice buf 2 6
  let stored = from_le_bytes cs_lo cs_hi
  let computed = fletcher16 header
  if not (stored == computed)
      then done (err (header_checksum stored computed))
      else decode_payload buf sync (shr proto_type 4) (bit_and proto_type 0x0F)
          (from_le_bytes len_lo len_hi)

unfoldable pub decode : Bytes → Checked Decoded
decode buf =
    if ltb (length buf) header_len then done (err (incomplete header_len (length buf))) else do
      lo ← index buf 0
      hi ← index buf 1
      let token = from_le_bytes lo hi
      if not (token == packet_token)
          then done (err (bad_token packet_token token))
          else decode_header buf
