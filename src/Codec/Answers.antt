-- ===== src/Codec/Answers.antt =====
-- What the answers of `decode` of src/codec.rs say of its buffer.
use marlin_binary_transfer.Common.{
  if◌then◌else◌, get_or, take, ℕ, ◌+◌, ◌≤◌, ◌<◌, ◌≡◌, ◌++◌, Bytes, length, drop, ltb, ok, err, ◌≢◌,
}
use marlin_binary_transfer.Codec.{
  incomplete, bad_token, header_checksum, payload_checksum, max_payload, header_len, packet_token,
  from_le_bytes, wire_len, fletcher16, Decoded,
}
use marlin_binary_transfer.Codec.Frame.{IsValid, frame}

-- The u16 at an offset, and the checksum of the next bytes behind the token.
abbrev pub u16_at : Bytes → (offset : ℕ) → ℕ
u16_at buf offset = from_le_bytes (get_or buf offset 0) (get_or buf (offset + 1) 0)

abbrev pub checksum_of : Bytes → (len : ℕ) → ℕ
checksum_of buf len = fletcher16 (take len (drop 2 buf))

-- The start token and the header with its checksum are there.
abbrev pub HasHeader : Bytes → Type 0
HasHeader buf =
    (header_len ≤ length buf) × (u16_at buf 0 ≡ packet_token) × (u16_at buf 6 ≡ checksum_of buf 4)

-- What each answer says of the buffer. `ok`: the buffer starts with the frame of the packet.
-- `incomplete`: the buffer is shorter than a header, or than the packet whose length its header has;
-- this is `need`, at most the longest frame. `bad_token`: `got` is what is there for the token. The
-- checksum errors: what is before the checksum is in order, `stored` is the checksum in the buffer,
-- `computed` is that of the header fields, or of the header and the payload, and they differ.
abbrev pub Answers : Bytes → Decoded → Type 0
Answers buf (ok (p, n)) = IsValid p × (n ≡ wire_len p) × (buf ≡ frame p ++ drop n buf)
Answers buf (err (incomplete need have)) =
    (have ≡ length buf)
    × (have < need)
    × (need ≤ header_len + max_payload + 2)
    × (need ≡ (if ltb (length buf) header_len then header_len else header_len + u16_at buf 4 + 2))
Answers buf (err (bad_token expected got)) =
    (header_len ≤ length buf)
    × (expected ≡ packet_token)
    × (got ≡ u16_at buf 0)
    × (got ≢ packet_token)
Answers buf (err (header_checksum stored computed)) =
    (header_len ≤ length buf)
    × (u16_at buf 0 ≡ packet_token)
    × (stored ≡ u16_at buf 6)
    × (computed ≡ checksum_of buf 4)
    × (stored ≢ computed)
Answers buf (err (payload_checksum stored computed)) =
    HasHeader buf
    × (0 < u16_at buf 4)
    × (header_len + u16_at buf 4 + 2 ≤ length buf)
    × (stored ≡ u16_at buf (header_len + u16_at buf 4))
    × (computed ≡ checksum_of buf (6 + u16_at buf 4))
    × (stored ≢ computed)
