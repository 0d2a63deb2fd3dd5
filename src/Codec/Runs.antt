-- ===== src/Codec/Runs.antt =====
-- Runs of src/codec.rs on concrete packets, and the theorems on them.
use marlin_binary_transfer.Common.{
  ℕ, ◌+◌, ◌*◌, ◌%◌, ◌≤◌, ◌<◌, ◌≡◌, ◌↔◌, refl, arith, [], ◌∷◌, ◌++◌, Bytes, ok, err, done, Ensures,
}
use marlin_binary_transfer.Text.{codes}
use marlin_binary_transfer.Codec.{
  Packet, incomplete, header_checksum, payload_checksum, bad_protocol, new, wire_len, fletcher16,
  fletcher_from, fletcher_step, to_le_bytes, encode, decode,
}
use marlin_binary_transfer.Codec.Checksum.{sum, weighted_sum, fletcher16-sums, fletcher16_one_byte}
use marlin_binary_transfer.Codec.Frame.{
  IsValid, fields, header, body, frame, encode-frame, Refuses, encode-Refuses, Agrees, encode-new,
}
use marlin_binary_transfer.Codec.Decode.{decode-frame}
use marlin_binary_transfer.Codec.Answers.{Answers}
use marlin_binary_transfer.Codec.Sound.{decode-Answers}
use marlin_binary_transfer.Codec.Corruption.{
  tampered, payload_sum, decode_one_byte, decode_header_byte, decode_prefix,
}

-- WRITE of "hello" under the sync number 2.
abbrev write_hello : Packet
write_hello = record { sync = 2; protocol = 1; packet_type = 3; payload = codes "hello" }

write_hello-IsValid : IsValid write_hello
write_hello-IsValid = record {
  sync_fits = omega arith;
  protocol_fits = omega arith;
  packet_type_fits = omega arith;
  payload_fits = omega arith;
}

-- The SYNC packet of tests/fixtures/canonical.rs.
abbrev sync_bytes : Bytes
sync_bytes = 0xAD ∷ 0xB5 ∷ 0x00 ∷ 0x01 ∷ 0x00 ∷ 0x00 ∷ 0x01 ∷ 0x03 ∷ []

abbrev sync_packet : Packet
sync_packet = record { sync = 0; protocol = 0; packet_type = 1; payload = [] }

sync_packet-frame : frame sync_packet ≡ sync_bytes
unfolding frame header body fletcher16 fletcher_from fletcher_step
sync_packet-frame = refl

fletcher16_abc : fletcher16 (codes "abc") ≡ 0x4C27
unfolding fletcher16 fletcher_from fletcher_step
fletcher16_abc = refl

encode-frame_example :
    encode write_hello sync_bytes ≡ (sync_bytes ++ frame write_hello, ok (wire_len write_hello))
encode-frame_example = encode-frame write_hello sync_bytes write_hello-IsValid

abbrev bad_packet : Packet
bad_packet = record { sync = 0; protocol = 16; packet_type = 1; payload = [] }

bad_packet_refused : (encode bad_packet sync_bytes).1 ≡ err (bad_protocol 16)
unfolding encode
bad_packet_refused = refl

encode-Refuses_example :
    ((encode bad_packet sync_bytes).0 ≡ sync_bytes) × Refuses bad_packet (bad_protocol 16)
encode-Refuses_example = encode-Refuses bad_packet sync_bytes (bad_protocol 16) bad_packet_refused

encode-new_example : Agrees write_hello [] (new 2 1 3 (codes "hello"))
encode-new_example = encode-new write_hello [] (omega arith)

decode-frame_example :
    decode (frame write_hello ++ sync_bytes) ≡ done (ok (write_hello, wire_len write_hello))
decode-frame_example = decode-frame write_hello sync_bytes write_hello-IsValid

decode-Answers_example : Ensures (Answers sync_bytes) (decode sync_bytes)
decode-Answers_example = decode-Answers sync_bytes (omega arith)

decode_one_byte_example :
    decode (tampered write_hello (codes "hallo") sync_bytes)
    ≡ done (
        err (
          payload_checksum
            (payload_sum write_hello)
            (fletcher16 (header write_hello ++ codes "hallo"))))
decode_one_byte_example =
    decode_one_byte write_hello (b'h' ∷ []) (codes "llo") b'e' b'a' sync_bytes write_hello-IsValid
      refl

decode_header_byte_example :
    decode (
      0xAD
      ∷ 0xB5
      ∷ ((2 ∷ 0x14 ∷ 5 ∷ 0 ∷ []) ++ (to_le_bytes (fletcher16 (fields write_hello)) ++ [])))
    ≡ done (
        err
          (header_checksum (fletcher16 (fields write_hello)) (fletcher16 (2 ∷ 0x14 ∷ 5 ∷ 0 ∷ []))))
decode_header_byte_example =
    decode_header_byte write_hello (2 ∷ []) (5 ∷ 0 ∷ []) 0x13 0x14 [] refl (omega arith)

decode_prefix_example :
    (need : ℕ) × (decode (0xAD ∷ 0xB5 ∷ 0x00 ∷ []) ≡ done (err (incomplete need 3)))
    × (3 < need)
    × (need ≤ wire_len sync_packet)
decode_prefix_example =
    decode_prefix sync_packet (0xAD ∷ 0xB5 ∷ 0x00 ∷ []) 0x01 (0x00 ∷ 0x00 ∷ 0x01 ∷ 0x03 ∷ [])
      (record {
        sync_fits = omega arith;
        protocol_fits = omega arith;
        packet_type_fits = omega arith;
        payload_fits = omega arith;
      })
      sync_packet-frame

fletcher16-sums_example :
    fletcher16 (codes "abc") ≡ weighted_sum (codes "abc") % 255 * 256 + sum (codes "abc") % 255
fletcher16-sums_example = fletcher16-sums (codes "abc")

-- The change that the checksum cannot see.
fletcher16_one_byte_example :
    (fletcher16 (1 ∷ 0x00 ∷ 7 ∷ []) ≡ fletcher16 (1 ∷ 0xFF ∷ 7 ∷ [])) ↔ (0x00 % 255 ≡ 0xFF % 255)
fletcher16_one_byte_example = fletcher16_one_byte (1 ∷ []) (7 ∷ []) 0x00 0xFF
