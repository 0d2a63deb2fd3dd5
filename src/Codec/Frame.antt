-- ===== src/Codec/Frame.antt =====
-- The wire format table at the head of src/codec.rs as a function, and `encode` against it.
use marlin_binary_transfer.Common.{
  ℕ, ◌+◌, ◌-◌, ◌*◌, ◌/◌, ◌%◌, ◌≤◌, ◌<◌, bit_and, bit_or, ◌≡◌, refl, sym, ap, arith, [], ◌∷◌, ◌++◌,
  Bytes, length, length-append, drop, drop-length-append, append_assoc, append-nil, is_empty,
  if◌then◌else◌, Bool-cases, inl, inr, ltb, le→ltb, shl, low_nibble, join_nibbles, Result, ok, err,
}
use marlin_binary_transfer.Codec.{
  Packet, EncodeError, bad_protocol, bad_packet_type, payload_too_large, max_payload, packet_token,
  to_le_bytes, wire_len, new, fletcher16, encode_header, encode_payload, encode,
}

-- The fields fit the types of the struct and the widths of the wire format.
pub record IsValid (p : Packet) : Type 0 where
  pub sync_fits : p.sync < 256
  pub protocol_fits : p.protocol ≤ 15
  pub packet_type_fits : p.packet_type ≤ 15
  pub payload_fits : length p.payload ≤ max_payload

-- Bytes 2 to 5.
abbrev pub fields : Packet → Bytes
fields p =
    p.sync
    ∷ ((p.protocol * 16 + p.packet_type) ∷ (length p.payload % 256 ∷ (length p.payload / 256 ∷ [])))

-- Bytes 2 to 7.
unfoldable pub header : Packet → Bytes
header p = fields p ++ to_le_bytes (fletcher16 (fields p))

-- Bytes 8 to the end.
unfoldable pub body : Packet → Bytes
body p =
    if is_empty p.payload then [] else p.payload ++ to_le_bytes (fletcher16 (header p ++ p.payload))

unfoldable pub frame : Packet → Bytes
frame p = 0xAD ∷ (0xB5 ∷ (header p ++ body p))

proto_type_byte :
    (p : Packet)
    → IsValid p
    → bit_or (shl 8 (bit_and p.protocol 0xF) 4) (bit_and p.packet_type 0xF)
      ≡ p.protocol * 16 + p.packet_type
proto_type_byte p v =
    rw (low_nibble p.protocol (omega arith), low_nibble p.packet_type (omega arith), t, s, u) joined
  where
    t : p.packet_type % 16 ≡ p.packet_type
    t = omega arith

    s : p.protocol % 16 ≡ p.protocol
    s = omega arith

    u : p.protocol * 16 % 256 ≡ p.protocol * 16
    u = omega arith

    joined : bit_or (p.protocol * 16) p.packet_type ≡ p.protocol * 16 + p.packet_type
    joined = join_nibbles _ _ (omega arith) (omega arith)

-- The slice `out[header_payload_start..]` once the token is written: all that follows it.
drop_token :
    (out rest : Bytes)
    → drop (length (out ++ to_le_bytes packet_token)) (out ++ (0xAD ∷ (0xB5 ∷ rest))) ≡ rest
drop_token out rest = rw append_assoc at (drop-length-append (out ++ to_le_bytes packet_token) rest)

length_bytes : (n : ℕ) → n ≤ max_payload → to_le_bytes (n % 65536) ≡ n % 256 ∷ (n / 256 ∷ [])
length_bytes n h = rw (low, high)
  where
    low : n % 65536 % 256 ≡ n % 256
    low = omega arith

    high : n % 65536 / 256 % 256 ≡ n / 256
    high = omega arith

encode_header-frame :
    (p : Packet) (out : Bytes) → IsValid p → encode_header p out ≡ out ++ (0xAD ∷ (0xB5 ∷ header p))
unfolding encode_header header
encode_header-frame p out v =
    rw (proto_type_byte p v, length_bytes _ v.payload_fits) (simp append_assoc (rw drop_token))

encode_payload-frame :
    (p : Packet) (out : Bytes)
    → encode_payload (length out + 2) p (out ++ (0xAD ∷ (0xB5 ∷ header p))) ≡ out ++ frame p
unfolding encode_payload frame body
encode_payload-frame p out = elim (Bool-cases (is_empty p.payload)) [
  | inl e ↦ rw e (ap (λ t. out ++ (0xAD ∷ (0xB5 ∷ t))) (sym (append-nil (header p))))
  | inr e ↦ rw (e, sized) (simp append_assoc (rw (drop_token out (header p ++ p.payload))))
]
  where
    sized : length out + 2 ≡ length (out ++ to_le_bytes packet_token)
    sized = sym (length-append out (to_le_bytes packet_token))

pub length-frame : (p : Packet) → length (frame p) ≡ wire_len p
unfolding frame header body wire_len
length-frame p = elim (Bool-cases (is_empty p.payload)) [
  | inl e ↦ rw e
  | inr e ↦
      rw e
        (omega (arith, length-append p.payload (to_le_bytes (fletcher16 (header p ++ p.payload)))))
]

-- On a packet whose fields fit, `encode` appends the frame of the wire format table to the buffer
-- and returns the number of bytes appended, which is `wire_len`.
pub encode-frame :
    (p : Packet) (out : Bytes) → IsValid p → encode p out ≡ (out ++ frame p, ok (wire_len p))
unfolding encode
encode-frame p out v =
    rw
      (
        le→ltb 15 p.protocol v.protocol_fits,
        le→ltb 15 p.packet_type v.packet_type_fits,
        le→ltb max_payload (length p.payload) v.payload_fits,
        encode_header-frame p out v,
        encode_payload-frame,
      )
      (rw appended)
  where
    appended : length (out ++ frame p) - length out ≡ wire_len p
    appended = omega (arith, length-append out (frame p), length-frame p)

-- The reason for which `encode` refuses a packet: the first of its checks that fails.
abbrev pub Refuses : Packet → EncodeError → Type 0
Refuses p (bad_protocol n) = (n ≡ p.protocol) × (15 < n)
Refuses p (bad_packet_type n) = (n ≡ p.packet_type) × (15 < n) × (p.protocol ≤ 15)
Refuses p (payload_too_large len) =
    (len ≡ length p.payload) × (max_payload < len) × (p.protocol ≤ 15) × (p.packet_type ≤ 15)

-- When `encode` returns an error, the buffer is as it was and the error names the first field that
-- does not fit, with its value.
pub encode-Refuses :
    (p : Packet) (out : Bytes) (e : EncodeError)
    → (encode p out).1 ≡ err e
    → ((encode p out).0 ≡ out) × Refuses p e
unfolding encode
encode-Refuses p out (bad_protocol n) h = ground arith
encode-Refuses p out (bad_packet_type n) h = ground arith
encode-Refuses p out (payload_too_large len) h = ground arith

-- What `encode` does with a packet, given what `Packet::new` says of its fields.
abbrev pub Agrees : Packet → Bytes → Result Packet EncodeError → Type 0
Agrees p out (ok q) = (q ≡ p) × (encode p out ≡ (out ++ frame p, ok (wire_len p)))
Agrees p out (err e) = encode p out ≡ (out, err e)

-- A packet that `Packet::new` builds has the fields it was given and is always encoded; fields that
-- it refuses are refused by `encode` with the same error and an untouched buffer.
pub encode-new :
    (p : Packet) (out : Bytes)
    → p.sync < 256
    → Agrees p out (new p.sync p.protocol p.packet_type p.payload)
encode-new p out h = elim (Bool-cases (ltb 15 p.protocol)) [
  | inl e ↦ unfold new encode in rw (e, e)
  | inr e ↦ elim (Bool-cases (ltb 15 p.packet_type)) [
    | inl f ↦ unfold new encode in rw (e, f, e, f)
    | inr f ↦ elim (Bool-cases (ltb max_payload (length p.payload))) [
      | inl g ↦ unfold new encode in rw (e, f, g, e, f, g)
      | inr g ↦
          let v : IsValid p = record {
            sync_fits = h;
            protocol_fits = ground arith;
            packet_type_fits = ground arith;
            payload_fits = ground arith;
          } in
          unfold new in rw (e, f, g) (refl, encode-frame p out v)
    ]
  ]
]
