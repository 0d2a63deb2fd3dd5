-- ===== src/Codec/Corruption.antt =====
-- Damaged and cut frames against `decode` of src/codec.rs.
use mathlib.Core.Path.{subst}
use marlin_binary_transfer.Common.{
  ℕ, ◌+◌, ◌%◌, ◌≤◌, ◌<◌, ◌≡◌, ◌≢◌, refl, sym, ap, ◌∙◌, arith, [], ◌∷◌, ◌++◌, Bytes, length,
  length-append, append-split, append_assoc, is_empty, if◌then◌else◌, Bool-cases, inl, inr, ltb,
  ltb→lt, ltb→le, lt→ltb, ==-agree, ne→==, ◌==◌, false, ok, err, done,
}
use marlin_binary_transfer.Codec.{
  Packet, incomplete, header_checksum, payload_checksum, header_len, to_le_bytes, wire_len,
  fletcher16, decode, decode_payload,
}
use marlin_binary_transfer.Codec.Checksum.{fletcher16-lt, fletcher16_one_byte}
use marlin_binary_transfer.Codec.Frame.{IsValid, fields, header, body, frame}
use marlin_binary_transfer.Codec.Decode.{
  decode-head, decode-header, decode_body, decode_short, from-to_le_bytes, length-ne-zero,
}

-- The checksum that the frame of `p` carries behind its payload.
abbrev pub payload_sum : Packet → ℕ
payload_sum p = fletcher16 (header p ++ p.payload)

-- The frame of `p` with other bytes in the place of its payload, and `rest` behind it.
abbrev pub tampered : Packet → Bytes → Bytes → Bytes
tampered p payload rest =
    0xAD ∷ (0xB5 ∷ (header p ++ (payload ++ (to_le_bytes (payload_sum p) ++ rest))))

-- With the payload itself this is the frame.
pub frame-tampered :
    (p : Packet) (rest : Bytes)
    → is_empty p.payload ≡ false
    → frame p ++ rest ≡ tampered p p.payload rest
unfolding frame body
frame-tampered p rest e = rw e (simp append_assoc)

append-nonempty : (xs : Bytes) (a : ℕ) (ys : Bytes) → is_empty (xs ++ (a ∷ ys)) ≡ false
append-nonempty [] a ys = refl
append-nonempty (x ∷ xs) a ys = refl

-- One payload byte of a frame is replaced: `decode` reports the payload checksum, unless the two
-- bytes are equal mod 255; then it accepts the damaged payload.
pub decode_one_byte :
    (p : Packet) (xs ys : Bytes) (a b : ℕ) (rest : Bytes)
    → IsValid p
    → p.payload ≡ xs ++ (a ∷ ys)
    → decode (tampered p (xs ++ (b ∷ ys)) rest) ≡ (
        if a % 255 == b % 255
        then done (ok (record p { payload = xs ++ (b ∷ ys) }, wire_len p))
        else done
            (err (payload_checksum (payload_sum p) (fletcher16 (header p ++ (xs ++ (b ∷ ys)))))))
decode_one_byte p xs ys a b rest v e =
    decode_body p (xs ++ (b ∷ ys)) _ _ rest v same_length nonempty
    ∙ rw (from-to_le_bytes (payload_sum p) (fletcher16-lt (header p ++ p.payload)), same_test)
        (elim (Bool-cases (a % 255 == b % 255)) [ inl t ↦ rw t | inr t ↦ rw t ])
  where
    same_length : length (xs ++ (b ∷ ys)) ≡ length p.payload
    same_length = rw e (omega (arith, length-append xs (a ∷ ys), length-append xs (b ∷ ys)))

    same_test : (payload_sum p == fletcher16 (header p ++ (xs ++ (b ∷ ys)))) ≡ (a % 255 == b % 255)
    same_test =
        ap (λ (t : Bytes). fletcher16 (header p ++ t) == fletcher16 (header p ++ (xs ++ (b ∷ ys))))
          e
        ∙ ==-agree _ _ _ _ (simp append_assoc at (fletcher16_one_byte (header p ++ xs) ys a b))

    nonempty : is_empty p.payload ≡ false
    nonempty = rw e (append-nonempty xs a ys)

four : (zs : Bytes) → length zs ≡ 4 → (a b c d : ℕ) × (zs ≡ a ∷ (b ∷ (c ∷ (d ∷ []))))
four (a ∷ (b ∷ (c ∷ (d ∷ [])))) h = (a, b, c, d, refl)
four [] h = absurd (omega arith)
four (a ∷ []) h = absurd (omega arith)
four (a ∷ (b ∷ [])) h = absurd (omega arith)
four (a ∷ (b ∷ (c ∷ []))) h = absurd (omega arith)
four (a ∷ (b ∷ (c ∷ (d ∷ (e ∷ zs))))) h = absurd (omega arith)

-- One of the four header fields' bytes of a frame is replaced by one that differs from it mod 255:
-- `decode` reports the header checksum, whatever follows the header.
pub decode_header_byte :
    (p : Packet) (xs ys : Bytes) (a b : ℕ) (rest : Bytes)
    → fields p ≡ xs ++ (a ∷ ys)
    → a % 255 ≢ b % 255
    → decode (0xAD ∷ (0xB5 ∷ ((xs ++ (b ∷ ys)) ++ (to_le_bytes (fletcher16 (fields p)) ++ rest))))
      ≡ done (err (header_checksum (fletcher16 (fields p)) (fletcher16 (xs ++ (b ∷ ys)))))
decode_header_byte p xs ys a b rest e differ =
    let (f0, f1, f2, f3, f) = four (xs ++ (b ∷ ys)) same_length in
    rw f (
      decode-head _ _ f0 f1 f2 f3 _ _ rest
      ∙ rw (from-to_le_bytes (fletcher16 (fields p)) (fletcher16-lt (fields p)), ← f, damaged))
  where
    same_length : length (xs ++ (b ∷ ys)) ≡ 4
    same_length = omega (arith, ap length e, length-append xs (a ∷ ys), length-append xs (b ∷ ys))

    damaged : (fletcher16 (fields p) == fletcher16 (xs ++ (b ∷ ys))) ≡ false
    damaged = rw e (ne→== _ _ (λ h. differ ((fletcher16_one_byte xs ys a b).0 h)))

-- A frame cut behind its header: a part of the body is missing, so the payload is not empty.
cut_body :
    (p : Packet) (front : Bytes) (x : ℕ) (back : Bytes)
    → IsValid p
    → body p ≡ front ++ (x ∷ back)
    → (is_empty p.payload ≡ false) × (length front < length p.payload + 2)
unfolding body
cut_body p front x back v e = elim (Bool-cases (is_empty p.payload)) [
  | inl f ↦ absurd (omega (arith, ap length (rw f at e), length-append front (x ∷ back)))
  | inr f ↦ (
    f,
    omega (
      arith,
      ap length (rw f at e),
      length-append front (x ∷ back),
      length-append p.payload (to_le_bytes (fletcher16 (header p ++ p.payload))),
    ),
  )
]

length-header : (p : Packet) → length (header p) ≡ 6
unfolding header
length-header p = refl

cut_answer :
    (p : Packet) (mid : Bytes)
    → IsValid p
    → is_empty p.payload ≡ false
    → length mid < length p.payload + 2
    → let front = 0xAD ∷ (0xB5 ∷ (header p ++ mid)) in
      decode front ≡ done (err (incomplete (header_len + length p.payload + 2) (length front)))
unfolding decode_payload
cut_answer p mid v nonempty cut =
    decode-header p mid v
    ∙ rw (
      ne→== _ _ (length-ne-zero p.payload nonempty),
      lt→ltb (length (0xAD ∷ (0xB5 ∷ (header p ++ mid)))) (header_len + length p.payload + 2)
          (omega (arith, length-append (header p) mid, length-header p)),
    )

-- On every proper prefix of a frame `decode` asks for more bytes: for more than it has, and for no
-- more than the frame is long.
pub decode_prefix :
    (p : Packet) (front : Bytes) (x : ℕ) (back : Bytes)
    → IsValid p
    → frame p ≡ front ++ (x ∷ back)
    → (need : ℕ) × (decode front ≡ done (err (incomplete need (length front))))
      × (length front < need)
      × (need ≤ wire_len p)
decode_prefix p front x back v e = elim (Bool-cases (ltb (length front) header_len)) [
  | inl f ↦
      (header_len, decode_short front (ltb→lt _ _ f), ltb→lt _ _ f, unfold wire_len in ground arith)
  | inr f ↦
      let head : Bytes = 0xAD ∷ (0xB5 ∷ header p) in
      let (mid, g, h) =
        append-split head (body p) front (x ∷ back) (unfold frame in e)
          (omega (arith, ltb→le _ _ f, length-header p)) in
      let (nonempty, cut) = cut_body p mid x back v h in
      (
        header_len + length p.payload + 2,
        subst
            (λ t. decode t ≡ done (err (incomplete (header_len + length p.payload + 2) (length t))))
            (sym g) (cut_answer p mid v nonempty cut),
        omega (arith, ap length g, length-append (header p) mid, length-header p),
        unfold wire_len in rw nonempty (omega arith),
      )
]
