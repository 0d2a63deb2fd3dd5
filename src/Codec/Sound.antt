-- ===== src/Codec/Sound.antt =====
-- All answers of `decode` of src/codec.rs, on any input.
use marlin_binary_transfer.Common.{
  get_or, take, get_or-length-append, take-length-append, ap, le→ltb, drop-length-append, ℕ, ◌+◌,
  ◌*◌, ◌/◌, ◌%◌, ◌<◌, bit_and, ◌≡◌, refl, sym, ◌∙◌, arith, [], ◌∷◌, ◌++◌, Bytes, All, IsByte,
  length, length-append, drop, append_assoc, append-nil, is_empty, Bool-cases, inl, inr, ltb,
  lt→ltb, ◌==◌, ==→eq, ==→ne, ltb→le, ltb→lt, shr, low_nibble, ok, Ensures, false, ◌≢◌,
}
use marlin_binary_transfer.Codec.{
  Packet, header_len, packet_token, from_le_bytes, wire_len, fletcher16, decode_payload, decode,
}
use marlin_binary_transfer.Codec.Frame.{IsValid, header, body, frame, length-frame}
use marlin_binary_transfer.Codec.Decode.{
  View, short, long, view, head, covered, decode-head, decode_payload-parts, parts, decode_short,
}
use marlin_binary_transfer.Codec.Answers.{u16_at, Answers}

get_or-append : (xs ys : Bytes) (y n : ℕ) → n ≡ length xs → get_or (xs ++ (y ∷ ys)) n 0 ≡ y
get_or-append xs ys y n e = rw e (get_or-length-append xs ys y 0)

take-append : (xs ys : Bytes) (n : ℕ) → n ≡ length xs → take n (xs ++ ys) ≡ xs
take-append xs ys n e = rw e (take-length-append xs ys)

le_bytes_back :
    (lo hi n : ℕ)
    → lo < 256
    → hi < 256
    → from_le_bytes lo hi ≡ n
    → (n % 256 ≡ lo) × (n / 256 % 256 ≡ hi)
le_bytes_back lo hi n p q h = omega arith

-- The header that the fields of an accepted buffer give back is the one in the buffer.
header_back :
    (s b3 b4 b5 b6 b7 : ℕ) (payload : Bytes)
    → All IsByte (s ∷ (b3 ∷ (b4 ∷ (b5 ∷ (b6 ∷ (b7 ∷ []))))))
    → length payload ≡ from_le_bytes b4 b5
    → from_le_bytes b6 b7 ≡ fletcher16 (s ∷ (b3 ∷ (b4 ∷ (b5 ∷ []))))
    → header
        (record { sync = s; protocol = shr b3 4; packet_type = bit_and b3 0x0F; payload = payload })
      ≡ s ∷ (b3 ∷ (b4 ∷ (b5 ∷ (b6 ∷ (b7 ∷ [])))))
unfolding header
header_back s b3 b4 b5 b6 b7 payload h sized sum =
    let (lo, hi) = le_bytes_back b6 b7 _ (omega arith) (omega arith) sum in
    rw (low_nibble b3 (omega arith), joined, low, high, lo, hi)
  where
    joined : b3 / 16 * 16 + b3 % 16 ≡ b3
    joined = omega arith

    low : length payload % 256 ≡ b4
    low = omega arith

    high : length payload / 256 ≡ b5
    high = omega arith

token_back :
    (b0 b1 : ℕ)
    → b0 < 256
    → b1 < 256
    → from_le_bytes b0 b1 ≡ packet_token
    → (b0 ≡ 0xAD) × (b1 ≡ 0xB5)
token_back b0 b1 p q h = (omega arith, omega arith)

-- A buffer that starts with a frame splits behind the frame's length.
starts_with-frame :
    (p : Packet) (buf more : Bytes) → buf ≡ frame p ++ more → buf ≡ frame p ++ drop (wire_len p) buf
starts_with-frame p buf more e = rw (e, ← length-frame p) (rw (drop-length-append (frame p) more))

IsByte-append :
    (xs : Bytes) (lo hi : ℕ) (more : Bytes)
    → All IsByte (xs ++ (lo ∷ (hi ∷ more)))
    → (lo < 256) × (hi < 256)
IsByte-append [] lo hi more h = (h.0, h.1.0)
IsByte-append (x ∷ xs) lo hi more h = IsByte-append xs lo hi more h.1

nonempty : (xs : Bytes) → length xs ≢ 0 → is_empty xs ≡ false
nonempty [] h = absurd (h refl)
nonempty (x ∷ xs) h = refl

module _ (b0 b1 b2 b3 b4 b5 b6 b7 : ℕ) where
  abbrev packet : Bytes → Packet
  packet payload = record {
    sync = b2;
    protocol = shr b3 4;
    packet_type = bit_and b3 0x0F;
    payload = payload;
  }

  packet-IsValid :
      (payload : Bytes)
      → All IsByte (head b0 b1 b2 b3 b4 b5 b6 b7 [])
      → length payload ≡ from_le_bytes b4 b5
      → IsValid (packet payload)
  packet-IsValid payload h sized = rw (low_nibble b3 (omega arith)) (record {
    sync_fits = omega arith;
    protocol_fits = omega arith;
    packet_type_fits = omega arith;
    payload_fits = omega arith;
  })

  module _ (token : from_le_bytes b0 b1 ≡ packet_token)
      (sum : from_le_bytes b6 b7 ≡ fletcher16 (b2 ∷ (b3 ∷ (b4 ∷ (b5 ∷ []))))) where
    frame-head :
        (payload rest : Bytes)
        → All IsByte (head b0 b1 b2 b3 b4 b5 b6 b7 [])
        → length payload ≡ from_le_bytes b4 b5
        → head b0 b1 b2 b3 b4 b5 b6 b7 rest ≡ 0xAD ∷ (0xB5 ∷ (header (packet payload) ++ rest))
    frame-head payload rest h sized = rw (
      header_back b2 b3 b4 b5 b6 b7 payload (omega arith) sized sum,
      (token_back b0 b1 (omega arith) (omega arith) token).0,
      (token_back b0 b1 (omega arith) (omega arith) token).1,
    )

    bare-Answers :
        (rest : Bytes)
        → All IsByte (head b0 b1 b2 b3 b4 b5 b6 b7 [])
        → from_le_bytes b4 b5 ≡ 0
        → Answers (head b0 b1 b2 b3 b4 b5 b6 b7 rest) (ok (packet [], header_len))
    unfolding wire_len
    bare-Answers rest h empty = (
      packet-IsValid [] h (sym empty),
      refl,
      starts_with-frame (packet []) _ rest
          (frame-head [] rest h (sym empty) ∙ unfold frame body in rw append-nil),
    )

    framed :
        (payload : Bytes) (lo hi : ℕ) (more : Bytes)
        → All IsByte (head b0 b1 b2 b3 b4 b5 b6 b7 [])
        → lo < 256
        → hi < 256
        → length payload ≡ from_le_bytes b4 b5
        → is_empty payload ≡ false
        → from_le_bytes lo hi ≡ fletcher16 (covered b0 b1 b2 b3 b4 b5 b6 b7 payload)
        → head b0 b1 b2 b3 b4 b5 b6 b7 (payload ++ (lo ∷ (hi ∷ more)))
          ≡ frame (packet payload) ++ more
    unfolding frame body
    framed payload lo hi more h hlo hhi sized nonempty sum' =
        let (low, high) = le_bytes_back lo hi _ hlo hhi sum' in
        frame-head payload (payload ++ (lo ∷ (hi ∷ more))) h sized
        ∙ rw nonempty (
            simp append_assoc
              (rw (header_back b2 b3 b4 b5 b6 b7 payload (omega arith) sized sum, low, high)))

    full-Answers :
        (payload : Bytes) (lo hi : ℕ) (more : Bytes)
        → All IsByte (head b0 b1 b2 b3 b4 b5 b6 b7 [])
        → lo < 256
        → hi < 256
        → length payload ≡ from_le_bytes b4 b5
        → is_empty payload ≡ false
        → from_le_bytes lo hi ≡ fletcher16 (covered b0 b1 b2 b3 b4 b5 b6 b7 payload)
        → Answers
            (head b0 b1 b2 b3 b4 b5 b6 b7 (payload ++ (lo ∷ (hi ∷ more))))
            (ok (packet payload, header_len + from_le_bytes b4 b5 + 2))
    full-Answers payload lo hi more h hlo hhi sized nonempty sum' = (
      packet-IsValid payload h sized,
      wire,
      rw (wire) (
          starts_with-frame (packet payload) _ more
            (framed payload lo hi more h hlo hhi sized nonempty sum')),
    )
      where
        wire : header_len + from_le_bytes b4 b5 + 2 ≡ wire_len (packet payload)
        wire = unfold wire_len in rw (nonempty, sized)

    -- The stored checksum and the bytes that it covers, where the header's length says.
    stored_at :
        (payload : Bytes) (lo hi : ℕ) (more : Bytes)
        → from_le_bytes b4 b5 ≡ length payload
        → u16_at
            (head b0 b1 b2 b3 b4 b5 b6 b7 (payload ++ (lo ∷ (hi ∷ more))))
            (header_len + from_le_bytes b4 b5)
          ≡ from_le_bytes lo hi
    stored_at payload lo hi more sized =
        rw
          (
            get_or-append (head b0 b1 b2 b3 b4 b5 b6 b7 payload) (hi ∷ more) lo
                (header_len + from_le_bytes b4 b5) (omega arith),
            high,
          )
          refl
      where
        high :
            get_or
              (head b0 b1 b2 b3 b4 b5 b6 b7 (payload ++ (lo ∷ (hi ∷ more))))
              (header_len + from_le_bytes b4 b5 + 1)
              0
            ≡ hi
        high = rw append_assoc at (
            get_or-append (head b0 b1 b2 b3 b4 b5 b6 b7 payload ++ (lo ∷ [])) more hi
              (header_len + from_le_bytes b4 b5 + 1)
              (omega (arith, length-append payload (lo ∷ []))))

    covered_at :
        (payload more : Bytes)
        → from_le_bytes b4 b5 ≡ length payload
        → take (6 + from_le_bytes b4 b5) (drop 2 (head b0 b1 b2 b3 b4 b5 b6 b7 (payload ++ more)))
          ≡ covered b0 b1 b2 b3 b4 b5 b6 b7 payload
    covered_at payload more sized =
        take-append (covered b0 b1 b2 b3 b4 b5 b6 b7 payload) more (6 + from_le_bytes b4 b5)
          (omega arith)

    body-Answers :
        (payload : Bytes) (lo hi : ℕ) (more : Bytes)
        → All IsByte (head b0 b1 b2 b3 b4 b5 b6 b7 (payload ++ (lo ∷ (hi ∷ more))))
        → from_le_bytes b4 b5 ≡ length payload
        → from_le_bytes b4 b5 ≢ 0
        → Ensures (Answers (head b0 b1 b2 b3 b4 b5 b6 b7 (payload ++ (lo ∷ (hi ∷ more))))) (
            decode_payload
              (head b0 b1 b2 b3 b4 b5 b6 b7 (payload ++ (lo ∷ (hi ∷ more))))
              b2
              (shr b3 4)
              (bit_and b3 0x0F)
              (from_le_bytes b4 b5))
    body-Answers payload lo hi more h sized some_payload =
        rw
          (decode_payload-parts b0 b1 b2 b3 b4 b5 b6 b7 b2 (shr b3 4) (bit_and b3 0x0F)
            (from_le_bytes b4 b5) payload lo hi more sized some_payload)
          (elim (Bool-cases
            (from_le_bytes lo hi == fletcher16 (covered b0 b1 b2 b3 b4 b5 b6 b7 payload))) [
              | inl e ↦ rw e (
                  full-Answers payload lo hi more (omega arith)
                    (IsByte-append payload lo hi more h.1.1.1.1.1.1.1.1).0
                    (IsByte-append payload lo hi more h.1.1.1.1.1.1.1.1).1 (sym sized)
                    (nonempty payload (λ z. some_payload (sized ∙ z))) (==→eq _ _ e))
              | inr e ↦ rw e (
                (omega arith, token, sum),
                omega arith,
                omega (arith, length-append payload (lo ∷ (hi ∷ more))),
                sym (stored_at payload lo hi more sized),
                ap fletcher16 (sym (covered_at payload (lo ∷ (hi ∷ more)) sized)),
                ==→ne _ _ e,
              )
            ])

    payload-Answers :
        (rest : Bytes)
        → All IsByte (head b0 b1 b2 b3 b4 b5 b6 b7 rest)
        → Ensures (Answers (head b0 b1 b2 b3 b4 b5 b6 b7 rest)) (
            decode_payload
              (head b0 b1 b2 b3 b4 b5 b6 b7 rest)
              b2
              (shr b3 4)
              (bit_and b3 0x0F)
              (from_le_bytes b4 b5))
    payload-Answers rest h = elim (Bool-cases (from_le_bytes b4 b5 == 0)) [
      | inl e ↦ unfold decode_payload in rw e (bare-Answers rest (omega arith) (==→eq _ 0 e))
      | inr e ↦ elim (Bool-cases (ltb (length rest) (from_le_bytes b4 b5 + 2))) [
        | inl f ↦
            let need : ℕ = header_len + from_le_bytes b4 b5 + 2 in
            let short_of : length (head b0 b1 b2 b3 b4 b5 b6 b7 rest) < need =
              omega (arith, ltb→lt _ _ f) in
            unfold decode_payload in
            rw (e, lt→ltb (length (head b0 b1 b2 b3 b4 b5 b6 b7 rest)) need short_of)
              (
                refl,
                short_of,
                omega arith,
                rw (le→ltb (length (head b0 b1 b2 b3 b4 b5 b6 b7 rest)) header_len (omega arith))
                    refl,
              )
        | inr f ↦
            let p = parts (from_le_bytes b4 b5) rest (ltb→le _ _ f) in
            rw p.splits
              (body-Answers p.payload p.lo p.hi p.more (rw p.splits at h) p.sized (==→ne _ 0 e))
      ]
    ]

-- Whatever the bytes of the buffer, `decode` returns: it reads nothing out of range and runs into
-- no panic. A packet that it accepts has valid fields, `n` is its length on the wire, and the
-- buffer starts with exactly its frame. `Incomplete` asks for a header, or for as much as the length
-- in the header makes: more than is there, and at most the longest frame. `BadToken` gives the two bytes at the token's
-- place, and the checksum errors give the checksum in the buffer and the one of the bytes that it
-- covers, in this order; the two differ, and what comes before them is in order.
pub decode-Answers : (buf : Bytes) → All IsByte buf → Ensures (Answers buf) (decode buf)
decode-Answers buf h = answers (view buf) h
  where
    answers : {b : Bytes} → View b → All IsByte b → Ensures (Answers b) (decode b)
    answers (short {buf = b} s) k =
        rw (decode_short b s) (refl, s, omega arith, rw (lt→ltb (length b) header_len s) refl)
    answers (long b0 b1 b2 b3 b4 b5 b6 b7 rest) k =
        rw (decode-head b0 b1 b2 b3 b4 b5 b6 b7 rest)
          (elim (Bool-cases (from_le_bytes b0 b1 == packet_token)) [
            | inl e ↦
                elim (Bool-cases
                  (from_le_bytes b6 b7 == fletcher16 (b2 ∷ (b3 ∷ (b4 ∷ (b5 ∷ [])))))) [
                    | inl f ↦
                        rw (e, f)
                          (payload-Answers b0 b1 b2 b3 b4 b5 b6 b7 (==→eq _ _ e) (==→eq _ _ f) rest
                            k)
                    | inr f ↦ rw (e, f) (omega arith, ==→eq _ _ e, refl, refl, ==→ne _ _ f)
                  ]
            | inr e ↦ rw e (omega arith, refl, refl, ==→ne _ _ e)
          ])
