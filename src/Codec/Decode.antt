-- ===== src/Codec/Decode.antt =====
-- `decode` of src/codec.rs on frames and on what follows them.
use marlin_binary_transfer.Common.{
  ℕ, zero, suc, ◌+◌, ◌-◌, ◌*◌, ◌/◌, ◌%◌, ◌≤◌, ◌<◌, bit_and, ◌≡◌, refl, sym, ap, ◌∙◌, arith, [], ◌∷◌,
  ◌++◌, Bytes, length, length-append, append_assoc, is_empty, if◌then◌else◌, Bool-cases, inl, inr,
  ltb, le→ltb, lt→ltb, ◌==◌, eq→==, not, shr, low_nibble, ok, err, done, true, false, ◌≢◌,
}
use marlin_binary_transfer.Codec.{
  Packet, incomplete, bad_token, header_checksum, payload_checksum, header_len, packet_token,
  from_le_bytes, wire_len, fletcher16, index, slice_to, decode_payload, decode_header, decode,
}
use marlin_binary_transfer.Codec.Checksum.{fletcher16-lt}
use marlin_binary_transfer.Codec.Frame.{IsValid, fields, header, body, frame}

slice_to-append : (bs cs : Bytes) (n : ℕ) → n ≡ length bs → slice_to n (bs ++ cs) ≡ done bs
slice_to-append [] cs n h = rw h
slice_to-append (x ∷ bs) cs n h = rw h (rw (slice_to-append bs cs (length bs) refl))

index-append : (bs cs : Bytes) (b n : ℕ) → n ≡ length bs → index (bs ++ (b ∷ cs)) n ≡ done b
index-append [] cs b n h = rw h
index-append (x ∷ bs) cs b n h = rw h (index-append bs cs b (length bs) refl)

-- `rest` is a payload of `n` bytes, two checksum bytes and whatever follows.
pub record Parts (rest : Bytes) (n : ℕ) : Type 0 where
  pub payload : Bytes
  pub lo : ℕ
  pub hi : ℕ
  pub more : Bytes
  pub splits : rest ≡ payload ++ (lo ∷ (hi ∷ more))
  pub sized : n ≡ length payload

pub parts : (n : ℕ) (rest : Bytes) → n + 2 ≤ length rest → Parts rest n
parts zero [] h = absurd (omega arith)
parts zero (a ∷ []) h = absurd (omega arith)
parts zero (a ∷ (b ∷ rest)) h = record {
  payload = [];
  lo = a;
  hi = b;
  more = rest;
  splits = refl;
  sized = refl;
}
parts (suc n) [] h = absurd (omega arith)
parts (suc n) (a ∷ rest) h =
    let p = parts n rest (omega arith) in
    record {
      payload = a ∷ p.payload;
      lo = p.lo;
      hi = p.hi;
      more = p.more;
      splits = ap (◌∷◌ a) p.splits;
      sized = ap suc p.sized;
    }

module _ (b0 b1 b2 b3 b4 b5 b6 b7 : ℕ) where
  abbrev pub head : Bytes → Bytes
  head rest = b0 ∷ (b1 ∷ (b2 ∷ (b3 ∷ (b4 ∷ (b5 ∷ (b6 ∷ (b7 ∷ rest)))))))

  abbrev pub covered : Bytes → Bytes
  covered payload = b2 ∷ (b3 ∷ (b4 ∷ (b5 ∷ (b6 ∷ (b7 ∷ payload)))))

  -- The checks of `decode` on a buffer that holds a header.
  pub decode-head :
      (rest : Bytes)
      → decode (head rest) ≡ (
          if not (from_le_bytes b0 b1 == packet_token)
          then done (err (bad_token packet_token (from_le_bytes b0 b1)))
          else if not (from_le_bytes b6 b7 == fletcher16 (b2 ∷ (b3 ∷ (b4 ∷ (b5 ∷ [])))))
          then done (
              err
                (header_checksum (from_le_bytes b6 b7) (fletcher16 (b2 ∷ (b3 ∷ (b4 ∷ (b5 ∷ [])))))))
          else decode_payload (head rest) b2 (shr b3 4) (bit_and b3 0x0F) (from_le_bytes b4 b5))
  unfolding decode decode_header
  decode-head rest = rw (le→ltb (length (head rest)) header_len (omega arith))

  pub decode_payload-parts :
      (s p t n : ℕ) (payload : Bytes) (lo hi : ℕ) (more : Bytes)
      → n ≡ length payload
      → n ≢ 0
      → decode_payload (head (payload ++ (lo ∷ (hi ∷ more)))) s p t n ≡ (
          if not (from_le_bytes lo hi == fletcher16 (covered payload))
          then done (err (payload_checksum (from_le_bytes lo hi) (fletcher16 (covered payload))))
          else done (
              ok (
                record { sync = s; protocol = p; packet_type = t; payload = payload },
                header_len + n + 2,
              )))
  unfolding decode_payload
  decode_payload-parts s p t n payload lo hi more sized some_payload = rw (
    nonempty,
    long,
    ordered,
    payload_len,
    slice_to-append payload (lo ∷ (hi ∷ more)) n sized,
    at_lo,
    at_hi,
    ordered',
    slice_to-append (covered payload) (lo ∷ (hi ∷ more)) _ covered_len,
  )
    where
      nonempty : (n == 0) ≡ false
      nonempty = ground arith

      long : ltb (length (head (payload ++ (lo ∷ (hi ∷ more))))) (header_len + n + 2) ≡ false
      long = le→ltb _ _ (omega (arith, length-append payload (lo ∷ (hi ∷ more))))

      ordered : ltb (header_len + n) header_len ≡ false
      ordered = le→ltb _ _ (omega arith)

      ordered' : ltb (header_len + n) 2 ≡ false
      ordered' = le→ltb _ _ (omega arith)

      payload_len : header_len + n - header_len ≡ n
      payload_len = omega arith

      covered_len : header_len + n - 2 ≡ length (covered payload)
      covered_len = omega arith

      at_lo : index (head (payload ++ (lo ∷ (hi ∷ more)))) (header_len + n) ≡ done lo
      at_lo = index-append (head payload) (hi ∷ more) lo (header_len + n) (omega arith)

      at_hi : index (head (payload ++ (lo ∷ (hi ∷ more)))) (header_len + n + 1) ≡ done hi
      at_hi = rw append_assoc at (
          index-append (head payload ++ (lo ∷ [])) more hi (header_len + n + 1)
            (omega (arith, length-append payload (lo ∷ []))))

-- `decode` stops at its first check, or the buffer holds a header.
pub data View : Bytes → Type 0 where
  short : {buf : Bytes} → length buf < header_len → View buf
  long : (b0 b1 b2 b3 b4 b5 b6 b7 : ℕ) (rest : Bytes) → View (head b0 b1 b2 b3 b4 b5 b6 b7 rest)

pub view : (buf : Bytes) → View buf
view (a ∷ (b ∷ (c ∷ (d ∷ (e ∷ (f ∷ (g ∷ (h ∷ rest)))))))) = long a b c d e f g h rest
view [] = short (omega arith)
view (a ∷ []) = short (omega arith)
view (a ∷ (b ∷ [])) = short (omega arith)
view (a ∷ (b ∷ (c ∷ []))) = short (omega arith)
view (a ∷ (b ∷ (c ∷ (d ∷ [])))) = short (omega arith)
view (a ∷ (b ∷ (c ∷ (d ∷ (e ∷ []))))) = short (omega arith)
view (a ∷ (b ∷ (c ∷ (d ∷ (e ∷ (f ∷ [])))))) = short (omega arith)
view (a ∷ (b ∷ (c ∷ (d ∷ (e ∷ (f ∷ (g ∷ []))))))) = short (omega arith)

pub decode_short :
    (buf : Bytes)
    → length buf < header_len
    → decode buf ≡ done (err (incomplete header_len (length buf)))
unfolding decode
decode_short buf h = rw (lt→ltb (length buf) header_len h)

pub from-to_le_bytes : (n : ℕ) → n < 65536 → from_le_bytes (n % 256) (n / 256 % 256) ≡ n
from-to_le_bytes n h = omega arith

pub le_bytes-match : (n : ℕ) → n < 65536 → (from_le_bytes (n % 256) (n / 256 % 256) == n) ≡ true
le_bytes-match n h = eq→== _ n (from-to_le_bytes n h)

-- The part of `decode` behind the header's checks, on the header of a packet.
pub decode-header :
    (p : Packet) (rest : Bytes)
    → IsValid p
    → decode (0xAD ∷ (0xB5 ∷ (header p ++ rest)))
      ≡ decode_payload
          (0xAD ∷ (0xB5 ∷ (header p ++ rest)))
          p.sync
          p.protocol
          p.packet_type
          (length p.payload)
unfolding header
decode-header p rest v =
    decode-head _ _ _ _ _ _ _ _ _
    ∙ rw (le_bytes-match (fletcher16 (fields p)) (fletcher16-lt (fields p)), high, low, sized)
  where
    high : (p.protocol * 16 + p.packet_type) / 16 ≡ p.protocol
    high = omega arith

    low : bit_and (p.protocol * 16 + p.packet_type) 0xF ≡ p.packet_type
    low = low_nibble _ (omega arith) ∙ omega arith

    sized : length p.payload % 256 + 256 * (length p.payload / 256) ≡ length p.payload
    sized = omega arith

pub length-ne-zero : (xs : Bytes) → is_empty xs ≡ false → length xs ≢ 0
length-ne-zero [] h = λ _. cc
length-ne-zero (x ∷ xs) h = λ e. omega arith

-- The answer of `decode` behind the header of `p` when the payload's place holds `payload`, as long
-- as that of `p`, and the bytes `lo` and `hi` follow.
pub decode_body :
    (p : Packet) (payload : Bytes) (lo hi : ℕ) (rest : Bytes)
    → IsValid p
    → length payload ≡ length p.payload
    → is_empty p.payload ≡ false
    → decode (0xAD ∷ (0xB5 ∷ (header p ++ (payload ++ (lo ∷ (hi ∷ rest)))))) ≡ (
        if not (from_le_bytes lo hi == fletcher16 (header p ++ payload))
        then done (err (payload_checksum (from_le_bytes lo hi) (fletcher16 (header p ++ payload))))
        else done (ok (record p { payload = payload }, wire_len p)))
decode_body p payload lo hi rest v sized nonempty =
    decode-header p (payload ++ (lo ∷ (hi ∷ rest))) v
    ∙ unfold header wire_len in
      (decode_payload-parts _ _ _ _ _ _ _ _ p.sync p.protocol p.packet_type (length p.payload)
          payload lo hi rest (sym sized) (length-ne-zero p.payload nonempty)
        ∙ rw nonempty)

pub empty→nil : (xs : Bytes) → is_empty xs ≡ true → xs ≡ []
empty→nil [] h = refl
empty→nil (x ∷ xs) h = cc

-- `decode` reads back the packet whose frame starts the buffer, says how long the frame is, and
-- does not look at what follows it.
pub decode-frame :
    (p : Packet) (rest : Bytes) → IsValid p → decode (frame p ++ rest) ≡ done (ok (p, wire_len p))
decode-frame p rest v = elim (Bool-cases (is_empty p.payload)) [
  | inl e ↦
      unfold frame body in
      rw e (
        rw append_assoc
          (decode-header p rest v ∙ unfold decode_payload wire_len in rw (empty→nil p.payload e)))
  | inr e ↦
      unfold frame body in
      rw e (
        rw append_assoc (
          rw append_assoc (
            decode_body p p.payload _ _ rest v refl e
            ∙ rw (le_bytes-match _ (fletcher16-lt (header p ++ p.payload))))))
]
