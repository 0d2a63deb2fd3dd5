-- ===== src/Examples/Placed.antt =====
-- The packets that examples/inspect.rs finds between other bytes.
use marlin_binary_transfer.Common.{
  ℕ, zero, suc, ◌+◌, ◌≤◌, ◌<◌, ◌≡◌, ◌≢◌, refl, sym, ap, ◌∙◌, arith, List, [], ◌∷◌, ◌++◌, Bytes, All,
  length, length-append, length-drop, drop, drop-length-append, ltb, lt→ltb, le→ltb, ltb→lt, ltb→le,
  ne→==, false, Bool-cases, inl, inr, is_empty, ok, err, done,
}
use marlin_binary_transfer.Codec.{
  Packet, incomplete, bad_token, packet_token, header_len, from_le_bytes, wire_len, Decoded, decode,
}
use marlin_binary_transfer.Codec.Frame.{IsValid, frame, length-frame}
use marlin_binary_transfer.Codec.Decode.{decode_short, decode-head, decode-frame}
use marlin_binary_transfer.Examples.Inspect.{
  Line, packet_line, incomplete_line, error_line, skipped, list_decoded, inspect_loop, inspect,
}
use marlin_binary_transfer.Examples.Listing.{slice_from-drop, drop_add}

-- A byte that starts no packet: 0xAD is the first byte of the token.
pub record IsNoise (b : ℕ) : Type 0 where
  pub byte : b < 256
  pub no_token : b ≢ 0xAD

-- Packets, each behind some bytes that are none of theirs.
pub record Segment : Type 0 where
  pub noise : Bytes
  pub packet : Packet

pub record IsClean (segment : Segment) : Type 0 where
  pub quiet : All IsNoise segment.noise
  pub valid : IsValid segment.packet

unfoldable pub capture : List Segment → (tail : Bytes) → Bytes
capture [] tail = tail
capture (segment ∷ segments) tail = segment.noise ++ (frame segment.packet ++ capture segments tail)

-- The packets with their offsets.
unfoldable pub placed : (offset : ℕ) → List Segment → List Line
placed offset [] = []
placed offset (segment ∷ segments) =
    let start = offset + length segment.noise in
    packet_line start segment.packet.sync segment.packet.protocol segment.packet.packet_type
      (length segment.packet.payload)
    ∷ placed (start + wire_len segment.packet) segments

unfoldable pub packet_lines : List Line → List Line
packet_lines [] = []
packet_lines (packet_line offset sync protocol packet_type payload_len ∷ lines) =
    packet_line offset sync protocol packet_type payload_len ∷ packet_lines lines
packet_lines (incomplete_line offset need have ∷ lines) = packet_lines lines
packet_lines (error_line offset e ∷ lines) = packet_lines lines

decode-noise :
    (b : ℕ) (more : Bytes)
    → IsNoise b
    → header_len ≤ length (b ∷ more)
    → (got : ℕ) × (decode (b ∷ more) ≡ done (err (bad_token packet_token got)))
decode-noise b0 (b1 ∷ (b2 ∷ (b3 ∷ (b4 ∷ (b5 ∷ (b6 ∷ (b7 ∷ more))))))) noise h = (
  from_le_bytes b0 b1,
  decode-head b0 b1 b2 b3 b4 b5 b6 b7 more
      ∙ rw
          (ne→== (from_le_bytes b0 b1) packet_token
            (λ e. noise.no_token (omega (arith, noise.byte))))
          refl,
)
decode-noise b0 [] noise h = absurd (omega arith)
decode-noise b0 (b1 ∷ []) noise h = absurd (omega arith)
decode-noise b0 (b1 ∷ (b2 ∷ [])) noise h = absurd (omega arith)
decode-noise b0 (b1 ∷ (b2 ∷ (b3 ∷ []))) noise h = absurd (omega arith)
decode-noise b0 (b1 ∷ (b2 ∷ (b3 ∷ (b4 ∷ [])))) noise h = absurd (omega arith)
decode-noise b0 (b1 ∷ (b2 ∷ (b3 ∷ (b4 ∷ (b5 ∷ []))))) noise h = absurd (omega arith)
decode-noise b0 (b1 ∷ (b2 ∷ (b3 ∷ (b4 ∷ (b5 ∷ (b6 ∷ [])))))) noise h = absurd (omega arith)

wire_len-header_len : (p : Packet) → header_len ≤ wire_len p
unfolding wire_len
wire_len-header_len p = elim (Bool-cases (is_empty p.payload)) [
  | inl e ↦ rw e (omega arith)
  | inr e ↦ rw e (omega arith)
]

-- The loop from `offset` on prints lines of which those about packets are `expected`.
abbrev Finds : (fuel : ℕ) → Bytes → (offset : ℕ) → (expected : List Line) → Type 0
Finds fuel bytes offset expected =
    (lines : List Line) × (inspect_loop fuel bytes offset ≡ done lines)
    × (packet_lines lines ≡ expected)

module _ (fuel : ℕ) (bytes : Bytes) (offset : ℕ) where
  one_round :
      (rest : Bytes) (decoded : Decoded)
      → 0 < length rest
      → drop offset bytes ≡ rest
      → decode rest ≡ done decoded
      → inspect_loop (suc fuel) bytes offset ≡ list_decoded (inspect_loop fuel bytes) offset decoded
  unfolding inspect_loop
  one_round rest decoded some_left splits answer = rw (
    lt→ltb offset (length bytes) inside,
    slice_from-drop offset bytes (omega (arith, inside)),
    splits,
    answer,
  )
    where
      inside : offset < length bytes
      inside = omega (arith, length-drop offset bytes, ap (length {A = ℕ}) splits)

  noise_byte-Finds :
      (b : ℕ) (more : Bytes) (expected : List Line)
      → IsNoise b
      → header_len ≤ length (b ∷ more)
      → drop offset bytes ≡ b ∷ more
      → Finds fuel bytes (offset + 1) expected
      → Finds (suc fuel) bytes offset expected
  unfolding list_decoded skipped packet_lines
  noise_byte-Finds b more expected noise long_enough splits rest =
      let (lines, runs, found) = rest in
      let (got, answer) = decode-noise b more noise long_enough in
      (
        error_line offset (bad_token packet_token got) ∷ lines,
        one_round (b ∷ more) (err (bad_token packet_token got)) (omega arith) splits answer
            ∙ rw runs refl,
        found,
      )

  packet-Finds :
      (p : Packet) (more : Bytes) (expected : List Line)
      → IsValid p
      → drop offset bytes ≡ frame p ++ more
      → Finds fuel bytes (offset + wire_len p) expected
      → Finds
          (suc fuel)
          bytes
          offset
          (packet_line offset p.sync p.protocol p.packet_type (length p.payload) ∷ expected)
  unfolding list_decoded packet_lines
  packet-Finds p more expected v splits rest =
      let (lines, runs, found) = rest in
      (
        packet_line offset p.sync p.protocol p.packet_type (length p.payload) ∷ lines,
        one_round (frame p ++ more) (ok (p, wire_len p)) framed splits (decode-frame p more v)
            ∙ rw runs refl,
        rw found refl,
      )
    where
      framed : 0 < length (frame p ++ more)
      framed = omega (arith, length-append (frame p) more, length-frame p, wire_len-header_len p)

module _ (bytes : Bytes) where
  -- At the end of the capture.
  end-Finds : (fuel offset : ℕ) → drop offset bytes ≡ [] → Finds fuel bytes offset []
  unfolding inspect_loop packet_lines
  end-Finds fuel offset splits = ([], ends fuel, refl)
    where
      outside : ltb offset (length bytes) ≡ false
      outside =
          le→ltb offset (length bytes)
            (omega (arith, length-drop offset bytes, ap (length {A = ℕ}) splits))

      ends : (n : ℕ) → inspect_loop n bytes offset ≡ done []
      ends zero = rw outside refl
      ends (suc n) = rw outside refl

  next_byte :
      (offset b : ℕ) (more : Bytes) → drop offset bytes ≡ b ∷ more → drop (offset + 1) bytes ≡ more
  next_byte offset b more splits = sym (drop_add offset 1 bytes) ∙ ap (drop {A = ℕ} 1) splits

  tail-Finds :
      (fuel offset : ℕ) (tail : Bytes)
      → All IsNoise tail
      → drop offset bytes ≡ tail
      → length tail ≤ fuel
      → Finds fuel bytes offset []
  unfolding list_decoded packet_lines
  tail-Finds fuel offset [] quiet splits enough = end-Finds fuel offset splits
  tail-Finds zero offset (b ∷ tail) quiet splits enough = absurd (omega arith)
  tail-Finds (suc fuel) offset (b ∷ tail) quiet splits enough =
      elim (Bool-cases (ltb (length (b ∷ tail)) header_len)) [
        | inl e ↦ (
          incomplete_line offset header_len (length (b ∷ tail)) ∷ [],
          one_round fuel bytes offset (b ∷ tail) (err (incomplete header_len (length (b ∷ tail))))
              (omega arith) splits
              (decode_short (b ∷ tail) (ltb→lt (length (b ∷ tail)) header_len e)),
          refl,
        )
        | inr e ↦
            noise_byte-Finds fuel bytes offset b tail [] quiet.0
              (ltb→le (length (b ∷ tail)) header_len e) splits
              (tail-Finds fuel (offset + 1) tail quiet.1 (next_byte offset b tail splits)
                (omega arith))
      ]

  -- So it is at every offset of the capture that is followed by `rest`.
  abbrev FindsIn : Bytes → (expected : ℕ → List Line) → Type 0
  FindsIn rest expected =
      (fuel offset : ℕ)
      → drop offset bytes ≡ rest
      → length rest ≤ fuel
      → Finds fuel bytes offset (expected offset)

  noise-FindsIn :
      (noise rest : Bytes) (expected : ℕ → List Line)
      → All IsNoise noise
      → header_len ≤ length rest
      → FindsIn rest expected
      → FindsIn (noise ++ rest) (λ offset. expected (offset + length noise))
  noise-FindsIn [] rest expected quiet h finds fuel offset splits enough =
      rw unshifted (finds fuel offset splits enough)
    where
      unshifted : offset + 0 ≡ offset
      unshifted = omega arith
  noise-FindsIn (b ∷ noise) rest expected quiet h finds zero offset splits enough =
      absurd (omega arith)
  noise-FindsIn (b ∷ noise) rest expected quiet h finds (suc fuel) offset splits enough =
      noise_byte-Finds fuel bytes offset b (noise ++ rest) (expected (offset + suc (length noise)))
        quiet.0 (omega (arith, length-append noise rest)) splits
        (rw shifted (
          noise-FindsIn noise rest expected quiet.1 h finds fuel (offset + 1)
            (next_byte offset b (noise ++ rest) splits) (omega arith)))
    where
      shifted : offset + suc (length noise) ≡ offset + 1 + length noise
      shifted = omega arith

  length-framed :
      (p : Packet) (rest : Bytes)
      → (length (frame p ++ rest) ≡ wire_len p + length rest) × (header_len ≤ wire_len p)
  length-framed p rest =
      (length-append (frame p) rest ∙ ap (◌+ length rest) (length-frame p), wire_len-header_len p)

  packet-FindsIn :
      (p : Packet) (rest : Bytes) (expected : ℕ → List Line)
      → IsValid p
      → FindsIn rest expected
      → FindsIn (frame p ++ rest) (λ offset.
        packet_line offset p.sync p.protocol p.packet_type (length p.payload)
        ∷ expected (offset + wire_len p))
  packet-FindsIn p rest expected v finds zero offset splits enough =
      absurd (omega (arith, length-framed p rest))
  packet-FindsIn p rest expected v finds (suc fuel) offset splits enough =
      packet-Finds fuel bytes offset p rest (expected (offset + wire_len p)) v splits (
        finds fuel (offset + wire_len p)
          (sym (drop_add offset (wire_len p) bytes)
            ∙ rw (splits, ← length-frame p) (drop-length-append (frame p) rest))
          (omega (arith, length-framed p rest)))

  segments-FindsIn :
      (segments : List Segment) (tail : Bytes)
      → All IsClean segments
      → All IsNoise tail
      → FindsIn (capture segments tail) (λ offset. placed offset segments)
  unfolding capture placed
  segments-FindsIn [] tail clean quiet =
      λ fuel offset splits enough. tail-Finds fuel offset tail quiet splits enough
  segments-FindsIn (segment ∷ segments) tail clean quiet =
      noise-FindsIn segment.noise (frame segment.packet ++ capture segments tail) _ clean.0.quiet
        (omega (arith, length-framed segment.packet (capture segments tail)))
        (packet-FindsIn segment.packet (capture segments tail) (λ offset. placed offset segments)
          clean.0.valid (segments-FindsIn segments tail clean.1 quiet))

-- `inspect` finds every packet of a capture, at its offset and in order, and prints no other, when
-- the bytes between the packets and behind the last are none that a packet starts with.
pub inspect-capture :
    (segments : List Segment) (tail : Bytes)
    → All IsClean segments
    → All IsNoise tail
    → (lines : List Line) × (inspect (capture segments tail) ≡ done lines)
      × (packet_lines lines ≡ placed 0 segments)
unfolding inspect
inspect-capture segments tail clean quiet =
    segments-FindsIn (capture segments tail) segments tail clean quiet
      (length (capture segments tail)) 0 refl (omega arith)
