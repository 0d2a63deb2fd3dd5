-- ===== src/Examples/Listing.antt =====
-- The lines that examples/inspect.rs prints of any capture.
use marlin_binary_transfer.Common.{
  ℕ, zero, suc, ◌+◌, ◌≤◌, ◌<◌, ◌≡◌, refl, ap, ◌∙◌, arith, List, [], ◌∷◌, ◌++◌, Bytes, All, IsByte,
  All-drop, length, length-drop, drop, ltb, le→ltb, ltb→lt, ltb→le, is_empty, Bool-cases, inl, inr,
  ok, err, panic, stuck, ◌>>=◌, Checked, done, Ensures, Ensures-bind,
}
use marlin_binary_transfer.Codec.{
  Packet, DecodeError, incomplete, bad_token, header_checksum, payload_checksum, wire_len, Decoded,
  decode, slice_from,
}
use marlin_binary_transfer.Codec.Frame.{IsValid, frame}
use marlin_binary_transfer.Codec.Answers.{Answers}
use marlin_binary_transfer.Codec.Sound.{decode-Answers}
use marlin_binary_transfer.Examples.Inspect.{
  Line, packet_line, incomplete_line, error_line, list_decoded, inspect_loop, inspect, skipped,
}

-- What `lines` say of the bytes from `offset` on: a packet's line is about the valid packet whose
-- frame is next, and the line behind it is about what follows the frame; an error's line tells the
-- answer of `decode`, and the line behind it is about what follows the byte; a line for an
-- incomplete packet is the last, and the bytes that are left are fewer than it asks for.
abbrev pub Lists : (offset : ℕ) → Bytes → List Line → Type 0
Lists offset rest [] = rest ≡ []
Lists offset rest (packet_line at_offset sync protocol packet_type payload_len ∷ lines) =
    (packet : Packet) × (more : Bytes) × (at_offset ≡ offset)
    × (sync ≡ packet.sync)
    × (protocol ≡ packet.protocol)
    × (packet_type ≡ packet.packet_type)
    × (payload_len ≡ length packet.payload)
    × IsValid packet
    × (rest ≡ frame packet ++ more)
    × Lists (offset + wire_len packet) more lines
Lists offset rest (incomplete_line at_offset need have ∷ lines) =
    (at_offset ≡ offset) × (lines ≡ []) × (have ≡ length rest) × (0 < have) × (have < need)
Lists offset rest (error_line at_offset e ∷ lines) =
    (b : ℕ) × (more : Bytes) × (at_offset ≡ offset)
    × (rest ≡ b ∷ more)
    × (decode rest ≡ done (err e))
    × Lists (offset + 1) more lines

pub slice_from-drop : (lo : ℕ) (bs : Bytes) → lo ≤ length bs → slice_from lo bs ≡ done (drop lo bs)
slice_from-drop zero bs h = refl
slice_from-drop (suc lo) [] h = absurd (omega arith)
slice_from-drop (suc lo) (b ∷ bs) h = slice_from-drop lo bs (omega arith)

drop-eq : (m n : ℕ) (bs : Bytes) → m ≡ n → drop m bs ≡ drop n bs
drop-eq m n bs e = rw e refl

pub drop_add : (m n : ℕ) (bs : Bytes) → drop n (drop m bs) ≡ drop (m + n) bs
drop_add zero n bs = drop-eq n (0 + n) bs (omega arith)
drop_add (suc m) zero [] = drop-eq (suc m) (suc m + 0) [] (omega arith)
drop_add (suc m) (suc n) [] = drop-eq (suc (m + suc n)) (suc m + suc n) [] (omega arith)
drop_add (suc m) n (b ∷ bs) =
    drop_add m n bs ∙ drop-eq (suc (m + n)) (suc m + n) (b ∷ bs) (omega arith)

drop_all : (n : ℕ) (bs : Bytes) → length bs ≤ n → drop n bs ≡ []
drop_all zero [] h = refl
drop_all zero (b ∷ bs) h = absurd (omega arith)
drop_all (suc n) [] h = refl
drop_all (suc n) (b ∷ bs) h = drop_all n bs (omega arith)

uncons : (bs : Bytes) → 0 < length bs → (b : ℕ) × (bs ≡ b ∷ drop 1 bs)
uncons [] h = absurd (omega arith)
uncons (b ∷ bs) h = (b, refl)

wire_len-pos : (p : Packet) → 0 < wire_len p
unfolding wire_len
wire_len-pos p = elim (Bool-cases (is_empty p.payload)) [
  | inl e ↦ rw e (omega arith)
  | inr e ↦ rw e (omega arith)
]

module _ (go_on : ℕ → Checked (List Line)) (offset : ℕ) (rest : Bytes) (some_left : 0 < length rest)
    (goes_on : (n : ℕ)
      → 0 < n
      → Ensures (Lists (offset + n) (drop n rest)) (go_on (offset + n))) where
  packet-Lists :
      (p : Packet)
      → IsValid p
      → rest ≡ frame p ++ drop (wire_len p) rest
      → Ensures (Lists offset rest) (list_decoded go_on offset (ok (p, wire_len p)))
  unfolding list_decoded
  packet-Lists p v e =
      Ensures-bind (Lists (offset + wire_len p) (drop (wire_len p) rest)) (Lists offset rest)
        (go_on (offset + wire_len p)) _ (goes_on (wire_len p) (wire_len-pos p))
        (λ lines h. (p, drop (wire_len p) rest, refl, refl, refl, refl, refl, v, e, h))

  skipped-Lists :
      (e : DecodeError)
      → decode rest ≡ done (err e)
      → Ensures (Lists offset rest) (skipped go_on offset e)
  unfolding skipped
  skipped-Lists e d =
      let (b, splits) = uncons rest some_left in
      Ensures-bind (Lists (offset + 1) (drop 1 rest)) (Lists offset rest) (go_on (offset + 1)) _
        (goes_on 1 (omega arith)) (λ lines h. (b, drop 1 rest, refl, splits, d, h))

  list_decoded-Lists :
      (decoded : Decoded)
      → decode rest ≡ done decoded
      → Answers rest decoded
      → Ensures (Lists offset rest) (list_decoded go_on offset decoded)
  unfolding list_decoded
  list_decoded-Lists (ok (p, n)) d answers =
      rw (answers.1)
        (packet-Lists p answers.0 (answers.2 ∙ ap (λ k. frame p ++ drop k rest) answers.1))
  list_decoded-Lists (err (incomplete need have)) d answers =
      (refl, refl, answers.0, omega arith, answers.1)
  list_decoded-Lists (err (bad_token expected got)) d answers =
      skipped-Lists (bad_token expected got) d
  list_decoded-Lists (err (header_checksum stored computed)) d answers =
      skipped-Lists (header_checksum stored computed) d
  list_decoded-Lists (err (payload_checksum stored computed)) d answers =
      skipped-Lists (payload_checksum stored computed) d

-- The `match` on an answer of `decode`.
decoded-Lists :
    (go_on : ℕ → Checked (List Line)) (offset : ℕ) (rest : Bytes)
    → All IsByte rest
    → 0 < length rest
    → ((n : ℕ) → 0 < n → Ensures (Lists (offset + n) (drop n rest)) (go_on (offset + n)))
    → Ensures (Lists offset rest) (decode rest >>= list_decoded go_on offset)
decoded-Lists go_on offset rest good left goes_on =
    answered (decode rest) refl (decode-Answers rest good)
  where
    answered :
        (m : Checked Decoded)
        → decode rest ≡ m
        → Ensures (Answers rest) m
        → Ensures (Lists offset rest) (m >>= list_decoded go_on offset)
    answered (done decoded) d answers =
        list_decoded-Lists go_on offset rest left goes_on decoded d answers
    answered panic d answers = absurd answers
    answered stuck d answers = absurd answers

inspect_loop-Lists :
    (fuel : ℕ) (bytes : Bytes) (offset : ℕ)
    → All IsByte bytes
    → length bytes ≤ offset + fuel
    → Ensures (Lists offset (drop offset bytes)) (inspect_loop fuel bytes offset)
unfolding inspect_loop
inspect_loop-Lists zero bytes offset good enough =
    rw (le→ltb offset (length bytes) (omega arith)) (drop_all offset bytes (omega arith))
inspect_loop-Lists (suc fuel) bytes offset good enough =
    elim (Bool-cases (ltb offset (length bytes))) [
      | inl e ↦
          rw (e, slice_from-drop offset bytes (omega (arith, ltb→lt offset (length bytes) e)))
            (decoded-Lists (inspect_loop fuel bytes) offset (drop offset bytes)
              (All-drop IsByte offset bytes good)
              (omega (arith, ltb→lt offset (length bytes) e, length-drop offset bytes))
              (λ n pos.
                rw (drop_add offset n bytes)
                  (inspect_loop-Lists fuel bytes (offset + n) good (omega arith))))
      | inr e ↦ rw e (drop_all offset bytes (ltb→le offset (length bytes) e))
    ]

-- Whatever the bytes of the capture, `inspect` comes to an end without a panic, and its lines account
-- for every byte: those behind the offset of a line start with the frame of the packet that the line
-- shows, or with the one byte that it skips at an error of `decode`; what is behind is told by the
-- next line, and the last line is at the end of the capture or at a packet that the rest of the
-- capture is too short for.
pub inspect-Lists : (bytes : Bytes) → All IsByte bytes → Ensures (Lists 0 bytes) (inspect bytes)
unfolding inspect
inspect-Lists bytes good = inspect_loop-Lists (length bytes) bytes 0 good (omega arith)
