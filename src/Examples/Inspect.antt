-- ===== src/Examples/Inspect.antt =====
-- examples/inspect.rs: the packets of a captured byte stream, as the lines that it prints. The text
-- of a line is left to the reader; the line keeps the values that it shows.
use marlin_binary_transfer.Common.{
  ℕ, zero, suc, ◌+◌, List, [], ◌∷◌, Bytes, length, ltb, if◌then◌else◌, ok, err, Checked, done,
  stuck, ◌>>=◌,
}
use marlin_binary_transfer.Codec.{
  DecodeError, incomplete, bad_token, header_checksum, payload_checksum, Decoded, decode,
  slice_from,
}

pub data Line : Type 0 where
  packet_line : (offset sync protocol packet_type payload_len : ℕ) → Line
  incomplete_line : (offset need have : ℕ) → Line
  error_line : (offset : ℕ) → DecodeError → Line

-- One byte is skipped.
unfoldable pub skipped :
    (go_on : ℕ → Checked (List Line)) (offset : ℕ) → DecodeError → Checked (List Line)
skipped go_on offset e = do lines ← go_on (offset + 1); done (error_line offset e ∷ lines)

-- The arms of the `match`; `go_on` is the loop from an offset on.
unfoldable pub list_decoded :
    (go_on : ℕ → Checked (List Line)) (offset : ℕ) → Decoded → Checked (List Line)
list_decoded go_on offset (ok (pkt, consumed)) = do
  lines ← go_on (offset + consumed)
  done (packet_line offset pkt.sync pkt.protocol pkt.packet_type (length pkt.payload) ∷ lines)
list_decoded go_on offset (err (incomplete need have)) =
    done (incomplete_line offset need have ∷ [])
list_decoded go_on offset (err (bad_token expected got)) =
    skipped go_on offset (bad_token expected got)
list_decoded go_on offset (err (header_checksum stored computed)) =
    skipped go_on offset (header_checksum stored computed)
list_decoded go_on offset (err (payload_checksum stored computed)) =
    skipped go_on offset (payload_checksum stored computed)

-- `decode(&bytes[offset..])`.
abbrev pub decode_at : Bytes → (offset : ℕ) → Checked Decoded
decode_at bytes offset = do rest ← slice_from offset bytes; decode rest

-- The `while` loop, with fuel for its rounds.
unfoldable pub inspect_loop : (fuel : ℕ) → Bytes → (offset : ℕ) → Checked (List Line)
inspect_loop zero bytes offset = if ltb offset (length bytes) then stuck else done []
inspect_loop (suc fuel) bytes offset =
    if ltb offset (length bytes)
    then decode_at bytes offset >>= list_decoded (inspect_loop fuel bytes) offset
    else done []

-- What `main` prints of the file's bytes. Each round goes on by a byte at least.
unfoldable pub inspect : Bytes → Checked (List Line)
inspect bytes = inspect_loop (length bytes) bytes 0
