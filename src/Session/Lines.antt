-- ===== src/Session/Lines.antt =====
-- The free functions of src/session.rs: a line of bytes and what it holds.
use marlin_binary_transfer.Common.{
  ℕ, zero, suc, Bool, ◌||◌, Option, none, some, [], ◌∷◌, Bytes, ltb, ◌==◌, if◌then◌else◌, length,
  get_or, take, drop, u8,
}
use marlin_binary_transfer.Text.{Str, from_utf8, trim, parse, starts_with}

abbrev pub newline : ℕ
newline = b'\n'

abbrev pub is_eol : ℕ → Bool
is_eol b = b == b'\n' || b == b'\r'

-- The loop of `strip_line_endings`: `end` goes down while the byte before it ends a line.
unfoldable pub strip_end : Bytes → ℕ → ℕ
strip_end line zero = zero
strip_end line (suc end) =
    let rest = strip_end line end in if is_eol (get_or line end 0) then rest else suc end

unfoldable pub strip_line_endings : Bytes → Bytes
unfolding strip_end
strip_line_endings line = take (strip_end line (length line)) line

unfoldable pub strip_prefix : Bytes → Bytes → Option Bytes
unfolding starts_with
strip_prefix line prefix =
    if starts_with line prefix then some (drop (length prefix) line) else none

-- The checks of `parse_decimal_u8` behind the one for an empty slice: `parse::<u32>()` of the
-- trimmed text, and `n as u8` if `n` is at most 255.
small_number : Option ℕ → Option ℕ
small_number none = none
small_number (some n) = if ltb 255 n then none else some (u8 n)

parse_text : Option Str → Option ℕ
parse_text none = none
parse_text (some s) = small_number (parse 0xFFFF_FFFF (trim s))

unfoldable pub parse_decimal_u8 : Bytes → Option ℕ
unfolding small_number parse_text from_utf8 trim parse
parse_decimal_u8 [] = none
parse_decimal_u8 (b ∷ bs) = parse_text (from_utf8 (b ∷ bs))

-- `self.inbound_buf.iter().position(|&b| b == b'\n')` with `drain(..=pos)`: the first line, its
-- newline included, and what follows it.
abbrev pub add_to_line : ℕ → Option (Bytes × Bytes) → Option (Bytes × Bytes)
add_to_line b none = none
add_to_line b (some (line, rest)) = some (b ∷ line, rest)

unfoldable pub drain_line : Bytes → Option (Bytes × Bytes)
drain_line [] = none
drain_line (b ∷ bs) = if b == newline then some (b ∷ [], bs) else add_to_line b (drain_line bs)
