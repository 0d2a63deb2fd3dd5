-- ===== src/Text.antt =====
-- What the crate uses of Rust's `str` and `String`. A string is the list of its code points.
pub mod Plain
use Prim.Native.Char.{code}
use Prim.Native.String.{String}
use marlin_binary_transfer.Common.{
  ℕ, zero, suc, ◌+◌, ◌-◌, ◌*◌, ◌/◌, ◌%◌, Bool, true, false, ◌&&◌, ◌||◌, Option, none, some, List,
  [], ◌∷◌, ◌++◌, Bytes, ltb, leb, ◌==◌, if◌then◌else◌, drop, length,
}

abbrev pub Str : Type 0
Str = List ℕ

-- A literal.
abbrev pub codes : String → Str
codes String.[] = []
codes (String.◌∷◌ c s) = code c ∷ codes s

abbrev within : ℕ → ℕ → ℕ → Bool
within lo hi c = leb lo c && leb c hi

-- What a byte starts in UTF-8: a character of its own, or one with `more` bytes to come, the next
-- of them between `lo` and `hi`, over the bits read so far.
pub data Lead : Type 0 where
  ascii invalid : Lead
  multi : (more lo hi bits : ℕ) → Lead

lead : ℕ → Lead
lead b =
    if ltb b 0x80
    then ascii
    else if within 0xC2 0xDF b
    then multi 0 0x80 0xBF (b - 0xC0)
    else if b == 0xE0
    then multi 1 0xA0 0xBF 0
    else if b == 0xED
    then multi 1 0x80 0x9F 13
    else if within 0xE1 0xEF b
    then multi 1 0x80 0xBF (b - 0xE0)
    else if b == 0xF0
    then multi 2 0x90 0xBF 0
    else if within 0xF1 0xF3 b
    then multi 2 0x80 0xBF (b - 0xF0)
    else if b == 0xF4
    then multi 2 0x80 0x8F 4
    else invalid

abbrev prepend : ℕ → Option Str → Option Str
prepend c none = none
prepend c (some s) = some (c ∷ s)

-- `utf8_rest more lo hi bits` reads on inside a character.
mutual
  utf8_start : Bytes → Option Str
  utf8_start [] = some []
  utf8_start (b ∷ bs) = elim (lead b) [
    | ascii ↦ prepend b (utf8_start bs)
    | invalid ↦ none
    | multi more lo hi bits ↦ utf8_rest more lo hi bits bs
  ]

  utf8_rest : ℕ → ℕ → ℕ → ℕ → Bytes → Option Str
  utf8_rest more lo hi bits [] = none
  utf8_rest more lo hi bits (b ∷ bs) = elim (within lo hi b) [
    | false ↦ none
    | true ↦ elim more [
      | zero ↦ prepend (bits * 64 + (b - 0x80)) (utf8_start bs)
      | suc fewer ↦ utf8_rest fewer 0x80 0xBF (bits * 64 + (b - 0x80)) bs
    ]
  ]

-- `std::str::from_utf8(b).ok()`.
unfoldable pub from_utf8 : Bytes → Option Str
unfolding utf8_start utf8_rest lead
from_utf8 = utf8_start

-- `str::as_bytes` of one character and of a string.
utf8_char : ℕ → Bytes
utf8_char c =
    if ltb c 0x80
    then c ∷ []
    else if ltb c 0x800
    then (0xC0 + c / 64) ∷ ((0x80 + c % 64) ∷ [])
    else if ltb c 0x10000
    then (0xE0 + c / 4096) ∷ ((0x80 + c / 64 % 64) ∷ ((0x80 + c % 64) ∷ []))
    else (0xF0 + c / 262144)
      ∷ ((0x80 + c / 4096 % 64) ∷ ((0x80 + c / 64 % 64) ∷ ((0x80 + c % 64) ∷ [])))

unfoldable pub as_bytes : Str → Bytes
unfolding utf8_char
as_bytes [] = []
as_bytes (c ∷ s) = utf8_char c ++ as_bytes s

-- `char::is_whitespace`: the Unicode property White_Space.
is_whitespace : ℕ → Bool
is_whitespace c =
    within 9 13 c
    || c == 0x20
    || c == 0x85
    || c == 0xA0
    || c == 0x1680
    || within 0x2000 0x200A c
    || within 0x2028 0x2029 c
    || c == 0x202F
    || c == 0x205F
    || c == 0x3000

trim_start : Str → Str
trim_start [] = []
trim_start (c ∷ s) = if is_whitespace c then trim_start s else c ∷ s

-- A character is kept if it is no white space or something is kept behind it.
keep_end : ℕ → Str → Str
keep_end c [] = if is_whitespace c then [] else c ∷ []
keep_end c (d ∷ s) = c ∷ (d ∷ s)

trim_end : Str → Str
trim_end [] = []
trim_end (c ∷ s) = keep_end c (trim_end s)

unfoldable pub trim : Str → Str
unfolding trim_start trim_end keep_end is_whitespace
trim s = trim_end (trim_start s)

-- The digits of an unsigned integer of at most `max`, over those read so far; each step of
-- `str::parse` is a checked multiplication and a checked addition.
parse_digits : ℕ → ℕ → Str → Option ℕ
parse_digits max n [] = some n
parse_digits max n (c ∷ s) =
    let n' = n * 10 + (c - b'0') in
    let rest = parse_digits max n' s in if within b'0' b'9' c && leb n' max then rest else none

parse_nonempty : ℕ → Str → Option ℕ
parse_nonempty max [] = none
parse_nonempty max (c ∷ s) = parse_digits max 0 (c ∷ s)

-- `s.parse::<u8>().ok()` is `parse 255 s`, and so on: a sign `+` is allowed, digits are needed.
unfoldable pub parse : ℕ → Str → Option ℕ
unfolding parse_nonempty parse_digits
parse max [] = none
parse max (c ∷ s) = if c == b'+' then parse_nonempty max s else parse_nonempty max (c ∷ s)

-- `s.split_once(sep)`.
unfoldable pub split_once : ℕ → Str → Option (Str × Str)
split_once sep [] = none
split_once sep (c ∷ s) = elim (c == sep) [
  | true ↦ some ([], s)
  | false ↦ elim (split_once sep s) [ none ↦ none | some (a, b) ↦ some (c ∷ a, b) ]
]

-- `s.splitn(n, sep)` as the list of its items.
unfoldable pub splitn : ℕ → ℕ → Str → List Str
unfolding split_once
splitn zero sep s = []
splitn (suc zero) sep s = s ∷ []
splitn (suc (suc n)) sep s = elim (split_once sep s) [
  | none ↦ s ∷ []
  | some (a, b) ↦ a ∷ splitn (suc n) sep b
]

abbrev add_to_first : ℕ → List Str → List Str
add_to_first c [] = (c ∷ []) ∷ []
add_to_first c (part ∷ parts) = (c ∷ part) ∷ parts

-- `s.split(sep)` as the list of its items.
unfoldable pub split : ℕ → Str → List Str
split sep [] = [] ∷ []
split sep (c ∷ s) = if c == sep then [] ∷ split sep s else add_to_first c (split sep s)

-- `s.starts_with(prefix)`, of strings and of byte slices alike.
unfoldable pub starts_with : Str → Str → Bool
starts_with s [] = true
starts_with [] (p ∷ prefix) = false
starts_with (c ∷ s) (p ∷ prefix) = c == p && starts_with s prefix

-- `s.strip_prefix(prefix)`.
unfoldable pub strip_prefix : Str → Str → Option Str
unfolding starts_with
strip_prefix s prefix = if starts_with s prefix then some (drop (length prefix) s) else none

-- `format!("{n}")` of a number of at most `digits` digits.
unfoldable pub display : ℕ → ℕ → Str
display zero n = []
display (suc digits) n =
    if ltb n 10 then (b'0' + n) ∷ [] else display digits (n / 10) ++ ((b'0' + n % 10) ∷ [])
