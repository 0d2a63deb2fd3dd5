-- ===== src/Text/Plain.antt =====
-- Texts of printable ASCII: UTF-8 leaves them as they are, and splitting finds the first separator.
use marlin_binary_transfer.Common.{
  ℕ, zero, suc, ◌+◌, ◌-◌, ◌*◌, ◌/◌, ◌%◌, ◌≤◌, ◌<◌, ◌≡◌, ◌≢◌, refl, ap, ◌∙◌, arith, false, some, [],
  ◌∷◌, ◌++◌, All, All-append, length, length-append, ltb, Bool-cases, inl, inr, ltb→lt,
}
use marlin_binary_transfer.Text.{
  Str, lead, ascii, utf8_start, prepend, from_utf8, split_once, display, is_whitespace, trim_start,
  trim_end, keep_end, trim, parse_digits, parse_nonempty, parse,
}

-- A character between the blank and the tilde.
abbrev pub IsPrintable : ℕ → Type 0
IsPrintable c = (32 ≤ c) × (c < 127)

lead-ascii : (c : ℕ) → c < 128 → lead c ≡ ascii
unfolding lead
lead-ascii c h = ground arith

pub from_utf8_ascii : (s : Str) → All IsPrintable s → from_utf8 s ≡ some s
unfolding from_utf8 utf8_start
from_utf8_ascii [] h = refl
from_utf8_ascii (c ∷ s) (p, h) =
    rw (lead-ascii c (omega arith), utf8_start) (ap (prepend c) (from_utf8_ascii s h))

pub split_once-append :
    (sep : ℕ) (a b : Str) → All (λ c. c ≢ sep) a → split_once sep (a ++ sep ∷ b) ≡ some (a, b)
unfolding split_once
split_once-append sep [] b h = ground arith
split_once-append sep (c ∷ a) b (p, h) = ground (arith, split_once-append sep a b h)

abbrev pub IsDigit : ℕ → Type 0
IsDigit c = (b'0' ≤ c) × (c ≤ b'9')

pub display-All : (digits n : ℕ) → All IsDigit (display digits n)
unfolding display
display-All zero n = tt
display-All (suc digits) n = elim (Bool-cases (ltb n 10)) [
  | inl e ↦ rw e ((omega (arith, ltb→lt n 10 e), omega (arith, ltb→lt n 10 e)), tt)
  | inr e ↦ rw e (
      All-append IsDigit (display digits (n / 10)) _ (display-All digits (n / 10))
        ((omega arith, omega arith), tt))
]

pub All-weaken : (P Q : ℕ → Type 0) (s : Str) → ((c : ℕ) → P c → Q c) → All P s → All Q s
All-weaken P Q [] k h = tt
All-weaken P Q (c ∷ s) k (p, h) = (k c p, All-weaken P Q s k h)

-- No white space: `trim` has nothing to do.
not-whitespace : (c : ℕ) → (32 < c) × (c < 127) → is_whitespace c ≡ false
unfolding is_whitespace
not-whitespace c h = ground arith

trim_start_dark : (s : Str) → All (λ c. (32 < c) × (c < 127)) s → trim_start s ≡ s
unfolding trim_start
trim_start_dark [] h = refl
trim_start_dark (c ∷ s) (p, h) = rw (not-whitespace c p)

trim_end_dark : (s : Str) → All (λ c. (32 < c) × (c < 127)) s → trim_end s ≡ s
unfolding trim_end
trim_end_dark [] h = refl
trim_end_dark (c ∷ s) (p, h) = rw (trim_end_dark s h) (kept s)
  where
    kept : (s : Str) → keep_end c s ≡ c ∷ s
    kept [] = unfold keep_end in rw (not-whitespace c p)
    kept (d ∷ s) = unfold keep_end in refl

pub trim_dark : (s : Str) → All (λ c. (32 < c) × (c < 127)) s → trim s ≡ s
unfolding trim
trim_dark s h = rw (trim_start_dark s h) (trim_end_dark s h)

-- One more digit behind a number that is read.
parse_digits-append :
    (max acc d m : ℕ) (s : Str)
    → d ≤ 9
    → m * 10 + d ≤ max
    → parse_digits max acc s ≡ some m
    → parse_digits max acc (s ++ (b'0' + d) ∷ []) ≡ some (m * 10 + d)
unfolding parse_digits
parse_digits-append max acc d m [] p q e = ground arith
parse_digits-append max acc d m (c ∷ s) p q e =
    ground (arith, parse_digits-append max (acc * 10 + (c - b'0')) d m s)

-- The numbers of so many digits.
abbrev limit : ℕ → ℕ
limit zero = 1
limit (suc digits) = 10 * limit digits

parse_digits-display :
    (max digits n : ℕ) → n < limit digits → n ≤ max → parse_digits max 0 (display digits n) ≡ some n
unfolding display
parse_digits-display max zero n h p = unfold parse_digits in (ap some (omega arith))
parse_digits-display max (suc digits) n h p = elim (Bool-cases (ltb n 10)) [
  | inl e ↦ rw e (unfold parse_digits in one (ltb→lt n 10 e))
  | inr e ↦ rw e (
      parse_digits-append max 0 (n % 10) (n / 10) (display digits (n / 10)) (omega arith)
        (omega arith) (parse_digits-display max digits (n / 10) (omega arith) (omega arith))
      ∙ ap some (omega arith))
]
  where
    one : n < 10 → parse_digits max 0 ((b'0' + n) ∷ []) ≡ some n
    one k = unfold parse_digits in ground arith

parse-parse_digits :
    (max : ℕ) (s : Str) → All IsDigit s → s ≢ [] → parse max s ≡ parse_digits max 0 s
unfolding parse parse_nonempty
parse-parse_digits max [] h n = absurd (n refl)
parse-parse_digits max (c ∷ s) (p, h) n = ground arith

display-ne-nil : (digits n : ℕ) → display (suc digits) n ≢ []
unfolding display
display-ne-nil digits n e = ground (arith, append_nonempty (display digits (n / 10)))
  where
    append_nonempty : (s : Str) → s ++ (b'0' + n % 10) ∷ [] ≢ []
    append_nonempty [] e = cc
    append_nonempty (c ∷ s) e = cc

-- A number in decimal is read back.
parse-shown :
    (max digits n : ℕ)
    → n < limit (suc digits)
    → n ≤ max
    → parse max (display (suc digits) n) ≡ some n
parse-shown max digits n h p =
    parse-parse_digits max (display (suc digits) n) (display-All (suc digits) n)
      (display-ne-nil digits n)
    ∙ parse_digits-display max (suc digits) n h p

pub parse-display_u32 : (n : ℕ) → n < 4294967296 → parse 4294967295 (display 10 n) ≡ some n
parse-display_u32 n h = parse-shown 4294967295 9 n (omega arith) (omega arith)

-- A `u16` in decimal is read back, trimmed or not.
pub parse-display : (n : ℕ) → n < 65536 → parse 65535 (trim (display 5 n)) ≡ some n
parse-display n h =
    rw
      (trim_dark (display 5 n)
        (All-weaken _ _ (display 5 n) (λ c d. (omega arith, omega arith)) (display-All 5 n)))
      (parse-shown 65535 4 n (omega arith) (omega arith))

pub length-display : (digits n : ℕ) → length (display digits n) ≤ digits
unfolding display
length-display zero n = omega arith
length-display (suc digits) n = elim (Bool-cases (ltb n 10)) [
  | inl e ↦ rw e (omega arith)
  | inr e ↦
      rw (e, length-append (display digits (n / 10)) ((b'0' + n % 10) ∷ []))
        (omega (arith, length-display digits (n / 10)))
]
