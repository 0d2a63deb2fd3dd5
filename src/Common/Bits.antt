-- ===== src/Common/Bits.antt =====
-- Masks, shifts and joins of fields as arithmetic, for the widths that the wire format uses.
-- Each law is a table of at most 65536 entries, checked by evaluation.
use Prim.Native.Nat.{ℕ, ◌+◌, ◌*◌, ◌/◌, ◌%◌, ◌^◌, ◌<◌, bit_and, bit_or}
use mathlib.Core.Path.{◌≡◌, refl}
use mathlib.Core.Bool.{true}
use native.Mathlib.Omega.{arith}
use marlin_binary_transfer.Common.Tests.{◌==◌, ==→eq, every_below, every_below_lem}

-- `x as u8` and `x as u16`.
abbrev pub u8 : ℕ → ℕ
u8 x = x % 256

abbrev pub u16 : ℕ → ℕ
u16 x = x % 65536

-- `x >> k`, and `x << k` on a `w`-bit integer.
abbrev pub shr : ℕ → ℕ → ℕ
shr x k = x / 2 ^ k

abbrev pub shl : ℕ → ℕ → ℕ → ℕ
shl w x k = x * 2 ^ k % 2 ^ w

low_byte_table : every_below (λ x. bit_and x 0xff == x % 256) 65536 ≡ true
unfolding every_below
low_byte_table = refl

pub low_byte : (x : ℕ) → x < 65536 → bit_and x 0xff ≡ x % 256
low_byte x h = ==→eq _ _ (every_below_lem _ 65536 x h low_byte_table)

low_nibble_table : every_below (λ x. bit_and x 0xf == x % 16) 256 ≡ true
unfolding every_below
low_nibble_table = refl

pub low_nibble : (x : ℕ) → x < 256 → bit_and x 0xf ≡ x % 16
low_nibble x h = ==→eq _ _ (every_below_lem _ 256 x h low_nibble_table)

join_bytes_table : every_below (λ x. bit_or (x / 256 * 256) (x % 256) == x) 65536 ≡ true
unfolding every_below
join_bytes_table = refl

pub join_bytes : (h l : ℕ) → h < 256 → l < 256 → bit_or (h * 256) l ≡ h * 256 + l
join_bytes h l p q =
    rw (high, low) at
      (==→eq _ _ (every_below_lem _ 65536 (h * 256 + l) (omega arith) join_bytes_table))
  where
    high : (h * 256 + l) / 256 ≡ h
    high = omega arith

    low : (h * 256 + l) % 256 ≡ l
    low = omega arith

join_nibbles_table : every_below (λ x. bit_or (x / 16 * 16) (x % 16) == x) 256 ≡ true
unfolding every_below
join_nibbles_table = refl

pub join_nibbles : (h l : ℕ) → h < 16 → l < 16 → bit_or (h * 16) l ≡ h * 16 + l
join_nibbles h l p q =
    rw (high, low) at
      (==→eq _ _ (every_below_lem _ 256 (h * 16 + l) (omega arith) join_nibbles_table))
  where
    high : (h * 16 + l) / 16 ≡ h
    high = omega arith

    low : (h * 16 + l) % 16 ≡ l
    low = omega arith
