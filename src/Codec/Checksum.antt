-- ===== src/Codec/Checksum.antt =====
-- The Fletcher-16 loop of src/codec.rs in plain arithmetic: its closed form, its range, and which
-- changes of a byte it sees.
use native.Mathlib.Nat.{div-add-mod}
use marlin_binary_transfer.Common.{
  ℕ, suc, ◌+◌, ◌*◌, ◌/◌, ◌%◌, ◌<◌, bit_or, ◌≡◌, ◌↔◌, ap, ◌∙◌, arith, [], ◌∷◌, ◌++◌, Bytes, length,
  length-append, low_byte, join_bytes,
}
use marlin_binary_transfer.Codec.{fletcher_step, fletcher_from, fletcher16}

-- The sum of the bytes, and the sum of the running sums: a byte counts once for itself and once
-- for each byte behind it.
pub sum : Bytes → ℕ
sum [] = 0
sum (b ∷ bs) = b + sum bs

pub weighted_sum : Bytes → ℕ
weighted_sum [] = 0
weighted_sum (b ∷ bs) = (length bs + 1) * b + weighted_sum bs

fletcher_step_parts :
    (hi lo b : ℕ)
    → hi < 255
    → lo < 255
    → fletcher_step (hi * 256 + lo) b ≡ (hi + (lo + b) % 255) % 255 * 256 + (lo + b) % 255
unfolding fletcher_step
fletcher_step_parts hi lo b p q =
    rw (low_byte (hi * 256 + lo) (omega arith), low, high, small, joined)
  where
    low : (hi * 256 + lo) % 256 ≡ lo
    low = omega arith

    high : (hi * 256 + lo) / 256 ≡ hi
    high = omega arith

    small : (hi + (lo + b) % 255) % 255 * 256 % 65536 ≡ (hi + (lo + b) % 255) % 255 * 256
    small = omega arith

    joined :
        bit_or ((hi + (lo + b) % 255) % 255 * 256) ((lo + b) % 255)
        ≡ (hi + (lo + b) % 255) % 255 * 256 + (lo + b) % 255
    joined = join_bytes _ _ (omega arith) (omega arith)

-- One more byte in front of `n` others, whose weighted sum is `w`.
regroup :
    (hi lo b n w : ℕ)
    → ((hi + (lo + b) % 255) % 255 + n * ((lo + b) % 255) + w) % 255
      ≡ (hi + suc n * lo + ((n + 1) * b + w)) % 255
regroup hi lo b n w = omega (arith, ap (λ (t : ℕ). n * t) (div-add-mod (lo + b) 255))

fletcher_from-parts :
    (hi lo : ℕ) (bs : Bytes)
    → hi < 255
    → lo < 255
    → fletcher_from (hi * 256 + lo) bs
      ≡ (hi + length bs * lo + weighted_sum bs) % 255 * 256 + (lo + sum bs) % 255
unfolding fletcher_from sum weighted_sum
fletcher_from-parts hi lo [] p q = omega arith
fletcher_from-parts hi lo (b ∷ bs) p q = rw (fletcher_step_parts hi lo b p q) (
    rw
      (fletcher_from-parts ((hi + (lo + b) % 255) % 255) ((lo + b) % 255) bs (omega arith)
        (omega arith))
      (omega (arith, regroup hi lo b (length bs) (weighted_sum bs))))

-- The checksum holds the byte sum mod 255 in its low byte and the sum of the running sums mod 255
-- in its high byte.
pub fletcher16-sums : (bs : Bytes) → fletcher16 bs ≡ weighted_sum bs % 255 * 256 + sum bs % 255
unfolding fletcher16
fletcher16-sums bs = fletcher_from-parts 0 0 bs (omega arith) (omega arith) ∙ omega arith

pub fletcher16-lt : (bs : Bytes) → fletcher16 bs < 65536
fletcher16-lt bs = omega (arith, fletcher16-sums bs)

pub sum-append : (xs ys : Bytes) → sum (xs ++ ys) ≡ sum xs + sum ys
unfolding sum
sum-append [] ys = omega arith
sum-append (x ∷ xs) ys = omega (arith, sum-append xs ys)

pub weighted_sum-append :
    (xs ys : Bytes)
    → weighted_sum (xs ++ ys) ≡ weighted_sum xs + length ys * sum xs + weighted_sum ys
unfolding weighted_sum sum
weighted_sum-append [] ys = omega arith
weighted_sum-append (x ∷ xs) ys =
    omega (arith, weighted_sum-append xs ys, ap (λ (t : ℕ). t * x) (length-append xs ys))

weighted_mod : (k a b : ℕ) → a % 255 ≡ b % 255 → k * a % 255 ≡ k * b % 255
weighted_mod k a b h = omega (
  arith,
  ap (λ (t : ℕ). k * t) (div-add-mod a 255),
  ap (λ (t : ℕ). k * t) (div-add-mod b 255),
  ap (λ (t : ℕ). k * t) h,
)

-- Two inputs that differ in one byte have the same checksum exactly when the two bytes are equal
-- mod 255.
pub fletcher16_one_byte :
    (xs ys : Bytes) (a b : ℕ)
    → (fletcher16 (xs ++ (a ∷ ys)) ≡ fletcher16 (xs ++ (b ∷ ys))) ↔ (a % 255 ≡ b % 255)
unfolding sum weighted_sum
fletcher16_one_byte xs ys a b = (
  λ e. omega (
    arith,
    fletcher16-sums (xs ++ (a ∷ ys)),
    fletcher16-sums (xs ++ (b ∷ ys)),
    sum-append xs (a ∷ ys),
    sum-append xs (b ∷ ys),
  ),
  λ e. omega (
    arith,
    fletcher16-sums (xs ++ (a ∷ ys)),
    fletcher16-sums (xs ++ (b ∷ ys)),
    sum-append xs (a ∷ ys),
    sum-append xs (b ∷ ys),
    weighted_sum-append xs (a ∷ ys),
    weighted_sum-append xs (b ∷ ys),
    weighted_mod (length ys + 1) a b e,
  ),
)
