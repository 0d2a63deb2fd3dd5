-- ===== src/Adapters/Cuts.antt =====
-- The cut of a payload into chunks, as the loop of `upload` in src/adapters sends them.
use marlin_binary_transfer.Common.{
  ℕ, zero, suc, ◌≤◌, ◌<◌, ◌≡◌, refl, ap, ◌∙◌, arith, List, [], ◌∷◌, ◌++◌, Bytes, length,
  length-drop, take, drop, take-append-drop, All,
}
use marlin_binary_transfer.Adapters.Upload.{chunks_of, chunks}

unfoldable pub concat : List Bytes → Bytes
concat [] = []
concat (c ∷ cs) = c ++ concat cs

pub length-take-le : (n : ℕ) (xs : Bytes) → length (take n xs) ≤ n
length-take-le zero xs = omega arith
length-take-le (suc n) [] = omega arith
length-take-le (suc n) (x ∷ xs) = omega (arith, length-take-le n xs)

chunks_of-concat :
    (fuel size : ℕ) (bytes : Bytes)
    → 0 < size
    → length bytes ≤ fuel
    → concat (chunks_of fuel size bytes) ≡ bytes
unfolding chunks_of concat
chunks_of-concat fuel size [] p h = refl
chunks_of-concat zero size (b ∷ bytes) p h = absurd (omega arith)
chunks_of-concat (suc fuel) size (b ∷ bytes) p h =
    ap (λ (rest : Bytes). take size (b ∷ bytes) ++ rest)
      (chunks_of-concat fuel size (drop size (b ∷ bytes)) p
        (omega (arith, length-drop size (b ∷ bytes))))
    ∙ take-append-drop size (b ∷ bytes)

-- Every chunk has a byte, and at most `size` of them.
abbrev pub IsChunk : ℕ → Bytes → Type 0
IsChunk size chunk = (0 < length chunk) × (length chunk ≤ size)

take-nonempty : (size b : ℕ) (bytes : Bytes) → 0 < size → 0 < length (take size (b ∷ bytes))
take-nonempty zero b bytes p = absurd (omega arith)
take-nonempty (suc size) b bytes p = omega arith

chunks_of-IsChunk :
    (fuel size : ℕ) (bytes : Bytes) → 0 < size → All (IsChunk size) (chunks_of fuel size bytes)
unfolding chunks_of
chunks_of-IsChunk fuel size [] p = tt
chunks_of-IsChunk zero size (b ∷ bytes) p = tt
chunks_of-IsChunk (suc fuel) size (b ∷ bytes) p = (
  (take-nonempty size b bytes p, length-take-le size (b ∷ bytes)),
  chunks_of-IsChunk fuel size (drop size (b ∷ bytes)) p,
)

-- The chunks of a payload for a size that is not 0: put together they are the payload, and each has
-- between 1 and `size` bytes.
pub chunks_lem :
    (size : ℕ) (payload : Bytes)
    → 0 < size
    → (concat (chunks size payload) ≡ payload) × All (IsChunk size) (chunks size payload)
unfolding chunks
chunks_lem size payload p = (
  chunks_of-concat (length payload) size payload p (omega arith),
  chunks_of-IsChunk (length payload) size payload p,
)
