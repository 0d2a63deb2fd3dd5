-- ===== src/Heatshrink/RoundTrip.antt =====
-- `compress` and `decompress` of src/compression.rs, one after the other.
use marlin_binary_transfer.Common.{
  ℕ, ◌≤◌, ◌<◌, ◌≡◌, refl, ap, arith, false, Bytes, ok, err, if◌then◌else◌, ltb, leb, Bool, true,
  ◌&&◌, Bool-cases, inl, inr,
}
use marlin_binary_transfer.Heatshrink.{
  Heatshrink, invalid_parameters, validate, compress, decompress,
}

contrary : (b : Bool) → b ≡ true → b ≡ false → ⊥
contrary true e f = cc
contrary false e f = cc

module _ (crate : Heatshrink) where
  -- The parameters that the limits of the crate allow, as a test and as bounds.
  abbrev pub supports : (window lookahead : ℕ) → Bool
  supports window lookahead =
      leb crate.min_window_bits window
      && (leb window crate.max_window_bits
          && (leb crate.min_lookahead_bits lookahead && ltb lookahead window))

  abbrev pub IsSupported : (window lookahead : ℕ) → Type 0
  IsSupported window lookahead =
      (crate.min_window_bits ≤ window)
      × (window ≤ crate.max_window_bits)
      × (crate.min_lookahead_bits ≤ lookahead)
      × (lookahead < window)

  pub validate_lem :
      (window lookahead : ℕ)
      → validate crate window lookahead
        ≡ (if supports window lookahead then ok tt else err (invalid_parameters window lookahead))
  unfolding validate
  validate_lem window lookahead = ground arith

  supports→IsSupported :
      (window lookahead : ℕ) → supports window lookahead ≡ true → IsSupported window lookahead
  supports→IsSupported window lookahead e = (ground arith, ground arith, ground arith, ground arith)

  IsSupported→supports :
      (window lookahead : ℕ) → IsSupported window lookahead → supports window lookahead ≡ true
  IsSupported→supports window lookahead (a, b, c, d) = ground arith

  -- `compress` and `decompress` on parameters that are allowed, and on others.
  pub data Outcome (input : Bytes) (window lookahead : ℕ) : Type 0 where
    packs :
        IsSupported window lookahead
        → (packed : Bytes) → compress crate input window lookahead ≡ ok packed
        → decompress crate packed window lookahead ≡ ok input
        → Outcome input window lookahead
    refuses :
        ¬ IsSupported window lookahead
        → compress crate input window lookahead ≡ err (invalid_parameters window lookahead)
        → ((packed : Bytes)
            → decompress crate packed window lookahead ≡ err (invalid_parameters window lookahead))
        → Outcome input window lookahead

  -- If the crate's decoder undoes its encoder on the parameters within its limits, then on these
  -- `compress` packs the input and `decompress` gives it back; on all others each of the two refuses
  -- its input, with the values of the parameters.
  pub decompress-compress :
      (input : Bytes) (window lookahead : ℕ)
      → ((bytes : Bytes)
          → IsSupported window lookahead
          → crate.decode window lookahead (crate.encode window lookahead bytes) ≡ bytes)
      → Outcome input window lookahead
  unfolding compress decompress
  decompress-compress input window lookahead h = elim (Bool-cases (supports window lookahead)) [
    | inl e ↦
        packs (supports→IsSupported window lookahead e) (crate.encode window lookahead input)
          (rw (validate_lem window lookahead, e) refl)
          (rw (validate_lem window lookahead, e)
            (ap ok (h input (supports→IsSupported window lookahead e))))
    | inr e ↦
        refuses (λ s. contrary _ (IsSupported→supports window lookahead s) e)
          (rw (validate_lem window lookahead, e) refl)
          (λ packed. rw (validate_lem window lookahead, e) refl)
  ]
