-- ===== src/Heatshrink.antt =====
-- The heatshrink wrappers, src/compression.rs, over the crate `embedded_heatshrink`, which is a
-- parameter.
pub mod RoundTrip
mod Runs
use marlin_binary_transfer.Common.{
  ℕ, Bool, true, false, not, ◌&&◌, ◌||◌, Bytes, ltb, leb, if◌then◌else◌, Result, ok, err,
}

pub data HeatshrinkError : Type 0 where
  invalid_parameters : (window lookahead : ℕ) → HeatshrinkError

-- The names that the source takes from the crate. `encode` and `decode` write all of their output.
pub record Heatshrink : Type 0 where
  pub min_window_bits : ℕ
  pub max_window_bits : ℕ
  pub min_lookahead_bits : ℕ
  pub encode : (window lookahead : ℕ) → Bytes → Bytes
  pub decode : (window lookahead : ℕ) → Bytes → Bytes

module _ (crate : Heatshrink) where
  -- `validate`; `true` is `Ok(())`.
  unfoldable pub validate : (window lookahead : ℕ) → Result (Unit {0}) HeatshrinkError
  validate window lookahead =
      if not (leb crate.min_window_bits window && leb window crate.max_window_bits)
        || (ltb lookahead crate.min_lookahead_bits || leb window lookahead)
      then err (invalid_parameters window lookahead)
      else ok tt

  abbrev pub validated : Result (Unit {0}) HeatshrinkError → Bytes → Result Bytes HeatshrinkError
  validated (ok checked) output = ok output
  validated (err e) output = err e

  unfoldable pub compress : Bytes → (window lookahead : ℕ) → Result Bytes HeatshrinkError
  unfolding validate
  compress input window lookahead =
      validated (validate window lookahead) (crate.encode window lookahead input)

  unfoldable pub decompress : Bytes → (window lookahead : ℕ) → Result Bytes HeatshrinkError
  unfolding validate
  decompress input window lookahead =
      validated (validate window lookahead) (crate.decode window lookahead input)
