-- ===== src/Heatshrink/Runs.antt =====
-- `compress` and `decompress` of src/compression.rs with a crate that stores the bytes.
use marlin_binary_transfer.Common.{◌≡◌, refl, err}
use marlin_binary_transfer.Text.{codes}
use marlin_binary_transfer.Heatshrink.{Heatshrink, invalid_parameters, validate, compress}
use marlin_binary_transfer.Heatshrink.RoundTrip.{Outcome, decompress-compress}

abbrev stored : Heatshrink
stored = record {
  min_window_bits = 4;
  max_window_bits = 15;
  min_lookahead_bits = 3;
  encode = λ window lookahead bytes. bytes;
  decode = λ window lookahead bytes. bytes;
}

decompress-compress_example : Outcome stored (codes "G28") 8 4
decompress-compress_example = decompress-compress stored (codes "G28") 8 4 (λ bytes e. refl)

-- The last of the tests of src/compression.rs.
lookahead_of_window : compress stored (codes "G28") 8 8 ≡ err (invalid_parameters 8 8)
unfolding compress validate
lookahead_of_window = refl
