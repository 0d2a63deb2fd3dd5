-- ===== src/Transfer/Spec.antt =====
-- The compression spec of a device, as src/file_transfer.rs reads it and then chooses from it.
use marlin_binary_transfer.Common.{
  ℕ, ◌≡◌, ◌<◌, refl, ap, arith, Bool, true, false, ◌&&◌, ◌∷◌, ◌++◌, ◌==◌, ==→eq, equal, every_below,
  every_below_lem, ok, err,
}
use marlin_binary_transfer.Text.{Str, codes, display, parse}
use marlin_binary_transfer.Transfer.State.{
  Compression, uncompressed, heatshrink, auto, compression_unsupported,
}
use marlin_binary_transfer.Transfer.Compression.{choose_compression, parse_compression_spec}

-- The specs of the protocol, as a device writes them.
abbrev pub spec_text : Compression → Str
spec_text uncompressed = codes "none"
spec_text (heatshrink window lookahead) =
    codes "heatshrink," ++ (display 3 window ++ (b',' ∷ display 3 lookahead))
spec_text auto = codes "none"

is_heatshrink : ℕ → ℕ → Compression → Bool
is_heatshrink window lookahead (heatshrink w l) = w == window && l == lookahead
is_heatshrink window lookahead _ = false

spec_table :
    every_below
      (λ window.
        every_below
          (λ lookahead.
            is_heatshrink window lookahead
              (parse_compression_spec (spec_text (heatshrink window lookahead))))
          256)
      256
    ≡ true
unfolding every_below is_heatshrink parse_compression_spec display equal parse
spec_table = refl

is_heatshrink-eq :
    (window lookahead : ℕ) (c : Compression)
    → is_heatshrink window lookahead c ≡ true
    → c ≡ heatshrink window lookahead
unfolding is_heatshrink
is_heatshrink-eq window lookahead (heatshrink w l) e =
    both (==→eq w window (ground arith)) (==→eq l lookahead (ground arith))
  where
    both : w ≡ window → l ≡ lookahead → heatshrink w l ≡ heatshrink window lookahead
    both a b = rw (a, b)
is_heatshrink-eq window lookahead uncompressed e = cc
is_heatshrink-eq window lookahead auto e = cc

-- The spec of a device with heatshrink is read with its two parameters, for all bytes. On a device
-- with heatshrink `Auto` then takes the device's parameters, a request for heatshrink keeps its own,
-- and `None` stays uncompressed; on a device without it `Auto` is uncompressed, and a request for
-- heatshrink is refused.
pub parse_compression_spec-spec_text :
    (window lookahead w l : ℕ)
    → window < 256
    → lookahead < 256
    → (parse_compression_spec (spec_text (heatshrink window lookahead))
        ≡ heatshrink window lookahead)
      × (choose_compression auto (parse_compression_spec (spec_text (heatshrink window lookahead)))
          ≡ ok (heatshrink window lookahead))
      × (choose_compression
            (heatshrink w l)
            (parse_compression_spec (spec_text (heatshrink window lookahead)))
          ≡ ok (heatshrink w l))
      × (choose_compression uncompressed
            (parse_compression_spec (spec_text (heatshrink window lookahead)))
          ≡ ok uncompressed)
      × (choose_compression auto (parse_compression_spec (spec_text uncompressed))
          ≡ ok uncompressed)
      × (choose_compression (heatshrink w l) (parse_compression_spec (spec_text uncompressed))
          ≡ err compression_unsupported)
unfolding choose_compression parse_compression_spec equal
parse_compression_spec-spec_text window lookahead w l p q =
    let e : parse_compression_spec (spec_text (heatshrink window lookahead))
        ≡ heatshrink window lookahead =
      is_heatshrink-eq window lookahead _
        (every_below_lem _ 256 lookahead q (every_below_lem _ 256 window p spec_table)) in
    (
      e,
      ap (choose_compression auto) e,
      ap (choose_compression (heatshrink w l)) e,
      ap (choose_compression uncompressed) e,
      refl,
      refl,
    )
