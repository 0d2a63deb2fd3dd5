-- ===== src/Transfer/Compression.antt =====
-- The negotiation of compression in src/file_transfer.rs.
use marlin_binary_transfer.Common.{
  ℕ, Option, none, some, List, [], ◌∷◌, equal, if◌then◌else◌, Result, ok, err,
}
use marlin_binary_transfer.Text.{Str, codes, trim, parse, split, strip_prefix}
use marlin_binary_transfer.Transfer.State.{
  Compression, uncompressed, heatshrink, auto, FileError, compression_unsupported,
}

-- `choose_compression`: what the caller requested against what the device advertises.
unfoldable pub choose_compression : Compression → Compression → Result Compression FileError
choose_compression uncompressed device = ok uncompressed
choose_compression (heatshrink window lookahead) (heatshrink w l) = ok (heatshrink window lookahead)
choose_compression (heatshrink window lookahead) uncompressed = err compression_unsupported
choose_compression (heatshrink window lookahead) auto = err compression_unsupported
choose_compression auto (heatshrink window lookahead) = ok (heatshrink window lookahead)
choose_compression auto uncompressed = ok uncompressed
choose_compression auto auto = ok uncompressed

-- Both parameters, or the fallback.
abbrev both_parameters : Option ℕ → Option ℕ → Compression
both_parameters (some window) (some lookahead) = heatshrink window lookahead
both_parameters (some window) none = uncompressed
both_parameters none lookahead = uncompressed

-- `parts.next().and_then(|s| s.trim().parse().ok())`, twice.
parameters : List Str → Compression
parameters [] = uncompressed
parameters (window ∷ []) = both_parameters (parse 255 (trim window)) none
parameters (window ∷ (lookahead ∷ more)) =
    both_parameters (parse 255 (trim window)) (parse 255 (trim lookahead))

heatshrink_spec : Option Str → Compression
heatshrink_spec none = uncompressed
heatshrink_spec (some rest) = parameters (split b',' rest)

unfoldable pub parse_compression_spec : Str → Compression
unfolding heatshrink_spec parameters trim split strip_prefix
parse_compression_spec spec =
    let spec' = trim spec in
    if equal spec' (codes "none")
    then uncompressed
    else heatshrink_spec (strip_prefix spec' (codes "heatshrink,"))
