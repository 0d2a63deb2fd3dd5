-- ===== src/Examples/Settings.antt =====
-- The command line of examples/upload.rs, written and read back.
use marlin_binary_transfer.Common.{ℕ, ◌<◌, ◌≡◌, refl, List, [], ◌∷◌, All, ok, equal}
use marlin_binary_transfer.Text.{Str, codes, display}
use marlin_binary_transfer.Text.Plain.{parse-display_u32}
use marlin_binary_transfer.Examples.Arguments.{Settings, flag_of, set, parse_args}

-- One flag with its value.
pub data Setting : Type 0 where
  port_is src_is dest_is compression_is : Str → Setting
  baud_is : ℕ → Setting

abbrev pub Fits : Setting → Type 0
Fits (baud_is n) = n < 4294967296
Fits _ = Unit {0}

unfoldable pub args_of : List Setting → List Str
args_of [] = []
args_of (port_is value ∷ settings) = codes "--port" ∷ (value ∷ args_of settings)
args_of (src_is value ∷ settings) = codes "--src" ∷ (value ∷ args_of settings)
args_of (dest_is value ∷ settings) = codes "--dest" ∷ (value ∷ args_of settings)
args_of (compression_is value ∷ settings) = codes "--compression" ∷ (value ∷ args_of settings)
args_of (baud_is n ∷ settings) = codes "--baud" ∷ (display 10 n ∷ args_of settings)

-- Later settings take the place of earlier ones.
unfoldable pub settled : Settings → List Setting → Settings
settled s [] = s
settled s (port_is value ∷ settings) = settled (record s { port = value }) settings
settled s (src_is value ∷ settings) = settled (record s { src = value }) settings
settled s (dest_is value ∷ settings) = settled (record s { dest = value }) settings
settled s (compression_is value ∷ settings) = settled (record s { compression = value }) settings
settled s (baud_is n ∷ settings) = settled (record s { baud = n }) settings

-- A command line of settings, in any order and with any texts for values, even with ones that look
-- like a flag, is read back: the last setting of a kind counts, and the others are as they were.
pub parse_args-args_of :
    (s : Settings) (settings : List Setting)
    → All Fits settings
    → parse_args s (args_of settings) ≡ ok (settled s settings)
unfolding parse_args args_of settled set flag_of equal
parse_args-args_of s [] h = refl
parse_args-args_of s (port_is value ∷ settings) h =
    parse_args-args_of (record s { port = value }) settings h.1
parse_args-args_of s (src_is value ∷ settings) h =
    parse_args-args_of (record s { src = value }) settings h.1
parse_args-args_of s (dest_is value ∷ settings) h =
    parse_args-args_of (record s { dest = value }) settings h.1
parse_args-args_of s (compression_is value ∷ settings) h =
    parse_args-args_of (record s { compression = value }) settings h.1
parse_args-args_of s (baud_is n ∷ settings) h =
    rw (parse-display_u32 n h.0) (parse_args-args_of (record s { baud = n }) settings h.1)
