-- ===== src/Examples/Arguments.antt =====
-- examples/upload.rs: its command line.
use marlin_binary_transfer.Common.{
  ℕ, Option, none, some, List, [], ◌∷◌, if◌then◌else◌, Result, ok, err, equal,
}
use marlin_binary_transfer.Text.{Str, codes, parse}
use marlin_binary_transfer.Transfer.State.{Compression, uncompressed, auto}

-- The local variables of `main`. `compression` is the text of the argument.
pub record Settings : Type 0 where
  pub port : Str
  pub baud : ℕ  -- u32
  pub src : Str
  pub dest : Str
  pub compression : Str

abbrev pub initial_settings : Settings
initial_settings = record {
  port = codes "/dev/ttyUSB0";
  baud = 250_000;
  src = codes "./test_file";
  dest = codes "test_file.gco";
  compression = codes "none";
}

-- What ends `main` before it opens a port: the help, `exit(2)` with its message, and a baud rate that
-- is no number.
pub data Refusal : Type 0 where
  help : Refusal
  unknown_argument unsupported_compression : Str → Refusal
  invalid_baud : Str → Refusal

pub data Flag : Type 0 where
  port_flag baud_flag src_flag dest_flag compression_flag help_flag : Flag
  other : Str → Flag

-- The patterns of the `match`.
unfoldable pub flag_of : Str → Flag
unfolding equal
flag_of arg =
    if equal arg (codes "--port")
    then port_flag
    else if equal arg (codes "--baud")
    then baud_flag
    else if equal arg (codes "--src")
    then src_flag
    else if equal arg (codes "--dest")
    then dest_flag
    else if equal arg (codes "--compression")
    then compression_flag
    else if equal arg (codes "-h")
    then help_flag
    else if equal arg (codes "--help")
    then help_flag
    else other arg

abbrev pub with_baud : Settings → Str → Option ℕ → Result Settings Refusal
with_baud settings value none = err (invalid_baud value)
with_baud settings value (some baud) = ok (record settings { baud = baud })

-- The arms of the `match`; `value` is what `val()` gives.
unfoldable pub set : Settings → Flag → (value : Str) → Result Settings Refusal
set settings port_flag value = ok (record settings { port = value })
set settings baud_flag value = with_baud settings value (parse 4294967295 value)
set settings src_flag value = ok (record settings { src = value })
set settings dest_flag value = ok (record settings { dest = value })
set settings compression_flag value = ok (record settings { compression = value })
set settings help_flag value = err help
set settings (other arg) value = err (unknown_argument arg)

abbrev pub then_parse :
    Result Settings Refusal → (Settings → Result Settings Refusal) → Result Settings Refusal
then_parse (ok settings) rest = rest settings
then_parse (err refusal) rest = err refusal

-- The loop over the arguments. A missing value is the empty string.
unfoldable pub parse_args : Settings → List Str → Result Settings Refusal
parse_args settings [] = ok settings
parse_args settings (arg ∷ []) = set settings (flag_of arg) []
parse_args settings (arg ∷ (value ∷ args)) =
    then_parse (set settings (flag_of arg) value) (λ next. parse_args next args)

-- `match compression.as_str()`.
unfoldable pub compression_of : Str → Result Compression Refusal
unfolding equal
compression_of text =
    if equal text (codes "none")
    then ok uncompressed
    else if equal text (codes "auto")
    then ok auto
    else err (unsupported_compression text)
