-- ===== src/Adapters/Types.antt =====
-- The types of src/adapters/common.rs. Counts are numbers: none exceeds the length of a vector.
use Prim.Native.String.{String}
use marlin_binary_transfer.Common.{ℕ, Bool, false, Option, none, []}
use marlin_binary_transfer.Text.{Str}
use marlin_binary_transfer.Heatshrink.{HeatshrinkError}
use marlin_binary_transfer.Transfer.State.{Compression, uncompressed, FileError}

pub record Progress : Type 0 where
  pub bytes_sent : ℕ
  pub chunks_sent : ℕ
  pub source_bytes : ℕ

-- A progress callback acts on the state `T` of what surrounds the program.
pub record UploadOptions (T : Type 0) : Type 0 where
  pub dest_filename : Str
  pub compression : Compression
  pub dummy : Bool
  pub chunk_size : ℕ
  pub progress : Option (T → Progress → T)

-- `UploadOptions::default`.
abbrev pub default_options : {T : Type 0} → UploadOptions T
default_options = record {
  dest_filename = [];
  compression = uncompressed;
  dummy = false;
  chunk_size = 0;
  progress = none;
}

pub record UploadStats : Type 0 where
  pub source_bytes : ℕ
  pub bytes_sent : ℕ
  pub chunks_sent : ℕ
  pub compression : Compression

-- The last two stand for builds with and without the feature `heatshrink`.
pub data UploadError (E : Type 0) : Type 0 where
  io : E → UploadError E
  transfer : FileError → UploadError E
  stalled : String → UploadError E
  handshake_failed : UploadError E
  heatshrink_error : HeatshrinkError → UploadError E
  compression_feature_disabled : UploadError E
