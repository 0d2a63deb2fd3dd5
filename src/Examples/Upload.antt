-- ===== src/Examples/Upload.antt =====
-- examples/upload.rs: the command line tool for an upload over a serial port, in a build with the
-- features `blocking` and `serial`.
use marlin_binary_transfer.Common.{
  false, Option, some, List, Bytes, Result, ok, err, Checked, done, panic, stuck,
}
use marlin_binary_transfer.Text.{Str}
use marlin_binary_transfer.Heatshrink.{Heatshrink}
use marlin_binary_transfer.Transfer.State.{Compression}
use marlin_binary_transfer.Adapters.Types.{Progress, UploadOptions, UploadStats, UploadError}
use marlin_binary_transfer.Adapters.Serial.{SerialCrate, open_port}
use marlin_binary_transfer.Adapters.Blocking as Blocking
use marlin_binary_transfer.Examples.Arguments.{
  Settings, initial_settings, Refusal, parse_args, compression_of,
}

-- How `main` ends: before it opens anything, with an error of the port or of the file, with one of
-- `upload`, or with the statistics that it prints.
pub data Ending (E : Type 0) : Type 0 where
  refused : Refusal → Ending E
  io : E → Ending E
  upload_failed : UploadError E → Ending E
  uploaded : UploadStats → Ending E

-- The surroundings: the serial ports, `File::open` with what `read_to_end` gives of the file, and
-- the line that `eprintln!` prints for the progress.
pub record World (T E Builder Handle SerialError : Type 0) : Type 0 where
  pub serial : SerialCrate T E Builder Handle SerialError
  pub open_file : Str → T → T × Result (Result Bytes E) E
  pub print_progress : T → Progress → T
  pub feature : Option Heatshrink

module _ {T E Builder Handle SerialError : Type 0}
    (world : World T E Builder Handle SerialError) where
  abbrev pub options_of : Settings → Compression → UploadOptions T
  options_of settings compression = record {
    dest_filename = settings.dest;
    compression = compression;
    dummy = false;
    chunk_size = 0;
    progress = some world.print_progress;
  }

  abbrev pub ending : Checked (T × Result UploadStats (UploadError E)) → Checked (T × Ending E)
  ending (done (t, ok stats)) = done (t, uploaded stats)
  ending (done (t, err e)) = done (t, upload_failed e)
  ending panic = panic
  ending stuck = stuck

  -- From the opened port and file on.
  abbrev pub with_file :
      Handle → UploadOptions T → T × Result (Result Bytes E) E → Checked (T × Ending E)
  with_file handle options (t, err e) = done (t, io e)
  with_file handle options (t, ok source) =
      ending (Blocking.upload (world.serial.port handle) world.feature source options t)

  abbrev pub with_port : Settings → Compression → T × Result Handle E → Checked (T × Ending E)
  with_port settings compression (t, err e) = done (t, io e)
  with_port settings compression (t, ok handle) =
      with_file handle (options_of settings compression) (world.open_file settings.src t)

  -- `main` from the loop over the arguments on.
  abbrev pub with_compression : Settings → Result Compression Refusal → T → Checked (T × Ending E)
  with_compression settings (err refusal) t = done (t, refused refusal)
  with_compression settings (ok compression) t =
      with_port settings compression (open_port world.serial settings.port settings.baud t)

  abbrev pub with_settings : Result Settings Refusal → T → Checked (T × Ending E)
  with_settings (err refusal) t = done (t, refused refusal)
  with_settings (ok settings) t = with_compression settings (compression_of settings.compression) t

  unfoldable pub main : List Str → T → Checked (T × Ending E)
  main args t = with_settings (parse_args initial_settings args) t
