-- ===== src/Adapters/Blocking.antt =====
-- src/adapters/blocking.rs over a port that implements `Read` and `Write`, which is a parameter.
use marlin_binary_transfer.Common.{
  ℕ, Bool, Option, [], Bytes, if◌then◌else◌, Result, ok, err, Checked,
}
use marlin_binary_transfer.Heatshrink.{Heatshrink}
use marlin_binary_transfer.Adapters.Types.{UploadOptions, UploadStats, UploadError}
use marlin_binary_transfer.Adapters.Driver.{Transport}
use marlin_binary_transfer.Adapters.Upload

-- `read` fills a buffer of 1024 bytes and gives what it read; `now` is `Instant::now()`.
pub record Port (T E : Type 0) : Type 0 where
  pub write_all : T → Bytes → T × Result (Unit {0}) E
  pub read : T → T × Result Bytes E
  pub is_timed_out : E → Bool  -- `e.kind() == std::io::ErrorKind::TimedOut`
  pub now : T → T × ℕ

module _ {T E : Type 0} (port : Port T E) where
  -- `match transport.read(&mut buf)`: a timeout counts as nothing read.
  abbrev pub no_timeout : T × Result Bytes E → T × Result Bytes E
  no_timeout (t, ok bytes) = (t, ok bytes)
  no_timeout (t, err e) = (t, if port.is_timed_out e then ok [] else err e)

  abbrev pub transport : Transport T E
  transport = record {
    write_all = port.write_all;
    receive = λ t wait. no_timeout (port.read t);
    now = port.now;
  }

  unfoldable pub upload :
      Option Heatshrink
      → (source : Result Bytes E) → UploadOptions T
      → T
      → Checked (T × Result UploadStats (UploadError E))
  upload feature source options t = Upload.upload transport feature source options t
