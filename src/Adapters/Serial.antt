-- ===== src/Adapters/Serial.antt =====
-- src/adapters/serialport.rs: a serial port, opened with the defaults for Marlin.
use marlin_binary_transfer.Common.{ℕ, Result, ok, err}
use marlin_binary_transfer.Text.{Str}
use marlin_binary_transfer.Adapters.Blocking.{Port}

-- What the code uses of the crate `serialport`: its builder with the setting of the timeout, in
-- nanoseconds, and with the opening, which acts on the state `T` of what surrounds the program; the
-- opened port as `Read` and `Write`; and `std::io::Error::other` of the text of its error.
pub record SerialCrate (T E Builder Handle SerialError : Type 0) : Type 0 where
  pub new : Str → (baud_rate : ℕ) → Builder
  pub timeout : Builder → (duration : ℕ) → Builder
  pub open_builder : Builder → T → T × Result Handle SerialError
  pub port : Handle → Port T E
  pub other : SerialError → E

module _ {T E Builder Handle SerialError : Type 0}
    (crate : SerialCrate T E Builder Handle SerialError) where
  -- 100 milliseconds.
  unfoldable pub builder : (path : Str) → (baud_rate : ℕ) → Builder
  builder path baud_rate = crate.timeout (crate.new path baud_rate) 100_000_000

  abbrev pub map_err : T × Result Handle SerialError → T × Result Handle E
  map_err (t, ok handle) = (t, ok handle)
  map_err (t, err e) = (t, err (crate.other e))

  unfoldable pub open_port : (path : Str) → (baud_rate : ℕ) → T → T × Result Handle E
  unfolding builder
  open_port path baud_rate t = map_err (crate.open_builder (builder path baud_rate) t)
