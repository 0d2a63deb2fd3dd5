-- ===== src/Examples/Delivery.antt =====
-- `main` of examples/upload.rs with the fake device of the tests at the port.
use marlin_binary_transfer.Common.{ℕ, false, ◌≡◌, List, Bytes, All, ok, done, Option}
use marlin_binary_transfer.Transfer.State.{Compression}
use marlin_binary_transfer.Adapters.Types.{Progress, UploadOptions, default_options}
use marlin_binary_transfer.Adapters.Upload.{payload_of}
use marlin_binary_transfer.Adapters.Serial.{builder, open_port}
use marlin_binary_transfer.Device.{FakeDevice}
use marlin_binary_transfer.Device.Wire.{DeviceTransport, port}
use marlin_binary_transfer.Device.Patience.{Patience}
use marlin_binary_transfer.Device.Exchanges.{wire}
use marlin_binary_transfer.Device.Conditions.{IsAgreeable, Opens, all_sent, delivered}
use marlin_binary_transfer.Device.Delivery.{upload-delivered}
use marlin_binary_transfer.Examples.Arguments.{Settings, initial_settings, compression_of}
use marlin_binary_transfer.Examples.Settings.{Setting, Fits, args_of, settled, parse_args-args_of}
use marlin_binary_transfer.Examples.Upload.{World, uploaded, options_of, main}

-- The device is at the port of the settings, which is opened with a timeout of 100 milliseconds, the
-- file has the source, and what is printed is not seen by the device.
pub record IsConnected {Builder Handle SerialError : Type 0}
    (world : World DeviceTransport (Unit {0}) Builder Handle SerialError) (clock : ℕ → ℕ)
    (settings : Settings) (source : Bytes) (t : DeviceTransport) : Type 0 where
  pub handle : Handle
  pub opens :
      world.serial.open_builder
        (world.serial.timeout (world.serial.new settings.port settings.baud) 100_000_000)
        t
      ≡ (t, ok handle)
  pub at_port : world.serial.port handle ≡ port clock
  pub has_file : world.open_file settings.src t ≡ (t, ok (ok source))
  pub prints_only : (u : DeviceTransport) (p : Progress) → world.print_progress u p ≡ u

-- What the settings ask for.
abbrev pub asked : Settings → Compression → UploadOptions DeviceTransport
asked settings compression = record default_options {
  dest_filename = settings.dest;
  compression = compression;
}

asked-IsAgreeable :
    {Builder Handle SerialError : Type 0}
    (world : World DeviceTransport (Unit {0}) Builder Handle SerialError) (settings : Settings)
    (compression negotiated : Compression) (d : FakeDevice)
    → IsAgreeable (asked settings compression) d negotiated
    → IsAgreeable (options_of world settings compression) d negotiated
asked-IsAgreeable world settings compression negotiated d fine = record {
  sync_fits = fine.sync_fits;
  size_fits = fine.size_fits;
  version_printable = fine.version_printable;
  version_plain = fine.version_plain;
  version_fits = fine.version_fits;
  spec_fits = fine.spec_fits;
  chosen = fine.chosen;
  named = fine.named;
  name_fits = fine.name_fits;
}

-- A command line of settings, for a device that lets a file be opened and answers every packet, or
-- asks once for one again: `main` opens the port with the path and the baud rate that are last on the
-- line, and ends with the statistics of the file. The device then has the file at the last source
-- path, as the negotiated compression makes it, under the last name given. A setting that is not on
-- the line has its default, the compression is `none` or `auto`, the progress that is printed does
-- not reach the device, the device and the name are those of an upload that succeeds, and the clock
-- is steady if the device asks.
pub main-delivered :
    {Builder Handle SerialError : Type 0}
    (world : World DeviceTransport (Unit {0}) Builder Handle SerialError) (clock : ℕ → ℕ)
    (line : List Setting) (compression negotiated : Compression) (source payload : Bytes)
    (d : FakeDevice) (again : Option ℕ) (calls : ℕ)
    → All Fits line
    → compression_of (settled initial_settings line).compression ≡ ok compression
    → IsConnected world clock (settled initial_settings line) source (wire again d calls)
    → IsAgreeable (asked (settled initial_settings line) compression) d negotiated
    → payload_of {E = Unit {0}} world.feature negotiated source ≡ done (ok payload)
    → Patience again clock
    → Opens d
    → d.behaviour.skip_pft_on_terminal ≡ false
    → (left : Option ℕ) × (after : ℕ) × (main world (args_of line) (wire again d calls)
        ≡ done (
          wire left
              (delivered (asked (settled initial_settings line) compression) negotiated payload d)
              after,
          uploaded (
              all_sent
                (asked (settled initial_settings line) compression)
                source
                negotiated
                payload
                d),
        ))
unfolding main open_port builder
main-delivered world clock line compression negotiated source payload d again calls fits chosen
      connected fine encoded patience opens closes =
    let settings : Settings = settled initial_settings line in
    let (left, after, runs) =
      upload-delivered clock world.feature source (options_of world settings compression) d
        negotiated payload (asked-IsAgreeable world settings compression negotiated d fine)
        (record { encoded = encoded; unnoticed = connected.prints_only }) opens again calls patience
        closes in
    (
      left,
      after,
      rw (
        parse_args-args_of initial_settings line fits,
        chosen,
        connected.opens,
        connected.has_file,
        connected.at_port,
        runs,
      ),
    )
