-- ===== src/Device/Runs.antt =====
-- Uploads to the fake device as in src/tests/blocking_adapter_e2e.rs, and the theorems on them.
use marlin_binary_transfer.Common.{
  ℕ, ◌*◌, ◌≡◌, refl, arith, true, false, none, some, Bytes, ok, err, done, Option,
}
use marlin_binary_transfer.Text.{codes, as_bytes}
use marlin_binary_transfer.Heatshrink.{Heatshrink, validate, compress}
use marlin_binary_transfer.Transfer.State.{heatshrink, auto, open_busy, session_timeout}
use marlin_binary_transfer.Transfer.Compression.{choose_compression}
use marlin_binary_transfer.Adapters.Types.{
  UploadOptions, UploadError, default_options, transfer, handshake_failed,
}
use marlin_binary_transfer.Adapters.Upload.{payload_of}
use marlin_binary_transfer.Adapters.Blocking as Blocking
use marlin_binary_transfer.Device.{CompressionSpec, FakeDevice, new}
use marlin_binary_transfer.Device.Wire.{DeviceTransport, port}
use marlin_binary_transfer.Device.Exchanges.{wire}
use marlin_binary_transfer.Device.Patience.{IsSteady}
use marlin_binary_transfer.Device.Closing.{unconfirmed}
use marlin_binary_transfer.Device.Conditions.{IsAgreeable, IsPayload, all_sent, delivered}
use marlin_binary_transfer.Device.Delivery.{upload-delivered}
use marlin_binary_transfer.Session.State as Session
use marlin_binary_transfer.Device.Silence.{silent_port, failure, upload-silent}
use marlin_binary_transfer.Device.Refusal.{
  refused_device, unconfirmed_device, upload-refused, upload-unconfirmed,
}

abbrev file_text : Bytes
file_text = codes "G28\nG1 X10 Y10\nM104 S200\n; end\n"

-- A printer with heatshrink, and a crate that stores the bytes.
abbrev printer : FakeDevice
printer = record (new 512 (codes "1.0") 0) { compression = CompressionSpec.heatshrink 8 4 }

abbrev stored : Heatshrink
stored = record {
  min_window_bits = 4;
  max_window_bits = 15;
  min_lookahead_bits = 3;
  encode = λ window lookahead bytes. bytes;
  decode = λ window lookahead bytes. bytes;
}

abbrev out_gco : UploadOptions DeviceTransport
out_gco = record default_options { dest_filename = codes "out.gco"; compression = auto }

printer-IsAgreeable : IsAgreeable out_gco printer (heatshrink 8 4)
unfolding choose_compression as_bytes
printer-IsAgreeable = record {
  sync_fits = omega arith;
  size_fits = omega arith;
  version_printable = omega arith;
  version_plain = omega arith;
  version_fits = omega arith;
  spec_fits = omega arith;
  chosen = refl;
  named = omega arith;
  name_fits = omega arith;
}

file_text-IsPayload : IsPayload (some stored) file_text out_gco (heatshrink 8 4) file_text
unfolding payload_of compress validate
file_text-IsPayload = record { encoded = refl; unnoticed = tt }

-- 200 milliseconds from one reading of the clock to the next.
abbrev slow_clock : ℕ → ℕ
slow_clock n = n * 200_000_000

slow_clock-IsSteady : IsSteady slow_clock
slow_clock-IsSteady n = (omega arith, omega arith)

-- The device asks once for the WRITE with the sync number 3.
upload-delivered_example :
    (left : Option ℕ) × (after : ℕ) × (Blocking.upload
        (port slow_clock)
        (some stored)
        (ok file_text)
        out_gco
        (wire (some 3) printer 0)
      ≡ done (
        wire left (delivered out_gco (heatshrink 8 4) file_text printer) after,
        ok (all_sent out_gco file_text (heatshrink 8 4) file_text printer),
      ))
upload-delivered_example =
    upload-delivered slow_clock (some stored) file_text out_gco printer (heatshrink 8 4) file_text
      printer-IsAgreeable file_text-IsPayload (refl, refl) (some 3) 0 slow_clock-IsSteady refl

abbrev busy_printer : FakeDevice
busy_printer = record printer {
  behaviour = record (printer.behaviour) { busy_on_next_open = true };
}

busy_printer-IsAgreeable : IsAgreeable out_gco busy_printer (heatshrink 8 4)
busy_printer-IsAgreeable = record {
  sync_fits = printer-IsAgreeable.sync_fits;
  size_fits = printer-IsAgreeable.size_fits;
  version_printable = printer-IsAgreeable.version_printable;
  version_plain = printer-IsAgreeable.version_plain;
  version_fits = printer-IsAgreeable.version_fits;
  spec_fits = printer-IsAgreeable.spec_fits;
  chosen = printer-IsAgreeable.chosen;
  named = printer-IsAgreeable.named;
  name_fits = printer-IsAgreeable.name_fits;
}

upload-refused_example :
    (left : Option ℕ) × (after : ℕ) × (Blocking.upload
        (port slow_clock)
        none
        (ok file_text)
        out_gco
        (wire (some 1) busy_printer 0)
      ≡ done (
        wire left (refused_device out_gco (heatshrink 8 4) true false busy_printer) after,
        err (transfer open_busy),
      ))
upload-refused_example =
    upload-refused slow_clock none file_text out_gco busy_printer (heatshrink 8 4)
      busy_printer-IsAgreeable true false refl refl refl (some 1) 0 slow_clock-IsSteady

abbrev terse_printer : FakeDevice
terse_printer = record printer {
  behaviour = record (printer.behaviour) { skip_pft_on_terminal = true };
}

terse_printer-IsAgreeable : IsAgreeable out_gco terse_printer (heatshrink 8 4)
terse_printer-IsAgreeable = record {
  sync_fits = printer-IsAgreeable.sync_fits;
  size_fits = printer-IsAgreeable.size_fits;
  version_printable = printer-IsAgreeable.version_printable;
  version_plain = printer-IsAgreeable.version_plain;
  version_fits = printer-IsAgreeable.version_fits;
  spec_fits = printer-IsAgreeable.spec_fits;
  chosen = printer-IsAgreeable.chosen;
  named = printer-IsAgreeable.named;
  name_fits = printer-IsAgreeable.name_fits;
}

upload-unconfirmed_example :
    (left : Option ℕ) × (after : ℕ) × (Blocking.upload
        (port slow_clock)
        (some stored)
        (ok file_text)
        out_gco
        (wire (some 3) terse_printer 0)
      ≡ done (
        wire left (unconfirmed_device out_gco (heatshrink 8 4) file_text terse_printer) after,
        err (transfer unconfirmed),
      ))
upload-unconfirmed_example =
    upload-unconfirmed slow_clock (some stored) file_text out_gco terse_printer (heatshrink 8 4)
      terse_printer-IsAgreeable file_text file_text-IsPayload (refl, refl) (some 3) 0
      slow_clock-IsSteady refl

abbrev unheard : (clock : ℕ → ℕ) → UploadError (Unit {0})
unheard clock =
    failure clock (clock 0) Session.new.total_timeout (transfer session_timeout) handshake_failed
      200 1

unheard_slow : unheard slow_clock ≡ transfer session_timeout
unfolding failure
unheard_slow = refl

unheard_fast : unheard (λ n. n) ≡ handshake_failed
unfolding failure
unheard_fast = refl

upload-silent_example :
    (after : ℕ) × (Blocking.upload (silent_port slow_clock) none (ok file_text) default_options 0
      ≡ done (after, err (unheard slow_clock)))
upload-silent_example = upload-silent slow_clock none (ok file_text) default_options 0
