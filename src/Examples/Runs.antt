-- ===== src/Examples/Runs.antt =====
-- Captures as examples/inspect.rs lists them, command lines of examples/upload.rs, and the theorems on
-- them.
use marlin_binary_transfer.Common.{
  ℕ, ◌<◌, ◌≡◌, refl, arith, List, [], ◌∷◌, Bytes, All, length, ok, err, equal, done, Ensures,
  Option, none, if◌then◌else◌,
}
use marlin_binary_transfer.Text.{codes, Str, as_bytes}
use marlin_binary_transfer.Codec.{
  decode, decode_header, decode_payload, fletcher16, fletcher_from, fletcher_step, bad_token,
  packet_token,
}
use marlin_binary_transfer.Codec.Frame.{IsValid}
use marlin_binary_transfer.Examples.Inspect.{
  Line, packet_line, error_line, incomplete_line, skipped, list_decoded, inspect_loop, inspect,
}
use marlin_binary_transfer.Transfer.State.{uncompressed, auto}
use marlin_binary_transfer.Transfer.Compression.{choose_compression}
use marlin_binary_transfer.Adapters.Upload.{payload_of}
use marlin_binary_transfer.Adapters.Serial.{SerialCrate}
use marlin_binary_transfer.Device.{FakeDevice, new}
use marlin_binary_transfer.Device.Wire.{DeviceTransport, port}
use marlin_binary_transfer.Device.Exchanges.{wire}
use marlin_binary_transfer.Device.Conditions.{IsAgreeable, all_sent, delivered}
use marlin_binary_transfer.Examples.Upload.{World, uploaded, main}
use marlin_binary_transfer.Examples.Delivery.{IsConnected, asked, main-delivered}
use marlin_binary_transfer.Examples.Arguments.{
  Settings, compression_of, unknown_argument, initial_settings, flag_of, set, parse_args,
}
use marlin_binary_transfer.Examples.Settings.{
  Setting, port_is, baud_is, dest_is, compression_is, args_of, settled, parse_args-args_of,
}
use marlin_binary_transfer.Examples.Listing.{Lists, inspect-Lists}
use marlin_binary_transfer.Examples.Placed.{
  Segment, IsNoise, capture, placed, packet_lines, inspect-capture,
}

-- A SYNC packet behind a stray byte, and the first bytes of another.
abbrev stray : Bytes
stray = 0x0A ∷ 0xAD ∷ 0xB5 ∷ 0x00 ∷ 0x01 ∷ 0x00 ∷ 0x00 ∷ 0x01 ∷ 0x03 ∷ 0xAD ∷ 0xB5 ∷ []

abbrev stray_lines : List Line
stray_lines =
    error_line 0 (bad_token packet_token 0xAD0A)
    ∷ packet_line 1 0 0 1 0
    ∷ incomplete_line 9 8 2
    ∷ []

inspect-stray : inspect stray ≡ done stray_lines
unfolding inspect inspect_loop list_decoded skipped decode decode_header decode_payload fletcher16
    fletcher_from fletcher_step
inspect-stray = refl

inspect-Lists_example : Ensures (Lists 0 stray) (inspect stray)
inspect-Lists_example = inspect-Lists stray (omega arith)

abbrev start : Segment
start = record {
  noise = codes "ok\n";
  packet = record { sync = 0; protocol = 0; packet_type = 1; payload = [] };
}

abbrev first_write : Segment
first_write = record {
  noise = [];
  packet = record { sync = 1; protocol = 1; packet_type = 3; payload = codes "G28" };
}

noise : (b : ℕ) → b < 0xAD → IsNoise b
noise b h = record { byte = omega arith; no_token = λ e. omega arith }

ok_line-IsNoise : All IsNoise (codes "ok\n")
ok_line-IsNoise =
    (noise b'o' (omega arith), (noise b'k' (omega arith), (noise b'\n' (omega arith), tt)))

packet-IsValid :
    (sync protocol packet_type : ℕ) (payload : Bytes)
    → sync < 256
    → protocol < 16
    → packet_type < 16
    → length payload < 256
    → IsValid
        (record { sync = sync; protocol = protocol; packet_type = packet_type; payload = payload })
packet-IsValid sync protocol packet_type payload h j k l = record {
  sync_fits = h;
  protocol_fits = omega arith;
  packet_type_fits = omega arith;
  payload_fits = omega arith;
}

inspect-capture_example :
    (lines : List Line) × (inspect (capture (start ∷ first_write ∷ []) (codes "ok\n")) ≡ done lines)
    × (packet_lines lines ≡ placed 0 (start ∷ first_write ∷ []))
inspect-capture_example =
    inspect-capture (start ∷ first_write ∷ []) (codes "ok\n")
      (
        record {
          quiet = ok_line-IsNoise;
          valid = packet-IsValid 0 0 1 [] (omega arith) (omega arith) (omega arith) (omega arith);
        },
        (
          record {
            quiet = tt;
            valid =
                packet-IsValid 1 1 3 (codes "G28") (omega arith) (omega arith) (omega arith)
                  (omega arith);
          },
          tt,
        ),
      )
      ok_line-IsNoise

-- The command line of the comment at the top of examples/upload.rs, with a second destination.
abbrev command_line : List Setting
command_line =
    port_is (codes "/dev/ttyACM0")
    ∷ baud_is 115200
    ∷ dest_is (codes "model.gco")
    ∷ compression_is (codes "auto")
    ∷ dest_is (codes "--help")
    ∷ []

parse_args-args_of_example :
    parse_args initial_settings (args_of command_line) ≡ ok (settled initial_settings command_line)
parse_args-args_of_example =
    parse_args-args_of initial_settings command_line (tt, (omega arith, (tt, (tt, (tt, tt)))))

settled_dest : (settled initial_settings command_line).dest ≡ codes "--help"
unfolding settled
settled_dest = refl

parse_args_unknown :
    parse_args initial_settings (codes "--dest" ∷ codes "a.gco" ∷ codes "model.gco" ∷ [])
    ≡ err (unknown_argument (codes "model.gco"))
unfolding parse_args flag_of set equal
parse_args_unknown = refl

-- A device with the default compression at the port `/dev/ttyUSB0`, and a file at the default path.
abbrev printer : FakeDevice
printer = new 512 (codes "1.0") 0

abbrev gcode : Bytes
gcode = codes "G28\nG1 X10 Y10\n"

abbrev device_crate : SerialCrate DeviceTransport (Unit {0}) (Str × ℕ) Str (Unit {0})
device_crate = record {
  new = λ path baud_rate. (path, baud_rate);
  timeout = λ builder duration. builder;
  open_builder =
      λ builder t. (t, if equal builder.0 (codes "/dev/ttyUSB0") then ok builder.0 else err tt);
  port = λ handle. port (λ n. n);
  other = λ e. tt;
}

abbrev desk : World DeviceTransport (Unit {0}) (Str × ℕ) Str (Unit {0})
desk = record {
  serial = device_crate;
  open_file = λ path t. (t, if equal path (codes "./test_file") then ok (ok gcode) else err tt);
  print_progress = λ t p. t;
  feature = none;
}

abbrev to_model : List Setting
to_model = dest_is (codes "model.gco") ∷ compression_is (codes "auto") ∷ []

abbrev model_settings : Settings
model_settings = settled initial_settings to_model

desk-IsConnected : IsConnected desk (λ n. n) model_settings gcode (wire none printer 0)
unfolding settled equal
desk-IsConnected = record {
  handle = codes "/dev/ttyUSB0";
  opens = refl;
  at_port = refl;
  has_file = refl;
  prints_only = λ u p. refl;
}

printer-IsAgreeable : IsAgreeable (asked model_settings auto) printer uncompressed
unfolding choose_compression as_bytes settled
printer-IsAgreeable = record {
  sync_fits = omega arith;
  size_fits = omega arith;
  version_printable = omega arith;
  version_plain = omega arith;
  version_fits = omega arith;
  spec_fits = omega arith;
  chosen = refl;
  named = omega arith;
  name_fits = omega arith;
}

gcode_sent : payload_of {E = Unit {0}} none uncompressed gcode ≡ done (ok gcode)
unfolding payload_of
gcode_sent = refl

to_model_auto : compression_of model_settings.compression ≡ ok auto
unfolding compression_of settled equal
to_model_auto = refl

main-delivered_example :
    (left : Option ℕ) × (after : ℕ) × (main desk (args_of to_model) (wire none printer 0)
      ≡ done (
        wire left (delivered (asked model_settings auto) uncompressed gcode printer) after,
        uploaded (all_sent (asked model_settings auto) gcode uncompressed gcode printer),
      ))
main-delivered_example =
    main-delivered desk (λ n. n) to_model auto uncompressed gcode gcode printer none 0
      (tt, (tt, tt)) to_model_auto desk-IsConnected printer-IsAgreeable gcode_sent tt (refl, refl)
      refl
