-- ===== src/Device.antt =====
-- The device that the tests talk to, src/tests/fixtures/fake_device.rs. Its strings are their bytes;
-- the `String::from_utf8_lossy` of the name in an OPEN is left out.
pub mod Wire
pub mod Frames
pub mod Hosts
pub mod Exchanges
pub mod Patience
pub mod Again
pub mod Answers
pub mod Packets
pub mod Steps
pub mod Loop
pub mod Closing
pub mod OpenPacket
pub mod Opening
pub mod Querying
pub mod Greeting
pub mod Conditions
pub mod Delivery
pub mod Refusal
pub mod Silence
mod Runs
use marlin_binary_transfer.Common.{
  ℕ, zero, suc, ◌+◌, Bool, true, false, not, ◌&&◌, Option, none, some, [], ◌∷◌, ◌++◌, Bytes, length,
  drop, ltb, leb, ◌==◌, if◌then◌else◌, Result, ok, err, Checked, done, panic, stuck, assert, ◌>>=◌,
  ◌>>◌,
}
use marlin_binary_transfer.Text.{Str, codes, display}
use marlin_binary_transfer.Codec.{
  Packet, DecodeError, incomplete, bad_token, header_checksum, payload_checksum, Decoded, decode,
}

pub data CompressionSpec : Type 0 where
  uncompressed : CompressionSpec  -- `CompressionSpec::None`
  heatshrink : (window lookahead : ℕ) → CompressionSpec

abbrev pub render : CompressionSpec → Bytes
render CompressionSpec.uncompressed = codes "none"
render (CompressionSpec.heatshrink window lookahead) =
    codes "heatshrink," ++ (display 3 window ++ (b',' ∷ display 3 lookahead))

pub record DeviceBehaviour : Type 0 where
  pub resend_once_for_sync : Option ℕ  -- u8
  pub busy_on_next_open : Bool
  pub fail_on_next_open : Bool
  pub skip_pft_on_terminal : Bool

pub record FakeDevice : Type 0 where
  pub inbound : Bytes
  pub reply_buf : Bytes
  pub initial_sync : ℕ  -- u8
  pub max_block_size : ℕ  -- u16
  pub protocol_version : Bytes
  pub compression : CompressionSpec
  pub behaviour : DeviceBehaviour
  pub last_open_filename : Option Bytes
  pub last_open_dummy : Option Bool
  pub last_open_compression_byte : Option ℕ
  pub written_bytes : Bytes
  pub aborted : Bool
  pub closed : Bool
  pub control_closed : Bool

abbrev pub default_behaviour : DeviceBehaviour
default_behaviour = record {
  resend_once_for_sync = none;
  busy_on_next_open = false;
  fail_on_next_open = false;
  skip_pft_on_terminal = false;
}

-- `FakeDevice::new`.
abbrev pub new : (max_block_size : ℕ) → Bytes → (initial_sync : ℕ) → FakeDevice
new max_block_size protocol_version initial_sync = record {
  inbound = [];
  reply_buf = [];
  initial_sync = initial_sync;
  max_block_size = max_block_size;
  protocol_version = protocol_version;
  compression = CompressionSpec.uncompressed;
  behaviour = default_behaviour;
  last_open_filename = none;
  last_open_dummy = none;
  last_open_compression_byte = none;
  written_bytes = [];
  aborted = false;
  closed = false;
  control_closed = false;
}

abbrev pub write_line : Bytes → FakeDevice → FakeDevice
write_line line d = record d { reply_buf = d.reply_buf ++ (line ++ 10 ∷ []) }

-- `ok<n>`, of a `u8` in decimal.
abbrev pub write_ok : ℕ → FakeDevice → FakeDevice
write_ok sync d = write_line (codes "ok" ++ display 3 sync) d

-- The bytes before the first 0.
abbrev pub until_nul : Bytes → Bytes
until_nul [] = []
until_nul (zero ∷ bytes) = []
until_nul (suc n ∷ bytes) = suc n ∷ until_nul bytes

-- What OPEN leaves of its payload.
abbrev pub note_open : Bytes → FakeDevice → FakeDevice
note_open (dummy ∷ (compression ∷ (c ∷ name))) d = record d {
  last_open_dummy = some (not (dummy == 0));
  last_open_compression_byte = some compression;
  last_open_filename = some (until_nul (c ∷ name));
}
note_open _ d = d

-- The reply line to OPEN.
abbrev pub answer_open : (busy refused : Bool) → FakeDevice → FakeDevice
answer_open true refused d =
    write_line (codes "PFT:busy")
      (record d { behaviour = record (d.behaviour) { busy_on_next_open = false } })
answer_open false true d =
    write_line (codes "PFT:fail")
      (record d { behaviour = record (d.behaviour) { fail_on_next_open = false } })
answer_open false false d = write_line (codes "PFT:success") d

-- The reply line to CLOSE and ABORT.
abbrev pub answer_terminal : (skip : Bool) → FakeDevice → FakeDevice
answer_terminal true d = d
answer_terminal false d = write_line (codes "PFT:success") d

-- The patterns of `match (pkt.protocol, pkt.packet_type)`, in their order.
pub data Request : Type 0 where
  sync_packet control_close query_packet open_packet close_packet write_packet : Request
  abort_packet unknown_packet : Request

unfoldable pub request : (protocol packet_type : ℕ) → Request
request protocol packet_type =
    if protocol == 0 && packet_type == 1
    then sync_packet
    else if protocol == 0 && packet_type == 2
    then control_close
    else if protocol == 1 && packet_type == 0
    then query_packet
    else if protocol == 1 && packet_type == 1
    then open_packet
    else if protocol == 1 && packet_type == 2
    then close_packet
    else if protocol == 1 && packet_type == 3
    then write_packet
    else if protocol == 1 && packet_type == 4
    then abort_packet
    else unknown_packet

-- The arms.
unfoldable pub answer : Request → (number : ℕ) → Bytes → FakeDevice → FakeDevice
answer sync_packet number payload d =
    write_line
      (codes "ss"
        ++ (display 5 d.initial_sync
            ++ (b',' ∷ (display 5 d.max_block_size ++ (b',' ∷ d.protocol_version)))))
      d
answer control_close number payload d = write_ok number (record d { control_closed = true })
answer query_packet number payload d =
    write_ok number
      (write_line (codes "PFT:version:" ++ (d.protocol_version ++ (b':' ∷ render d.compression))) d)
answer open_packet number payload d =
    let noted = note_open payload d in
    write_ok number
      (answer_open noted.behaviour.busy_on_next_open noted.behaviour.fail_on_next_open noted)
answer close_packet number payload d =
    write_ok number (answer_terminal d.behaviour.skip_pft_on_terminal (record d { closed = true }))
answer write_packet number payload d =
    write_ok number (record d { written_bytes = d.written_bytes ++ payload })
answer abort_packet number payload d =
    write_ok number (answer_terminal d.behaviour.skip_pft_on_terminal (record d { aborted = true }))
answer unknown_packet number payload d = write_ok number d

abbrev pub handle_packet : Packet → FakeDevice → FakeDevice
handle_packet p d = answer (request p.protocol p.packet_type) p.sync p.payload d

unfoldable pub handle_unless : Option ℕ → Packet → FakeDevice → FakeDevice
handle_unless none p d = handle_packet p d
handle_unless (some n) p d =
    if p.sync == n
    then write_line (codes "rs" ++ display 3 p.sync)
        (record d { behaviour = record (d.behaviour) { resend_once_for_sync = none } })
    else handle_packet p d

unfoldable pub handle : Packet → FakeDevice → FakeDevice
unfolding handle_unless
handle p d = handle_unless d.behaviour.resend_once_for_sync p d

-- `self.inbound.remove(0)`, or the end of the loop.
abbrev pub skip_byte : Bytes → FakeDevice → (FakeDevice → Checked FakeDevice) → Checked FakeDevice
skip_byte [] d rest = done d
skip_byte (b ∷ bytes) d rest = rest (record d { inbound = bytes })

-- The body of the loop of `feed` on the outcome of `decode`.
abbrev pub decoded : Decoded → FakeDevice → (FakeDevice → Checked FakeDevice) → Checked FakeDevice
decoded (ok (p, consumed)) d rest =
    assert (leb consumed (length d.inbound))
    >> rest (handle p (record d { inbound = drop consumed d.inbound }))
decoded (err (incomplete need have)) d rest = done d
decoded (err (bad_token expected got)) d rest = skip_byte d.inbound d rest
decoded (err (header_checksum stored computed)) d rest = skip_byte d.inbound d rest
decoded (err (payload_checksum stored computed)) d rest = skip_byte d.inbound d rest

-- Each round takes a byte or more out of the buffer.
unfoldable pub feed_loop : ℕ → FakeDevice → Checked FakeDevice
feed_loop zero d = stuck
feed_loop (suc fuel) d = decode d.inbound >>= λ outcome. decoded outcome d (feed_loop fuel)

unfoldable pub feed : FakeDevice → Bytes → Checked FakeDevice
unfolding feed_loop
feed d bytes =
    let buf = d.inbound ++ bytes in feed_loop (suc (length buf)) (record d { inbound = buf })
