-- ===== src/Session/Build.antt =====
-- `BytesBuilder::build` of src/session.rs against the wire format.
use marlin_binary_transfer.Common.{ℕ, ◌≤◌, ◌<◌, ◌≡◌, [], length, le→ltb, done}
use marlin_binary_transfer.Codec
use marlin_binary_transfer.Codec.{Packet, max_payload, wire_len}
use marlin_binary_transfer.Codec.Frame
use marlin_binary_transfer.Codec.Frame.{frame, encode-frame}
use marlin_binary_transfer.Session.State.{BytesBuilder}
use marlin_binary_transfer.Session.Operations.{build}

-- What `send` asserts of a packet before it is queued.
pub record IsSendable (b : BytesBuilder) : Type 0 where
  pub protocol_fits : b.protocol ≤ 15
  pub packet_type_fits : b.packet_type ≤ 15
  pub payload_fits : length b.payload ≤ max_payload

-- The packet that a builder stands for once it has a sync number.
abbrev pub packet : BytesBuilder → ℕ → Packet
packet b sync = record {
  sync = sync;
  protocol = b.protocol;
  packet_type = b.packet_type;
  payload = b.payload;
}

pub packet-IsValid :
    (b : BytesBuilder) (sync : ℕ) → IsSendable b → sync < 256 → Frame.IsValid (packet b sync)
packet-IsValid b sync v h = record {
  sync_fits = h;
  protocol_fits = v.protocol_fits;
  packet_type_fits = v.packet_type_fits;
  payload_fits = v.payload_fits;
}

-- Neither `expect` of `build` fires on a packet that may be sent: the bytes are its frame.
pub build-frame :
    (b : BytesBuilder) (sync : ℕ)
    → IsSendable b
    → sync < 256
    → build b sync ≡ done (frame (packet b sync))
unfolding build Codec.new
build-frame b sync v h = rw (
  le→ltb 15 b.protocol v.protocol_fits,
  le→ltb 15 b.packet_type v.packet_type_fits,
  le→ltb max_payload (length b.payload) v.payload_fits,
  encode-frame (packet b sync) [] (packet-IsValid b sync v h),
)
