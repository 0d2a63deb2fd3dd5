-- ===== src/Device/Conditions.antt =====
-- What an upload to the fake device needs, and what it leaves.
use marlin_binary_transfer.Common.{
  false, ◌+◌, ◌<◌, ◌≤◌, ◌≡◌, ◌≢◌, true, Option, some, List, ◌++◌, Bytes, length, All, ok, done,
}
use marlin_binary_transfer.Text.{as_bytes}
use marlin_binary_transfer.Text.Plain.{IsPrintable}
use marlin_binary_transfer.Codec.{max_payload}
use marlin_binary_transfer.Transfer.State.{Compression}
use marlin_binary_transfer.Transfer.Operations.{comp_byte}
use marlin_binary_transfer.Transfer.Compression.{choose_compression}
use marlin_binary_transfer.Heatshrink.{Heatshrink}
use marlin_binary_transfer.Adapters.Types.{UploadOptions, UploadStats}
use marlin_binary_transfer.Adapters.Chunks.{resolve_chunk_size}
use marlin_binary_transfer.Adapters.Upload.{chunks, payload_of}
use marlin_binary_transfer.Device.{FakeDevice}
use marlin_binary_transfer.Device.Wire.{DeviceTransport}
use marlin_binary_transfer.Device.Loop.{Unnoticed}
use marlin_binary_transfer.Device.OpenPacket.{IsName}
use marlin_binary_transfer.Device.Querying.{IsSpec, advertised}

-- What the device and the caller bring: a version that fits the protocol's lines, a compression on
-- which both agree, and an OPEN that fits a packet.
pub record IsAgreeable (options : UploadOptions DeviceTransport) (d : FakeDevice)
    (negotiated : Compression) : Type 0 where
  pub sync_fits : d.initial_sync < 256
  pub size_fits : d.max_block_size < 65536
  pub version_printable : All IsPrintable d.protocol_version
  pub version_plain : All (λ c. c ≢ b':') d.protocol_version
  pub version_fits : length d.protocol_version ≤ 900
  pub spec_fits : IsSpec d.compression
  pub chosen : choose_compression options.compression (advertised d.compression) ≡ ok negotiated
  pub named : IsName (as_bytes options.dest_filename)
  pub name_fits : length (as_bytes options.dest_filename) + 3 ≤ max_payload

-- The payload that the compression makes of the source. A progress callback leaves the device alone.
pub record IsPayload (feature : Option Heatshrink) (source : Bytes)
    (options : UploadOptions DeviceTransport) (negotiated : Compression) (payload : Bytes)
    : Type 0 where
  pub encoded : payload_of {E = Unit {0}} feature negotiated source ≡ done (ok payload)
  pub unnoticed : Unnoticed options.progress

-- The device lets a file be opened.
abbrev pub Opens : FakeDevice → Type 0
Opens d = (d.behaviour.busy_on_next_open ≡ false) × (d.behaviour.fail_on_next_open ≡ false)

abbrev pub pieces : UploadOptions DeviceTransport → Bytes → FakeDevice → List Bytes
pieces options payload d = chunks (resolve_chunk_size options.chunk_size d.max_block_size) payload

-- The statistics before the first chunk, and after the last.
abbrev pub unsent : Bytes → Compression → UploadStats
unsent source negotiated = record {
  source_bytes = length source;
  bytes_sent = 0;
  chunks_sent = 0;
  compression = negotiated;
}

abbrev pub all_sent :
    UploadOptions DeviceTransport → Bytes → Compression → Bytes → FakeDevice → UploadStats
all_sent options source negotiated payload d = record (unsent source negotiated) {
  bytes_sent = length payload;
  chunks_sent = length (pieces options payload d);
}

-- The device has the whole file, closed, and has left the binary mode.
abbrev pub delivered : UploadOptions DeviceTransport → Compression → Bytes → FakeDevice → FakeDevice
delivered options negotiated payload d = record d {
  last_open_filename = some (as_bytes options.dest_filename);
  last_open_dummy = some options.dummy;
  last_open_compression_byte = some (comp_byte (some negotiated));
  written_bytes = d.written_bytes ++ payload;
  closed = true;
  control_closed = true;
}
