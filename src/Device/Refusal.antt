-- ===== src/Device/Refusal.antt =====
-- `upload` of src/adapters/blocking.rs over a fake device that refuses the file.
use marlin_binary_transfer.Common.{
  Bool, true, ◌||◌, err, ℕ, ◌%◌, ◌<◌, ◌≡◌, refl, ap, arith, true, Option, some, Bytes, ok, done,
}
use marlin_binary_transfer.Session.State.{Session}
use marlin_binary_transfer.Transfer.State.{Compression, FileTransfer, State}
use marlin_binary_transfer.Transfer.State as TransferState
use marlin_binary_transfer.Heatshrink.{Heatshrink}
use marlin_binary_transfer.Adapters.Types.{UploadOptions, transfer}
use marlin_binary_transfer.Adapters.Upload.{chunks, payload_of, transfer_file, upload_session}
use marlin_binary_transfer.Adapters.Upload as Upload
use marlin_binary_transfer.Adapters.Blocking as Blocking
use marlin_binary_transfer.Device.{FakeDevice}
use marlin_binary_transfer.Device.Wire.{DeviceTransport, port, transport}
use marlin_binary_transfer.Device.Hosts.{idle}
use marlin_binary_transfer.Device.Patience.{Patience, IsPaced, Succeeds}
use marlin_binary_transfer.Device.Exchanges.{wire}
use marlin_binary_transfer.Device.Steps.{next, phase}
use marlin_binary_transfer.Device.Loop.{stored_all, stored_all-concat}
use marlin_binary_transfer.Device.Closing.{with_closed, unconfirmed}
use marlin_binary_transfer.Device.OpenPacket.{opened}
use marlin_binary_transfer.Device.Opening.{
  settled, refusal, state_after, result-refusal, call-open, drive-open,
}
use marlin_binary_transfer.Device.Querying.{agreed, call-query, drive-query}
use marlin_binary_transfer.Device.Greeting.{acquainted, feed-trigger, call-connect, drive-sync}
use marlin_binary_transfer.Device.Conditions.{IsAgreeable, IsPayload, Opens, pieces, delivered}
use marlin_binary_transfer.Device.Delivery.{pieces_lem, transfer_file-delivered}

-- The device has noted the OPEN and cleared the flag.
abbrev pub refused_device :
    UploadOptions DeviceTransport → Compression → (busy refused : Bool) → FakeDevice → FakeDevice
refused_device options negotiated busy refused d =
    settled busy refused (opened (some negotiated) options.dest_filename options.dummy d)

-- The device has the whole file, and is still in binary mode.
abbrev pub unconfirmed_device :
    UploadOptions DeviceTransport → Compression → Bytes → FakeDevice → FakeDevice
unconfirmed_device options negotiated payload d = record (delivered options negotiated payload d) {
  control_closed = d.control_closed;
}

module _ (clock : ℕ → ℕ) (feature : Option Heatshrink) (source : Bytes)
    (options : UploadOptions DeviceTransport) (d : FakeDevice) (negotiated : Compression)
    (fine : IsAgreeable options d negotiated) where
  module _ (busy refused : Bool) (is_busy : d.behaviour.busy_on_next_open ≡ busy)
      (is_refused : d.behaviour.fail_on_next_open ≡ refused) (either : busy || refused ≡ true) where
    transfer_file-refused :
        (again : Option ℕ) (number calls : ℕ) (s : Session)
        → Patience again clock
        → IsPaced s
        → number < 256
        → Succeeds clock
            (refused_device options negotiated busy refused d)
            (phase
              (state_after busy refused)
              (idle (next (next number)) s)
              (agreed options.compression negotiated d.protocol_version (TransferState.new s)))
            (err (transfer (refusal busy)))
            (transfer_file
              (transport clock)
              feature
              (ok source)
              options
              d.max_block_size
              (wire again d calls, TransferState.new (idle number s)))
    unfolding transfer_file
    transfer_file-refused again number calls s patience paced h =
        let (left1, calls1, patience1, queried) =
          drive-query clock options.compression negotiated d.protocol_version d.compression
            fine.version_plain fine.spec_fits fine.chosen again number calls s (TransferState.new s)
            d patience paced h refl refl fine.version_printable fine.version_fits in
        let (left2, calls2, patience2, refuses) =
          drive-open clock options.dest_filename options.dummy fine.named fine.name_fits left1 busy
            refused (next number) calls1 s ft d patience1 paced (omega arith) is_busy is_refused in
        (
          left2,
          calls2,
          patience2,
          rw
              (
                call-query clock options.compression again number calls s (TransferState.new s) d h,
                queried,
                call-open clock options.dest_filename options.dummy fine.named fine.name_fits left1
                    (next number) calls1 s ft d (omega arith),
                refuses,
                result-refusal {E = Unit {0}} busy refused either,
              )
              refl,
        )
      where
        ft : FileTransfer
        ft = agreed options.compression negotiated d.protocol_version (TransferState.new s)

    -- A device that is busy, or else refuses the next OPEN: `upload` returns that error. The device
    -- has noted the OPEN and cleared the flag, and has got nothing else: no data, no CLOSE, and no
    -- control CLOSE, so that it stays in binary mode. It may ask once for a packet again, if 10
    -- milliseconds to a second pass between two readings of the clock. In all else the device, the
    -- name and the compression asked for are those of an upload that succeeds.
    pub upload-refused :
        (again : Option ℕ) (calls : ℕ)
        → Patience again clock
        → (left : Option ℕ) × (after : ℕ) × (Blocking.upload
              (port clock)
              feature
              (ok source)
              options
              (wire again d calls)
            ≡ done (
              wire left (refused_device options negotiated busy refused d) after,
              err (transfer (refusal busy)),
            ))
    unfolding Blocking.upload Upload.upload upload_session
    upload-refused again calls patience =
        let (left1, calls1, patience1, greets) =
          drive-sync clock again d calls patience fine.sync_fits fine.size_fits
            fine.version_printable fine.version_fits in
        let (left2, calls2, patience2, refuses) =
          transfer_file-refused left1 (d.initial_sync % 256) calls1
            (acquainted d.max_block_size d.protocol_version) patience1 (refl, refl) (omega arith) in
        (
          left2,
          calls2,
          rw (feed-trigger again d, call-connect clock again d calls, greets, refuses) refl,
        )

  module _ (payload : Bytes) (sent : IsPayload feature source options negotiated payload)
      (opens : Opens d) where
    unconfirmed_lem :
        with_closed (
          stored_all
            (pieces options payload d)
            (opened (some negotiated) options.dest_filename options.dummy d))
        ≡ unconfirmed_device options negotiated payload d
    unconfirmed_lem = rw (
      stored_all-concat (pieces options payload d)
          (opened (some negotiated) options.dest_filename options.dummy d),
      (pieces_lem clock feature source options d negotiated payload fine sent opens).0,
    )

    -- A device that acknowledges CLOSE without `PFT:success`: `upload` returns a violation of the
    -- protocol, although the device has the whole payload and has closed the file; and it does not
    -- send the control CLOSE, so that the device stays in binary mode. The device may ask once for a
    -- packet again, if 10 milliseconds to a second pass between two readings of the clock. In all else
    -- the device and the options are those of an upload that succeeds.
    pub upload-unconfirmed :
        (again : Option ℕ) (calls : ℕ)
        → Patience again clock
        → d.behaviour.skip_pft_on_terminal ≡ true
        → (left : Option ℕ) × (after : ℕ) × (Blocking.upload
              (port clock)
              feature
              (ok source)
              options
              (wire again d calls)
            ≡ done (
              wire left (unconfirmed_device options negotiated payload d) after,
              err (transfer unconfirmed),
            ))
    unfolding Blocking.upload Upload.upload upload_session
    upload-unconfirmed again calls patience skips =
        let (left1, calls1, patience1, greets) =
          drive-sync clock again d calls patience fine.sync_fits fine.size_fits
            fine.version_printable fine.version_fits in
        let (left2, calls2, patience2, transfers) =
          transfer_file-delivered clock feature source options d negotiated payload fine sent opens
            true left1 (d.initial_sync % 256) calls1
            (acquainted d.max_block_size d.protocol_version) patience1 (refl, refl) (omega arith)
            skips in
        (
          left2,
          calls2,
          rw (feed-trigger again d, call-connect clock again d calls, greets, transfers)
              (ap (λ d'. done (wire left2 d' calls2, err (transfer unconfirmed))) unconfirmed_lem),
        )
