-- ===== src/Device/Delivery.antt =====
-- `upload` of src/adapters/blocking.rs over the fake device, from the trigger to the control CLOSE.
use marlin_binary_transfer.Common.{
  Bool, false, ℕ, ◌+◌, ◌%◌, ◌<◌, ◌≤◌, ◌≡◌, refl, ap, ◌∙◌, arith, true, Option, some, Bytes, length,
  All, Result, ok, Checked, done,
}
use marlin_binary_transfer.Codec.{max_payload}
use marlin_binary_transfer.Session.State.{Session}
use marlin_binary_transfer.Transfer.State.{Compression, FileTransfer, State}
use marlin_binary_transfer.Transfer.State as TransferState
use marlin_binary_transfer.Heatshrink.{Heatshrink}
use marlin_binary_transfer.Adapters.Types.{UploadOptions, UploadStats, UploadError}
use marlin_binary_transfer.Adapters.Chunks.{resolve_chunk_size, resolve_chunk_size_lem}
use marlin_binary_transfer.Adapters.Cuts.{concat, IsChunk, chunks_lem}
use marlin_binary_transfer.Adapters.Upload.{chunks, payload_of, transfer_file, upload_session}
use marlin_binary_transfer.Adapters.Driver.{bind_result, pure}
use marlin_binary_transfer.Adapters.Upload as Upload
use marlin_binary_transfer.Adapters.Blocking as Blocking
use marlin_binary_transfer.Device.{FakeDevice}
use marlin_binary_transfer.Device.Wire.{DeviceTransport, port, transport}
use marlin_binary_transfer.Device.Hosts.{idle}
use marlin_binary_transfer.Device.Patience.{Patience, IsPaced, Succeeds}
use marlin_binary_transfer.Device.Exchanges.{wire}
use marlin_binary_transfer.Device.Steps.{next, phase}
use marlin_binary_transfer.Device.Loop.{
  stored_all, number_after, counted, number_after-lt, stored_all-concat, counted-concat,
  write_chunks-stored,
}
use marlin_binary_transfer.Device.Closing.{
  with_closed, with_control_closed, state_closed, result_closed, call-close, drive-closing,
  call-control_close, drive-control_close,
}
use marlin_binary_transfer.Device.OpenPacket.{opened}
use marlin_binary_transfer.Device.Opening.{call-open, drive-open}
use marlin_binary_transfer.Device.Querying.{agreed, call-query, drive-query}
use marlin_binary_transfer.Device.Greeting.{acquainted, feed-trigger, call-connect, drive-sync}
use marlin_binary_transfer.Device.Conditions.{
  IsAgreeable, IsPayload, Opens, pieces, unsent, all_sent, delivered,
}

-- `upload` has returned the statistics.
abbrev outcome :
    (left : Option ℕ) (calls : ℕ)
    → FakeDevice
    → UploadStats
    → Checked (DeviceTransport × Result UploadStats (UploadError (Unit {0})))
outcome left calls d stats = done (wire left d calls, ok stats)

zero_add : (n : ℕ) → 0 + n ≡ n
zero_add n = omega arith

pure_closed :
    {S A E : Type 0} (skip : Bool) (s : S) (a : A)
    → bind_result {E = UploadError E} (done (s, result_closed skip tt)) (λ _. pure a)
      ≡ done (s, result_closed skip a)
pure_closed true s a = refl
pure_closed false s a = refl

module _ (clock : ℕ → ℕ) (feature : Option Heatshrink) (source : Bytes)
    (options : UploadOptions DeviceTransport) (d : FakeDevice) (negotiated : Compression)
    (payload : Bytes) (fine : IsAgreeable options d negotiated)
    (sent : IsPayload feature source options negotiated payload) (opens : Opens d) where
  abbrev pub opened_device : FakeDevice
  opened_device = opened (some negotiated) options.dest_filename options.dummy d

  size_lem : resolve_chunk_size options.chunk_size d.max_block_size ≤ max_payload
  size_lem = (resolve_chunk_size_lem options.chunk_size d.max_block_size fine.size_fits).1

  pub pieces_lem :
      (concat (pieces options payload d) ≡ payload)
      × All
          (IsChunk (resolve_chunk_size options.chunk_size d.max_block_size))
          (pieces options payload d)
  pieces_lem =
      chunks_lem _ payload
        (resolve_chunk_size_lem options.chunk_size d.max_block_size fine.size_fits).0

  -- The transfer of the file.
  pub transfer_file-delivered :
      (skip : Bool) (again : Option ℕ) (number calls : ℕ) (s : Session)
      → Patience again clock
      → IsPaced s
      → number < 256
      → d.behaviour.skip_pft_on_terminal ≡ skip
      → Succeeds clock
          (with_closed (stored_all (pieces options payload d) opened_device))
          (phase
            (state_closed skip)
            (idle (next (number_after (pieces options payload d) (next (next number)))) s)
            (agreed options.compression negotiated d.protocol_version (TransferState.new s)))
          (result_closed skip (counted (pieces options payload d) (unsent source negotiated)))
          (transfer_file
            (transport clock)
            feature
            (ok source)
            options
            d.max_block_size
            (wire again d calls, TransferState.new (idle number s)))
  unfolding transfer_file
  transfer_file-delivered skip again number calls s patience paced h c =
      let (left1, calls1, patience1, queried) =
        drive-query clock options.compression negotiated d.protocol_version d.compression
          fine.version_plain fine.spec_fits fine.chosen again number calls s (TransferState.new s) d
          patience paced h refl refl fine.version_printable fine.version_fits in
      let (left2, calls2, patience2, opens_file) =
        drive-open clock options.dest_filename options.dummy fine.named fine.name_fits left1 false
          false (next number) calls1 s ft d patience1 paced (omega arith) opens.0 opens.1 in
      let (left3, calls3, patience3, stores) =
        write_chunks-stored clock options.progress left2
          (resolve_chunk_size options.chunk_size d.max_block_size) (pieces options payload d)
          (unsent source negotiated) (next (next number)) calls2 s ft opened_device sent.unnoticed
          patience2 paced size_lem pieces_lem.1 (omega arith) in
      let (left4, calls4, patience4, closes_file) =
        drive-closing clock left3 skip last calls3 s ft
          (stored_all (pieces options payload d) opened_device) patience3 paced last-lt
          (closes c) in
      (
        left4,
        calls4,
        patience4,
        rw
            (
              call-query clock options.compression again number calls s (TransferState.new s) d h,
              queried,
              call-open clock options.dest_filename options.dummy fine.named fine.name_fits left1
                  (next number) calls1 s ft d (omega arith),
              opens_file,
              sent.encoded,
              stores,
              call-close clock left3 last calls3 s ft
                  (stored_all (pieces options payload d) opened_device) last-lt,
              closes_file,
            )
            (pure_closed skip _ (counted (pieces options payload d) (unsent source negotiated))),
      )
    where
      closes :
          d.behaviour.skip_pft_on_terminal ≡ skip
          → (stored_all (pieces options payload d) opened_device).behaviour.skip_pft_on_terminal
            ≡ skip
      closes c = rw (stored_all-concat (pieces options payload d) opened_device) c

      ft : FileTransfer
      ft = agreed options.compression negotiated d.protocol_version (TransferState.new s)

      last : ℕ
      last = number_after (pieces options payload d) (next (next number))

      last-lt : last < 256
      last-lt = number_after-lt (pieces options payload d) (next (next number)) (omega arith)

  -- What is left of the device and of the statistics, in one step each.
  delivered_device :
      with_control_closed (with_closed (stored_all (pieces options payload d) opened_device))
      ≡ delivered options negotiated payload d
  delivered_device = rw (stored_all-concat (pieces options payload d) opened_device, pieces_lem.0)

  delivered_stats :
      counted (pieces options payload d) (unsent source negotiated)
      ≡ all_sent options source negotiated payload d
  delivered_stats =
      counted-concat (pieces options payload d) (unsent source negotiated)
      ∙ rw (pieces_lem.0, zero_add (length payload), zero_add (length (pieces options payload d)))

  outcome_lem :
      (left : Option ℕ) (after : ℕ) (d' : FakeDevice) (stats : UploadStats)
      → d' ≡ delivered options negotiated payload d
      → stats ≡ all_sent options source negotiated payload d
      → outcome left after d' stats
        ≡ outcome left after
            (delivered options negotiated payload d)
            (all_sent options source negotiated payload d)
  outcome_lem left after d' stats e f =
      ap (λ x. outcome left after x stats) e
      ∙ ap (outcome left after (delivered options negotiated payload d)) f

  -- With a device that answers every packet, or asks once for one of them again, that neither is busy
  -- nor refuses the next OPEN, and that confirms CLOSE by `PFT:success`, `upload` succeeds: the device
  -- then has the payload that the negotiated compression makes of the source behind the bytes it had,
  -- the name, the dummy flag and the compression byte of the OPEN, a closed file, and has left the
  -- binary mode; and the statistics are those of the source, the payload and its chunks. The clock
  -- shows any times if the device asks for nothing; else 10 milliseconds to a second pass between two
  -- of its readings. The device's sync number is a byte, its block size is a u16, its version is
  -- printable, without a colon and of at most 900 characters, its heatshrink parameters are bytes, its
  -- compression and the one asked for agree, that compression makes a payload of the source, the name
  -- fits a packet and has no zero byte, and a progress callback leaves the device alone.
  pub upload-delivered :
      (again : Option ℕ) (calls : ℕ)
      → Patience again clock
      → d.behaviour.skip_pft_on_terminal ≡ false
      → (left : Option ℕ) × (after : ℕ) × (Blocking.upload
            (port clock)
            feature
            (ok source)
            options
            (wire again d calls)
          ≡ done (
            wire left (delivered options negotiated payload d) after,
            ok (all_sent options source negotiated payload d),
          ))
  unfolding Blocking.upload Upload.upload upload_session
  upload-delivered again calls patience closes =
      let (left1, calls1, patience1, greets) =
        drive-sync clock again d calls patience fine.sync_fits fine.size_fits fine.version_printable
          fine.version_fits in
      let (left2, calls2, patience2, transfers) =
        transfer_file-delivered false left1 (d.initial_sync % 256) calls1 s patience1 (refl, refl)
          (omega arith) closes in
      let (left3, calls3, patience3, leaves) =
        drive-control_close clock left2 last calls2 s file_device patience2 (refl, refl) last-lt in
      (
        left3,
        calls3,
        rw
            (
              feed-trigger again d,
              call-connect clock again d calls,
              greets,
              transfers,
              call-control_close clock left2 last calls2 s file_device last-lt,
              leaves,
            )
            (outcome_lem left3 calls3 (with_control_closed file_device)
              (counted (pieces options payload d) (unsent source negotiated)) delivered_device
              delivered_stats),
      )
    where
      s : Session
      s = acquainted d.max_block_size d.protocol_version

      file_device : FakeDevice
      file_device = with_closed (stored_all (pieces options payload d) opened_device)

      last : ℕ
      last = next (number_after (pieces options payload d) (next (next (d.initial_sync % 256))))

      last-lt : last < 256
      last-lt = omega arith
