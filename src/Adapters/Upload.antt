-- ===== src/Adapters/Upload.antt =====
-- `upload` and its driving functions of src/adapters/blocking.rs, over any transport.
use marlin_binary_transfer.Common.{
  ℕ, zero, suc, ◌+◌, Bool, true, false, Option, none, some, List, [], ◌∷◌, Bytes, length, take,
  drop, Result, ok, err, Checked, done, panic, stuck,
}
use marlin_binary_transfer.Text.{codes}
use marlin_binary_transfer.Session.State.{
  Event, synced, ack, resend_requested, ascii_line, fatal_error, out_of_sync, timeout, Session,
}
use marlin_binary_transfer.Session.State as SessionState
use marlin_binary_transfer.Session.Operations as SessionOps
use marlin_binary_transfer.Transfer.State.{
  Compression, uncompressed, heatshrink, auto, FileError, session_timeout, session_fatal_error,
  session_out_of_sync, FileEvent, FileTransfer,
}
use marlin_binary_transfer.Transfer.State as TransferState
use marlin_binary_transfer.Transfer.Operations.{query, open_file, write, close}
use marlin_binary_transfer.Heatshrink.{Heatshrink, HeatshrinkError, compress}
use marlin_binary_transfer.Adapters.Chunks.{resolve_chunk_size}
use marlin_binary_transfer.Adapters.Types.{
  Progress, UploadOptions, UploadStats, UploadError, io, transfer, stalled, handshake_failed,
  heatshrink_error, compression_feature_disabled,
}
use marlin_binary_transfer.Adapters.Driver.{Run, pure, ◌>>=◌, ◌>>◌, Transport, lift, drive}
use marlin_binary_transfer.Adapters.Machines.{session_machine, file_machine}

-- The errors that end every loop over session events.
abbrev pub session_failure : {E A : Type 0} → Event → Option (Result A (UploadError E))
session_failure fatal_error = some (err (transfer session_fatal_error))
session_failure (timeout sync) = some (err (transfer session_timeout))
session_failure (out_of_sync expected got) =
    some (err (transfer (session_out_of_sync expected got)))
session_failure (synced max_block_size protocol_version) = none
session_failure (ack n) = none
session_failure (resend_requested n) = none
session_failure (ascii_line line) = none

unfoldable pub idle_verdict : {E : Type 0} → Event → Option (Result (Unit {0}) (UploadError E))
idle_verdict (ack n) = some (ok tt)
idle_verdict event = session_failure event

unfoldable pub synced_verdict : {E : Type 0} → Event → Option (Result (Unit {0}) (UploadError E))
synced_verdict (synced max_block_size protocol_version) = some (ok tt)
synced_verdict event = session_failure event

unfoldable pub negotiated_verdict :
    {E : Type 0} → FileEvent → Option (Result Compression (UploadError E))
negotiated_verdict (FileEvent.negotiated version compression) = some (ok compression)
negotiated_verdict (FileEvent.failed error) = some (err (transfer error))
negotiated_verdict _ = none

-- `drive_until_event` with its predicate.
unfoldable pub event_verdict :
    {E : Type 0} → (FileEvent → Bool) → FileEvent → Option (Result (Unit {0}) (UploadError E))
event_verdict pred (FileEvent.failed error) = some (err (transfer error))
event_verdict pred event = elim (pred event) [ true ↦ some (ok tt) | false ↦ none ]

abbrev pub is_opened_event : FileEvent → Bool
is_opened_event FileEvent.opened = true
is_opened_event _ = false

abbrev pub is_write_acked : FileEvent → Bool
is_write_acked FileEvent.write_acked = true
is_write_acked _ = false

abbrev pub is_closed_event : FileEvent → Bool
is_closed_event FileEvent.closed = true
is_closed_event _ = false

-- `.unwrap_or(0)`.
abbrev pub or_zero : Option ℕ → ℕ
or_zero none = 0
or_zero (some n) = n

-- `payload.chunks(size)` for a size that is not 0; the fuel is the length of the payload.
unfoldable pub chunks_of : (fuel size : ℕ) → Bytes → List Bytes
chunks_of fuel size [] = []
chunks_of zero size (b ∷ bytes) = []
chunks_of (suc fuel) size (b ∷ bytes) =
    take size (b ∷ bytes) ∷ chunks_of fuel size (drop size (b ∷ bytes))

unfoldable pub chunks : (size : ℕ) → Bytes → List Bytes
unfolding chunks_of
chunks size payload = chunks_of (length payload) size payload

-- The payload of the WRITE packets. The crate is given if the feature `heatshrink` is on.
abbrev pub compressed : {E : Type 0} → Result Bytes HeatshrinkError → Result Bytes (UploadError E)
compressed (ok bytes) = ok bytes
compressed (err e) = err (heatshrink_error e)

unfoldable pub payload_of :
    {E : Type 0} → Option Heatshrink → Compression → Bytes → Checked (Result Bytes (UploadError E))
payload_of feature uncompressed source = done (ok source)
payload_of (some crate) (heatshrink window lookahead) source =
    done (compressed (compress crate source window lookahead))
payload_of none (heatshrink window lookahead) source = done (err compression_feature_disabled)
payload_of feature auto source = panic

abbrev pub at : {S E A : Type 0} → S → Checked (Result A E) → Checked (S × Result A E)
at s (done r) = done (s, r)
at s panic = panic
at s stuck = stuck

abbrev pub read_source : {E : Type 0} → Result Bytes E → Result Bytes (UploadError E)
read_source (ok bytes) = ok bytes
read_source (err e) = err (io e)

-- The transfer's result and, of the transfer, the session that it gives back.
abbrev pub dropped :
    {T E A : Type 0}
    → Checked ((T × FileTransfer) × Result A E)
    → Checked ((T × Session) × Result A E)
dropped (done ((t, ft), r)) = done ((t, ft.session), r)
dropped panic = panic
dropped stuck = stuck

module _ {T E : Type 0} (env : Transport T E) where
  -- A call that is given `Instant::now()`.
  abbrev pub call : {X : Type 0} → (X → ℕ → Checked X) → Run (T × X) (UploadError E) (Unit {0})
  call f (t, x) = let (t', now) = env.now t in lift t' (f x now)

  unfoldable pub drive_session_until_idle : Run (T × Session) (UploadError E) (Unit {0})
  drive_session_until_idle =
      drive env session_machine (stalled "control close not acked") idle_verdict 200

  unfoldable pub drive_session_until_synced : Run (T × Session) (UploadError E) (Unit {0})
  drive_session_until_synced = drive env session_machine handshake_failed synced_verdict 200

  unfoldable pub drive_until_negotiated : Run (T × FileTransfer) (UploadError E) Compression
  drive_until_negotiated =
      drive env file_machine (stalled "negotiation did not complete") negotiated_verdict 200

  unfoldable pub drive_until_event :
      (FileEvent → Bool) → Run (T × FileTransfer) (UploadError E) (Unit {0})
  drive_until_event pred =
      drive env file_machine (stalled "event did not arrive in time") (event_verdict pred) 200

  -- The progress callback, if there is one.
  abbrev pub report :
      Option (T → Progress → T) → Progress → Run (T × FileTransfer) (UploadError E) (Unit {0})
  report none progress s = done (s, ok tt)
  report (some callback) progress (t, ft) = done ((callback t progress, ft), ok tt)

  -- The loop over the chunks.
  unfoldable pub write_chunks :
      Option (T → Progress → T)
      → List Bytes
      → UploadStats
      → Run (T × FileTransfer) (UploadError E) UploadStats
  write_chunks progress [] stats = pure stats
  write_chunks progress (chunk ∷ rest) stats = do
    call (λ ft now. write ft chunk now)
    drive_until_event is_write_acked
    let sent : UploadStats = record stats {
      bytes_sent = stats.bytes_sent + length chunk;
      chunks_sent = stats.chunks_sent + 1;
    }
    report progress (record {
      bytes_sent = sent.bytes_sent;
      chunks_sent = sent.chunks_sent;
      source_bytes = sent.source_bytes;
    })
    write_chunks progress rest sent

  -- What `upload` does with the `FileTransfer`. `source` is the outcome of `src.read_to_end(..)`.
  unfoldable pub transfer_file :
      Option Heatshrink
      → (source : Result Bytes E) → UploadOptions T
      → (device_max : ℕ) → Run (T × FileTransfer) (UploadError E) UploadStats
  unfolding write_chunks
  transfer_file feature source options device_max = do
    call (λ ft now. query ft options.compression now)
    negotiated ← drive_until_negotiated
    call (λ ft now. open_file ft options.dest_filename options.dummy now)
    drive_until_event is_opened_event
    source_bytes ← λ s. done (s, read_source source)
    payload ← λ s. at s (payload_of feature negotiated source_bytes)
    stats ←
        write_chunks options.progress
          (chunks (resolve_chunk_size options.chunk_size device_max) payload)
          (record {
            source_bytes = length source_bytes;
            bytes_sent = 0;
            chunks_sent = 0;
            compression = negotiated;
          })
    call close
    drive_until_event is_closed_event
    pure stats

  -- `FileTransfer::new(&mut session)` until `drop(ft)`.
  abbrev pub with_transfer :
      {A : Type 0} → Run (T × FileTransfer) (UploadError E) A → Run (T × Session) (UploadError E) A
  with_transfer m (t, s) = dropped (m (t, TransferState.new s))

  -- `upload` behind the new session.
  unfoldable pub upload_session :
      Option Heatshrink
      → (source : Result Bytes E) → UploadOptions T
      → Run (T × Session) (UploadError E) UploadStats
  unfolding transfer_file
  upload_session feature source options = do
    call SessionOps.connect
    drive_session_until_synced
    device_max ← λ (s : T × Session). done (s, ok (or_zero (s.1).max_block_size))
    stats ← with_transfer (transfer_file feature source options device_max)
    call (λ s now. SessionOps.send s 0 2 [] now)
    drive_session_until_idle
    pure stats

  abbrev pub left :
      {A : Type 0}
      → Checked ((T × Session) × Result A (UploadError E))
      → Checked (T × Result A (UploadError E))
  left (done ((t, s), r)) = done (t, r)
  left panic = panic
  left stuck = stuck

  abbrev pub triggered :
      {A : Type 0}
      → T × Result (Unit {0}) E
      → (T → Checked (T × Result A (UploadError E)))
      → Checked (T × Result A (UploadError E))
  triggered (t, ok sent) rest = rest t
  triggered (t, err e) rest = done (t, err (io e))

  unfoldable pub upload :
      Option Heatshrink
      → (source : Result Bytes E) → UploadOptions T
      → T
      → Checked (T × Result UploadStats (UploadError E))
  unfolding upload_session
  upload feature source options t =
      triggered (env.write_all t (codes "M28B1\n"))
        (λ t'. left (upload_session feature source options (t', SessionState.new)))
