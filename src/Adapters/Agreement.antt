-- ===== src/Adapters/Agreement.antt =====
-- The uploads of src/adapters/blocking.rs and src/adapters/tokio.rs on ports that behave alike.
use marlin_binary_transfer.Common.{
  ℕ, ◌≡◌, refl, [], ◌∷◌, Checked, done, panic, stuck, ◌∙◌, ap, Option, none, some, Bytes, Result,
  ok, err, Bool, List, length,
}
use marlin_binary_transfer.Heatshrink.{Heatshrink}
use marlin_binary_transfer.Adapters.Types.{UploadOptions, UploadError, Progress, UploadStats}
use marlin_binary_transfer.Adapters.Upload as Upload
use marlin_binary_transfer.Adapters.Chunks.{resolve_chunk_size}
use marlin_binary_transfer.Text.{codes}
use marlin_binary_transfer.Session.State.{
  Session, Event, synced, ack, resend_requested, ascii_line, fatal_error, out_of_sync, timeout,
}
use marlin_binary_transfer.Session.State as SessionState
use marlin_binary_transfer.Session.Operations as SessionOps
use marlin_binary_transfer.Transfer.State.{
  Compression, uncompressed, heatshrink, auto, FileEvent, FileTransfer,
}
use marlin_binary_transfer.Transfer.State as TransferState
use marlin_binary_transfer.Transfer.Operations.{query, open_file, write, close}
use marlin_binary_transfer.Adapters.Machines.{session_machine, file_machine}
use marlin_binary_transfer.Adapters.Upload.{
  is_opened_event, is_write_acked, is_closed_event, at, dropped, idle_verdict, synced_verdict,
  negotiated_verdict, event_verdict, drive_session_until_synced, drive_until_event, call, report,
  write_chunks, payload_of, transfer_file, upload_session, triggered, left, or_zero, chunks,
  read_source,
}
use marlin_binary_transfer.Adapters.Tokio.{
  until_idle, until_synced, until_negotiated, until_event, payload_for, drive_until_synced,
  drive_until, call_now, notify, write_each, transfer_source, upload_source, outcome_of, AsyncPort,
  elapsed, read_with_timeout, then_on, write_next, write_loop, read_some, feed_some, event_next,
  event_loop, round_ends, async_loop,
}
use marlin_binary_transfer.Adapters.Driver.{Machine, bind_result, lift, pure, drive}
use marlin_binary_transfer.Adapters.Blocking as Blocking
use marlin_binary_transfer.Adapters.Blocking.{Port, no_timeout}
use marlin_binary_transfer.Adapters.Tokio as Tokio
use marlin_binary_transfer.Adapters.AsyncLoop.{Agree, bind-bind, async_loop-drive}

module _ {T E : Type 0} (async_port : AsyncPort T E) (port : Port T E)
    (agree : Agree async_port port) where
  -- The events end the loops alike.
  until_idle_lem : (event : Event) → until_idle {E = E} event ≡ idle_verdict event
  unfolding until_idle idle_verdict
  until_idle_lem (synced max_block_size protocol_version) = refl
  until_idle_lem (ack n) = refl
  until_idle_lem (resend_requested n) = refl
  until_idle_lem (ascii_line line) = refl
  until_idle_lem fatal_error = refl
  until_idle_lem (out_of_sync expected got) = refl
  until_idle_lem (timeout sync) = refl

  until_synced_lem : (event : Event) → until_synced {E = E} event ≡ synced_verdict event
  unfolding until_synced synced_verdict
  until_synced_lem (synced max_block_size protocol_version) = refl
  until_synced_lem (ack n) = refl
  until_synced_lem (resend_requested n) = refl
  until_synced_lem (ascii_line line) = refl
  until_synced_lem fatal_error = refl
  until_synced_lem (out_of_sync expected got) = refl
  until_synced_lem (timeout sync) = refl

  until_negotiated_lem :
      (event : FileEvent) → until_negotiated {E = E} event ≡ negotiated_verdict event
  unfolding until_negotiated negotiated_verdict
  until_negotiated_lem (FileEvent.negotiated version compression) = refl
  until_negotiated_lem (FileEvent.failed error) = refl
  until_negotiated_lem _ = refl

  until_event_lem :
      (pred : FileEvent → Bool) (event : FileEvent)
      → until_event {E = E} pred event ≡ event_verdict pred event
  unfolding until_event event_verdict
  until_event_lem pred (FileEvent.failed error) = refl
  until_event_lem pred _ = refl

  module _ {X V A : Type 0} (machine : Machine X V) (exhausted : UploadError E) where
    loops :
        (until verdict : V → Option (Result A (UploadError E)))
        → ((event : V) → until event ≡ verdict event)
        → (s : T × X)
        → async_loop async_port machine exhausted until 200 s
          ≡ drive (Blocking.transport port) machine exhausted verdict 200 s
    loops until verdict h s =
        async_loop-drive async_port port agree machine exhausted until 200 s
        ∙ ap (λ v. drive (Blocking.transport port) machine exhausted v 200 s) (λ i event. h event i)

  idles :
      (s : T × Session)
      → Tokio.drive_session_until_idle async_port s
        ≡ Upload.drive_session_until_idle (Blocking.transport port) s
  unfolding Tokio.drive_session_until_idle Upload.drive_session_until_idle
  idles s = loops session_machine _ _ _ until_idle_lem s

  syncs :
      (s : T × Session)
      → drive_until_synced async_port s ≡ drive_session_until_synced (Blocking.transport port) s
  unfolding drive_until_synced drive_session_until_synced
  syncs s = loops session_machine _ _ _ until_synced_lem s

  negotiates :
      (s : T × FileTransfer)
      → Tokio.drive_until_negotiated async_port s
        ≡ Upload.drive_until_negotiated (Blocking.transport port) s
  unfolding Tokio.drive_until_negotiated Upload.drive_until_negotiated
  negotiates s = loops file_machine _ _ _ until_negotiated_lem s

  drives_until :
      (pred : FileEvent → Bool) (s : T × FileTransfer)
      → drive_until async_port pred s ≡ drive_until_event (Blocking.transport port) pred s
  unfolding drive_until drive_until_event
  drives_until pred s = loops file_machine _ _ _ (until_event_lem pred) s

  calls :
      {X : Type 0} (f : X → ℕ → Checked X) (s : T × X)
      → call_now async_port f s ≡ call (Blocking.transport port) f s
  calls f (t, x) = ap (λ (c : T × ℕ). lift c.0 (f x c.1)) (agree.clocks t)

  notifies :
      (progress : Option (T → Progress → T)) (stats : UploadStats) (s : T × FileTransfer)
      → notify async_port progress stats s
        ≡ report
            (Blocking.transport port)
            progress
            (record {
              bytes_sent = stats.bytes_sent;
              chunks_sent = stats.chunks_sent;
              source_bytes = stats.source_bytes;
            })
            s
  notifies none stats s = refl
  notifies (some callback) stats (t, ft) = refl

  write_each-write_chunks :
      (progress : Option (T → Progress → T)) (pieces : List Bytes) (stats : UploadStats)
      (s : T × FileTransfer)
      → write_each async_port progress pieces stats s
        ≡ write_chunks (Blocking.transport port) progress pieces stats s
  unfolding write_each write_chunks
  write_each-write_chunks progress [] stats s = refl
  write_each-write_chunks progress (chunk ∷ rest) stats s =
      bind-bind (calls (λ ft now. write ft chunk now) s) (λ _ s1.
        bind-bind (drives_until is_write_acked s1) (λ _ s2.
          bind-bind (notifies progress _ s2) (λ _ s3. write_each-write_chunks progress rest _ s3)))

  payload_for-payload_of :
      (feature : Option Heatshrink) (compression : Compression) (source : Bytes)
      → payload_for {E = E} feature compression source ≡ payload_of feature compression source
  unfolding payload_for payload_of
  payload_for-payload_of feature uncompressed source = refl
  payload_for-payload_of none (heatshrink window lookahead) source = refl
  payload_for-payload_of (some crate) (heatshrink window lookahead) source = refl
  payload_for-payload_of feature auto source = refl

  transfers :
      (feature : Option Heatshrink) (source : Result Bytes E) (options : UploadOptions T)
      (device_max : ℕ) (s : T × FileTransfer)
      → transfer_source async_port feature source options device_max s
        ≡ transfer_file (Blocking.transport port) feature source options device_max s
  unfolding transfer_source transfer_file
  transfers feature source options device_max s =
      bind-bind (calls (λ ft now. query ft options.compression now) s) (λ _ s1.
        bind-bind (negotiates s1) (λ negotiated s2.
          bind-bind (calls (λ ft now. open_file ft options.dest_filename options.dummy now) s2)
            (λ _ s3. bind-bind (drives_until is_opened_event s3) (λ _ s4.
              bind-bind {m = done (s4, read_source source)} refl (λ bytes s5.
                bind-bind (ap (at s5) (payload_for-payload_of feature negotiated bytes))
                  (λ payload s6.
                    bind-bind
                      (write_each-write_chunks options.progress
                        (chunks (resolve_chunk_size options.chunk_size device_max) payload)
                        (record {
                          source_bytes = length bytes;
                          bytes_sent = 0;
                          chunks_sent = 0;
                          compression = negotiated;
                        })
                        s6)
                      (λ stats s7. bind-bind (calls close s7) (λ _ s8.
                        ap (λ m. bind_result m (λ _. pure stats))
                          (drives_until is_closed_event s8)))))))))

  uploads :
      (feature : Option Heatshrink) (source : Result Bytes E) (options : UploadOptions T)
      (s : T × Session)
      → upload_source async_port feature source options s
        ≡ upload_session (Blocking.transport port) feature source options s
  unfolding upload_source upload_session
  uploads feature source options s = bind-bind (calls SessionOps.connect s) (λ _ s1.
      bind-bind (syncs s1) (λ _ s2.
        bind-bind {m = done (s2, ok (or_zero (s2.1).max_block_size))} refl (λ device_max s3.
          bind-bind
            (ap dropped
              (transfers feature source options device_max (s3.0, TransferState.new s3.1)))
            (λ stats s4.
              bind-bind (calls (λ s now. SessionOps.send s 0 2 [] now) s4)
                (λ _ s5. ap (λ m. bind_result m (λ _. pure stats)) (idles s5))))))

  -- On ports that agree the two uploads do the same, whatever the source, the options, the ports and
  -- the clock are and however they fail: from every state of the surroundings they end alike, with
  -- the same result and in the same state.
  pub upload-upload :
      (feature : Option Heatshrink) (source : Result Bytes E) (options : UploadOptions T) (t : T)
      → Tokio.upload async_port feature source options t
        ≡ Blocking.upload port feature source options t
  unfolding Tokio.upload Blocking.upload Upload.upload
  upload-upload feature source options t =
      ap
        (λ w.
          outcome_of async_port (
            then_on async_port w SessionState.new
              (upload_source async_port feature source options)))
        (agree.writes t (codes "M28B1\n"))
      ∙ triggers (port.write_all t (codes "M28B1\n"))
    where
      gives :
          (r : Checked ((T × Session) × Result UploadStats (UploadError E)))
          → outcome_of async_port r ≡ left (Blocking.transport port) r
      gives (done ((t', s), r)) = refl
      gives panic = refl
      gives stuck = refl

      triggers :
          (w : T × Result (Unit {0}) E)
          → outcome_of async_port (
              then_on async_port w SessionState.new
                (upload_source async_port feature source options))
            ≡ triggered (Blocking.transport port) w (λ t'. left (Blocking.transport port) (
                upload_session
                  (Blocking.transport port)
                  feature
                  source
                  options
                  (t', SessionState.new)))
      triggers (t', ok sent) =
          gives _
          ∙ ap (left (Blocking.transport port))
              (uploads feature source options (t', SessionState.new))
      triggers (t', err e) = refl
