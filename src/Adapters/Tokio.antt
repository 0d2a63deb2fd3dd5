-- ===== src/Adapters/Tokio.antt =====
-- src/adapters/tokio.rs over a port that implements `AsyncRead` and `AsyncWrite`, which is a
-- parameter, like the timer of the runtime. An `.await` ends with the outcome of what it awaits.
use marlin_binary_transfer.Common.{
  ℕ, zero, suc, ◌+◌, Bool, true, false, Option, none, some, List, [], ◌∷◌, Bytes, length, Result,
  ok, err, Checked, done, panic, stuck,
}
use marlin_binary_transfer.Text.{codes}
use marlin_binary_transfer.Heatshrink.{Heatshrink, compress}
use marlin_binary_transfer.Session.State.{
  Session, Event, synced, ack, resend_requested, ascii_line, fatal_error, out_of_sync, timeout,
}
use marlin_binary_transfer.Session.State as SessionState
use marlin_binary_transfer.Session.Operations as SessionOps
use marlin_binary_transfer.Transfer.State.{
  Compression, uncompressed, heatshrink, auto, session_timeout, session_fatal_error,
  session_out_of_sync, FileEvent, FileTransfer,
}
use marlin_binary_transfer.Transfer.State as TransferState
use marlin_binary_transfer.Transfer.Operations.{query, open_file, write, close}
use marlin_binary_transfer.Adapters.Chunks.{resolve_chunk_size}
use marlin_binary_transfer.Adapters.Types.{
  Progress, UploadOptions, UploadStats, UploadError, io, transfer, stalled, handshake_failed,
  compression_feature_disabled,
}
use marlin_binary_transfer.Adapters.Driver.{
  Run, pure, throw, ◌>>=◌, ◌>>◌, Machine, lift, bind_result,
}
use marlin_binary_transfer.Adapters.Machines.{session_machine, file_machine}
use marlin_binary_transfer.Adapters.Upload.{
  is_opened_event, is_write_acked, is_closed_event, or_zero, chunks, compressed, at, read_source,
  dropped,
}

-- `read_within` is `tokio::time::timeout(wait, transport.read(buf))`: `none` if the time elapses.
pub record AsyncPort (T E : Type 0) : Type 0 where
  pub write_all : T → Bytes → T × Result (Unit {0}) E
  pub read_within : T → (wait : ℕ) → T × Option (Result Bytes E)
  pub now : T → T × ℕ

-- The arms that end both loops over session events.
abbrev pub session_ends : {E A : Type 0} → Event → Option (Result A (UploadError E))
session_ends fatal_error = some (err (transfer session_fatal_error))
session_ends (timeout sync) = some (err (transfer session_timeout))
session_ends (out_of_sync expected got) = some (err (transfer (session_out_of_sync expected got)))
session_ends _ = none

-- The `match` on an event in each of the four loops.
unfoldable pub until_idle : {E : Type 0} → Event → Option (Result (Unit {0}) (UploadError E))
until_idle (ack n) = some (ok tt)
until_idle event = session_ends event

unfoldable pub until_synced : {E : Type 0} → Event → Option (Result (Unit {0}) (UploadError E))
until_synced (synced max_block_size protocol_version) = some (ok tt)
until_synced event = session_ends event

unfoldable pub until_negotiated :
    {E : Type 0} → FileEvent → Option (Result Compression (UploadError E))
until_negotiated (FileEvent.negotiated version compression) = some (ok compression)
until_negotiated (FileEvent.failed error) = some (err (transfer error))
until_negotiated _ = none

unfoldable pub until_event :
    {E : Type 0} → (FileEvent → Bool) → FileEvent → Option (Result (Unit {0}) (UploadError E))
until_event pred (FileEvent.failed error) = some (err (transfer error))
until_event pred event = elim (pred event) [ true ↦ some (ok tt) | false ↦ none ]

-- The payload of the WRITE packets. The crate is given if the feature `heatshrink` is on.
unfoldable pub payload_for :
    {E : Type 0} → Option Heatshrink → Compression → Bytes → Checked (Result Bytes (UploadError E))
payload_for feature uncompressed source = done (ok source)
payload_for (some crate) (heatshrink window lookahead) source =
    done (compressed (compress crate source window lookahead))
payload_for none (heatshrink window lookahead) source = done (err compression_feature_disabled)
payload_for feature auto source = panic

module _ {T E : Type 0} (port : AsyncPort T E) where
  abbrev pub elapsed : T × Option (Result Bytes E) → T × Result Bytes (UploadError E)
  elapsed (t, some (ok bytes)) = (t, ok bytes)
  elapsed (t, some (err e)) = (t, err (io e))
  elapsed (t, none) = (t, ok [])

  unfoldable pub read_with_timeout : T → (wait : ℕ) → T × Result Bytes (UploadError E)
  read_with_timeout t wait = elapsed (port.read_within t wait)

  -- `transport.write_all(..).await?`, and then the rest.
  abbrev pub then_on :
      {X A : Type 0}
      → T × Result (Unit {0}) E
      → X
      → Run (T × X) (UploadError E) A
      → Checked ((T × X) × Result A (UploadError E))
  then_on (t, ok sent) x rest = rest (t, x)
  then_on (t, err e) x rest = done ((t, x), err (io e))

  module _ {X V : Type 0} (machine : Machine X V) where
    abbrev pub write_next :
        X × Option Bytes
        → T
        → Run (T × X) (UploadError E) (Unit {0})
        → Checked ((T × X) × Result (Unit {0}) (UploadError E))
    write_next (x, none) t rest = done ((t, x), ok tt)
    write_next (x, some out) t rest = then_on (port.write_all t out) x rest

    -- `while let Some(out) = ..poll_outbound()`; a round for each chunk, and one more.
    unfoldable pub write_loop : ℕ → Run (T × X) (UploadError E) (Unit {0})
    write_loop zero s = stuck
    write_loop (suc fuel) (t, x) = write_next (machine.poll_outbound x) t (write_loop fuel)

    abbrev pub read_some : Run (T × X) (UploadError E) Bytes
    read_some (t, x) =
        let (t', r) = read_with_timeout t (machine.response_timeout x) in done ((t', x), r)

    -- `if n > 0 { ..feed(&buf[..n], Instant::now()); }`.
    abbrev pub feed_some : Bytes → Run (T × X) (UploadError E) (Unit {0})
    feed_some [] s = done (s, ok tt)
    feed_some (b ∷ bytes) (t, x) =
        let (t', now) = port.now t in lift t' (machine.feed x (b ∷ bytes) now)

    module _ {A : Type 0} (exhausted : UploadError E)
        (until : V → Option (Result A (UploadError E))) where
      abbrev pub event_next :
          X × Option V
          → (X → Checked (X × Option (Result A (UploadError E))))
          → Checked (X × Option (Result A (UploadError E)))
      event_next (x, none) rest = done (x, none)
      event_next (x, some event) rest = elim (until event) [
        | none ↦ rest x
        | some r ↦ done (x, some r)
      ]

      -- `while let Some(evt) = ..poll()`.
      unfoldable pub event_loop : ℕ → X → Checked (X × Option (Result A (UploadError E)))
      event_loop zero x = stuck
      event_loop (suc fuel) x = event_next (machine.poll x) (event_loop fuel)

      -- The end of a round: it returns, or it ticks and the next round follows.
      abbrev pub round_ends :
          T
          → Checked (X × Option (Result A (UploadError E)))
          → Run (T × X) (UploadError E) A
          → Checked ((T × X) × Result A (UploadError E))
      round_ends t (done (x, some r)) rest = done ((t, x), r)
      round_ends t (done (x, none)) rest =
          let (t', now) = port.now t in bind_result (lift t' (machine.tick x now)) (λ _. rest)
      round_ends t panic rest = panic
      round_ends t stuck rest = stuck

      abbrev pub poll_and_tick : Run (T × X) (UploadError E) A → Run (T × X) (UploadError E) A
      poll_and_tick rest (t, x) = round_ends t (event_loop (suc (machine.events_left x)) x) rest

      abbrev pub write_outbound : Run (T × X) (UploadError E) (Unit {0})
      write_outbound (t, x) = write_loop (suc (machine.outbound_left x)) (t, x)

      -- `for _ in 0..rounds { .. }`, and then `Err(exhausted)`.
      unfoldable pub async_loop : (rounds : ℕ) → Run (T × X) (UploadError E) A
      unfolding write_loop event_loop
      async_loop zero = throw exhausted
      async_loop (suc rounds) = do
        write_outbound
        bytes ← read_some
        feed_some bytes
        poll_and_tick (async_loop rounds)

  unfoldable pub drive_session_until_idle : Run (T × Session) (UploadError E) (Unit {0})
  drive_session_until_idle =
      async_loop session_machine (stalled "control close not acked") until_idle 200

  unfoldable pub drive_until_synced : Run (T × Session) (UploadError E) (Unit {0})
  drive_until_synced = async_loop session_machine handshake_failed until_synced 200

  unfoldable pub drive_until_negotiated : Run (T × FileTransfer) (UploadError E) Compression
  drive_until_negotiated =
      async_loop file_machine (stalled "negotiation did not complete") until_negotiated 200

  unfoldable pub drive_until :
      (FileEvent → Bool) → Run (T × FileTransfer) (UploadError E) (Unit {0})
  drive_until pred =
      async_loop file_machine (stalled "event did not arrive in time") (until_event pred) 200

  -- A call that is given `Instant::now()`.
  abbrev pub call_now : {X : Type 0} → (X → ℕ → Checked X) → Run (T × X) (UploadError E) (Unit {0})
  call_now f (t, x) = let (t', now) = port.now t in lift t' (f x now)

  -- The progress callback, if there is one.
  abbrev pub notify :
      Option (T → Progress → T) → UploadStats → Run (T × FileTransfer) (UploadError E) (Unit {0})
  notify none stats s = done (s, ok tt)
  notify (some callback) stats (t, ft) = done (
    (
      callback t (record {
        bytes_sent = stats.bytes_sent;
        chunks_sent = stats.chunks_sent;
        source_bytes = stats.source_bytes;
      }),
      ft,
    ),
    ok tt,
  )

  -- The loop over the chunks.
  unfoldable pub write_each :
      Option (T → Progress → T)
      → List Bytes
      → UploadStats
      → Run (T × FileTransfer) (UploadError E) UploadStats
  write_each progress [] stats = pure stats
  write_each progress (chunk ∷ rest) stats = do
    call_now (λ ft now. write ft chunk now)
    drive_until is_write_acked
    let sent : UploadStats = record stats {
      bytes_sent = stats.bytes_sent + length chunk;
      chunks_sent = stats.chunks_sent + 1;
    }
    notify progress sent
    write_each progress rest sent

  -- From `FileTransfer::new` on. `source` is the outcome of `src.read_to_end(..).await`.
  unfoldable pub transfer_source :
      Option Heatshrink
      → (source : Result Bytes E) → UploadOptions T
      → (device_max : ℕ) → Run (T × FileTransfer) (UploadError E) UploadStats
  unfolding write_each
  transfer_source feature source options device_max = do
    call_now (λ ft now. query ft options.compression now)
    negotiated ← drive_until_negotiated
    call_now (λ ft now. open_file ft options.dest_filename options.dummy now)
    drive_until is_opened_event
    source_bytes ← λ s. done (s, read_source source)
    payload ← λ s. at s (payload_for feature negotiated source_bytes)
    let chunk_size = resolve_chunk_size options.chunk_size device_max
    stats ← write_each options.progress (chunks chunk_size payload) (record {
      source_bytes = length source_bytes;
      bytes_sent = 0;
      chunks_sent = 0;
      compression = negotiated;
    })
    call_now close
    drive_until is_closed_event
    pure stats

  abbrev pub in_transfer :
      {A : Type 0} → Run (T × FileTransfer) (UploadError E) A → Run (T × Session) (UploadError E) A
  in_transfer m (t, s) = dropped (m (t, TransferState.new s))

  -- `upload` behind the trigger.
  unfoldable pub upload_source :
      Option Heatshrink
      → (source : Result Bytes E) → UploadOptions T
      → Run (T × Session) (UploadError E) UploadStats
  unfolding transfer_source
  upload_source feature source options = do
    call_now SessionOps.connect
    drive_until_synced
    device_max ← λ (s : T × Session). done (s, ok (or_zero (s.1).max_block_size))
    stats ← in_transfer (transfer_source feature source options device_max)
    call_now (λ s now. SessionOps.send s 0 2 [] now)
    drive_session_until_idle
    pure stats

  abbrev pub outcome_of :
      Checked ((T × Session) × Result UploadStats (UploadError E))
      → Checked (T × Result UploadStats (UploadError E))
  outcome_of (done ((t, s), r)) = done (t, r)
  outcome_of panic = panic
  outcome_of stuck = stuck

  unfoldable pub upload :
      Option Heatshrink
      → (source : Result Bytes E) → UploadOptions T
      → T
      → Checked (T × Result UploadStats (UploadError E))
  unfolding upload_source
  upload feature source options t = outcome_of (
      then_on (port.write_all t (codes "M28B1\n")) SessionState.new
        (upload_source feature source options))
