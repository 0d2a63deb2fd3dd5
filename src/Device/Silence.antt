-- ===== src/Device/Silence.antt =====
-- The driving loop and `upload` of src/adapters/blocking.rs on a port that takes every byte and
-- never has one to read.
use marlin_binary_transfer.Common.{
  ℕ, zero, suc, ◌-◌, ◌≡◌, refl, ◌∙◌, true, false, Bool-cases, inl, inr, leb, if◌then◌else◌, Option,
  none, some, List, [], ◌∷◌, Bytes, length, Result, ok, err, done,
}
use marlin_binary_transfer.Session.State.{
  Session, InFlight, Event, timeout, new, poll_outbound, pop_outbound, poll_event, pop_event,
}
use marlin_binary_transfer.Session.Operations as SessionOps
use marlin_binary_transfer.Session.Operations.{tick_from, dispatch_if_idle, dispatch_from}
use marlin_binary_transfer.Transfer.State.{session_timeout}
use marlin_binary_transfer.Heatshrink.{Heatshrink}
use marlin_binary_transfer.Adapters.Types.{UploadOptions, UploadError, transfer, handshake_failed}
use marlin_binary_transfer.Adapters.Driver.{
  Transport, Machine, flush_loop, flush, receive, feed, poll_loop, poll, tick, round, drive,
}
use marlin_binary_transfer.Adapters.Machines.{session_machine}
use marlin_binary_transfer.Adapters.Host.{IsHost, put_session, session-IsHost}
use marlin_binary_transfer.Adapters.FirstRound.{Unanswered, drive-Unanswered}
use marlin_binary_transfer.Adapters.Blocking as Blocking
use marlin_binary_transfer.Adapters.Blocking.{Port}
use marlin_binary_transfer.Adapters.Upload as Upload
use marlin_binary_transfer.Adapters.Upload.{
  synced_verdict, drive_session_until_synced, upload_session,
}
use marlin_binary_transfer.Device.Hosts.{pending}
use marlin_binary_transfer.Device.Greeting.{sync_packet, sync_flight, connect-greeting}
use marlin_binary_transfer.Session.Build.{packet}
use marlin_binary_transfer.Codec.Frame.{frame}

-- The state counts the readings of the clock.
abbrev pub silent_port : (clock : ℕ → ℕ) → Port ℕ (Unit {0})
silent_port clock = record {
  write_all = λ calls bytes. (calls, ok tt);
  read = λ calls. (calls, err tt);
  is_timed_out = λ e. true;
  now = λ calls. (suc calls, clock calls);
}

abbrev pub silent : (clock : ℕ → ℕ) → Transport ℕ (Unit {0})
silent clock = Blocking.transport (silent_port clock)

-- It has given up.
abbrev pub expired : InFlight → Session → Session
expired flight s = record s {
  outbound = [];
  in_flight = none;
  queued = [];
  events = timeout flight.sync ∷ [];
  inbound_buf = [];
}

tick-pending :
    (flight : InFlight) (s : Session) (now : ℕ)
    → leb s.total_timeout (now - flight.first_sent) ≡ false
    → (outbound : List Bytes) × (last : ℕ) × (SessionOps.tick (pending [] flight s) now
        ≡ done (pending outbound (record flight { last_sent = last }) s))
unfolding SessionOps.tick tick_from
tick-pending flight s now e = elim (Bool-cases (leb s.response_timeout (now - flight.last_sent))) [
  | inl f ↦ (flight.bytes ∷ [], now, rw (e, f))
  | inr f ↦ ([], flight.last_sent, rw (e, f))
]

tick-expired :
    (flight : InFlight) (s : Session) (now : ℕ)
    → leb s.total_timeout (now - flight.first_sent) ≡ true
    → SessionOps.tick (pending [] flight s) now ≡ done (expired flight s)
unfolding SessionOps.tick tick_from dispatch_if_idle dispatch_from
tick-expired flight s now e = rw e

-- What the loop ends with: the clock has reached the total timeout in a round before the last, or
-- the rounds are over.
unfoldable pub failure :
    {E : Type 0} (clock : ℕ → ℕ) (first total : ℕ) (expiry exhausted : E) (rounds calls : ℕ) → E
failure clock first total expiry exhausted zero calls = exhausted
failure clock first total expiry exhausted (suc zero) calls = exhausted
failure clock first total expiry exhausted (suc (suc rounds)) calls =
    let rest = failure clock first total expiry exhausted (suc rounds) (suc calls) in
    if leb total (clock calls - first) then expiry else rest

module _ (clock : ℕ → ℕ) {X V : Type 0} (machine : Machine X V) (put : Session → X)
    (host : IsHost machine put) where
  flush_loop-pending :
      (outbound : List Bytes) (flight : InFlight) (s : Session) (calls : ℕ)
      → flush_loop
          (silent clock)
          machine
          (suc (length outbound))
          (calls, put (pending outbound flight s))
        ≡ done ((calls, put (pending [] flight s)), ok tt)
  unfolding flush_loop poll_outbound pop_outbound
  flush_loop-pending [] flight s calls = rw (host.to_send (pending [] flight s))
  flush_loop-pending (out ∷ outbound) flight s calls =
      rw (host.to_send (pending (out ∷ outbound) flight s))
        (flush_loop-pending outbound flight s calls)

  flush-pending :
      (outbound : List Bytes) (flight : InFlight) (s : Session) (calls : ℕ)
      → flush (silent clock) machine (calls, put (pending outbound flight s))
        ≡ done ((calls, put (pending [] flight s)), ok tt)
  unfolding flush
  flush-pending outbound flight s calls =
      rw (host.counted (pending outbound flight s)) (flush_loop-pending outbound flight s calls)

  module _ {A : Type 0} (verdict : V → Option (Result A (UploadError (Unit {0}))))
      (expiry exhausted : UploadError (Unit {0})) where
    poll-pending :
        (flight : InFlight) (s : Session) (calls : ℕ)
        → poll (silent clock) machine verdict (calls, put (pending [] flight s))
          ≡ done ((calls, put (pending [] flight s)), ok none)
    unfolding poll poll_loop
    poll-pending flight s calls = rw (host.silent (pending [] flight s))

    round-pending :
        (outbound : List Bytes) (flight : InFlight) (s s' : Session) (calls : ℕ)
        → SessionOps.tick (pending [] flight s) (clock calls) ≡ done s'
        → Unanswered
            (silent clock)
            machine
            verdict
            calls
            (put (pending outbound flight s))
            (suc calls)
            (put s')
    unfolding receive feed tick
    round-pending outbound flight s s' calls e = record {
      written = calls;
      sent = put (pending [] flight s);
      read = calls;
      bytes = [];
      fed_at = calls;
      fed = put (pending [] flight s);
      polled = put (pending [] flight s);
      flushes = flush-pending outbound flight s calls;
      reads = refl;
      feeds = refl;
      polls = poll-pending flight s calls;
      ticks = rw (host.ticks (pending [] flight s) s' (clock calls) e);
    }

    -- The event of the timeout ends the loop.
    abbrev pub GivesUp : Type 0
    GivesUp =
        (flight : InFlight) (s : Session)
        → (x : X) × (event : V) × (machine.poll (put (expired flight s)) ≡ (x, some event))
          × (verdict event ≡ some (err expiry))

    drive-expired :
        (rounds : ℕ) (flight : InFlight) (s : Session) (calls : ℕ)
        → GivesUp
        → (x : X) × (drive
              (silent clock)
              machine
              exhausted
              verdict
              (suc rounds)
              (calls, put (expired flight s))
            ≡ done ((calls, x), err expiry))
    unfolding drive round flush flush_loop poll_outbound pop_outbound receive feed poll poll_loop
    drive-expired rounds flight s calls gives_up =
        let (x, event, polls, verdict_of) = gives_up flight s in
        (
          x,
          rw (host.counted (expired flight s), host.to_send (expired flight s), polls, verdict_of),
        )

    goes_on :
        (rounds : ℕ) (outbound : List Bytes) (flight : InFlight) (s s' : Session) (calls : ℕ)
        → SessionOps.tick (pending [] flight s) (clock calls) ≡ done s'
        → drive
            (silent clock)
            machine
            exhausted
            verdict
            (suc rounds)
            (calls, put (pending outbound flight s))
          ≡ drive (silent clock) machine exhausted verdict rounds (suc calls, put s')
    goes_on rounds outbound flight s s' calls e =
        drive-Unanswered (silent clock) machine exhausted verdict rounds calls (suc calls)
          (put (pending outbound flight s)) (put s') (round-pending outbound flight s s' calls e)

    -- The loop ends with an error: that of the timeout, if the clock has reached the total timeout in
    -- a round before the last, and the one for the end of the rounds otherwise.
    pub drive-pending :
        (rounds : ℕ) (outbound : List Bytes) (flight : InFlight) (s : Session) (calls : ℕ)
        → GivesUp
        → (after : ℕ) × (x : X) × (drive
              (silent clock)
              machine
              exhausted
              verdict
              rounds
              (calls, put (pending outbound flight s))
            ≡ done (
              (after, x),
              err (failure clock flight.first_sent s.total_timeout expiry exhausted rounds calls),
            ))
    unfolding failure
    drive-pending zero outbound flight s calls gives_up =
        (calls, put (pending outbound flight s), unfold drive in refl)
    drive-pending (suc zero) outbound flight s calls gives_up =
        elim (Bool-cases (leb s.total_timeout (clock calls - flight.first_sent))) [
          | inl e ↦ (
            suc calls,
            put (expired flight s),
            goes_on 0 outbound flight s (expired flight s) calls
                  (tick-expired flight s (clock calls) e)
                ∙ unfold drive in refl,
          )
          | inr e ↦
              let (left, last, t) = tick-pending flight s (clock calls) e in
              (
                suc calls,
                put (pending left (record flight { last_sent = last }) s),
                goes_on 0 outbound flight s (pending left (record flight { last_sent = last }) s)
                      calls t
                    ∙ unfold drive in refl,
              )
        ]
    drive-pending (suc (suc rounds)) outbound flight s calls gives_up =
        elim (Bool-cases (leb s.total_timeout (clock calls - flight.first_sent))) [
          | inl e ↦
              let (x, d) = drive-expired rounds flight s (suc calls) gives_up in
              (
                suc calls,
                x,
                rw e (
                    goes_on (suc rounds) outbound flight s (expired flight s) calls
                      (tick-expired flight s (clock calls) e)
                    ∙ d),
              )
          | inr e ↦
              let (left, last, t) = tick-pending flight s (clock calls) e in
              let (after, x, d) =
                drive-pending (suc rounds) left (record flight { last_sent = last }) s (suc calls)
                  gives_up in
              (
                after,
                x,
                rw e (
                    goes_on (suc rounds) outbound flight s
                      (pending left (record flight { last_sent = last }) s) calls t
                    ∙ d),
              )
        ]

-- The handshake gives up at the timeout.
synced-GivesUp :
    (flight : InFlight) (s : Session)
    → (x : Session) × (event : Event) × (poll_event (expired flight s) ≡ (x, some event))
      × (synced_verdict {E = Unit {0}} event ≡ some (err (transfer session_timeout)))
unfolding poll_event pop_event synced_verdict
synced-GivesUp flight s =
    (record (expired flight s) { events = [] }, timeout flight.sync, refl, refl)

-- On a port that takes every byte and of which every read times out, `upload` fails, whatever is to be
-- uploaded: it returns the session's timeout if the clock has reached the 20 seconds of the total
-- timeout in one of the first 199 rounds of the handshake, counted from its reading at `connect`, and
-- otherwise that the handshake has failed.
pub upload-silent :
    (clock : ℕ → ℕ) (feature : Option Heatshrink) (source : Result Bytes (Unit {0}))
    (options : UploadOptions ℕ) (calls : ℕ)
    → (after : ℕ) × (Blocking.upload (silent_port clock) feature source options calls
        ≡ done (
          after,
          err (
              failure clock
                (clock calls)
                new.total_timeout
                (transfer session_timeout)
                handshake_failed
                200
                (suc calls)),
        ))
unfolding Blocking.upload Upload.upload upload_session drive_session_until_synced
upload-silent clock feature source options calls =
    let (after, x, d) =
      drive-pending clock session_machine put_session session-IsHost synced_verdict
        (transfer session_timeout) handshake_failed 200 (frame (packet sync_packet 0) ∷ [])
        (sync_flight (clock calls) (clock calls)) new (suc calls) synced-GivesUp in
    (after, rw (connect-greeting (clock calls), d))
