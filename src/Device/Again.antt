-- ===== src/Device/Again.antt =====
-- The driving loop of src/adapters with a device that asks for a packet again: the session sends it
-- again when its response timeout is over.
use marlin_binary_transfer.Common.{
  ℕ, zero, suc, ◌+◌, ◌*◌, ◌≤◌, ◌<◌, ◌≡◌, refl, sym, ◌∙◌, arith, Option, none, [], ◌∷◌, ◌++◌, length,
  length-append, Result, ok, Checked, done,
}
use marlin_binary_transfer.Text.{display}
use marlin_binary_transfer.Text.Plain.{length-display}
use marlin_binary_transfer.Session.State.{
  Session, InFlight, resend_requested, poll_outbound, pop_outbound,
}
use marlin_binary_transfer.Session.Operations as SessionOps
use marlin_binary_transfer.Session.Operations.{tick_from}
use marlin_binary_transfer.Session.Replies.{rs_text, with_newline, feed-rs_text}
use marlin_binary_transfer.Adapters.Types.{UploadError}
use marlin_binary_transfer.Adapters.Driver.{
  Machine, flush_loop, flush, receive, feed, poll_loop, poll, tick, drive,
}
use marlin_binary_transfer.Adapters.Host.{IsHost}
use marlin_binary_transfer.Adapters.FirstRound.{
  flush_one, receive_read, Unanswered, drive-Unanswered,
}
use marlin_binary_transfer.Device.{FakeDevice}
use marlin_binary_transfer.Device.Wire.{DeviceTransport, transport}
use marlin_binary_transfer.Device.Hosts.{pending}
use marlin_binary_transfer.Device.Exchanges.{wire, holding, reads}
use marlin_binary_transfer.Device.Patience.{IsSteady, IsPaced, sent_again, too_early, ticked}

module _ (clock : ℕ → ℕ) {X V : Type 0} (machine : Machine X V) (put : Session → X)
    (host : IsHost machine put) where
  module _ {A : Type 0} (exhausted : UploadError (Unit {0}))
      (verdict : V → Option (Result A (UploadError (Unit {0})))) where
    -- The events of the session that wait are none that end the loop.
    abbrev pub Passes : Session → Type 0
    Passes s =
        (n : ℕ)
        → poll_loop (transport clock) machine verdict
            (suc (machine.events_left (put (record s { events = resend_requested n ∷ [] }))))
            (put (record s { events = resend_requested n ∷ [] }))
          ≡ done (put (record s { events = [] }), none)

    -- A round in which there is nothing to write and nothing to read.
    quiet-Unanswered :
        (d : FakeDevice) (flight : InFlight) (s s' : Session) (calls : ℕ)
        → SessionOps.tick (pending [] flight s) (clock calls) ≡ done s'
        → Unanswered
            (transport clock)
            machine
            verdict
            (wire none d calls)
            (put (pending [] flight s))
            (wire none d (suc calls))
            (put s')
    unfolding flush flush_loop poll_outbound pop_outbound receive feed poll poll_loop tick
    quiet-Unanswered d flight s s' calls e = record {
      written = wire none d calls;
      sent = put (pending [] flight s);
      read = wire none d calls;
      bytes = [];
      fed_at = wire none d calls;
      fed = put (pending [] flight s);
      polled = put (pending [] flight s);
      flushes = rw (host.counted (pending [] flight s), host.to_send (pending [] flight s)) refl;
      reads = refl;
      feeds = refl;
      polls = rw (host.silent (pending [] flight s)) refl;
      ticks = rw (host.ticks (pending [] flight s) s' (clock calls) e) refl;
    }

    -- The loop comes to the sending of the packet again, with rounds left.
    abbrev pub Recovers :
        (flight : InFlight) (s : Session) (d : FakeDevice)
        → Checked ((DeviceTransport × X) × Result A (UploadError (Unit {0})))
        → Type 0
    Recovers flight s d runs =
        (rounds : ℕ) × (last : ℕ) × (calls : ℕ) × (runs
          ≡ drive (transport clock) machine exhausted verdict (suc rounds) (
            wire none d calls,
            put (pending (flight.bytes ∷ []) (record flight { last_sent = last }) s),
          ))

    quiet-Recovers :
        (rounds early : ℕ) (d : FakeDevice) (flight : InFlight) (s : Session) (calls : ℕ)
        → IsSteady clock
        → IsPaced s
        → flight.last_sent + 1_000_000_000 ≤ clock calls + early * 10_000_000
        → early + 2 ≤ rounds
        → flight.last_sent ≡ flight.first_sent
        → clock calls ≤ flight.first_sent + 4_000_000_000
        → Recovers flight s d (
            drive
              (transport clock)
              machine
              exhausted
              verdict
              rounds
              (wire none d calls, put (pending [] flight s)))
    quiet-Recovers zero early d flight s calls steady paced due enough once soon =
        absurd (omega arith)
    quiet-Recovers (suc zero) early d flight s calls steady paced due enough once soon =
        absurd (omega arith)
    quiet-Recovers (suc (suc rounds)) zero d flight s calls steady paced due enough once soon =
        elim (ticked s flight (clock calls) paced (omega arith)) [
          | sent_again e ↦ (
            rounds,
            clock calls,
            suc calls,
            drive-Unanswered (transport clock) machine exhausted verdict (suc rounds)
                (wire none d calls) (wire none d (suc calls)) (put (pending [] flight s)) _
                (quiet-Unanswered d flight s _ calls e),
          )
          | too_early e early ↦ absurd (omega arith)
        ]
    quiet-Recovers (suc (suc rounds)) (suc more) d flight s calls steady paced due enough once
          soon =
        elim (ticked s flight (clock calls) paced (omega arith)) [
          | sent_again e ↦ (
            rounds,
            clock calls,
            suc calls,
            drive-Unanswered (transport clock) machine exhausted verdict (suc rounds)
                (wire none d calls) (wire none d (suc calls)) (put (pending [] flight s)) _
                (quiet-Unanswered d flight s _ calls e),
          )
          | too_early e early ↦
              let (left, last, after, runs) =
                quiet-Recovers (suc rounds) more d flight s (suc calls) steady paced
                  (omega (arith, steady calls)) (omega arith) once (omega (arith, steady calls)) in
              (
                left,
                last,
                after,
                drive-Unanswered (transport clock) machine exhausted verdict (suc rounds)
                      (wire none d calls) (wire none d (suc calls)) (put (pending [] flight s)) _
                      (quiet-Unanswered d flight s _ calls e)
                    ∙ runs,
              )
        ]

    -- The round in which the device asks.
    asked-Unanswered :
        (t : DeviceTransport) (d : FakeDevice) (number : ℕ) (flight : InFlight) (s s' : Session)
        (calls : ℕ)
        → (transport clock).write_all t flight.bytes
          ≡ (holding none (with_newline (rs_text number)) d calls, ok tt)
        → number < 256
        → Passes (pending [] flight s)
        → SessionOps.tick (pending [] flight s) (clock (suc calls)) ≡ done s'
        → Unanswered
            (transport clock)
            machine
            verdict
            t
            (put (pending (flight.bytes ∷ []) flight s))
            (wire none d (suc (suc calls)))
            (put s')
    unfolding flush flush_loop poll_outbound pop_outbound receive feed poll tick
    asked-Unanswered t d number flight s s' calls w h passes e = record {
      written = holding none (with_newline (rs_text number)) d calls;
      sent = put (pending [] flight s);
      read = wire none d calls;
      bytes = with_newline (rs_text number);
      fed_at = wire none d (suc calls);
      fed = put (record (pending [] flight s) { events = resend_requested number ∷ [] });
      polled = put (pending [] flight s);
      flushes =
          flush_one (transport clock) machine t
            (holding none (with_newline (rs_text number)) d calls)
            (put (pending (flight.bytes ∷ []) flight s)) (put (pending [] flight s)) flight.bytes 0
            (host.counted (pending (flight.bytes ∷ []) flight s))
            (host.to_send (pending (flight.bytes ∷ []) flight s)) w
            (host.to_send (pending [] flight s));
      reads =
          receive_read (transport clock) machine
            (holding none (with_newline (rs_text number)) d calls) (wire none d calls)
            (put (pending [] flight s)) (with_newline (rs_text number))
            (reads clock none (machine.response_timeout (put (pending [] flight s))) d b'r'
              (b's' ∷ (display 3 number ++ 10 ∷ [])) calls fits);
      feeds =
          rw
            (host.feeds (pending [] flight s)
              (record (pending [] flight s) { events = resend_requested number ∷ [] })
              (with_newline (rs_text number)) (clock calls)
              (feed-rs_text (pending [] flight s) number (clock calls) h))
            refl;
      polls = rw (passes number) refl;
      ticks = rw (host.ticks (pending [] flight s) s' (clock (suc calls)) e) refl;
    }
      where
        fits : length (with_newline (rs_text number)) ≤ 1024
        fits =
            rw (length-append (display 3 number) (10 ∷ [])) (omega (arith, length-display 3 number))

    pub asked-Recovers :
        (t : DeviceTransport) (d : FakeDevice) (number : ℕ) (flight : InFlight) (s : Session)
        (calls : ℕ)
        → (transport clock).write_all t flight.bytes
          ≡ (holding none (with_newline (rs_text number)) d (suc calls), ok tt)
        → number < 256
        → Passes (pending [] flight s)
        → IsSteady clock
        → IsPaced s
        → flight.first_sent ≡ clock calls
        → flight.last_sent ≡ clock calls
        → Recovers flight s d (
            drive
              (transport clock)
              machine
              exhausted
              verdict
              200
              (t, put (pending (flight.bytes ∷ []) flight s)))
    asked-Recovers t d number flight s calls w h passes steady paced first last =
        elim (ticked s flight (clock (suc (suc calls))) paced
          (omega (arith, first, steady calls, steady (suc calls)))) [
            | sent_again e ↦ (198, clock (suc (suc calls)), suc (suc (suc calls)), goes_on _ e)
            | too_early e early ↦
                let (rounds, again, after, runs) =
                  quiet-Recovers 199 100 d flight s (suc (suc (suc calls))) steady paced
                    (omega (
                      arith,
                      first,
                      last,
                      steady calls,
                      steady (suc calls),
                      steady (suc (suc calls)),
                    ))
                    (omega arith) (last ∙ sym first)
                    (omega (
                      arith,
                      first,
                      last,
                      steady calls,
                      steady (suc calls),
                      steady (suc (suc calls)),
                    )) in
                (rounds, again, after, goes_on _ e ∙ runs)
          ]
      where
        goes_on :
            (s' : Session)
            → SessionOps.tick (pending [] flight s) (clock (suc (suc calls))) ≡ done s'
            → drive
                (transport clock)
                machine
                exhausted
                verdict
                200
                (t, put (pending (flight.bytes ∷ []) flight s))
              ≡ drive
                  (transport clock)
                  machine
                  exhausted
                  verdict
                  199
                  (wire none d (suc (suc (suc calls))), put s')
        goes_on s' e =
            drive-Unanswered (transport clock) machine exhausted verdict 199 t
              (wire none d (suc (suc (suc calls)))) (put (pending (flight.bytes ∷ []) flight s))
              (put s') (asked-Unanswered t d number flight s s' (suc calls) w h passes e)
