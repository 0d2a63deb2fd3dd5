-- ===== src/Adapters/Laws.antt =====
-- The session and the transfer as machines of the driving loop in src/adapters.
use marlin_binary_transfer.Common.{
  ◌<◌, ◌≡◌, refl, sym, true, ap, ◌∙◌, arith, Option, some, List, [], ◌∷◌, Bytes, length, Checked,
  done, panic, stuck, Ensures, Returns,
}
use marlin_binary_transfer.Session.State.{
  Session, Event, pop_outbound, poll_outbound, pop_event, poll_event,
}
use marlin_binary_transfer.Session.Operations as SessionOps
use marlin_binary_transfer.Session.Reach as SessionReach
use marlin_binary_transfer.Transfer.State.{FileTransfer, FileEvent, uncompressed}
use marlin_binary_transfer.Transfer.Operations as TransferOps
use marlin_binary_transfer.Transfer.Sessions.{handle_session_event-session}
use marlin_binary_transfer.Transfer.Operations.{drain_events, handle_session_event}
use marlin_binary_transfer.Transfer.Reach as TransferReach
use marlin_binary_transfer.Transfer.Panics.{transfer_no_panic}
use marlin_binary_transfer.Adapters.Machines.{session_machine, file_machine}
use marlin_binary_transfer.Adapters.Driven.{IsMachine}

pub Returns-Ensures :
    {A : Type 0} (P : A → Type 0) (m : Checked A)
    → Returns m
    → ((a : A) → m ≡ done a → P a)
    → Ensures P m
Returns-Ensures P (done a) h k = k a refl
Returns-Ensures P panic (a, e) k = cc
Returns-Ensures P stuck (a, e) k = cc

pop_outbound-left :
    (outbound : List Bytes) (s next : Session) (out : Bytes)
    → s.outbound ≡ outbound
    → pop_outbound outbound s ≡ (next, some out)
    → length next.outbound < length s.outbound
unfolding pop_outbound
pop_outbound-left [] s next out e f = ground arith
pop_outbound-left (bytes ∷ rest) s next out e f =
    ground (arith, ap (λ (p : Session × Option Bytes). p.0.outbound) f)

pop_event-left :
    (events : List Event) (s next : Session) (event : Event)
    → s.events ≡ events
    → pop_event events s ≡ (next, some event)
    → length next.events < length s.events
unfolding pop_event
pop_event-left [] s next event e f = ground arith
pop_event-left (x ∷ rest) s next event e f =
    ground (arith, ap (λ (p : Session × Option Event). p.0.events) f)

pub session-IsMachine : IsMachine session_machine SessionReach.IsReachable
session-IsMachine = record {
  poll_outbound_keeps = λ s r. SessionReach.next r SessionReach.polls_outbound;
  poll_outbound_left =
      λ s next out e. unfold poll_outbound in pop_outbound-left s.outbound s next out refl e;
  feed_keeps = λ s bytes now r.
      Returns-Ensures SessionReach.IsReachable (SessionOps.feed s bytes now)
        (SessionReach.no_panic 0 0 [] bytes now r).1
        (λ t e. SessionReach.next r (SessionReach.feeds bytes now e));
  poll_keeps = λ s r. SessionReach.next r SessionReach.polls_event;
  poll_left = λ s next event e. unfold poll_event in pop_event-left s.events s next event refl e;
  tick_keeps = λ s now r.
      Returns-Ensures SessionReach.IsReachable (SessionOps.tick s now)
        (SessionReach.no_panic 0 0 [] [] now r).2
        (λ t e. SessionReach.next r (SessionReach.ticks now e));
}

-- A drained transfer has no event of the session left.
pub drain_events-empties :
    (events : List Event) (ft : FileTransfer)
    → ft.session.events ≡ events
    → (drain_events events ft).session.events ≡ []
unfolding drain_events
drain_events-empties [] ft e = e
drain_events-empties (event ∷ rest) ft e = drain_events-empties rest _ (
    ap (λ s. s.events)
      (handle_session_event-session event
        (record ft { session = record (ft.session) { events = rest } })))

pub drain_events-idle :
    (events : List Event) (ft : FileTransfer) → events ≡ [] → drain_events events ft ≡ ft
unfolding drain_events
drain_events-idle [] ft e = refl
drain_events-idle (event ∷ rest) ft e = cc

popped-left :
    (events : List FileEvent) (ft next : FileTransfer) (event : FileEvent)
    → ft.out_events ≡ events
    → ft.session.events ≡ []
    → TransferOps.pop_event events ft ≡ (next, some event)
    → length (drain_events next.session.events next).out_events < length ft.out_events
unfolding TransferOps.pop_event
popped-left [] ft next event e d f = ground arith
popped-left (x ∷ rest) ft next event e d f =
    let same : next.session.events ≡ [] =
      ap (λ (p : FileTransfer × Option FileEvent). p.0.session.events) (sym f) ∙ d in
    let shorter : next.out_events ≡ rest =
      ap (λ (p : FileTransfer × Option FileEvent). p.0.out_events) (sym f) in
    rw (drain_events-idle next.session.events next same) (ground arith)

poll-left :
    (ft next : FileTransfer) (event : FileEvent)
    → TransferOps.poll ft ≡ (next, some event)
    → length (drain_events next.session.events next).out_events
      < length (drain_events ft.session.events ft).out_events
unfolding TransferOps.poll
poll-left ft next event e =
    popped-left _ (drain_events ft.session.events ft) next event refl
      (drain_events-empties ft.session.events ft refl) e

poll_outbound-left :
    (ft next : FileTransfer) (out : Bytes)
    → TransferOps.poll_outbound ft ≡ (next, some out)
    → length next.session.outbound < length ft.session.outbound
unfolding TransferOps.poll_outbound poll_outbound
poll_outbound-left ft next out e =
    pop_outbound-left ft.session.outbound ft.session next.session out refl
      (ap (λ (p : FileTransfer × Option Bytes). (p.0.session, p.1)) e)

pub file-IsMachine : IsMachine file_machine TransferReach.IsReachable
file-IsMachine = record {
  poll_outbound_keeps = λ ft r. TransferReach.next r TransferReach.polls_outbound;
  poll_outbound_left = poll_outbound-left;
  feed_keeps = λ ft bytes now r.
      Returns-Ensures TransferReach.IsReachable (TransferOps.feed ft bytes now)
        (transfer_no_panic uncompressed [] true [] bytes now r).0
        (λ t e. TransferReach.next r (TransferReach.feeds bytes now e));
  poll_keeps = λ ft r. TransferReach.next r TransferReach.polls;
  poll_left = poll-left;
  tick_keeps = λ ft now r.
      Returns-Ensures TransferReach.IsReachable (TransferOps.tick ft now)
        (transfer_no_panic uncompressed [] true [] [] now r).1
        (λ t e. TransferReach.next r (TransferReach.ticks now e));
}
