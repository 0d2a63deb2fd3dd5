-- ===== src/Transfer/Lifecycle.antt =====
-- The methods of src/file_transfer.rs against the lifecycle at the head of that file.
use marlin_binary_transfer.Common.{
  ◌≡◌, refl, sym, Bool, true, false, ◌⊎◌, inl, inr, Option, none, some, List, [], ◌∷◌, ◌++◌,
  append-nil, append_assoc, Checked, done, panic, stuck, ◌>>=◌, ◌>>◌, assert,
}
use marlin_binary_transfer.Text.{Str, split_once}
use marlin_binary_transfer.Session.State.{
  Event, synced, ack, resend_requested, ascii_line, fatal_error, out_of_sync, timeout, Session,
}
use marlin_binary_transfer.Transfer.State.{
  FileEvent, State, PendingAscii, query_version, query_failed, open_success, close_success,
  close_io_error, close_invalid, abort_success, FileTransfer, fail,
}
use marlin_binary_transfer.Transfer.Gates.{is_idle→, is_negotiated→, is_opened→}
use marlin_binary_transfer.Transfer.Reach.{done_injective}
use marlin_binary_transfer.Transfer.Operations.{
  query, open_file, write, close, abort, send, feed, tick, poll_outbound, version_line,
  version_fields, ascii_tail, on_ack, handle_ascii_line, handle_ack, handle_session_event,
  drain_events, pop_event, poll,
}
use marlin_binary_transfer.Transfer.Diagram.{
  Requests, Answers, negotiates, opened, written, closed, aborted, fails, Journey, begins, requests,
  answers, handed, Call, queries, opens, writes, closes, aborts, polls_outbound, feeds, ticks, Run,
  start, called, polled,
}

-- What the handler of one session event does with the state and the queue of events.
abbrev Moved : State → List FileEvent → FileTransfer → Type 0
Moved state events after =
    ((after.state ≡ state) × (after.out_events ≡ events))
    ⊎ ((event : FileEvent) × Answers state event after.state
        × (after.out_events ≡ events ++ event ∷ []))

on_ack-Moved :
    (state : State) (pending : Option PendingAscii) (ft : FileTransfer)
    → ft.state ≡ state
    → Moved state ft.out_events (on_ack state pending ft)
unfolding on_ack fail
on_ack-Moved State.awaiting_query_reply (some (query_version version compression)) ft e =
    inr (_, negotiates, refl)
on_ack-Moved State.awaiting_query_reply (some (query_failed error)) ft e = inr (_, fails, refl)
on_ack-Moved State.awaiting_query_reply none ft e = inr (_, fails, refl)
on_ack-Moved State.awaiting_open_reply (some open_success) ft e = inr (_, opened, refl)
on_ack-Moved State.awaiting_open_reply (some PendingAscii.open_busy) ft e = inr (_, fails, refl)
on_ack-Moved State.awaiting_open_reply (some PendingAscii.open_fail) ft e = inr (_, fails, refl)
on_ack-Moved State.awaiting_open_reply none ft e = inr (_, fails, refl)
on_ack-Moved State.awaiting_write_ack none ft e = inr (_, written, refl)
on_ack-Moved State.awaiting_write_ack (some pending) ft e = inr (_, fails, refl)
on_ack-Moved State.awaiting_close_reply (some close_success) ft e = inr (_, closed, refl)
on_ack-Moved State.awaiting_close_reply (some close_io_error) ft e = inr (_, fails, refl)
on_ack-Moved State.awaiting_close_reply (some close_invalid) ft e = inr (_, fails, refl)
on_ack-Moved State.awaiting_close_reply none ft e = inr (_, fails, refl)
on_ack-Moved State.awaiting_abort_reply (some abort_success) ft e = inr (_, aborted, refl)
on_ack-Moved State.awaiting_abort_reply none ft e = inr (_, fails, refl)
on_ack-Moved _ _ ft e = inl (e, refl)

version_line-Moved :
    (state : State) (rest : Str) (ft : FileTransfer)
    → ft.state ≡ state
    → Moved state ft.out_events (version_line state rest ft)
unfolding version_line version_fields
version_line-Moved State.awaiting_query_reply rest ft e = from (split_once b':' rest)
  where
    from :
        (fields : Option (Str × Str))
        → Moved State.awaiting_query_reply ft.out_events (version_fields fields ft)
    from none = inl (e, refl)
    from (some fields) = inl (e, refl)
version_line-Moved _ rest ft e = inl (e, refl)

ascii_tail-Moved :
    (tail : Option Str) (line : Str) (ft : FileTransfer)
    → Moved ft.state ft.out_events (ascii_tail tail line ft)
unfolding ascii_tail
ascii_tail-Moved (some rest) line ft = version_line-Moved ft.state rest ft refl
ascii_tail-Moved none line ft = inl (refl, refl)

handle_session_event-Moved :
    (event : Event) (ft : FileTransfer)
    → Moved ft.state ft.out_events (handle_session_event ft event)
unfolding handle_session_event handle_ascii_line handle_ack fail
handle_session_event-Moved (ascii_line line) ft = ascii_tail-Moved _ line ft
handle_session_event-Moved (ack n) ft =
    on_ack-Moved ft.state ft.pending_ascii (record ft { pending_ascii = none }) refl
handle_session_event-Moved (synced max_block_size protocol_version) ft = inl (refl, refl)
handle_session_event-Moved (resend_requested n) ft = inl (refl, refl)
handle_session_event-Moved fatal_error ft = inr (_, fails, refl)
handle_session_event-Moved (out_of_sync expected got) ft = inr (_, fails, refl)
handle_session_event-Moved (timeout sync) ft = inr (_, fails, refl)

Moved-Follows :
    (given : List FileEvent) (ft after : FileTransfer)
    → Moved ft.state ft.out_events after
    → Journey ft.state (given ++ ft.out_events)
    → Journey after.state (given ++ after.out_events)
Moved-Follows given ft after (inl (s, e)) p = rw (s, e) p
Moved-Follows given ft after (inr (event, a, e)) p =
    rw (e, sym (append_assoc given ft.out_events (event ∷ []))) (answers p a)

abbrev without : List Event → FileTransfer → FileTransfer
without rest ft = record ft { session = record (ft.session) { events = rest } }

drain_events-Follows :
    (given : List FileEvent) (events : List Event) (ft : FileTransfer)
    → Journey ft.state (given ++ ft.out_events)
    → Journey (drain_events events ft).state (given ++ (drain_events events ft).out_events)
unfolding drain_events
drain_events-Follows given [] ft p = p
drain_events-Follows given (event ∷ rest) ft p =
    drain_events-Follows given rest (handle_session_event (without rest ft) event) (
      Moved-Follows given (without rest ft) (handle_session_event (without rest ft) event)
        (handle_session_event-Moved event (without rest ft)) p)

pop_event-Follows :
    (given queue : List FileEvent) (ft : FileTransfer)
    → ft.out_events ≡ queue
    → Journey ft.state (given ++ ft.out_events)
    → Journey
        (pop_event queue ft).0.state
        ((given ++ handed (pop_event queue ft).1) ++ (pop_event queue ft).0.out_events)
unfolding pop_event
pop_event-Follows given [] ft e p = rw append-nil p
pop_event-Follows given (event ∷ rest) ft e p = rw (append_assoc given (event ∷ []) rest, sym e) p

poll-Follows :
    (given : List FileEvent) (ft : FileTransfer)
    → Journey ft.state (given ++ ft.out_events)
    → Journey (poll ft).0.state ((given ++ handed (poll ft).1) ++ (poll ft).0.out_events)
unfolding poll
poll-Follows given ft p =
    pop_event-Follows given _ (drain_events ft.session.events ft) refl
      (drain_events-Follows given ft.session.events ft p)

-- The call takes an arrow of a request, or stays.
abbrev Called : FileTransfer → State → FileTransfer → Type 0
Called ft state after = (after.state ≡ state) × (after.out_events ≡ ft.out_events)

with_session :
    (ft after : FileTransfer) (m : Checked Session)
    → (m >>= λ session. done (record ft { session = session })) ≡ done after
    → Called ft ft.state after
with_session ft after (done session) e = same (done_injective _ after e)
  where
    same : record ft { session = session } ≡ after → Called ft ft.state after
    same f = rw (sym f) (refl, refl)
with_session ft after panic e = cc
with_session ft after stuck e = cc

requested :
    (given : List FileEvent) (ft after : FileTransfer) (test : Bool) (state from : State)
    (m : Checked FileTransfer)
    → (test ≡ true → ft.state ≡ from)
    → Requests from state
    → (m ≡ done after → Called ft state after)
    → (assert test >> m) ≡ done after
    → Journey ft.state (given ++ ft.out_events)
    → Journey after.state (given ++ after.out_events)
requested given ft after true state from m g r h e p =
    let (s, q) = h e in rw (s, q) (requests (moved_from (g refl) p) r)
  where
    moved_from :
        ft.state ≡ from
        → Journey ft.state (given ++ ft.out_events)
        → Journey from (given ++ ft.out_events)
    moved_from f p = rw (sym f) p
requested given ft after false state from m g r h e p = cc

stayed :
    (given : List FileEvent) (ft after : FileTransfer)
    → Called ft ft.state after
    → Journey ft.state (given ++ ft.out_events)
    → Journey after.state (given ++ after.out_events)
stayed given ft after (s, q) p = rw (s, q) p

Call-Follows :
    {ft after : FileTransfer} (given : List FileEvent)
    → Call ft after
    → Journey ft.state (given ++ ft.out_events)
    → Journey after.state (given ++ after.out_events)
unfolding query open_file write close abort send feed tick poll_outbound
Call-Follows {ft} {after} given (queries compression now e) p =
    requested given ft after _ _ _ _ (is_idle→ ft.state) Requests.queries
      (λ d.
        with_session
          (record ft { requested_compression = compression; state = State.awaiting_query_reply })
          after _ d)
      e p
Call-Follows {ft} {after} given (opens name dummy now e) p =
    requested given ft after _ _ _ _ (is_negotiated→ ft.state) Requests.opens
      (λ d. with_session (record ft { state = State.awaiting_open_reply }) after _ d) e p
Call-Follows {ft} {after} given (writes chunk now e) p =
    requested given ft after _ _ _ _ (is_opened→ ft.state) Requests.writes
      (λ d. with_session (record ft { state = State.awaiting_write_ack }) after _ d) e p
Call-Follows {ft} {after} given (closes now e) p =
    requested given ft after _ _ _ _ (is_opened→ ft.state) Requests.closes
      (λ d. with_session (record ft { state = State.awaiting_close_reply }) after _ d) e p
Call-Follows {ft} {after} given (aborts now e) p =
    requested given ft after _ _ _ _ (is_opened→ ft.state) Requests.aborts
      (λ d. with_session (record ft { state = State.awaiting_abort_reply }) after _ d) e p
Call-Follows given polls_outbound p = p
Call-Follows {ft} {after} given (feeds bytes now e) p =
    stayed given ft after (with_session ft after _ e) p
Call-Follows {ft} {after} given (ticks now e) p =
    stayed given ft after (with_session ft after _ e) p

-- Every run follows the lifecycle: the events handed out so far, and then those that wait, are those
-- of a path of the diagram from `Idle` to the state of the transfer. The diagram has an arrow for
-- each request and for each reply to it, and a failure from every state.
pub Run-Follows :
    {ft : FileTransfer} {given : List FileEvent}
    → Run ft given
    → Journey ft.state (given ++ ft.out_events)
Run-Follows start = begins
Run-Follows (called r c) = Call-Follows _ c (Run-Follows r)
Run-Follows (polled {ft} {given} r) = poll-Follows given ft (Run-Follows r)
