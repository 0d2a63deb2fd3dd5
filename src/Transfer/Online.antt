-- ===== src/Transfer/Online.antt =====
-- A transfer of src/file_transfer.rs on a session that has completed the handshake.
use marlin_binary_transfer.Common.{
  ℕ, ◌≡◌, refl, Option, none, some, List, [], ◌∷◌, Bool, true, false, arith, leb, Bytes, Checked,
  done, panic, stuck, assert, ◌>>=◌, ◌>>◌, ◌&&◌, length, ap, ◌∙◌,
}
use marlin_binary_transfer.Transfer.Operations.{
  open_payload, drain_events, is_idle, is_negotiated, is_opened, send, query, open_file, write,
  close, abort, poll_outbound, feed, tick, pop_event, poll, handle_ack, on_ack, handle_ascii_line,
  ascii_tail, version_line, version_fields, handle_session_event,
}
use marlin_binary_transfer.Text.{Str, codes, strip_prefix}
use marlin_binary_transfer.Session.State.{
  Session, Event, synced, ack, resend_requested, ascii_line, fatal_error, out_of_sync, timeout,
}
use marlin_binary_transfer.Transfer.State.{
  Compression, FileEvent, State, PendingAscii, FileTransfer, new, pt_query, pt_open, pt_close,
  pt_write, pt_abort, fail, protocol_file_transfer,
}
use marlin_binary_transfer.Session.Reach as SessionReach
use marlin_binary_transfer.Codec.{max_payload}
use marlin_binary_transfer.Session.State as SessionState
use marlin_binary_transfer.Session.Synced.{
  IsSynced, StaysSynced, feed-StaysSynced, tick-StaysSynced, send-StaysSynced,
}
use marlin_binary_transfer.Transfer.Reach.{
  Step, queries, opens, writes, closes, aborts, polls_outbound, feeds, ticks, polls, IsReachable,
  start, next, done_injective, assert-done,
}
use marlin_binary_transfer.Transfer.Sessions.{handle_session_event-session}
use marlin_binary_transfer.Transfer.Panics.{CallOutcome, allows, transfer_no_panic}

-- The handshake is done, and the packets are those of the file-transfer protocol.
pub record IsOnline (ft : FileTransfer) : Type 0 where
  pub synced : IsSynced ft.session
  pub protocol_id : ft.protocol_id ≡ protocol_file_transfer

called :
    (ft after : FileTransfer) (m : Checked Session)
    → ft.protocol_id ≡ protocol_file_transfer
    → StaysSynced m
    → (m >>= λ session. done (record ft { session = session })) ≡ done after
    → IsOnline after
called ft after (done session) p h e =
    rw (done_injective _ after e) at (online (record ft { session = session }) h p)
  where
    online :
        (ft : FileTransfer)
        → IsSynced ft.session
        → ft.protocol_id ≡ protocol_file_transfer
        → IsOnline ft
    online ft h p = record { synced = h; protocol_id = p }
called ft after panic p h e = cc
called ft after stuck p h e = cc

requested :
    (test : Bool) (ft after : FileTransfer) (packet_type : ℕ) (payload : Bytes) (now : ℕ)
    → ft.protocol_id ≡ protocol_file_transfer
    → IsSynced ft.session
    → (assert test >> send ft packet_type payload now) ≡ done after
    → IsOnline after
unfolding send
requested test ft after packet_type payload now p h e =
    called ft after _ p (send-StaysSynced ft.session ft.protocol_id packet_type payload now h)
      (assert-done test _ after e).1

handle_ack-protocol_id : (ft : FileTransfer) → (handle_ack ft).protocol_id ≡ ft.protocol_id
unfolding handle_ack
handle_ack-protocol_id ft = from ft.state ft.pending_ascii
  where
    from :
        (state : State) (pending : Option PendingAscii)
        → (on_ack state pending (record ft { pending_ascii = none })).protocol_id ≡ ft.protocol_id
    from state pending = unfold on_ack fail in ground arith

version_line-protocol_id :
    (state : State) (rest : Str) (ft : FileTransfer)
    → (version_line state rest ft).protocol_id ≡ ft.protocol_id
unfolding version_line version_fields
version_line-protocol_id state rest ft = ground arith

handle_session_event-protocol_id :
    (event : Event) (ft : FileTransfer)
    → (handle_session_event ft event).protocol_id ≡ ft.protocol_id
unfolding handle_session_event handle_ascii_line fail
handle_session_event-protocol_id (ascii_line line) ft =
    from (strip_prefix line (codes "PFT:version:"))
  where
    from : (tail : Option Str) → (ascii_tail tail line ft).protocol_id ≡ ft.protocol_id
    from none = unfold ascii_tail in refl
    from (some rest) = unfold ascii_tail in version_line-protocol_id ft.state rest ft
handle_session_event-protocol_id (ack n) ft = handle_ack-protocol_id ft
handle_session_event-protocol_id (synced max_block_size protocol_version) ft = refl
handle_session_event-protocol_id (resend_requested n) ft = refl
handle_session_event-protocol_id fatal_error ft = refl
handle_session_event-protocol_id (out_of_sync expected got) ft = refl
handle_session_event-protocol_id (timeout sync) ft = refl

drain_events-IsOnline :
    (events : List Event) (ft : FileTransfer) → IsOnline ft → IsOnline (drain_events events ft)
unfolding drain_events
drain_events-IsOnline [] ft o = o
drain_events-IsOnline (event ∷ rest) ft o = drain_events-IsOnline rest _ (record {
  synced =
      ap (λ s. s.is_synced)
        (handle_session_event-session event
          (record ft { session = record (ft.session) { events = rest } }))
      ∙ o.synced;
  protocol_id =
      handle_session_event-protocol_id event
        (record ft { session = record (ft.session) { events = rest } })
      ∙ o.protocol_id;
})

pop_event-IsOnline :
    (events : List FileEvent) (ft : FileTransfer) → IsOnline ft → IsOnline (pop_event events ft).0
unfolding pop_event
pop_event-IsOnline [] ft o = o
pop_event-IsOnline (event ∷ rest) ft o = record { synced = o.synced; protocol_id = o.protocol_id }

pop_outbound-synced :
    (outbound : List Bytes) (s : Session)
    → (SessionState.pop_outbound outbound s).0.is_synced ≡ s.is_synced
unfolding SessionState.pop_outbound
pop_outbound-synced [] s = refl
pop_outbound-synced (bytes ∷ rest) s = refl

-- No call on a transfer undoes the handshake of its session.
pub Step-IsOnline : {ft after : FileTransfer} → Step ft after → IsOnline ft → IsOnline after
unfolding query open_file write close abort feed tick poll poll_outbound
Step-IsOnline (queries {ft} {next = after} compression now e) o =
    requested _ _ after pt_query [] now o.protocol_id o.synced e
Step-IsOnline (opens {ft} {next = after} name dummy now e) o =
    requested _ _ after pt_open _ now o.protocol_id o.synced e
Step-IsOnline (writes {ft} {next = after} chunk now e) o =
    requested _ _ after pt_write chunk now o.protocol_id o.synced e
Step-IsOnline (closes {ft} {next = after} now e) o =
    requested _ _ after pt_close [] now o.protocol_id o.synced e
Step-IsOnline (aborts {ft} {next = after} now e) o =
    requested _ _ after pt_abort [] now o.protocol_id o.synced e
Step-IsOnline (polls_outbound {ft}) o = record {
  synced =
      unfold SessionState.poll_outbound in
      pop_outbound-synced ft.session.outbound ft.session ∙ o.synced;
  protocol_id = o.protocol_id;
}
Step-IsOnline (feeds {ft} {next = after} bytes now e) o =
    called ft after _ o.protocol_id (feed-StaysSynced ft.session bytes now o.synced) e
Step-IsOnline (ticks {ft} {next = after} now e) o =
    called ft after _ o.protocol_id (tick-StaysSynced ft.session now o.synced) e
Step-IsOnline (polls {ft}) o = pop_event-IsOnline _ _ (drain_events-IsOnline ft.session.events ft o)

-- Any number of calls on a transfer, each of which returns.
pub data Calls : FileTransfer → FileTransfer → Type 0 where
  no_call : {ft : FileTransfer} → Calls ft ft
  call : {ft middle after : FileTransfer} → Calls ft middle → Step middle after → Calls ft after

Calls-IsOnline : {ft after : FileTransfer} → Calls ft after → IsOnline ft → IsOnline after
Calls-IsOnline no_call o = o
Calls-IsOnline (call calls step) o = Step-IsOnline step (Calls-IsOnline calls o)

Calls-IsReachable : {ft after : FileTransfer} → Calls ft after → IsReachable ft → IsReachable after
Calls-IsReachable no_call r = r
Calls-IsReachable (call calls step) r = next (Calls-IsReachable calls r) step

abbrev fits : Bytes → Bool
fits payload = leb (length payload) max_payload

allows_lem :
    (in_state : Bool) (ft : FileTransfer) (packet_type : ℕ) (payload : Bytes)
    → leb packet_type 15 ≡ true
    → IsOnline ft
    → allows in_state ft packet_type payload ≡ (in_state && fits payload)
allows_lem in_state ft packet_type payload e o = rw (o.synced, o.protocol_id, e)

allows_empty :
    (in_state : Bool) (ft : FileTransfer) (packet_type : ℕ)
    → leb packet_type 15 ≡ true
    → IsOnline ft
    → allows in_state ft packet_type [] ≡ in_state
allows_empty in_state ft packet_type e o =
    allows_lem in_state ft packet_type [] e o ∙ and_true in_state
  where
    and_true : (b : Bool) → (b && true) ≡ b
    and_true true = refl
    and_true false = refl

-- On a session with a completed handshake, after any calls on a new transfer: a request returns if
-- the transfer is in the state that it asks for and its payload fits a packet, and panics
-- otherwise. The handshake is never a reason to panic.
pub online_requests :
    {session : Session} {ft : FileTransfer} (compression : Compression) (name : Str) (dummy : Bool)
    (chunk : Bytes) (now : ℕ)
    → SessionReach.IsReachable session
    → IsSynced session
    → Calls (new session) ft
    → CallOutcome (is_idle ft.state) (query ft compression now)
      × CallOutcome
          (is_negotiated ft.state && fits (open_payload ft.negotiated_compression name dummy))
          (open_file ft name dummy now)
      × CallOutcome (is_opened ft.state && fits chunk) (write ft chunk now)
      × CallOutcome (is_opened ft.state) (close ft now)
      × CallOutcome (is_opened ft.state) (abort ft now)
online_requests {session} {ft} compression name dummy chunk now r h calls =
    let o : IsOnline ft = Calls-IsOnline calls (record { synced = h; protocol_id = refl }) in
    let (fed, ticked, asked, opened, wrote, closed, aborted) =
      transfer_no_panic compression name dummy chunk [] now (Calls-IsReachable calls (start r)) in
    (
      rw (allows_empty (is_idle ft.state) ft pt_query refl o) at asked,
      rw (allows_lem (is_negotiated ft.state) ft pt_open _ refl o) at opened,
      rw (allows_lem (is_opened ft.state) ft pt_write chunk refl o) at wrote,
      rw (allows_empty (is_opened ft.state) ft pt_close refl o) at closed,
      rw (allows_empty (is_opened ft.state) ft pt_abort refl o) at aborted,
    )
