-- ===== src/Transfer/Panics.antt =====
-- Which calls of src/file_transfer.rs can panic.
use marlin_binary_transfer.Common.{
  ℕ, ◌&&◌, Returns, ◌≡◌, refl, [], Bool, true, false, Bytes, Checked, done, panic, stuck, assert,
  ◌>>=◌, ◌>>◌,
}
use marlin_binary_transfer.Text.{Str}
use marlin_binary_transfer.Session.State.{Session}
use marlin_binary_transfer.Transfer.State.{
  Compression, State, FileTransfer, pt_query, pt_open, pt_close, pt_write, pt_abort,
}
use marlin_binary_transfer.Session.Reach as SessionReach
use marlin_binary_transfer.Session.Calls as SessionCalls
use marlin_binary_transfer.Transfer.Operations.{
  is_idle, is_negotiated, is_opened, send, query, open_payload, open_file, write, close, abort,
  feed, tick,
}
use marlin_binary_transfer.Transfer.Reach.{IsReachable, IsReachable-session}

-- A call returns if its assertions hold, and panics if one of them fails.
abbrev pub CallOutcome : Bool → Checked FileTransfer → Type 0
CallOutcome true m = Returns m
CallOutcome false m = m ≡ panic

-- The assertions of a request: the one on the state, and those of the session's `send`.
abbrev pub allows : Bool → FileTransfer → ℕ → Bytes → Bool
allows in_state ft packet_type payload =
    in_state && SessionCalls.accepts ft.session ft.protocol_id packet_type payload

returned :
    (m : Checked Session) (f : Session → FileTransfer)
    → Returns m
    → Returns (m >>= λ session. done (f session))
returned (done session) f h = (f session, refl)
returned panic f (session, e) = cc
returned stuck f (session, e) = cc

sent-CallOutcome :
    (accepted : Bool) (m : Checked Session) (f : Session → FileTransfer)
    → SessionReach.SendOutcome accepted m
    → CallOutcome accepted (m >>= λ session. done (f session))
sent-CallOutcome true m f h = returned m f h
sent-CallOutcome false m f h = rw h refl

gated :
    (in_state : Bool) (ft : FileTransfer) (packet_type : ℕ) (payload : Bytes) (now : ℕ)
    → SessionReach.IsReachable ft.session
    → CallOutcome
        (allows in_state ft packet_type payload)
        (assert in_state >> send ft packet_type payload now)
unfolding send
gated false ft packet_type payload now r = refl
gated true ft packet_type payload now r =
    sent-CallOutcome _ _ (λ session. record ft { session = session })
      (SessionReach.no_panic ft.protocol_id packet_type payload [] now r).3

-- In a transfer that a program can reach `feed` and `tick` return, whatever the bytes and the
-- clock. Each request returns if the transfer is in the state that it asks for and the session
-- accepts its packet, and panics otherwise.
pub transfer_no_panic :
    {ft : FileTransfer} (compression : Compression) (name : Str) (dummy : Bool) (chunk : Bytes)
    (bytes : Bytes) (now : ℕ)
    → IsReachable ft
    → Returns (feed ft bytes now)
      × Returns (tick ft now)
      × CallOutcome (allows (is_idle ft.state) ft pt_query []) (query ft compression now)
      × CallOutcome
          (allows
            (is_negotiated ft.state)
            ft
            pt_open
            (open_payload ft.negotiated_compression name dummy))
          (open_file ft name dummy now)
      × CallOutcome (allows (is_opened ft.state) ft pt_write chunk) (write ft chunk now)
      × CallOutcome (allows (is_opened ft.state) ft pt_close []) (close ft now)
      × CallOutcome (allows (is_opened ft.state) ft pt_abort []) (abort ft now)
unfolding feed tick query open_file write close abort
transfer_no_panic {ft} compression name dummy chunk bytes now reached =
    let r : SessionReach.IsReachable ft.session = IsReachable-session reached in
    let (connects, feeds, ticks, sends) = SessionReach.no_panic 0 0 [] bytes now r in
    (
      returned _ (λ session. record ft { session = session }) feeds,
      returned _ (λ session. record ft { session = session }) ticks,
      gated (is_idle ft.state)
          (record ft { requested_compression = compression; state = State.awaiting_query_reply })
          pt_query [] now r,
      gated (is_negotiated ft.state) (record ft { state = State.awaiting_open_reply }) pt_open _ now
          r,
      gated (is_opened ft.state) (record ft { state = State.awaiting_write_ack }) pt_write chunk now
          r,
      gated (is_opened ft.state) (record ft { state = State.awaiting_close_reply }) pt_close [] now
          r,
      gated (is_opened ft.state) (record ft { state = State.awaiting_abort_reply }) pt_abort [] now
          r,
    )
