-- ===== src/Session/Reach.antt =====
-- Sessions that a program can reach through the public methods of src/session.rs.
use marlin_binary_transfer.Common.{
  ℕ, ◌≡◌, refl, Bool, true, false, Bytes, Checked, done, panic, stuck, Ensures, Returns, Bool-cases,
  inl, inr,
}
use marlin_binary_transfer.Session.State.{
  Session, new, reset, poll_outbound, poll_event, with_response_timeout, with_total_timeout,
}
use marlin_binary_transfer.Session.Operations.{connect, send, feed, tick}
use marlin_binary_transfer.Session.Valid.{IsValid}
use marlin_binary_transfer.Session.Keeps.{tick-IsValid}
use marlin_binary_transfer.Session.Calls.{
  new-IsValid, retold, Settled, feed-Settled, connect-IsValid, accepts, send-IsValid, send_panics,
  reset-IsValid, poll_outbound-IsValid, poll_event-IsValid,
}

-- One call of a public method that changes the session and returns.
pub data Step : Session → Session → Type 0 where
  connects : {s t : Session} (now : ℕ) → connect s now ≡ done t → Step s t
  sends :
      {s t : Session} (protocol packet_type : ℕ) (payload : Bytes) (now : ℕ)
      → send s protocol packet_type payload now ≡ done t
      → Step s t
  feeds : {s t : Session} (bytes : Bytes) (now : ℕ) → feed s bytes now ≡ done t → Step s t
  ticks : {s t : Session} (now : ℕ) → tick s now ≡ done t → Step s t
  resets : {s : Session} → Step s (reset s)
  polls_outbound : {s : Session} → Step s (poll_outbound s).0
  polls_event : {s : Session} → Step s (poll_event s).0
  sets_response_timeout : {s : Session} (limit : ℕ) → Step s (with_response_timeout s limit)
  sets_total_timeout : {s : Session} (limit : ℕ) → Step s (with_total_timeout s limit)

-- A session that a program can have: any number of calls, in any order, on a new one.
pub data IsReachable : Session → Type 0 where
  start : IsReachable new
  next : {s t : Session} → IsReachable s → Step s t → IsReachable t

Ensures-done {ℓ} :
    {A : Type ℓ} (P : A → Type 0) {m : Checked A} {a : A} → m ≡ done a → Ensures P m → P a
Ensures-done P e h = rw e at h

Step-IsValid : {s t : Session} → Step s t → IsValid s → IsValid t
Step-IsValid (connects {s} now e) v = Ensures-done IsValid e (connect-IsValid s now v)
Step-IsValid (sends {s} protocol packet_type payload now e) v =
    elim (Bool-cases (accepts s protocol packet_type payload)) [
      | inl a ↦ Ensures-done IsValid e (send-IsValid s protocol packet_type payload now v a)
      | inr a ↦ cc (send_panics s protocol packet_type payload now a)
    ]
Step-IsValid (feeds {s} bytes now e) v = (Ensures-done Settled e (feed-Settled s bytes now v)).0
Step-IsValid (ticks {s} now e) v = Ensures-done IsValid e (tick-IsValid s now v)
Step-IsValid (resets {s}) v = reset-IsValid s
Step-IsValid (polls_outbound {s}) v = poll_outbound-IsValid s v
Step-IsValid (polls_event {s}) v = poll_event-IsValid s v
Step-IsValid (sets_response_timeout {s} limit) v =
    unfold with_response_timeout in retold s s.inbound_buf s.events limit s.total_timeout v
Step-IsValid (sets_total_timeout {s} limit) v =
    unfold with_total_timeout in retold s s.inbound_buf s.events s.response_timeout limit v

-- In every session that a program can reach, every chunk waiting for the wire and the packet in
-- flight are frames of valid packets, the packet in flight carries its own sync number, every
-- queued packet can be sent, a completed handshake has left a block size and a version, and no
-- packet waits in the queue while none is in flight.
pub IsReachable-IsValid : {s : Session} → IsReachable s → IsValid s
IsReachable-IsValid start = new-IsValid
IsReachable-IsValid (next r st) = Step-IsValid st (IsReachable-IsValid r)

Ensures-Returns {ℓ} : {A : Type ℓ} (P : A → Type 0) (m : Checked A) → Ensures P m → Returns m
Ensures-Returns P (done a) h = (a, refl)
Ensures-Returns P panic h = absurd h
Ensures-Returns P stuck h = absurd h

-- `send` returns if its assertions hold, and panics if one of them fails.
abbrev pub SendOutcome : Bool → Checked Session → Type 0
SendOutcome true m = Returns m
SendOutcome false m = m ≡ panic

send-SendOutcome :
    (s : Session) (protocol packet_type : ℕ) (payload : Bytes) (now : ℕ)
    → IsValid s
    → SendOutcome (accepts s protocol packet_type payload) (send s protocol packet_type payload now)
send-SendOutcome s protocol packet_type payload now v =
    elim (Bool-cases (accepts s protocol packet_type payload)) [
      | inl a ↦
          rw a (Ensures-Returns IsValid _ (send-IsValid s protocol packet_type payload now v a))
      | inr a ↦ rw a (send_panics s protocol packet_type payload now a)
    ]

-- In a session that a program can reach `connect`, `feed` and `tick` return, whatever the bytes
-- and the clock: no `expect` fires and the loop of `feed` ends. `send` panics exactly when the
-- handshake has not completed or a field of the packet does not fit.
pub no_panic :
    {s : Session} (protocol packet_type : ℕ) (payload bytes : Bytes) (now : ℕ)
    → IsReachable s
    → Returns (connect s now)
      × Returns (feed s bytes now)
      × Returns (tick s now)
      × SendOutcome
          (accepts s protocol packet_type payload)
          (send s protocol packet_type payload now)
no_panic {s} protocol packet_type payload bytes now r =
    let v : IsValid s = IsReachable-IsValid r in
    (
      Ensures-Returns IsValid _ (connect-IsValid s now v),
      Ensures-Returns Settled _ (feed-Settled s bytes now v),
      Ensures-Returns IsValid _ (tick-IsValid s now v),
      send-SendOutcome s protocol packet_type payload now v,
    )
