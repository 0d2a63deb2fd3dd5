-- ===== src/Session/Synced.antt =====
-- The operations of src/session.rs after a completed handshake.
use marlin_binary_transfer.Common.{
  ℕ, zero, suc, ◌≡◌, refl, Bool, true, false, Option, none, some, List, [], ◌∷◌, ◌++◌, Bytes, leb,
  ◌==◌, is_empty, length, Bool-cases, Option-cases, inl, inr, Checked, done, panic, stuck, ◌>>=◌,
  ◌>>◌, assert,
}
use marlin_binary_transfer.Text.{Str}
use marlin_binary_transfer.Codec.{max_payload}
use marlin_binary_transfer.Session.State.{InFlight, Queued, Session}
use marlin_binary_transfer.Session.Lines.{strip_line_endings, drain_line}
use marlin_binary_transfer.Session.Chunks.{with_buf, loop_ends, loop_step}
use marlin_binary_transfer.Session.Operations.{
  build, queue, dispatch, dispatch_from, dispatch_if_idle, send, handle_ok_from, handle_ok,
  ss_fields, handle_ss_fields, handle_ss, Line, ok_line, rs_line, ss_line, fe_line, text_line,
  garbage, act, process_line, take_line, feed_loop, feed, tick_from, tick,
  saturating_duration_since,
}

-- If the call returns, then with a completed handshake.
abbrev pub StaysSynced : Checked Session → Type 0
StaysSynced (done s) = s.is_synced ≡ true
StaysSynced panic = Unit
StaysSynced stuck = Unit

abbrev pub IsSynced : Session → Type 0
IsSynced s = s.is_synced ≡ true

StaysSynced-bind :
    {A : Type 0} (m : Checked A) (f : A → Checked Session)
    → ((a : A) → StaysSynced (f a))
    → StaysSynced (m >>= f)
StaysSynced-bind (done a) f k = k a
StaysSynced-bind panic f k = tt
StaysSynced-bind stuck f k = tt

StaysSynced-then :
    (m : Checked Session) (f : Session → Checked Session)
    → StaysSynced m
    → ((s : Session) → IsSynced s → StaysSynced (f s))
    → StaysSynced (m >>= f)
StaysSynced-then (done s) f h k = k s h
StaysSynced-then panic f h k = tt
StaysSynced-then stuck f h k = tt

dispatch_if_idle-StaysSynced :
    (s : Session) (now : ℕ) → IsSynced s → StaysSynced (dispatch_if_idle s now)
unfolding dispatch_if_idle
dispatch_if_idle-StaysSynced s now h = from s.in_flight s.queued
  where
    from : (f : Option InFlight) (q : List Queued) → StaysSynced (dispatch_from f q s now)
    from (some f) q = h
    from none [] = h
    from none (x ∷ q) =
        unfold dispatch in StaysSynced-bind (build x.bytes_without_sync s.sync) _ (λ bytes. h)

handle_ok-StaysSynced : (s : Session) (n now : ℕ) → IsSynced s → StaysSynced (handle_ok s n now)
unfolding handle_ok handle_ok_from
handle_ok-StaysSynced s n now h = from s.in_flight
  where
    from : (f : Option InFlight) → StaysSynced (handle_ok_from f s n now)
    from none = h
    from (some f) = elim (Bool-cases f.is_sync_handshake) [
      | inl e ↦ rw e h
      | inr e ↦ elim (Bool-cases (n == f.sync)) [
        | inl g ↦ rw (e, g) (dispatch_if_idle-StaysSynced _ now h)
        | inr g ↦ rw (e, g) h
      ]
    ]

handle_ss-StaysSynced :
    (s : Session) (rest : Bytes) (now : ℕ) → IsSynced s → StaysSynced (handle_ss s rest now)
unfolding handle_ss handle_ss_fields
handle_ss-StaysSynced s rest now h = from (ss_fields rest)
  where
    from : (fields : Option (ℕ × ℕ × Str)) → StaysSynced (handle_ss_fields fields s now)
    from none = h
    from (some (n, size, version)) = dispatch_if_idle-StaysSynced _ now refl

act-StaysSynced : (line : Line) (s : Session) (now : ℕ) → IsSynced s → StaysSynced (act line s now)
unfolding act
act-StaysSynced (ok_line n) s now h = handle_ok-StaysSynced s n now h
act-StaysSynced (rs_line n) s now h = h
act-StaysSynced (ss_line rest) s now h = handle_ss-StaysSynced s rest now h
act-StaysSynced fe_line s now h = h
act-StaysSynced (text_line text) s now h = h
act-StaysSynced garbage s now h = h

take_line-StaysSynced :
    (s : Session) (line : Bytes) (now : ℕ) → IsSynced s → StaysSynced (take_line s line now)
unfolding take_line process_line
take_line-StaysSynced s line now h = elim (Bool-cases (is_empty (strip_line_endings line))) [
  | inl e ↦ rw e h
  | inr e ↦ rw e (act-StaysSynced _ s now h)
]

feed_loop-StaysSynced :
    (fuel : ℕ) (buf : Bytes) (s : Session) (now : ℕ)
    → IsSynced s
    → StaysSynced (feed_loop fuel (with_buf buf s) now)
feed_loop-StaysSynced zero buf s now h = unfold feed_loop in tt
feed_loop-StaysSynced (suc fuel) buf s now h = elim (Option-cases (drain_line buf)) [
  | inl e ↦ rw (loop_ends fuel buf s now e) h
  | inr ((line, rest), e) ↦ rw (loop_step fuel buf s now e) (
      StaysSynced-then (take_line s line now) _ (take_line-StaysSynced s line now h)
        (λ t k. feed_loop-StaysSynced fuel rest t now k))
]

pub feed-StaysSynced :
    (s : Session) (bytes : Bytes) (now : ℕ) → IsSynced s → StaysSynced (feed s bytes now)
unfolding feed
feed-StaysSynced s bytes now h = feed_loop-StaysSynced _ (s.inbound_buf ++ bytes) s now h

pub tick-StaysSynced : (s : Session) (now : ℕ) → IsSynced s → StaysSynced (tick s now)
unfolding tick tick_from
tick-StaysSynced s now h = from s.in_flight
  where
    from : (f : Option InFlight) → StaysSynced (tick_from f s now)
    from none = h
    from (some f) =
        elim (Bool-cases (leb s.total_timeout (saturating_duration_since now f.first_sent))) [
          | inl e ↦ rw e (dispatch_if_idle-StaysSynced _ now h)
          | inr e ↦
              elim (Bool-cases
                (leb s.response_timeout (saturating_duration_since now f.last_sent))) [
                  | inl g ↦ rw (e, g) h
                  | inr g ↦ rw (e, g) h
                ]
        ]

asserted : (test : Bool) (m : Checked Session) → StaysSynced m → StaysSynced (assert test >> m)
asserted true m h = h
asserted false m h = tt

pub send-StaysSynced :
    (s : Session) (protocol packet_type : ℕ) (payload : Bytes) (now : ℕ)
    → IsSynced s
    → StaysSynced (send s protocol packet_type payload now)
unfolding send queue
send-StaysSynced s protocol packet_type payload now h = asserted s.is_synced _ (
    asserted (leb protocol 15) _ (
      asserted (leb packet_type 15) _ (
        asserted (leb (length payload) max_payload) _
          (dispatch_if_idle-StaysSynced (queue s protocol packet_type payload false) now h))))
