-- ===== src/Session/Chunks.antt =====
-- `feed` of src/session.rs and its loop, on input that the transport cuts in pieces.
use mathlib.Core.Path.{fun_ext}
use marlin_binary_transfer.Common.{
  ℕ, zero, suc, ◌<◌, ◌≡◌, refl, sym, ap, ◌∙◌, arith, Option, none, some, List, [], ◌∷◌, ◌++◌, Bytes,
  length, length-append, append_assoc, Checked, done, ◌>>=◌, bind_assoc, Option-cases, Bool-cases,
  inl, inr, ◌==◌, is_empty,
}
use marlin_binary_transfer.Text.{Str}
use marlin_binary_transfer.Session.State.{InFlight, Queued, Session}
use marlin_binary_transfer.Session.Lines.{strip_line_endings, drain_line}
use marlin_binary_transfer.Session.Operations.{
  build, dispatch, dispatch_from, dispatch_if_idle, handle_ok_from, handle_ok, handle_ss_fields,
  handle_ss, Line, ok_line, rs_line, ss_line, fe_line, text_line, garbage, act, process_line,
  take_line, feed_loop, feed,
}

abbrev pub with_buf : Bytes → Session → Session
with_buf buf s = record s { inbound_buf = buf }

-- The outcome with another buffer.
abbrev pub rebuf : Bytes → Checked Session → Checked Session
rebuf buf m = m >>= λ t. done (with_buf buf t)

dispatch-buf :
    (s : Session) (next : Queued) (rest : List Queued) (now : ℕ) (buf : Bytes)
    → dispatch (with_buf buf s) next rest now ≡ rebuf buf (dispatch s next rest now)
unfolding dispatch
dispatch-buf s next rest now buf = sym (bind_assoc (build next.bytes_without_sync s.sync) _ _)

dispatch_if_idle-buf :
    (s : Session) (now : ℕ) (buf : Bytes)
    → dispatch_if_idle (with_buf buf s) now ≡ rebuf buf (dispatch_if_idle s now)
unfolding dispatch_if_idle
dispatch_if_idle-buf s now buf = from s.in_flight s.queued
  where
    from :
        (f : Option InFlight) (q : List Queued)
        → dispatch_from f q (with_buf buf s) now ≡ rebuf buf (dispatch_from f q s now)
    from (some f) q = refl
    from none [] = refl
    from none (x ∷ q) = dispatch-buf s x q now buf

handle_ok-buf :
    (s : Session) (n now : ℕ) (buf : Bytes)
    → handle_ok (with_buf buf s) n now ≡ rebuf buf (handle_ok s n now)
unfolding handle_ok
handle_ok-buf s n now buf = from s.in_flight
  where
    from :
        (f : Option InFlight)
        → handle_ok_from f (with_buf buf s) n now ≡ rebuf buf (handle_ok_from f s n now)
    from none = refl
    from (some f) = elim (Bool-cases f.is_sync_handshake) [
      | inl e ↦ rw e
      | inr e ↦ elim (Bool-cases (n == f.sync)) [
        | inl g ↦ rw (e, g) (dispatch_if_idle-buf _ now buf)
        | inr g ↦ rw (e, g)
      ]
    ]

handle_ss_fields-buf :
    (fields : Option (ℕ × ℕ × Str)) (s : Session) (now : ℕ) (buf : Bytes)
    → handle_ss_fields fields (with_buf buf s) now ≡ rebuf buf (handle_ss_fields fields s now)
unfolding handle_ss_fields
handle_ss_fields-buf none s now buf = refl
handle_ss_fields-buf (some (n, m, version)) s now buf = dispatch_if_idle-buf _ now buf

-- `process_line` neither reads nor writes the buffer of unread bytes.
pub act-buf :
    (line : Line) (s : Session) (now : ℕ) (buf : Bytes)
    → act line (with_buf buf s) now ≡ rebuf buf (act line s now)
unfolding act handle_ss
act-buf (ok_line n) s now buf = handle_ok-buf s n now buf
act-buf (rs_line n) s now buf = refl
act-buf (ss_line rest) s now buf = handle_ss_fields-buf _ s now buf
act-buf fe_line s now buf = refl
act-buf (text_line text) s now buf = refl
act-buf garbage s now buf = refl

pub take_line-buf :
    (s : Session) (line : Bytes) (now : ℕ) (buf : Bytes)
    → take_line (with_buf buf s) line now ≡ rebuf buf (take_line s line now)
unfolding take_line process_line
take_line-buf s line now buf = elim (Bool-cases (is_empty (strip_line_endings line))) [
  | inl e ↦ rw e
  | inr e ↦ rw e (act-buf _ s now buf)
]

pub loop_ends :
    (fuel : ℕ) (buf : Bytes) (s : Session) (now : ℕ)
    → drain_line buf ≡ none
    → feed_loop (suc fuel) (with_buf buf s) now ≡ done (with_buf buf s)
unfolding feed_loop
loop_ends fuel buf s now e = rw (e, feed_loop)

pub loop_step :
    (fuel : ℕ) (buf : Bytes) (s : Session) (now : ℕ) {line rest : Bytes}
    → drain_line buf ≡ some (line, rest)
    → feed_loop (suc fuel) (with_buf buf s) now
      ≡ (take_line s line now >>= λ t. feed_loop fuel (with_buf rest t) now)
unfolding feed_loop
loop_step fuel buf s now {line} {rest} e =
    rw (e, feed_loop) (rw (take_line-buf s line now rest) (bind_assoc (take_line s line now) _ _))

-- The rest behind a line is shorter than the buffer.
pub drain_line-shorter :
    (buf : Bytes) {line rest : Bytes}
    → drain_line buf ≡ some (line, rest)
    → length rest < length buf
unfolding drain_line
drain_line-shorter [] e = cc
drain_line-shorter (b ∷ bs) e = elim (Option-cases (drain_line bs)) [
  | inl g ↦ ground arith
  | inr ((l, r), g) ↦ ground (arith, drain_line-shorter bs g)
]

-- More input behind a complete line joins the rest.
drain_line-append :
    (buf more : Bytes) {line rest : Bytes}
    → drain_line buf ≡ some (line, rest)
    → drain_line (buf ++ more) ≡ some (line, rest ++ more)
unfolding drain_line
drain_line-append [] more e = cc
drain_line-append (b ∷ bs) more e = elim (Option-cases (drain_line bs)) [
  | inl g ↦ ground arith
  | inr ((l, r), g) ↦ ground (arith, drain_line-append bs more g)
]

-- The rounds of the loop: any fuel above the length of the buffer gives the same outcome.
loop_enough :
    (f g : ℕ) (buf : Bytes) (s : Session) (now : ℕ)
    → length buf < f
    → length buf < g
    → feed_loop f (with_buf buf s) now ≡ feed_loop g (with_buf buf s) now
loop_enough zero g buf s now p q = absurd (omega arith)
loop_enough (suc f) zero buf s now p q = absurd (omega arith)
loop_enough (suc f) (suc g) buf s now p q = elim (Option-cases (drain_line buf)) [
  | inl e ↦ loop_ends f buf s now e ∙ sym (loop_ends g buf s now e)
  | inr ((line, rest), e) ↦
      let shorter : length rest < length buf = drain_line-shorter buf e in
      loop_step f buf s now e
      ∙ ap (λ (k : Session → Checked Session). take_line s line now >>= k)
          (fun_ext (λ t. loop_enough f g rest t now (omega arith) (omega arith)))
      ∙ sym (loop_step g buf s now e)
]

loop-append :
    (f g : ℕ) (buf more : Bytes) (s : Session) (now : ℕ)
    → length buf < f
    → length (buf ++ more) < g
    → (feed_loop f (with_buf buf s) now >>= λ t. feed t more now)
      ≡ feed_loop g (with_buf (buf ++ more) s) now
loop-append zero g buf more s now p q = absurd (omega arith)
loop-append (suc f) zero buf more s now p q = absurd (omega arith)
loop-append (suc f) (suc g) buf more s now p q = elim (Option-cases (drain_line buf)) [
  | inl e ↦
      rw (loop_ends f buf s now e)
        (unfold feed in loop_enough _ (suc g) (buf ++ more) s now (omega arith) q)
  | inr ((line, rest), e) ↦
      let shorter : length rest < length buf = drain_line-shorter buf e in
      let fits : length (rest ++ more) < g =
        omega (arith, length-append rest more, length-append buf more) in
      ap (λ (m : Checked Session). m >>= λ t. feed t more now) (loop_step f buf s now e)
      ∙ bind_assoc (take_line s line now) _ _
      ∙ ap (λ (k : Session → Checked Session). take_line s line now >>= k)
          (fun_ext (λ t. loop-append f g rest more t now (omega arith) fits))
      ∙ sym (loop_step g (buf ++ more) s now (drain_line-append buf more e))
]

-- Feeding two chunks one after the other, at one time, is feeding them joined: the state, the
-- events and the outgoing packets are the same wherever the transport cuts the input.
pub feed-feed :
    (s : Session) (first second : Bytes) (now : ℕ)
    → (feed s first now >>= λ t. feed t second now) ≡ feed s (first ++ second) now
feed-feed s first second now =
    unfold feed in
    (loop-append (suc (length (s.inbound_buf ++ first)))
        (suc (length ((s.inbound_buf ++ first) ++ second))) (s.inbound_buf ++ first) second s now
        (omega arith) (omega arith)
      ∙ rw append_assoc)
