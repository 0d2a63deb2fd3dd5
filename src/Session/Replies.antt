-- ===== src/Session/Replies.antt =====
-- The reply lines `ok<n>` and `rs<n>` of a device, as bytes through `feed` of src/session.rs.
use mathlib.Core.Path.{fun_ext}
use native.Mathlib.Numerals.{add-one}
use marlin_binary_transfer.Common.{
  length-append, ℕ, ◌<◌, ◌≡◌, refl, sym, ap, ◌∙◌, Bool, true, false, ◌&&◌, Option, none, some, [],
  ◌∷◌, ◌++◌, Bytes, length, ◌==◌, ==→eq, equal, equal→eq, every_below, every_below_lem, is_empty,
  Checked, done, ◌>>=◌,
}
use marlin_binary_transfer.Text.{codes, display}
use marlin_binary_transfer.Session.State.{Session, push_event, resend_requested}
use marlin_binary_transfer.Session.Lines.{newline, strip_line_endings, drain_line}
use marlin_binary_transfer.Session.Operations.{
  Line, ok_line, rs_line, classify, act, process_line, take_line, feed_loop, feed, handle_ok,
}
use marlin_binary_transfer.Session.Chunks.{with_buf, loop_ends, loop_step, take_line-buf}

-- `ok<n>` and `rs<n>` with the number in decimal, without the newline.
abbrev pub ok_text : ℕ → Bytes
ok_text n = codes "ok" ++ display 3 n

abbrev pub rs_text : ℕ → Bytes
rs_text n = codes "rs" ++ display 3 n

abbrev pub with_newline : Bytes → Bytes
with_newline text = text ++ newline ∷ []

-- The bytes are one whole line, and `text` is what is left of it without its end.
is_line : Bytes → Option (Bytes × Bytes) → Bool
is_line text (some (line, [])) =
    equal (strip_line_endings line) text && equal line (with_newline text)
is_line text _ = false

is_ok : ℕ → Line → Bool
is_ok n (ok_line m) = m == n
is_ok n _ = false

is_rs : ℕ → Line → Bool
is_rs n (rs_line m) = m == n
is_rs n _ = false

is_ok-eq : (n : ℕ) (line : Line) → is_ok n line ≡ true → line ≡ ok_line n
unfolding is_ok
is_ok-eq n (ok_line m) e = ap ok_line (==→eq m n e)
is_ok-eq n _ e = cc

is_rs-eq : (n : ℕ) (line : Line) → is_rs n line ≡ true → line ≡ rs_line n
unfolding is_rs
is_rs-eq n (rs_line m) e = ap rs_line (==→eq m n e)
is_rs-eq n _ e = cc

good_reply : Bytes → Bool
good_reply text = is_line text (drain_line (with_newline text))

reply_table :
    every_below
      (λ n.
        (good_reply (ok_text n) && is_ok n (classify (ok_text n)))
        && (good_reply (rs_text n) && is_rs n (classify (rs_text n))))
      256
    ≡ true
unfolding every_below good_reply is_line is_ok is_rs drain_line equal strip_line_endings classify
    display
reply_table = refl

and_parts : (a b : Bool) → (a && b) ≡ true → (a ≡ true) × (b ≡ true)
and_parts true true e = (refl, refl)
and_parts true false e = cc
and_parts false b e = cc

-- A buffer that holds one whole line.
pub record Whole (text : Bytes) : Type 0 where
  pub line : Bytes
  pub drained : drain_line (with_newline text) ≡ some (line, [])
  pub stripped : strip_line_endings line ≡ text

good_reply-Whole : (text : Bytes) → good_reply text ≡ true → Whole text
unfolding good_reply is_line
good_reply-Whole text e = from (drain_line (with_newline text)) refl e
  where
    from :
        (o : Option (Bytes × Bytes))
        → drain_line (with_newline text) ≡ o
        → is_line text o ≡ true
        → Whole text
    from none d h = cc
    from (some (line, [])) d h = record {
      line = line;
      drained = d;
      stripped = equal→eq _ text (and_parts _ _ h).0;
    }
    from (some (line, x ∷ rest)) d h = cc

-- One whole line that comes alone goes to `process_line`, and the buffer is empty again.
pub feed-line :
    (s : Session) (text : Bytes) (now : ℕ)
    → Whole text
    → is_empty text ≡ false
    → feed (with_buf [] s) (with_newline text) now ≡ act (classify text) (with_buf [] s) now
feed-line s text now w e =
    unfold feed in
    (loop_step (length (with_newline text)) (with_newline text) s now w.drained
      ∙ ap (λ (k : Session → Checked Session). take_line s w.line now >>= k) (fun_ext ends)
      ∙ sym (take_line-buf s w.line now []))
    ∙ unfold take_line process_line in rw (w.stripped, e)
  where
    ends :
        (t : Session)
        → feed_loop (length (with_newline text)) (with_buf [] t) now ≡ done (with_buf [] t)
    ends t =
        rw (length-append text (newline ∷ []), add-one)
          (loop_ends (length text) [] t now (unfold drain_line in refl))

replies :
    (n : ℕ)
    → n < 256
    → Whole (ok_text n)
      × (classify (ok_text n) ≡ ok_line n)
      × Whole (rs_text n)
      × (classify (rs_text n) ≡ rs_line n)
replies n h =
    let (oks, rss) = and_parts _ _ (every_below_lem _ 256 n h reply_table) in
    let (ok_whole, ok_class) = and_parts _ _ oks in
    let (rs_whole, rs_class) = and_parts _ _ rss in
    (
      good_reply-Whole (ok_text n) ok_whole,
      is_ok-eq n _ ok_class,
      good_reply-Whole (rs_text n) rs_whole,
      is_rs-eq n _ rs_class,
    )

-- The line `ok<n>` of a device, for every byte `n`, is read as the ack of packet `n`, and nothing
-- is left in the buffer.
pub feed-ok_text :
    (s : Session) (n now : ℕ)
    → n < 256
    → feed (with_buf [] s) (with_newline (ok_text n)) now ≡ handle_ok (with_buf [] s) n now
feed-ok_text s n now h =
    let (whole, class, _, _) = replies n h in
    feed-line s (ok_text n) now whole refl ∙ rw class (unfold act in refl)

-- The line `rs<n>` of a device, for every byte `n`, only reports the request: the packet in flight
-- is not sent again, and nothing but the queue of events changes.
pub feed-rs_text :
    (s : Session) (n now : ℕ)
    → n < 256
    → feed (with_buf [] s) (with_newline (rs_text n)) now
      ≡ done (push_event (with_buf [] s) (resend_requested n))
feed-rs_text s n now h =
    let (_, _, whole, class) = replies n h in
    feed-line s (rs_text n) now whole refl ∙ rw class (unfold act in refl)
