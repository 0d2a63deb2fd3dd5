-- ===== src/Session/Handshake.antt =====
-- Lines of printable ASCII as `feed` of src/session.rs reads them: the line `ss...` of the handshake,
-- and the lines `PFT:...` that it passes on.
use marlin_binary_transfer.Common.{
  ℕ, suc, ◌%◌, ◌<◌, ◌≡◌, ◌≢◌, refl, ap, ◌∙◌, arith, Option, none, some, Bool, true, false,
  Bool-cases, inl, inr, [], ◌∷◌, ◌++◌, Bytes, length, get_or, take-length-append, All, All-append,
  equal, done,
}
use marlin_binary_transfer.Text.{Str, codes, display, splitn, trim}
use marlin_binary_transfer.Text.Plain.{
  IsPrintable, IsDigit, from_utf8_ascii, split_once-append, display-All, All-weaken, parse-display,
}
use marlin_binary_transfer.Session.State.{Session, InFlight, synced, push_event, ascii_line}
use marlin_binary_transfer.Session.Lines.{newline, strip_end, strip_line_endings, drain_line}
use marlin_binary_transfer.Session.Operations.{
  ss_line, text_line, classify, classify_word, act, feed, ss_parts, ss_text, ss_fields,
  handle_ss_fields, handle_ss, consume_handshake, dispatch_if_idle, dispatch_from,
}
use marlin_binary_transfer.Session.Chunks.{with_buf}
use marlin_binary_transfer.Session.Replies.{with_newline, Whole, feed-line}

drain_line_printable :
    (text : Bytes)
    → All IsPrintable text
    → drain_line (with_newline text) ≡ some (with_newline text, [])
unfolding drain_line
drain_line_printable [] h = refl
drain_line_printable (c ∷ text) (p, h) = rw (drain_line_printable text h) (ground arith)

get_or-IsPrintable :
    (c : ℕ) (a b : Bytes)
    → All IsPrintable (c ∷ a)
    → IsPrintable (get_or (c ∷ (a ++ b)) (length a) 0)
get_or-IsPrintable c [] b (p, h) = p
get_or-IsPrintable c (d ∷ a) b (p, h) = get_or-IsPrintable d a b h

strip_end_printable : (a b : Bytes) → All IsPrintable a → strip_end (a ++ b) (length a) ≡ length a
unfolding strip_end
strip_end_printable [] b h = refl
strip_end_printable (c ∷ a) b h = let p = get_or-IsPrintable c a b h in ground (arith, p.0)

get_or-newline : (text : Bytes) → get_or (with_newline text) (length text) 0 ≡ newline
get_or-newline [] = refl
get_or-newline (c ∷ text) = get_or-newline text

length-with_newline : (text : Bytes) → length (with_newline text) ≡ suc (length text)
length-with_newline [] = refl
length-with_newline (c ∷ text) = ap (λ (n : ℕ). suc n) (length-with_newline text)

strip_line_endings_printable :
    (text : Bytes) → All IsPrintable text → strip_line_endings (with_newline text) ≡ text
unfolding strip_line_endings
strip_line_endings_printable text h =
    rw (length-with_newline text, stripped) (take-length-append text (newline ∷ []))
  where
    stripped : strip_end (with_newline text) (suc (length text)) ≡ length text
    stripped =
        unfold strip_end in rw (get_or-newline text) (strip_end_printable text (newline ∷ []) h)

pub printable-Whole : (text : Bytes) → All IsPrintable text → Whole text
printable-Whole text h = record {
  line = with_newline text;
  drained = drain_line_printable text h;
  stripped = strip_line_endings_printable text h;
}

-- `ss<sync>,<max_block_size>,<version>` without the newline.
abbrev pub ss_text_of : (sync size : ℕ) → Str → Bytes
ss_text_of sync size version =
    codes "ss" ++ (display 5 sync ++ b',' ∷ (display 5 size ++ b',' ∷ version))

splitn_three :
    (sep : ℕ) (a b c : Str)
    → All (λ d. d ≢ sep) a
    → All (λ d. d ≢ sep) b
    → splitn 3 sep (a ++ sep ∷ (b ++ sep ∷ c)) ≡ a ∷ (b ∷ (c ∷ []))
unfolding splitn
splitn_three sep a b c p q =
    rw (split_once-append sep a (b ++ sep ∷ c) p, splitn)
      (rw (split_once-append sep b c q, splitn) refl)

no_comma : (n : ℕ) → All (λ d. d ≢ b',') (display 5 n)
no_comma n = All-weaken IsDigit _ (display 5 n) (λ c d. omega arith) (display-All 5 n)

pub display-IsPrintable : (digits n : ℕ) → All IsPrintable (display digits n)
display-IsPrintable digits n =
    All-weaken IsDigit _ (display digits n) (λ c d. (omega arith, omega arith))
      (display-All digits n)

-- What follows the letters `ss`.
abbrev ss_rest : (sync size : ℕ) → Str → Bytes
ss_rest sync size version = display 5 sync ++ b',' ∷ (display 5 size ++ b',' ∷ version)

ss_rest-IsPrintable :
    (sync size : ℕ) (version : Str)
    → All IsPrintable version
    → All IsPrintable (ss_rest sync size version)
ss_rest-IsPrintable sync size version h =
    All-append IsPrintable (display 5 sync) _ (display-IsPrintable 5 sync) (
      (omega arith, omega arith),
      All-append IsPrintable (display 5 size) _ (display-IsPrintable 5 size)
          ((omega arith, omega arith), h),
    )

ss_fields_lem :
    (sync size : ℕ) (version : Str)
    → sync < 65536
    → size < 65536
    → All IsPrintable version
    → ss_fields (ss_rest sync size version) ≡ some (sync % 256, size, trim version)
unfolding ss_fields ss_text
ss_fields_lem sync size version p q h =
    rw
      (
        from_utf8_ascii (ss_rest sync size version) (ss_rest-IsPrintable sync size version h),
        splitn_three b',' (display 5 sync) (display 5 size) version (no_comma sync) (no_comma size),
      )
      (unfold ss_parts in rw (parse-display sync p, parse-display size q))

-- The line goes to `handle_ss_fields` with its fields.
pub feed-ss_fields :
    (s : Session) (sync size now : ℕ) (version : Str)
    → sync < 65536
    → size < 65536
    → All IsPrintable version
    → feed (with_buf [] s) (with_newline (ss_text_of sync size version)) now
      ≡ handle_ss_fields (some (sync % 256, size, trim version)) (with_buf [] s) now
feed-ss_fields s sync size now version p q h =
    feed-line s (ss_text_of sync size version) now
      (printable-Whole _ (
        (omega arith, omega arith),
        ((omega arith, omega arith), ss_rest-IsPrintable sync size version h),
      ))
      refl
    ∙ rw class (unfold act handle_ss in rw (ss_fields_lem sync size version p q h))
  where
    class : classify (ss_text_of sync size version) ≡ ss_line (ss_rest sync size version)
    class = unfold classify in refl

-- SYNC is no longer in flight; any other packet still is.
abbrev pub without_sync : Option InFlight → Option InFlight
without_sync none = none
without_sync (some flight) = kept flight.is_sync_handshake
  where
    kept : Bool → Option InFlight
    kept true = none
    kept false = some flight

consumed : (flight : Option InFlight) → consume_handshake flight ≡ without_sync flight
consumed none = refl
consumed (some flight) = elim (Bool-cases flight.is_sync_handshake) [
  | inl e ↦ rw e refl
  | inr e ↦ rw e refl
]

nothing_queued :
    (flight : Option InFlight) (s : Session) (now : ℕ) → dispatch_from flight [] s now ≡ done s
unfolding dispatch_from
nothing_queued none s now = refl
nothing_queued (some flight) s now = refl

dispatches_nothing : (s : Session) (now : ℕ) → s.queued ≡ [] → dispatch_if_idle s now ≡ done s
unfolding dispatch_if_idle
dispatches_nothing s now e =
    ap (λ queued. dispatch_from s.in_flight queued s now) e ∙ nothing_queued s.in_flight s now

-- The line `ss<sync>,<max_block_size>,<version>` of a device, for every pair of `u16` and every
-- version of printable ASCII, completes the handshake of a session with no packet in the queue: the
-- session is synced, its next packet has the sync number mod 256, it knows the block size and the
-- version without the blanks around it, SYNC is no longer in flight, the event `Synced` is behind the
-- others, and all else is as it was.
pub feed-ss_text_of :
    (s : Session) (sync size now : ℕ) (version : Str)
    → sync < 65536
    → size < 65536
    → All IsPrintable version
    → s.queued ≡ []
    → feed (with_buf [] s) (with_newline (ss_text_of sync size version)) now
      ≡ done (record (with_buf [] s) {
        sync = sync % 256;
        max_block_size = some size;
        protocol_version = some (trim version);
        is_synced = true;
        in_flight = without_sync s.in_flight;
        events = s.events ++ synced size (trim version) ∷ [];
      })
feed-ss_text_of s sync size now version p q h none_queued =
    feed-ss_fields s sync size now version p q h
    ∙ unfold handle_ss_fields in rw (consumed s.in_flight) (dispatches_nothing _ now none_queued)

-- A printable line that starts with `P` is passed on as it is.
pub feed-pft :
    (s : Session) (text : Str) (now : ℕ)
    → All IsPrintable text
    → feed (with_buf [] s) (with_newline (b'P' ∷ text)) now
      ≡ done (push_event (with_buf [] s) (ascii_line (b'P' ∷ text)))
unfolding equal
feed-pft s text now h =
    feed-line s (b'P' ∷ text) now (printable-Whole _ printable) refl ∙ rw class (unfold act in refl)
  where
    printable : All IsPrintable (b'P' ∷ text)
    printable = ((omega arith, omega arith), h)

    class : classify (b'P' ∷ text) ≡ text_line (b'P' ∷ text)
    class = unfold classify classify_word in rw (from_utf8_ascii (b'P' ∷ text) printable)
