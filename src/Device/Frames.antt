-- ===== src/Device/Frames.antt =====
-- The fake device of src/tests on one whole frame.
use marlin_binary_transfer.Common.{
  Bool, true, false, Option, none, some, ℕ, suc, ◌≡◌, refl, sym, ap, ◌∙◌, arith, [], ◌∷◌, ◌++◌,
  Bytes, length, drop, append-nil, ◌==◌, le→leb, ok, done,
}
use marlin_binary_transfer.Codec.{Packet, decode, wire_len}
use marlin_binary_transfer.Codec.Frame.{IsValid, header, body, frame, length-frame}
use marlin_binary_transfer.Codec.Decode.{decode-frame}
use marlin_binary_transfer.Session.Replies.{rs_text, with_newline}
use marlin_binary_transfer.Device.{
  FakeDevice, handle_packet, handle_unless, handle, feed_loop, feed,
}

-- A device with the given replies to read, which asks once more for the packet of the number
-- `again`, if there is one.
abbrev pub replying : (again : Option ℕ) → Bytes → FakeDevice → FakeDevice
replying again reply d = record d {
  inbound = [];
  reply_buf = reply;
  behaviour = record (d.behaviour) { resend_once_for_sync = again };
}

-- It asks for the packet of this number.
abbrev pub asks : (again : Option ℕ) → (number : ℕ) → Bool
asks none number = false
asks (some n) number = number == n

whole : (p : Packet) → IsValid p → decode (frame p) ≡ done (ok (p, wire_len p))
whole p v = ap decode (sym (append-nil (frame p))) ∙ decode-frame p [] v

drop_all : (bytes : Bytes) → drop (length bytes) bytes ≡ []
drop_all [] = refl
drop_all (b ∷ bytes) = drop_all bytes

loop_ends :
    (fuel : ℕ) (again : Option ℕ) (reply : Bytes) (d : FakeDevice)
    → feed_loop (suc fuel) (replying again reply d) ≡ done (replying again reply d)
unfolding feed_loop decode
loop_ends fuel again reply d = refl

loop_frame :
    (fuel : ℕ) (again : Option ℕ) (p : Packet) (d : FakeDevice)
    → IsValid p
    → feed_loop (suc fuel) (record (replying again [] d) { inbound = frame p })
      ≡ feed_loop fuel (handle p (replying again [] d))
unfolding feed_loop
loop_frame fuel again p d v = rw (whole p v) (
    rw (sym (length-frame p))
      (rw (le→leb (length (frame p)) (length (frame p)) (omega arith), drop_all (frame p))))

-- One whole frame is answered once, and nothing of it is left.
pub feed-frame :
    (again left : Option ℕ) (p : Packet) (d d' : FakeDevice) (reply : Bytes)
    → IsValid p
    → handle p (replying again [] d) ≡ replying left reply d'
    → feed (replying again [] d) (frame p) ≡ done (replying left reply d')
unfolding feed
feed-frame again left p d d' reply v e =
    loop_frame (length (frame p)) again p d v
    ∙ rw e (unfold frame in loop_ends (suc (length (header p ++ body p))) left reply d')

-- A packet that it does not ask for is answered, and one that it asks for is not.
pub handle-handle_packet :
    (again : Option ℕ) (p : Packet) (d : FakeDevice)
    → asks again p.sync ≡ false
    → handle p (replying again [] d) ≡ handle_packet p (replying again [] d)
unfolding handle handle_unless
handle-handle_packet none p d e = refl
handle-handle_packet (some n) p d e = rw e refl

pub handle-asks :
    (again : Option ℕ) (p : Packet) (d : FakeDevice)
    → asks again p.sync ≡ true
    → handle p (replying again [] d) ≡ replying none (with_newline (rs_text p.sync)) d
unfolding handle handle_unless
handle-asks none p d e = absurd (cc)
handle-asks (some n) p d e = rw e refl
