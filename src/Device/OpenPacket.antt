-- ===== src/Device/OpenPacket.antt =====
-- OPEN as the fake device reads it.
use marlin_binary_transfer.Transfer.State.{Compression}
use marlin_binary_transfer.Device.{FakeDevice, until_nul, note_open}
use marlin_binary_transfer.Common.{
  true, false, ℕ, zero, suc, ◌+◌, ◌<◌, ◌≡◌, refl, ap, ◌∙◌, arith, Bool, true, false, if◌then◌else◌,
  not, Option, some, [], ◌∷◌, ◌++◌, Bytes, length, length-append, All, ◌==◌,
}
use marlin_binary_transfer.Text.{Str, as_bytes}
use marlin_binary_transfer.Session.State.{BytesBuilder}
use marlin_binary_transfer.Transfer.Operations.{open_payload, comp_byte}

abbrev pub open_packet : Option Compression → Str → Bool → BytesBuilder
open_packet compression name dummy = record {
  protocol = 1;
  packet_type = 1;
  payload = open_payload compression name dummy;
}

-- The device has noted the bytes of the payload.
abbrev noted : (dummy compression : ℕ) → Bytes → FakeDevice → FakeDevice
noted dummy compression name d = record d {
  last_open_dummy = some (not (dummy == 0));
  last_open_compression_byte = some compression;
  last_open_filename = some (until_nul (name ++ 0 ∷ []));
}

abbrev pub opened : Option Compression → Str → Bool → FakeDevice → FakeDevice
opened compression name dummy d = record d {
  last_open_dummy = some dummy;
  last_open_compression_byte = some (comp_byte compression);
  last_open_filename = some (as_bytes name);
}

note_open_lem :
    (dummy compression : ℕ) (name : Bytes) (d : FakeDevice)
    → note_open (dummy ∷ (compression ∷ (name ++ 0 ∷ []))) d ≡ noted dummy compression name d
note_open_lem dummy compression [] d = refl
note_open_lem dummy compression (c ∷ name) d = refl

-- No byte of the name is the end of the name.
abbrev pub IsName : Bytes → Type 0
IsName name = All (λ b. 0 < b) name

until_nul_lem : (name : Bytes) → IsName name → until_nul (name ++ 0 ∷ []) ≡ name
until_nul_lem [] h = refl
until_nul_lem (zero ∷ name) (p, h) = absurd (omega arith)
until_nul_lem (suc n ∷ name) (p, h) = ap (◌∷◌ (suc n)) (until_nul_lem name h)

flag : (dummy : Bool) → not ((if dummy then 1 else 0) == 0) ≡ dummy
flag true = refl
flag false = refl

pub noted-opened :
    (compression : Option Compression) (name : Str) (dummy : Bool) (d : FakeDevice)
    → IsName (as_bytes name)
    → note_open (open_payload compression name dummy) d ≡ opened compression name dummy d
unfolding open_payload
noted-opened compression name dummy d h =
    note_open_lem (if dummy then 1 else 0) (comp_byte compression) (as_bytes name) d
    ∙ rw (flag dummy, until_nul_lem (as_bytes name) h)

-- The payload of OPEN has three bytes besides the name.
pub length-open_payload :
    (compression : Option Compression) (name : Str) (dummy : Bool)
    → length (open_payload compression name dummy) ≡ length (as_bytes name) + 3
unfolding open_payload
length-open_payload compression name dummy = omega (arith, length-append (as_bytes name) (0 ∷ []))
