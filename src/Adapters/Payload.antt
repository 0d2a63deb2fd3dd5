-- ===== src/Adapters/Payload.antt =====
-- The payload of the WRITE packets of src/adapters, against the bytes of the source.
use marlin_binary_transfer.Common.{
  ℕ, ◌≡◌, refl, sym, ap, ◌∙◌, Bool, true, false, Option, none, some, [], Bytes, Result, ok, err,
  if◌then◌else◌, Checked, done,
}
use marlin_binary_transfer.Transfer.State.{Compression, uncompressed, heatshrink, auto}
use marlin_binary_transfer.Heatshrink.{
  Heatshrink, HeatshrinkError, invalid_parameters, validated, validate, compress, decompress,
}
use marlin_binary_transfer.Heatshrink.RoundTrip.{supports, validate_lem}
use marlin_binary_transfer.Adapters.Types.{UploadError}
use marlin_binary_transfer.Adapters.Upload.{compressed, payload_of}

-- The decoder of the crate undoes its encoder on the parameters within its limits.
abbrev pub IsLawful : Option Heatshrink → Type 0
IsLawful none = Unit
IsLawful (some crate) =
    (window lookahead : ℕ) (bytes : Bytes)
    → supports crate window lookahead ≡ true
    → crate.decode window lookahead (crate.encode window lookahead bytes) ≡ bytes

-- What a device with the same crate makes of the payload.
abbrev pub recovered : Option Heatshrink → Compression → Bytes → Result Bytes HeatshrinkError
recovered feature uncompressed payload = ok payload
recovered (some crate) (heatshrink window lookahead) payload =
    decompress crate payload window lookahead
recovered none (heatshrink window lookahead) payload = err (invalid_parameters window lookahead)
recovered feature auto payload = ok payload

bytes_of : {E : Type 0} → Checked (Result Bytes (UploadError E)) → Bytes
bytes_of (done (ok bytes)) = bytes
bytes_of _ = []

abbrev payload_made :
    {E : Type 0} → Result Bytes (UploadError E) → Checked (Result Bytes (UploadError E))
payload_made r = done r

validated-recovered :
    {E : Type 0} (crate : Heatshrink) (v : Result (Unit {0}) HeatshrinkError)
    (source packed payload : Bytes) (decode : Bytes → Bytes)
    → payload_made {E = E} (compressed (validated crate v packed)) ≡ done (ok payload)
    → (v ≡ ok tt → decode packed ≡ source)
    → validated crate v (decode payload) ≡ ok source
unfolding bytes_of
validated-recovered crate (ok tt) source packed payload decode e h =
    ap ok (ap decode (sym (ap bytes_of e)) ∙ h refl)
validated-recovered crate (err error) source packed payload decode e h = cc

abbrev checked : Bool → (window lookahead : ℕ) → Result (Unit {0}) HeatshrinkError
checked true window lookahead = ok tt
checked false window lookahead = err (invalid_parameters window lookahead)

checked-true : (b : Bool) (window lookahead : ℕ) → checked b window lookahead ≡ ok tt → b ≡ true
checked-true true window lookahead e = refl
checked-true false window lookahead e = cc

validate-supports :
    (crate : Heatshrink) (window lookahead : ℕ)
    → validate crate window lookahead ≡ ok tt
    → supports crate window lookahead ≡ true
validate-supports crate window lookahead e =
    checked-true (supports crate window lookahead) window lookahead
      (same (supports crate window lookahead) ∙ sym (validate_lem crate window lookahead) ∙ e)
  where
    same :
        (b : Bool)
        → checked b window lookahead
          ≡ (if b then ok tt else err (invalid_parameters window lookahead))
    same true = refl
    same false = refl

-- If the crate's decoder undoes its encoder, then a device with the same crate gets the bytes of the
-- source out of every payload that `upload` makes of them, with or without compression.
pub payload_of-recovered :
    {E : Type 0} (feature : Option Heatshrink) (compression : Compression) (source payload : Bytes)
    → IsLawful feature
    → payload_of {E = E} feature compression source ≡ done (ok payload)
    → recovered feature compression payload ≡ ok source
unfolding payload_of compress decompress bytes_of
payload_of-recovered feature uncompressed source payload law e = ap ok (sym (ap bytes_of e))
payload_of-recovered (some crate) (heatshrink window lookahead) source payload law e =
    validated-recovered crate (validate crate window lookahead) source
      (crate.encode window lookahead source) payload (crate.decode window lookahead) e
      (λ v. law window lookahead source (validate-supports crate window lookahead v))
payload_of-recovered none (heatshrink window lookahead) source payload law e = cc
payload_of-recovered feature auto source payload law e = cc
