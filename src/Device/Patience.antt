-- ===== src/Device/Patience.antt =====
-- A clock that lets time pass, and a tick of src/session.rs within the budget of a packet.
use marlin_binary_transfer.Common.{
  ℕ, suc, ◌+◌, ◌-◌, ◌≤◌, ◌<◌, ◌≡◌, refl, arith, false, Bool-cases, inl, inr, leb, Option, none,
  some, [], ◌∷◌, Result, Checked, done,
}
use marlin_binary_transfer.Session.State.{Session, InFlight}
use marlin_binary_transfer.Session.Operations as SessionOps
use marlin_binary_transfer.Session.Operations.{tick_from}
use marlin_binary_transfer.Adapters.Types.{UploadError}
use marlin_binary_transfer.Device.{FakeDevice}
use marlin_binary_transfer.Device.Wire.{DeviceTransport}
use marlin_binary_transfer.Device.Hosts.{pending}
use marlin_binary_transfer.Device.Exchanges.{wire}

abbrev pub IsSteady : (clock : ℕ → ℕ) → Type 0
IsSteady clock =
    (n : ℕ) → (clock n + 10_000_000 ≤ clock (suc n)) × (clock (suc n) ≤ clock n + 1_000_000_000)

-- The clock matters only with a device that will ask for a packet again.
abbrev pub Patience : (again : Option ℕ) → (clock : ℕ → ℕ) → Type 0
Patience none clock = Unit {0}
Patience (some n) clock = IsSteady clock

-- The timeouts of `Session::new`.
abbrev pub IsPaced : Session → Type 0
IsPaced s = (s.response_timeout ≡ 1_000_000_000) × (s.total_timeout ≡ 20_000_000_000)

-- A loop ends with the result, at some later reading of the clock. A device that has not asked yet may
-- ask later.
abbrev pub Succeeds :
    {X A : Type 0} (clock : ℕ → ℕ)
    → FakeDevice
    → X
    → Result A (UploadError (Unit {0}))
    → Checked ((DeviceTransport × X) × Result A (UploadError (Unit {0})))
    → Type 0
Succeeds clock d x r runs =
    (left : Option ℕ) × (after : ℕ) × Patience left clock
    × (runs ≡ done ((wire left d after, x), r))

-- A tick within the budget sends the packet again or leaves all as it is.
pub data Ticked (s : Session) (flight : InFlight) (now : ℕ) : Type 0 where
  sent_again :
      SessionOps.tick (pending [] flight s) now
        ≡ done (pending (flight.bytes ∷ []) (record flight { last_sent = now }) s)
      → Ticked s flight now
  too_early :
      SessionOps.tick (pending [] flight s) now ≡ done (pending [] flight s)
      → now < flight.last_sent + 1_000_000_000
      → Ticked s flight now

pub ticked :
    (s : Session) (flight : InFlight) (now : ℕ)
    → IsPaced s
    → now < flight.first_sent + 20_000_000_000
    → Ticked s flight now
ticked s flight now (response, total) h =
    elim (Bool-cases (leb s.response_timeout (now - flight.last_sent))) [
      | inl e ↦ sent_again (unfold SessionOps.tick tick_from in rw (within, e) refl)
      | inr e ↦ too_early (unfold SessionOps.tick tick_from in rw (within, e) refl) (early e)
    ]
  where
    within : leb s.total_timeout (now - flight.first_sent) ≡ false
    within = rw total (ground arith)

    early :
        leb s.response_timeout (now - flight.last_sent) ≡ false
        → now < flight.last_sent + 1_000_000_000
    early e = ground (arith, rw response at e)
