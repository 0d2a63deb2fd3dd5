-- ===== src/Device/Answers.antt =====
-- The driving loop of src/adapters until the answer to one packet.
use marlin_binary_transfer.Common.{
  ℕ, suc, ◌≤◌, ◌<◌, ◌≡◌, ◌∙◌, true, false, Bool-cases, inl, inr, Option, none, some, [], ◌∷◌, Bytes,
  length, Result, ok, done,
}
use marlin_binary_transfer.Session.State.{Session, InFlight}
use marlin_binary_transfer.Session.Operations as SessionOps
use marlin_binary_transfer.Session.Operations.{tick_from}
use marlin_binary_transfer.Session.Replies.{rs_text, with_newline}
use marlin_binary_transfer.Adapters.Types.{UploadError}
use marlin_binary_transfer.Adapters.Driver.{Machine, drive}
use marlin_binary_transfer.Adapters.Host.{IsHost}
use marlin_binary_transfer.Adapters.FirstRound.{drive-Exchange}
use marlin_binary_transfer.Device.{FakeDevice}
use marlin_binary_transfer.Device.Wire.{DeviceTransport, transport}
use marlin_binary_transfer.Device.Frames.{asks}
use marlin_binary_transfer.Device.Hosts.{pending}
use marlin_binary_transfer.Device.Exchanges.{wire, holding, host-Exchange}
use marlin_binary_transfer.Device.Patience.{IsSteady, Patience, IsPaced, Succeeds}
use marlin_binary_transfer.Device.Again.{Passes, asked-Recovers}

module _ (clock : ℕ → ℕ) {X V : Type 0} (machine : Machine X V) (put : Session → X)
    (host : IsHost machine put) {A : Type 0} (exhausted : UploadError (Unit {0}))
    (verdict : V → Option (Result A (UploadError (Unit {0})))) where
  -- One packet: the device answers it at once, or asks for it again and answers it then.
  pub host-Succeeds :
      (again : Option ℕ) (t : DeviceTransport) (d d' : FakeDevice) (number first : ℕ)
      (bytes : Bytes) (calls : ℕ) (flight : InFlight) (s fed : Session) (x : X) (event : V)
      (r : Result A (UploadError (Unit {0})))
      → Patience again clock
      → IsPaced s
      → number < 256
      → flight.first_sent ≡ clock calls
      → flight.last_sent ≡ clock calls
      → Passes clock machine put host exhausted verdict (pending [] flight s)
      → length (first ∷ bytes) ≤ 1024
      → (asks again number ≡ false
          → (transport clock).write_all t flight.bytes
            ≡ (holding again (first ∷ bytes) d' (suc calls), ok tt))
      → (asks again number ≡ true
          → (transport clock).write_all t flight.bytes
            ≡ (holding none (with_newline (rs_text number)) d (suc calls), ok tt))
      → ((after : ℕ)
          → (transport clock).write_all (wire none d after) flight.bytes
            ≡ (holding none (first ∷ bytes) d' after, ok tt))
      → ((last now : ℕ)
          → SessionOps.feed (pending [] (record flight { last_sent = last }) s) (first ∷ bytes) now
            ≡ done fed)
      → machine.poll (put fed) ≡ (x, some event)
      → verdict event ≡ some r
      → Succeeds clock d' x r (
          drive
            (transport clock)
            machine
            exhausted
            verdict
            200
            (t, put (pending (flight.bytes ∷ []) flight s)))
  host-Succeeds again t d d' number first bytes calls flight s fed x event r patience paced h
        first_at last_at passes fits answers asking answers_later feeds polls ends =
      elim (Bool-cases (asks again number)) [
        | inl e ↦
            let (rounds, last, after, runs) =
              asked-Recovers clock machine put host exhausted verdict t d number flight s calls
                (asking e) h passes (steady again patience e) paced first_at last_at in
            (
              none,
              suc after,
              tt,
              runs
                  ∙ drive-Exchange (transport clock) machine exhausted verdict r rounds
                      (wire none d after) (wire none d' (suc after)) _ x event
                      (host-Exchange clock machine put host (wire none d after) none d' first bytes
                        after (record flight { last_sent = last }) s fed x event
                        (answers_later after) fits (feeds last (clock after)) polls)
                      ends,
            )
        | inr e ↦ (
          again,
          suc (suc calls),
          patience,
          drive-Exchange (transport clock) machine exhausted verdict r 199 t
              (wire again d' (suc (suc calls))) _ x event
              (host-Exchange clock machine put host t again d' first bytes (suc calls) flight s fed
                x event (answers e) fits (feeds flight.last_sent (clock (suc calls))) polls)
              ends,
        )
      ]
    where
      steady : (m : Option ℕ) → Patience m clock → asks m number ≡ true → IsSteady clock
      steady none p e = absurd (cc)
      steady (some n) p e = p
