-- ===== src/Device/Loop.antt =====
-- The loop of `upload` in src/adapters over the chunks, with the fake device.
use marlin_binary_transfer.Common.{
  ℕ, ◌+◌, ◌<◌, ◌≤◌, ◌≡◌, refl, sym, ◌∙◌, arith, Option, none, some, List, [], ◌∷◌, ◌++◌, Bytes,
  length, length-append, All, append_assoc, append-nil, ok, done,
}
use marlin_binary_transfer.Codec.{max_payload}
use marlin_binary_transfer.Session.State.{Session}
use marlin_binary_transfer.Transfer.State.{FileTransfer, State}
use marlin_binary_transfer.Adapters.Types.{Progress, UploadStats}
use marlin_binary_transfer.Adapters.Cuts.{concat, IsChunk}
use marlin_binary_transfer.Adapters.Upload.{report, write_chunks}
use marlin_binary_transfer.Device.{FakeDevice}
use marlin_binary_transfer.Device.Wire.{DeviceTransport, transport}
use marlin_binary_transfer.Device.Hosts.{idle}
use marlin_binary_transfer.Device.Patience.{Patience, IsPaced, Succeeds}
use marlin_binary_transfer.Device.Exchanges.{wire}
use marlin_binary_transfer.Device.Steps.{next, phase, stored, call-write, drive-write}

-- What is left after the loop of the device, the sync number and the statistics.
abbrev pub stored_all : List Bytes → FakeDevice → FakeDevice
stored_all [] d = d
stored_all (chunk ∷ rest) d = stored_all rest (stored chunk d)

abbrev pub number_after : List Bytes → ℕ → ℕ
number_after [] number = number
number_after (chunk ∷ rest) number = number_after rest (next number)

abbrev pub one_sent : Bytes → UploadStats → UploadStats
one_sent chunk stats = record stats {
  bytes_sent = stats.bytes_sent + length chunk;
  chunks_sent = stats.chunks_sent + 1;
}

abbrev pub counted : List Bytes → UploadStats → UploadStats
counted [] stats = stats
counted (chunk ∷ rest) stats = counted rest (one_sent chunk stats)

pub number_after-lt :
    (chunks : List Bytes) (number : ℕ) → number < 256 → number_after chunks number < 256
number_after-lt [] number h = h
number_after-lt (chunk ∷ rest) number h = number_after-lt rest (next number) (omega arith)

pub stored_all-concat :
    (chunks : List Bytes) (d : FakeDevice) → stored_all chunks d ≡ stored (concat chunks) d
unfolding concat
stored_all-concat [] d = rw append-nil
stored_all-concat (chunk ∷ rest) d = stored_all-concat rest (stored chunk d) ∙ rw append_assoc

pub counted-concat :
    (chunks : List Bytes) (stats : UploadStats)
    → counted chunks stats ≡ record stats {
      bytes_sent = stats.bytes_sent + length (concat chunks);
      chunks_sent = stats.chunks_sent + length chunks;
    }
unfolding concat
counted-concat [] stats = both (omega arith) (omega arith)
  where
    both :
        stats.bytes_sent ≡ stats.bytes_sent + 0
        → stats.chunks_sent ≡ stats.chunks_sent + 0
        → stats
          ≡ record stats { bytes_sent = stats.bytes_sent + 0; chunks_sent = stats.chunks_sent + 0 }
    both e f = rw (sym e, sym f)
counted-concat (chunk ∷ rest) stats =
    counted-concat rest _ ∙ both (omega (arith, length-append chunk (concat rest))) (omega arith)
  where
    both :
        (stats.bytes_sent + length chunk) + length (concat rest)
          ≡ stats.bytes_sent + length (chunk ++ concat rest)
        → (stats.chunks_sent + 1) + length rest ≡ stats.chunks_sent + length (chunk ∷ rest)
        → record stats {
          bytes_sent = (stats.bytes_sent + length chunk) + length (concat rest);
          chunks_sent = (stats.chunks_sent + 1) + length rest;
        }
          ≡ record stats {
            bytes_sent = stats.bytes_sent + length (chunk ++ concat rest);
            chunks_sent = stats.chunks_sent + length (chunk ∷ rest);
          }
    both e f = rw (e, f)

-- A progress callback that leaves the device alone.
abbrev pub Unnoticed : Option (DeviceTransport → Progress → DeviceTransport) → Type 0
Unnoticed none = Unit {0}
Unnoticed (some callback) = (t : DeviceTransport) (p : Progress) → callback t p ≡ t

report-Unnoticed :
    (clock : ℕ → ℕ) (progress : Option (DeviceTransport → Progress → DeviceTransport))
    (p : Progress) (t : DeviceTransport) (ft : FileTransfer)
    → Unnoticed progress
    → report (transport clock) progress p (t, ft) ≡ done ((t, ft), ok tt)
report-Unnoticed clock none p t ft h = refl
report-Unnoticed clock (some callback) p t ft h = rw (h t p) refl

-- Every chunk is stored and acknowledged.
pub write_chunks-stored :
    (clock : ℕ → ℕ) (progress : Option (DeviceTransport → Progress → DeviceTransport))
    (again : Option ℕ) (size : ℕ) (chunks : List Bytes) (stats : UploadStats) (number calls : ℕ)
    (s : Session) (ft : FileTransfer) (d : FakeDevice)
    → Unnoticed progress
    → Patience again clock
    → IsPaced s
    → size ≤ max_payload
    → All (IsChunk size) chunks
    → number < 256
    → Succeeds clock
        (stored_all chunks d)
        (phase State.opened (idle (number_after chunks number) s) ft)
        (ok (counted chunks stats))
        (write_chunks
          (transport clock)
          progress
          chunks
          stats
          (wire again d calls, phase State.opened (idle number s) ft))
unfolding write_chunks
write_chunks-stored clock progress again size [] stats number calls s ft d u patience paced m c h =
    (again, calls, patience, refl)
write_chunks-stored clock progress again size (chunk ∷ rest) stats number calls s ft d u patience
      paced m (c, cs) h =
    let (left, after, patience', runs) =
      drive-write clock again chunk number calls s ft d patience paced h (omega (arith, c.1)) in
    let (left', after', patience'', stores) =
      write_chunks-stored clock progress left size rest (one_sent chunk stats) (next number) after s
        ft (stored chunk d) u patience' paced m cs (omega arith) in
    (
      left',
      after',
      patience'',
      rw
          (
            call-write clock again chunk number calls s ft d h (omega (arith, c.1)),
            runs,
            report-Unnoticed clock progress _ (wire left (stored chunk d) after)
                (phase State.opened (idle (next number) s) ft) u,
          )
          stores,
    )
