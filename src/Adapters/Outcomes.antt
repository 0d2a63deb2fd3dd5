-- ===== src/Adapters/Outcomes.antt =====
-- How the code of src/adapters/blocking.rs can end, and the rules for its sequences.
use marlin_binary_transfer.Common.{
  ℕ, ◌<◌, ◌≡◌, refl, arith, Bool, true, false, Option, Bytes, length, Result, ok, err, Checked,
  done, panic, stuck, Ensures,
}
use marlin_binary_transfer.Session.State.{Session}
use marlin_binary_transfer.Session.Reach as SessionReach
use marlin_binary_transfer.Transfer.State.{FileTransfer}
use marlin_binary_transfer.Transfer.Reach as TransferReach
use marlin_binary_transfer.Transfer.Panics.{CallOutcome}
use marlin_binary_transfer.Heatshrink.{Heatshrink}
use marlin_binary_transfer.Adapters.Types.{UploadStats}
use marlin_binary_transfer.Adapters.Driver.{Run, bind_result, lift}
use marlin_binary_transfer.Adapters.Chunks.{resolve_chunk_size}
use marlin_binary_transfer.Adapters.Upload.{chunks, payload_of}

-- The code ends: it returns a value that satisfies `P`, or it panics, but no loop runs on.
abbrev pub Ends : {A : Type 0} → (A → Type 0) → Checked A → Type 0
Ends P (done a) = P a
Ends P panic = Unit
Ends P stuck = ⊥

pub Ensures-Ends :
    {A : Type 0} (P Q : A → Type 0) (m : Checked A) → Ensures P m → ((a : A) → P a → Q a) → Ends Q m
Ensures-Ends P Q (done a) h k = k a h
Ensures-Ends P Q panic h k = absurd h
Ensures-Ends P Q stuck h k = absurd h

pub CallOutcome-Ends :
    (allowed : Bool) (P : FileTransfer → Type 0) (m : Checked FileTransfer)
    → CallOutcome allowed m
    → ((ft : FileTransfer) → m ≡ done ft → P ft)
    → Ends P m
CallOutcome-Ends allowed P (done ft) h k = k ft refl
CallOutcome-Ends allowed P panic h k = tt
CallOutcome-Ends true P stuck (ft, e) k = cc
CallOutcome-Ends false P stuck h k = cc

-- A state that the program can reach, whatever the result of the code.
abbrev pub Files : {T A E : Type 0} → (A → Type 0) → (T × FileTransfer) × Result A E → Type 0
Files P ((t, ft), ok a) = TransferReach.IsReachable ft × P a
Files P ((t, ft), err e) = TransferReach.IsReachable ft

abbrev pub Sessions : {T A E : Type 0} → (A → Type 0) → (T × Session) × Result A E → Type 0
Sessions P ((t, s), ok a) = SessionReach.IsReachable s × P a
Sessions P ((t, s), err e) = SessionReach.IsReachable s

abbrev pub Any : {A : Type 0} → A → Type 0
Any a = Unit {0}

-- The rule for `>>=`.
pub Files-bind :
    {T E B C : Type 0} (P : B → Type 0) (Q : C → Type 0)
    (m : Checked ((T × FileTransfer) × Result B E)) (f : B → Run (T × FileTransfer) E C)
    → Ends (Files P) m
    → ((t : T) (x : FileTransfer) (b : B)
        → TransferReach.IsReachable x
        → P b
        → Ends (Files Q) (f b (t, x)))
    → Ends (Files Q) (bind_result m f)
Files-bind P Q (done ((t, x), ok b)) f h k = k t x b h.0 h.1
Files-bind P Q (done ((t, x), err e)) f h k = h
Files-bind P Q panic f h k = h
Files-bind P Q stuck f h k = h

-- The rule for `>>=`.
pub Sessions-bind :
    {T E B C : Type 0} (P : B → Type 0) (Q : C → Type 0) (m : Checked ((T × Session) × Result B E))
    (f : B → Run (T × Session) E C)
    → Ends (Sessions P) m
    → ((t : T) (x : Session) (b : B)
        → SessionReach.IsReachable x
        → P b
        → Ends (Sessions Q) (f b (t, x)))
    → Ends (Sessions Q) (bind_result m f)
Sessions-bind P Q (done ((t, x), ok b)) f h k = k t x b h.0 h.1
Sessions-bind P Q (done ((t, x), err e)) f h k = h
Sessions-bind P Q panic f h k = h
Sessions-bind P Q stuck f h k = h

pub lift-Files :
    {T : Type 0} (E : Type 0) (t : T) (m : Checked FileTransfer)
    → Ends TransferReach.IsReachable m
    → Ends (Files {E = E} Any) (lift t m)
lift-Files E t (done ft) h = (h, tt)
lift-Files E t panic h = h
lift-Files E t stuck h = h

pub lift-Sessions :
    {T : Type 0} (E : Type 0) (t : T) (m : Checked Session)
    → Ends SessionReach.IsReachable m
    → Ends (Sessions {E = E} Any) (lift t m)
lift-Sessions E t (done s) h = (h, tt)
lift-Sessions E t panic h = h
lift-Sessions E t stuck h = h

-- What the statistics of a finished upload say of the source and of the options.
pub record IsUploaded {E : Type 0} (feature : Option Heatshrink) (source : Result Bytes E)
    (requested : ℕ) (stats : UploadStats) : Type 0 where
  pub bytes : Bytes
  pub payload : Bytes
  pub device_max : ℕ
  pub read : source ≡ ok bytes
  pub encoded : payload_of {E = E} feature stats.compression bytes ≡ done (ok payload)
  pub source_bytes : stats.source_bytes ≡ length bytes
  pub bytes_sent : stats.bytes_sent ≡ length payload
  pub chunks_sent :
      stats.chunks_sent ≡ length (chunks (resolve_chunk_size requested device_max) payload)

pub size_positive : (requested device_max : ℕ) → 0 < resolve_chunk_size requested device_max
unfolding resolve_chunk_size
size_positive requested device_max = ground arith
