-- ===== src/Adapters/FileEnds.antt =====
-- The steps of `upload` in src/adapters that act on the file transfer: how each can end.
use marlin_binary_transfer.Common.{
  ℕ, ◌+◌, ◌≡◌, refl, arith, Bool, true, Option, none, some, List, [], ◌∷◌, Bytes, length,
  length-append, Result, ok, err, Checked, done, panic, stuck,
}
use marlin_binary_transfer.Transfer.State.{
  Compression, uncompressed, heatshrink, auto, FileTransfer, FileEvent,
}
use marlin_binary_transfer.Transfer.Operations.{query, open_file, write, close}
use marlin_binary_transfer.Transfer.Reach as TransferReach
use marlin_binary_transfer.Transfer.Panics.{transfer_no_panic}
use marlin_binary_transfer.Heatshrink.{Heatshrink}
use marlin_binary_transfer.Adapters.Types.{UploadError, UploadStats, Progress}
use marlin_binary_transfer.Adapters.Driver.{Transport, drive}
use marlin_binary_transfer.Adapters.Machines.{file_machine}
use marlin_binary_transfer.Adapters.Driven.{Driven, drive-Driven}
use marlin_binary_transfer.Adapters.Laws.{file-IsMachine}
use marlin_binary_transfer.Adapters.Cuts.{concat}
use marlin_binary_transfer.Adapters.Upload.{
  payload_of, at, read_source, call, drive_until_event, report, is_write_acked, write_chunks,
}
use marlin_binary_transfer.Adapters.Outcomes.{
  Ends, Ensures-Ends, CallOutcome-Ends, Files, Any, Files-bind, lift-Files,
}

module _ {T E : Type 0} (env : Transport T E) where
  pub query-Files :
      (compression : Compression) (t : T) (ft : FileTransfer)
      → TransferReach.IsReachable ft
      → Ends (Files {E = UploadError E} Any) (call env (λ ft now. query ft compression now) (t, ft))
  query-Files compression t ft r = lift-Files (UploadError E) _ _ (
      CallOutcome-Ends _ TransferReach.IsReachable (query ft compression (env.now t).1)
        (transfer_no_panic compression [] true [] [] (env.now t).1 r).2
        (λ ft' e. TransferReach.next r (TransferReach.queries compression _ e)))

  pub open_file-Files :
      (name : List ℕ) (dummy : Bool) (t : T) (ft : FileTransfer)
      → TransferReach.IsReachable ft
      → Ends
          (Files {E = UploadError E} Any)
          (call env (λ ft now. open_file ft name dummy now) (t, ft))
  open_file-Files name dummy t ft r = lift-Files (UploadError E) _ _ (
      CallOutcome-Ends _ TransferReach.IsReachable (open_file ft name dummy (env.now t).1)
        (transfer_no_panic uncompressed name dummy [] [] (env.now t).1 r).3
        (λ ft' e. TransferReach.next r (TransferReach.opens name dummy _ e)))

  pub write-Files :
      (chunk : Bytes) (t : T) (ft : FileTransfer)
      → TransferReach.IsReachable ft
      → Ends (Files {E = UploadError E} Any) (call env (λ ft now. write ft chunk now) (t, ft))
  write-Files chunk t ft r = lift-Files (UploadError E) _ _ (
      CallOutcome-Ends _ TransferReach.IsReachable (write ft chunk (env.now t).1)
        (transfer_no_panic uncompressed [] true chunk [] (env.now t).1 r).4
        (λ ft' e. TransferReach.next r (TransferReach.writes chunk _ e)))

  pub close-Files :
      (t : T) (ft : FileTransfer)
      → TransferReach.IsReachable ft
      → Ends (Files {E = UploadError E} Any) (call env close (t, ft))
  close-Files t ft r = lift-Files (UploadError E) _ _ (
      CallOutcome-Ends _ TransferReach.IsReachable (close ft (env.now t).1)
        (transfer_no_panic uncompressed [] true [] [] (env.now t).1 r).5
        (λ ft' e. TransferReach.next r (TransferReach.closes _ e)))

  pub drive_file-Files :
      {A : Type 0} (exhausted : UploadError E)
      (verdict : FileEvent → Option (Result A (UploadError E))) (t : T) (ft : FileTransfer)
      → TransferReach.IsReachable ft
      → Ends (Files Any) (drive env file_machine exhausted verdict 200 (t, ft))
  drive_file-Files exhausted verdict t ft r =
      Ensures-Ends (Driven file_machine TransferReach.IsReachable verdict) (Files Any) _
        (drive-Driven env file_machine TransferReach.IsReachable file-IsMachine verdict exhausted
          200 t ft r)
        weaker
    where
      weaker :
          (a : (T × FileTransfer) × Result _ (UploadError E))
          → Driven file_machine TransferReach.IsReachable verdict a
          → Files Any a
      weaker ((t, ft), ok a) h = (h.0, tt)
      weaker ((t, ft), err e) h = h

  pub read_source-Files :
      (source : Result Bytes E) (t : T) (ft : FileTransfer)
      → TransferReach.IsReachable ft
      → Files (λ (bytes : Bytes). source ≡ ok bytes) ((t, ft), read_source source)
  read_source-Files (ok bytes) t ft r = (r, refl)
  read_source-Files (err e) t ft r = r

  pub payload_of-Files :
      (feature : Option Heatshrink) (compression : Compression) (bytes : Bytes) (t : T)
      (ft : FileTransfer)
      → TransferReach.IsReachable ft
      → Ends
          (Files {E = UploadError E}
            (λ (payload : Bytes). payload_of {E = E} feature compression bytes ≡ done (ok payload)))
          (at (t, ft) (payload_of feature compression bytes))
  payload_of-Files feature compression bytes t ft r =
      from (payload_of feature compression bytes) refl (never_stuck feature compression)
    where
      never_stuck :
          (feature : Option Heatshrink) (compression : Compression)
          → Ends Any (payload_of {E = E} feature compression bytes)
      never_stuck feature uncompressed = unfold payload_of in tt
      never_stuck (some crate) (heatshrink window lookahead) = unfold payload_of in tt
      never_stuck none (heatshrink window lookahead) = unfold payload_of in tt
      never_stuck feature auto = unfold payload_of in tt

      from :
          (m : Checked (Result Bytes (UploadError E)))
          → payload_of feature compression bytes ≡ m
          → Ends Any m
          → Ends
              (Files {E = UploadError E} (λ (payload : Bytes).
                payload_of {E = E} feature compression bytes ≡ done (ok payload)))
              (at (t, ft) m)
      from (done (ok payload)) e h = (r, e)
      from (done (err error)) e h = r
      from panic e h = h
      from stuck e h = h

  -- The statistics once the chunks are sent.
  abbrev pub AddedUp : UploadStats → List Bytes → UploadStats → Type 0
  AddedUp stats cs after =
      (after.source_bytes ≡ stats.source_bytes)
      × (after.compression ≡ stats.compression)
      × (after.bytes_sent ≡ stats.bytes_sent + length (concat cs))
      × (after.chunks_sent ≡ stats.chunks_sent + length cs)

  pub report-Files :
      (progress : Option (T → Progress → T)) (p : Progress) (t : T) (ft : FileTransfer)
      → TransferReach.IsReachable ft
      → Ends (Files {E = UploadError E} Any) (report env progress p (t, ft))
  report-Files none p t ft r = (r, tt)
  report-Files (some callback) p t ft r = (r, tt)

  -- The statistics behind one more chunk.
  abbrev pub with_chunk : UploadStats → Bytes → UploadStats
  with_chunk stats chunk = record stats {
    bytes_sent = stats.bytes_sent + length chunk;
    chunks_sent = stats.chunks_sent + 1;
  }

  pub AddedUp-cons :
      (stats : UploadStats) (c : Bytes) (cs : List Bytes)
      (m : Checked ((T × FileTransfer) × Result UploadStats (UploadError E)))
      → Ends (Files (AddedUp (with_chunk stats c) cs)) m
      → Ends (Files (AddedUp stats (c ∷ cs))) m
  unfolding concat
  AddedUp-cons stats c cs (done ((t, ft), ok after)) (r, h) =
      (r, (h.0, h.1, omega (arith, h.2, length-append c (concat cs)), omega (arith, h.3)))
  AddedUp-cons stats c cs (done ((t, ft), err e)) h = h
  AddedUp-cons stats c cs panic h = h
  AddedUp-cons stats c cs stuck h = h

  pub write_chunks-Files :
      (progress : Option (T → Progress → T)) (cs : List Bytes) (stats : UploadStats) (t : T)
      (ft : FileTransfer)
      → TransferReach.IsReachable ft
      → Ends
          (Files {E = UploadError E} (AddedUp stats cs))
          (write_chunks env progress cs stats (t, ft))
  unfolding write_chunks concat
  write_chunks-Files progress [] stats t ft r = (r, (refl, refl, omega arith, omega arith))
  write_chunks-Files progress (c ∷ cs) stats t ft r =
      Files-bind Any (AddedUp stats (c ∷ cs)) (call env (λ ft now. write ft c now) (t, ft)) _
        (write-Files c t ft r)
        (λ t1 ft1 u r1 _.
          Files-bind Any (AddedUp stats (c ∷ cs)) (drive_until_event env is_write_acked (t1, ft1)) _
            (unfold drive_until_event in drive_file-Files _ _ t1 ft1 r1)
            (λ t2 ft2 v r2 _.
              Files-bind Any (AddedUp stats (c ∷ cs))
                (report env progress
                  (record {
                    bytes_sent = stats.bytes_sent + length c;
                    chunks_sent = stats.chunks_sent + 1;
                    source_bytes = stats.source_bytes;
                  })
                  (t2, ft2))
                _ (report-Files progress _ t2 ft2 r2)
                (λ t3 ft3 w r3 _.
                  AddedUp-cons stats c cs _
                    (write_chunks-Files progress cs (with_chunk stats c) t3 ft3 r3))))
