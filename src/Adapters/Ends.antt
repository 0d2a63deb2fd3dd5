-- ===== src/Adapters/Ends.antt =====
-- `upload` of src/adapters on any transport: how it can end.
use marlin_binary_transfer.Common.{
  ℕ, ◌≡◌, refl, ap, arith, Bool, true, false, Option, [], Bytes, length, Result, ok, err, Checked,
  done, panic, stuck,
}
use marlin_binary_transfer.Session.State.{Session}
use marlin_binary_transfer.Session.State as SessionState
use marlin_binary_transfer.Session.Operations as SessionOps
use marlin_binary_transfer.Session.Reach as SessionReach
use marlin_binary_transfer.Transfer.State.{
  Compression, uncompressed, heatshrink, auto, FileTransfer, FileEvent,
}
use marlin_binary_transfer.Transfer.State as TransferState
use marlin_binary_transfer.Transfer.Operations.{query, open_file, close}
use marlin_binary_transfer.Transfer.Reach as TransferReach
use marlin_binary_transfer.Heatshrink.{Heatshrink}
use marlin_binary_transfer.Adapters.Types.{UploadError, UploadOptions, UploadStats}
use marlin_binary_transfer.Adapters.Driver.{Transport, drive}
use marlin_binary_transfer.Adapters.Machines.{session_machine}
use marlin_binary_transfer.Adapters.Driven.{Driven, drive-Driven}
use marlin_binary_transfer.Adapters.Laws.{session-IsMachine}
use marlin_binary_transfer.Adapters.Chunks.{resolve_chunk_size}
use marlin_binary_transfer.Adapters.Cuts.{chunks_lem}
use marlin_binary_transfer.Adapters.Upload.{
  chunks, payload_of, at, read_source, dropped, or_zero, call, drive_session_until_idle,
  drive_session_until_synced, drive_until_negotiated, drive_until_event, is_opened_event,
  is_closed_event, transfer_file, with_transfer, upload_session, left, triggered, upload,
}
use marlin_binary_transfer.Adapters.Outcomes.{
  Ends, Ensures-Ends, Files, Sessions, Any, Files-bind, Sessions-bind, lift-Sessions, IsUploaded,
  size_positive,
}
use marlin_binary_transfer.Adapters.FileEnds.{
  query-Files, open_file-Files, close-Files, drive_file-Files, read_source-Files, payload_of-Files,
  AddedUp, write_chunks-Files,
}

module _ {T E : Type 0} (env : Transport T E) where
  module _ (feature : Option Heatshrink) (source : Result Bytes E) (options : UploadOptions T) where
    abbrev Uploaded : UploadStats → Type 0
    Uploaded stats = IsUploaded feature source options.chunk_size stats

    sent_file :
        (device_max : ℕ) (negotiated : Compression) (bytes payload : Bytes) (stats : UploadStats)
        → source ≡ ok bytes
        → payload_of {E = E} feature negotiated bytes ≡ done (ok payload)
        → AddedUp env
            (record {
              source_bytes = length bytes;
              bytes_sent = 0;
              chunks_sent = 0;
              compression = negotiated;
            })
            (chunks (resolve_chunk_size options.chunk_size device_max) payload)
            stats
        → Uploaded stats
    sent_file device_max negotiated bytes payload stats e f h = record {
      bytes = bytes;
      payload = payload;
      device_max = device_max;
      read = e;
      encoded = rw (h.1) f;
      source_bytes = h.0;
      bytes_sent =
          let whole = (chunks_lem _ payload (size_positive options.chunk_size device_max)).0 in
          omega (arith, h.2, ap length whole);
      chunks_sent = omega (arith, h.3);
    }

    transfer_file-Files :
        (device_max : ℕ) (t : T) (ft : FileTransfer)
        → TransferReach.IsReachable ft
        → Ends
            (Files {E = UploadError E} Uploaded)
            (transfer_file env feature source options device_max (t, ft))
    unfolding transfer_file
    transfer_file-Files device_max t ft r =
        Files-bind Any Uploaded (call env (λ ft now. query ft options.compression now) (t, ft)) _
          (query-Files env options.compression t ft r)
          (λ t1 ft1 _ r1 _.
            Files-bind Any Uploaded (drive_until_negotiated env (t1, ft1)) _
              (unfold drive_until_negotiated in drive_file-Files env _ _ t1 ft1 r1)
              (λ t2 ft2 negotiated r2 _.
                Files-bind Any Uploaded
                  (call env (λ ft now. open_file ft options.dest_filename options.dummy now)
                    (t2, ft2))
                  _ (open_file-Files env options.dest_filename options.dummy t2 ft2 r2)
                  (λ t3 ft3 _ r3 _.
                    Files-bind Any Uploaded (drive_until_event env is_opened_event (t3, ft3)) _
                      (unfold drive_until_event in drive_file-Files env _ _ t3 ft3 r3)
                      (λ t4 ft4 _ r4 _.
                        Files-bind _ Uploaded (done ((t4, ft4), read_source source)) _
                          (read_source-Files env source t4 ft4 r4)
                          (λ t5 ft5 bytes r5 e.
                            Files-bind _ Uploaded
                              (at (t5, ft5) (payload_of feature negotiated bytes)) _
                              (payload_of-Files env feature negotiated bytes t5 ft5 r5)
                              (λ t6 ft6 payload r6 f.
                                Files-bind _ Uploaded _ _
                                  (write_chunks-Files env options.progress
                                    (chunks (resolve_chunk_size options.chunk_size device_max)
                                      payload)
                                    (record {
                                      source_bytes = length bytes;
                                      bytes_sent = 0;
                                      chunks_sent = 0;
                                      compression = negotiated;
                                    })
                                    t6 ft6 r6)
                                  (λ t7 ft7 stats r7 h.
                                    Files-bind Any Uploaded (call env close (t7, ft7)) _
                                      (close-Files env t7 ft7 r7)
                                      (λ t8 ft8 _ r8 _.
                                        Files-bind Any Uploaded
                                          (drive_until_event env is_closed_event (t8, ft8)) _
                                          (unfold drive_until_event in
                                            drive_file-Files env _ _ t8 ft8 r8)
                                          (λ t9 ft9 _ r9 _. (
                                            r9,
                                            sent_file device_max negotiated bytes payload stats e f
                                                h,
                                          ))))))))))

    dropped-Sessions :
        (m : Checked ((T × FileTransfer) × Result UploadStats (UploadError E)))
        → Ends (Files Uploaded) m
        → Ends (Sessions Uploaded) (dropped m)
    dropped-Sessions (done ((t, ft), ok stats)) (r, h) = (TransferReach.IsReachable-session r, h)
    dropped-Sessions (done ((t, ft), err e)) r = TransferReach.IsReachable-session r
    dropped-Sessions panic h = h
    dropped-Sessions stuck h = h

    drive_session-Sessions :
        {A : Type 0} (exhausted : UploadError E)
        (verdict : SessionState.Event → Option (Result A (UploadError E))) (t : T) (s : Session)
        → SessionReach.IsReachable s
        → Ends (Sessions Any) (drive env session_machine exhausted verdict 200 (t, s))
    drive_session-Sessions {A} exhausted verdict t s r =
        Ensures-Ends (Driven session_machine SessionReach.IsReachable verdict) (Sessions Any) _
          (drive-Driven env session_machine SessionReach.IsReachable session-IsMachine verdict
            exhausted 200 t s r)
          weaker
      where
        weaker :
            (a : (T × Session) × Result A (UploadError E))
            → Driven session_machine SessionReach.IsReachable verdict a
            → Sessions Any a
        weaker ((t, s), ok a) h = (h.0, tt)
        weaker ((t, s), err e) h = h

    SendOutcome-Ends :
        (accepted : Bool) (m : Checked Session)
        → SessionReach.SendOutcome accepted m
        → ((s : Session) → m ≡ done s → SessionReach.IsReachable s)
        → Ends SessionReach.IsReachable m
    SendOutcome-Ends allowed (done s) h k = k s refl
    SendOutcome-Ends allowed panic h k = tt
    SendOutcome-Ends true stuck (s, e) k = cc
    SendOutcome-Ends false stuck h k = cc

    connect-Sessions :
        (t : T) (s : Session)
        → SessionReach.IsReachable s
        → Ends (Sessions {E = UploadError E} Any) (call env SessionOps.connect (t, s))
    connect-Sessions t s r = lift-Sessions (UploadError E) _ _ (
        SendOutcome-Ends true (SessionOps.connect s (env.now t).1)
          (SessionReach.no_panic 0 0 [] [] (env.now t).1 r).0
          (λ s' e. SessionReach.next r (SessionReach.connects _ e)))

    control_close-Sessions :
        (t : T) (s : Session)
        → SessionReach.IsReachable s
        → Ends
            (Sessions {E = UploadError E} Any)
            (call env (λ s now. SessionOps.send s 0 2 [] now) (t, s))
    control_close-Sessions t s r = lift-Sessions (UploadError E) _ _ (
        SendOutcome-Ends _ (SessionOps.send s 0 2 [] (env.now t).1)
          (SessionReach.no_panic 0 2 [] [] (env.now t).1 r).3
          (λ s' e. SessionReach.next r (SessionReach.sends 0 2 [] _ e)))

    upload_session-Sessions :
        (t : T) (s : Session)
        → SessionReach.IsReachable s
        → Ends
            (Sessions {E = UploadError E} Uploaded)
            (upload_session env feature source options (t, s))
    unfolding upload_session
    upload_session-Sessions t s r =
        Sessions-bind Any Uploaded (call env SessionOps.connect (t, s)) _ (connect-Sessions t s r)
          (λ t1 s1 _ r1 _.
            Sessions-bind Any Uploaded (drive_session_until_synced env (t1, s1)) _
              (unfold drive_session_until_synced in drive_session-Sessions _ _ t1 s1 r1)
              (λ t2 s2 _ r2 _.
                Sessions-bind _ Uploaded
                  (with_transfer env
                    (transfer_file env feature source options (or_zero s2.max_block_size)) (t2, s2))
                  _
                  (dropped-Sessions _ (
                    transfer_file-Files (or_zero s2.max_block_size) t2 (TransferState.new s2)
                      (TransferReach.start r2)))
                  (λ t3 s3 stats r3 h.
                    Sessions-bind Any Uploaded
                      (call env (λ s now. SessionOps.send s 0 2 [] now) (t3, s3)) _
                      (control_close-Sessions t3 s3 r3)
                      (λ t4 s4 _ r4 _.
                        Sessions-bind Any Uploaded (drive_session_until_idle env (t4, s4)) _
                          (unfold drive_session_until_idle in drive_session-Sessions _ _ t4 s4 r4)
                          (λ t5 s5 _ r5 _. (r5, h))))))

    -- The outcome of an upload.
    abbrev pub UploadOutcome : T × Result UploadStats (UploadError E) → Type 0
    UploadOutcome (t, ok stats) = Uploaded stats
    UploadOutcome (t, err e) = Unit

    left-Ends :
        (m : Checked ((T × Session) × Result UploadStats (UploadError E)))
        → Ends (Sessions Uploaded) m
        → Ends UploadOutcome (left env m)
    left-Ends (done ((t, s), ok stats)) h = h.1
    left-Ends (done ((t, s), err e)) h = tt
    left-Ends panic h = h
    left-Ends stuck h = h

    -- Whatever the transport, the clock and the source do, `upload` ends: none of its loops runs on.
    -- The statistics of a finished upload give the number of bytes read from the source, the
    -- compression that was used and the number of bytes that it makes of the source, and the number
    -- of WRITE packets, which is that of the chunks of those bytes.
    pub upload-Ends : (t : T) → Ends UploadOutcome (upload env feature source options t)
    unfolding upload
    upload-Ends t = from (env.write_all t _)
      where
        from :
            (r : T × Result (Unit {0}) E)
            → Ends UploadOutcome (
                triggered env r (λ t'.
                  left env (upload_session env feature source options (t', SessionState.new))))
        from (t', ok u) =
            left-Ends _ (upload_session-Sessions t' SessionState.new SessionReach.start)
        from (t', err e) = tt
