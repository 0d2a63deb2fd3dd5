-- ===== src/Adapters/Runs.antt =====
-- Runs of src/adapters on concrete inputs, among them the tests at the end of
-- src/adapters/common.rs, and the theorems on them.
use marlin_binary_transfer.Common.{
  some, ◌≤◌, ◌<◌, ◌≡◌, refl, arith, true, none, [], ◌∷◌, Bytes, take, drop, Result, ok, err,
  Ensures, Option,
}
use marlin_binary_transfer.Text.{codes}
use marlin_binary_transfer.Codec.{max_payload}
use marlin_binary_transfer.Session.State as SessionState
use marlin_binary_transfer.Session.Reach as SessionReach
use marlin_binary_transfer.Adapters.Types.{UploadOptions, default_options, handshake_failed}
use marlin_binary_transfer.Adapters.Driver.{Transport, drive}
use marlin_binary_transfer.Adapters.Machines.{session_machine}
use marlin_binary_transfer.Adapters.Driven.{Driven, drive-Driven}
use marlin_binary_transfer.Adapters.Laws.{session-IsMachine}
use marlin_binary_transfer.Heatshrink.{Heatshrink, compress, validate}
use marlin_binary_transfer.Transfer.State.{heatshrink}
use marlin_binary_transfer.Adapters.Upload.{payload_of, synced_verdict, upload}
use marlin_binary_transfer.Adapters.Payload.{recovered, payload_of-recovered}
use marlin_binary_transfer.Adapters.Outcomes.{Ends}
use marlin_binary_transfer.Adapters.Ends.{UploadOutcome, upload-Ends}
use marlin_binary_transfer.Adapters.Blocking as Blocking
use marlin_binary_transfer.Adapters.Blocking.{Port}
use marlin_binary_transfer.Adapters.Tokio as Tokio
use marlin_binary_transfer.Adapters.Tokio.{AsyncPort}
use marlin_binary_transfer.Adapters.AsyncLoop.{cut_off, Agree}
use marlin_binary_transfer.Adapters.Agreement.{upload-upload}
use marlin_binary_transfer.Adapters.Chunks.{
  fallback_chunk_size, resolve_chunk_size, resolve_chunk_size_lem,
}

-- The transport of the tests that answers with one canned string, and then times out.
abbrev canned_read : Bytes → Bytes × Result Bytes (Unit {0})
canned_read [] = ([], err tt)
canned_read (b ∷ reply) = (drop 1024 (b ∷ reply), ok (take 1024 (b ∷ reply)))

abbrev canned_port : Port Bytes (Unit {0})
canned_port = record {
  write_all = λ reply bytes. (reply, ok tt);
  read = canned_read;
  is_timed_out = λ e. true;
  now = λ reply. (reply, 0);
}

abbrev canned : Transport Bytes (Unit {0})
canned = Blocking.transport canned_port

-- The same for the other adapter.
abbrev canned_read_within : Bytes → Bytes × Option (Result Bytes (Unit {0}))
canned_read_within [] = ([], none)
canned_read_within (b ∷ reply) = (drop 1024 (b ∷ reply), some (ok (take 1024 (b ∷ reply))))

abbrev canned_async : AsyncPort Bytes (Unit {0})
canned_async = record {
  write_all = λ reply bytes. (reply, ok tt);
  read_within = λ reply wait. canned_read_within reply;
  now = λ reply. (reply, 0);
}

canned-Agree : Agree canned_async canned_port
canned-Agree = record { writes = λ t bytes. refl; reads = λ t wait. reads t; clocks = λ t. refl }
  where
    reads : (t : Bytes) → canned_read_within t ≡ cut_off canned_port (canned_read t)
    reads [] = refl
    reads (b ∷ reply) = refl

abbrev out_gco : UploadOptions Bytes
out_gco = record default_options { dest_filename = codes "out.gco" }

drive-Driven_example : Ensures (Driven session_machine SessionReach.IsReachable synced_verdict) (
    drive canned session_machine handshake_failed synced_verdict 2
      (codes "ss0,512,1.0\n", SessionState.new))
drive-Driven_example =
    drive-Driven canned session_machine SessionReach.IsReachable session-IsMachine synced_verdict
      handshake_failed 2 (codes "ss0,512,1.0\n") SessionState.new SessionReach.start

upload-Ends_example :
    Ends
      (UploadOutcome canned none (ok (codes "G28")) out_gco)
      (upload canned none (ok (codes "G28")) out_gco (codes "fe\n"))
upload-Ends_example = upload-Ends canned none (ok (codes "G28")) out_gco (codes "fe\n")

upload-upload_example :
    Tokio.upload canned_async none (ok (codes "G28")) out_gco (codes "fe\n")
    ≡ Blocking.upload canned_port none (ok (codes "G28")) out_gco (codes "fe\n")
upload-upload_example =
    upload-upload canned_async canned_port canned-Agree none (ok (codes "G28")) out_gco
      (codes "fe\n")

requested_zero_uses_device_max : resolve_chunk_size 0 512 ≡ 512
unfolding resolve_chunk_size
requested_zero_uses_device_max = refl

requested_over_max_is_capped : resolve_chunk_size 4096 512 ≡ 512
unfolding resolve_chunk_size
requested_over_max_is_capped = refl

requested_with_zero_device_max : resolve_chunk_size 1024 0 ≡ fallback_chunk_size
unfolding resolve_chunk_size
requested_with_zero_device_max = refl

resolve_chunk_size_lem_example :
    (0 < resolve_chunk_size 128 512)
    × (resolve_chunk_size 128 512 ≤ max_payload)
    × (resolve_chunk_size 128 512 ≤ 512)
    × (resolve_chunk_size 128 512 ≤ 128)
resolve_chunk_size_lem_example = resolve_chunk_size_lem 128 512 (omega arith)

-- A crate that stores the bytes.
abbrev stored : Heatshrink
stored = record {
  min_window_bits = 4;
  max_window_bits = 15;
  min_lookahead_bits = 3;
  encode = λ window lookahead bytes. bytes;
  decode = λ window lookahead bytes. bytes;
}

payload_of-recovered_example :
    recovered (some stored) (heatshrink 8 4) (codes "G28") ≡ ok (codes "G28")
unfolding payload_of compress validate
payload_of-recovered_example =
    payload_of-recovered {E = Unit {0}} (some stored) (heatshrink 8 4) (codes "G28") (codes "G28")
      (λ window lookahead bytes e. refl) refl
