-- ===== src/Device/Wire.antt =====
-- The transport of src/tests/blocking_adapter_e2e.rs: what the host writes goes to the fake device,
-- and what it reads are the device's replies.
use marlin_binary_transfer.Common.{
  ℕ, suc, true, [], ◌∷◌, Bytes, take, drop, Result, ok, err, Checked, done, panic, stuck, ◌>>=◌,
}
use marlin_binary_transfer.Device.{FakeDevice, feed}
use marlin_binary_transfer.Adapters.Driver.{Transport}
use marlin_binary_transfer.Adapters.Blocking.{Port}
use marlin_binary_transfer.Adapters.Blocking as Blocking

-- `calls` counts the readings of the clock.
pub record DeviceTransport : Type 0 where
  pub device : Checked FakeDevice
  pub pending : Bytes
  pub calls : ℕ

-- `drain_reply`.
abbrev pub drain_reply : FakeDevice → FakeDevice × Bytes
drain_reply d = (record d { reply_buf = [] }, d.reply_buf)

-- `if self.pending.is_empty() { self.pending = ..drain_reply(); }`.
abbrev pub refill : Checked FakeDevice → Bytes → Checked FakeDevice × Bytes
refill device (b ∷ pending) = (device, b ∷ pending)
refill (done d) [] = let (d', reply) = drain_reply d in (done d', reply)
refill panic [] = (panic, [])
refill stuck [] = (stuck, [])

-- The error is the timeout.
abbrev pub give :
    (calls : ℕ) → Checked FakeDevice × Bytes → DeviceTransport × Result Bytes (Unit {0})
give calls (device, []) = (record { device = device; pending = []; calls = calls }, err tt)
give calls (device, b ∷ pending) = (
  record { device = device; pending = drop 1024 (b ∷ pending); calls = calls },
  ok (take 1024 (b ∷ pending)),
)

-- `clock` gives the times that the host reads, one after the other.
module _ (clock : ℕ → ℕ) where
  abbrev pub port : Port DeviceTransport (Unit {0})
  port = record {
    write_all = λ w bytes. (record w { device = w.device >>= λ d. feed d bytes }, ok tt);
    read = λ w. give w.calls (refill w.device w.pending);
    is_timed_out = λ e. true;
    now = λ w. (record w { calls = suc w.calls }, clock w.calls);
  }

  abbrev pub transport : Transport DeviceTransport (Unit {0})
  transport = Blocking.transport port
