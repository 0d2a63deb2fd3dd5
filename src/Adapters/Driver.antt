-- ===== src/Adapters/Driver.antt =====
-- The loop that the four driving functions of src/adapters/blocking.rs have in common: up to 200 rounds of writing, reading, polling and ticking.
use marlin_binary_transfer.Common.{
  ℕ, zero, suc, Option, none, some, [], ◌∷◌, Bytes, Result, ok, err, Checked, done, panic, stuck,
}
use marlin_binary_transfer.Adapters.Types.{UploadError, io}

-- Code that acts on a state, may return early by `?`, and may panic.
abbrev pub Run : Type 0 → Type 0 → Type 0 → Type 0
Run S E A = S → Checked (S × Result A E)

abbrev pub pure : {S E A : Type 0} → A → Run S E A
pure a s = done (s, ok a)

abbrev pub throw : {S E A : Type 0} → E → Run S E A
throw e s = done (s, err e)

abbrev pub bind_result :
    {S E A B : Type 0} → Checked (S × Result A E) → (A → Run S E B) → Checked (S × Result B E)
bind_result (done (s, ok a)) f = f a s
bind_result (done (s, err e)) f = done (s, err e)
bind_result panic f = panic
bind_result stuck f = stuck

infixl 5 ◌>>=◌ ◌>>◌
abbrev pub ◌>>=◌ : {S E A B : Type 0} → Run S E A → (A → Run S E B) → Run S E B
◌>>=◌ m f s = bind_result (m s) f

abbrev pub ◌>>◌ : {S E B : Type 0} → Run S E (Unit {0}) → Run S E B → Run S E B
m >> k = m >>= λ _. k

-- What surrounds the program: the transport and the clock, over a state `T`. `receive` is a read
-- into the buffer of 1024 bytes that waits for at most the given time; nothing read is `ok []`.
pub record Transport (T E : Type 0) : Type 0 where
  pub write_all : T → Bytes → T × Result (Unit {0}) E
  pub receive : T → (wait : ℕ) → T × Result Bytes E
  pub now : T → T × ℕ

-- What the loop drives: a session, or a file transfer. The two measures bound the `while let`
-- loops over `poll_outbound` and `poll`.
pub record Machine (X V : Type 0) : Type 0 where
  pub response_timeout : X → ℕ
  pub poll_outbound : X → X × Option Bytes
  pub feed : X → Bytes → ℕ → Checked X
  pub poll : X → X × Option V
  pub tick : X → ℕ → Checked X
  pub outbound_left : X → ℕ
  pub events_left : X → ℕ

-- A call of the machine that returns no result.
abbrev pub lift : {T X E : Type 0} → T → Checked X → Checked ((T × X) × Result (Unit {0}) E)
lift t (done x) = done ((t, x), ok tt)
lift t panic = panic
lift t stuck = stuck

-- `transport.write_all(&out)?`, and then the rest of the loop.
abbrev pub written :
    {T E X : Type 0}
    → T × Result (Unit {0}) E
    → X
    → Run (T × X) (UploadError E) (Unit {0})
    → Checked ((T × X) × Result (Unit {0}) (UploadError E))
written (t, ok sent) x rest = rest (t, x)
written (t, err e) x rest = done ((t, x), err (io e))

-- `Err(e) => return Err(UploadError::Io(e))`.
abbrev pub arrived :
    {T E X : Type 0} → T × Result Bytes E → X → Checked ((T × X) × Result Bytes (UploadError E))
arrived (t, ok bytes) x = done ((t, x), ok bytes)
arrived (t, err e) x = done ((t, x), err (io e))

-- What the body of `while let Some(evt) = ..poll()` says of an event: return, or poll again.
abbrev pub judged :
    {X E A : Type 0}
    → Option (Result A E)
    → X
    → (X → Checked (X × Option (Result A E)))
    → Checked (X × Option (Result A E))
judged (some verdict) x rest = done (x, some verdict)
judged none x rest = rest x

abbrev pub found :
    {T X E A : Type 0}
    → T
    → Checked (X × Option (Result A E))
    → Checked ((T × X) × Result (Option A) E)
found t (done (x, some (ok a))) = done ((t, x), ok (some a))
found t (done (x, some (err e))) = done ((t, x), err e)
found t (done (x, none)) = done ((t, x), ok none)
found t panic = panic
found t stuck = stuck

abbrev pub go_on : {S E A : Type 0} → Run S E A → Option A → Run S E A
go_on rest (some a) = pure a
go_on rest none = rest

module _ {T E : Type 0} (env : Transport T E) {X V : Type 0} (machine : Machine X V) where
  abbrev pub flush_next :
      X × Option Bytes
      → T
      → Run (T × X) (UploadError E) (Unit {0})
      → Checked ((T × X) × Result (Unit {0}) (UploadError E))
  flush_next (x, none) t rest = done ((t, x), ok tt)
  flush_next (x, some out) t rest = written (env.write_all t out) x rest

  -- `while let Some(out) = ..poll_outbound() { transport.write_all(&out)?; }`.
  unfoldable pub flush_loop : ℕ → Run (T × X) (UploadError E) (Unit {0})
  flush_loop zero s = stuck
  flush_loop (suc fuel) (t, x) = flush_next (machine.poll_outbound x) t (flush_loop fuel)

  unfoldable pub flush : Run (T × X) (UploadError E) (Unit {0})
  unfolding flush_loop
  flush (t, x) = flush_loop (suc (machine.outbound_left x)) (t, x)

  unfoldable pub receive : Run (T × X) (UploadError E) Bytes
  receive (t, x) = arrived (env.receive t (machine.response_timeout x)) x

  -- `if n > 0 { ..feed(&buf[..n], Instant::now()); }`.
  unfoldable pub feed : Bytes → Run (T × X) (UploadError E) (Unit {0})
  feed [] s = done (s, ok tt)
  feed (b ∷ bytes) (t, x) = let (t', now) = env.now t in lift t' (machine.feed x (b ∷ bytes) now)

  abbrev pub poll_next :
      {A : Type 0} (verdict : V → Option (Result A (UploadError E)))
      → X × Option V
      → (X → Checked (X × Option (Result A (UploadError E))))
      → Checked (X × Option (Result A (UploadError E)))
  poll_next verdict (x, none) rest = done (x, none)
  poll_next verdict (x, some event) rest = judged (verdict event) x rest

  unfoldable pub poll_loop :
      {A : Type 0} (verdict : V → Option (Result A (UploadError E)))
      → ℕ
      → X
      → Checked (X × Option (Result A (UploadError E)))
  poll_loop verdict zero x = stuck
  poll_loop verdict (suc fuel) x = poll_next verdict (machine.poll x) (poll_loop verdict fuel)

  unfoldable pub poll :
      {A : Type 0}
      → (V → Option (Result A (UploadError E)))
      → Run (T × X) (UploadError E) (Option A)
  unfolding poll_loop
  poll verdict (t, x) = found t (poll_loop verdict (suc (machine.events_left x)) x)

  -- `..tick(Instant::now())`, unless the round has returned.
  unfoldable pub tick : {A : Type 0} → Option A → Run (T × X) (UploadError E) (Option A)
  tick (some a) s = done (s, ok (some a))
  tick none (t, x) =
      let (t', now) = env.now t in bind_result (lift t' (machine.tick x now)) (λ _. pure none)

  unfoldable pub round :
      {A : Type 0}
      → (V → Option (Result A (UploadError E)))
      → Run (T × X) (UploadError E) (Option A)
  unfolding flush receive feed poll tick
  round verdict = do flush; bytes ← receive; feed bytes; answer ← poll verdict; tick answer

  -- `for _ in 0..rounds { .. }`, and then `Err(exhausted)`.
  unfoldable pub drive :
      {A : Type 0} (exhausted : UploadError E) (verdict : V → Option (Result A (UploadError E)))
      → (rounds : ℕ) → Run (T × X) (UploadError E) A
  unfolding round
  drive exhausted verdict zero = throw exhausted
  drive exhausted verdict (suc rounds) = round verdict >>= go_on (drive exhausted verdict rounds)
