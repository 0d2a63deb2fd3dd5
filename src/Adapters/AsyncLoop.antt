-- ===== src/Adapters/AsyncLoop.antt =====
-- The loop of src/adapters/tokio.rs against that of src/adapters/blocking.rs, on ports that behave
-- alike.
use marlin_binary_transfer.Common.{
  ℕ, ◌≡◌, refl, zero, suc, [], ◌∷◌, Checked, done, panic, stuck, ◌∙◌, ap, Bool-cases, inl, inr,
  if◌then◌else◌, Option, none, some, Bytes, Result, ok, err,
}
use marlin_binary_transfer.Adapters.Types.{UploadError}
use marlin_binary_transfer.Adapters.Driver.{
  Run, Machine, bind_result, lift, written, arrived, found, go_on, flush_next, flush_loop, flush,
  receive, feed, judged, pure, poll_next, poll_loop, poll, tick, round, drive,
}
use marlin_binary_transfer.Adapters.Blocking as Blocking
use marlin_binary_transfer.Adapters.Blocking.{Port, no_timeout}
use marlin_binary_transfer.Adapters.Tokio.{
  AsyncPort, elapsed, read_with_timeout, then_on, write_next, write_loop, read_some, feed_some,
  event_next, event_loop, round_ends, async_loop,
}

-- A blocking read that runs into its timeout, as a read that the timer cuts off.
abbrev pub cut_off : {T E : Type 0} → Port T E → T × Result Bytes E → T × Option (Result Bytes E)
cut_off port (t, ok bytes) = (t, some (ok bytes))
cut_off port (t, err e) = (t, if port.is_timed_out e then none else some (err e))

-- The ports write alike and read the same clock; the reads of the one are those of the other, up to
-- the way in which they tell a timeout.
pub record Agree {T E : Type 0} (async_port : AsyncPort T E) (port : Port T E) : Type 0 where
  pub writes : (t : T) (bytes : Bytes) → async_port.write_all t bytes ≡ port.write_all t bytes
  pub reads : (t : T) (wait : ℕ) → async_port.read_within t wait ≡ cut_off port (port.read t)
  pub clocks : (t : T) → async_port.now t ≡ port.now t

module _ {S E A B : Type 0} where
  -- Two runs that do the same, one step after the other.
  pub bind-bind :
      {m m' : Checked (S × Result A E)} {f f' : A → Run S E B}
      → m ≡ m'
      → ((a : A) (s : S) → f a s ≡ f' a s)
      → bind_result m f ≡ bind_result m' f'
  bind-bind p q = λ i. bind_result (p i) (λ a s. q a s i)

  pub bind_result_assoc :
      {C : Type 0} (m : Checked (S × Result A E)) (f : A → Run S E B) (g : B → Run S E C)
      → bind_result m (λ a s. bind_result (f a s) g) ≡ bind_result (bind_result m f) g
  bind_result_assoc (done (s, ok a)) f g = refl
  bind_result_assoc (done (s, err e)) f g = refl
  bind_result_assoc panic f g = refl
  bind_result_assoc stuck f g = refl

  -- A step of a round, and of the loop.
  pub bind-step :
      {C : Type 0} {m m' : Checked (S × Result A E)} (f : A → Run S E C) (f' : A → Run S E B)
      (g : B → Run S E C)
      → m ≡ m'
      → ((a : A) (s : S) → f a s ≡ bind_result (f' a s) g)
      → bind_result m f ≡ bind_result (bind_result m' f') g
  bind-step {m' = m'} f f' g p q =
      (λ i. bind_result (p i) (λ a s. q a s i)) ∙ bind_result_assoc m' f' g

module _ {T E : Type 0} (async_port : AsyncPort T E) (port : Port T E)
    (agree : Agree async_port port) where
  module _ {X V : Type 0} (machine : Machine X V) where
    then_on-written :
        (w w' : T × Result (Unit {0}) E) (x : X) (f f' : Run (T × X) (UploadError E) (Unit {0}))
        → w ≡ w'
        → ((s : T × X) → f s ≡ f' s)
        → then_on async_port w x f ≡ written w' x f'
    then_on-written w w' x f f' p q = ap (λ v. then_on async_port v x f) p ∙ same w'
      where
        same : (v : T × Result (Unit {0}) E) → then_on async_port v x f ≡ written v x f'
        same (t, ok sent) = q (t, x)
        same (t, err e) = refl

    write_loop-flush_loop :
        (fuel : ℕ) (s : T × X)
        → write_loop async_port machine fuel s ≡ flush_loop (Blocking.transport port) machine fuel s
    unfolding write_loop flush_loop
    write_loop-flush_loop zero s = refl
    write_loop-flush_loop (suc fuel) (t, x) =
        sends (machine.poll_outbound x) (write_loop-flush_loop fuel)
      where
        sends :
            (p : X × Option Bytes)
            → ((s : T × X)
                → write_loop async_port machine fuel s
                  ≡ flush_loop (Blocking.transport port) machine fuel s)
            → write_next async_port machine p t (write_loop async_port machine fuel)
              ≡ flush_next
                  (Blocking.transport port)
                  machine
                  p
                  t
                  (flush_loop (Blocking.transport port) machine fuel)
        sends (x', none) h = refl
        sends (x', some out) h = then_on-written _ _ x' _ _ (agree.writes t out) h

    elapsed-arrived :
        (r : T × Result Bytes E) (x : X)
        → done
            (((elapsed async_port (cut_off port r)).0, x), (elapsed async_port (cut_off port r)).1)
          ≡ arrived (no_timeout port r) x
    elapsed-arrived (t, ok bytes) x = refl
    elapsed-arrived (t, err e) x = elim (Bool-cases (port.is_timed_out e)) [
      | inl f ↦ rw f refl
      | inr f ↦ rw f refl
    ]

    read_some-receive :
        (s : T × X) → read_some async_port machine s ≡ receive (Blocking.transport port) machine s
    unfolding read_with_timeout receive
    read_some-receive (t, x) =
        ap (λ r. done (((elapsed async_port r).0, x), (elapsed async_port r).1))
          (agree.reads t (machine.response_timeout x))
        ∙ elapsed-arrived (port.read t) x

    feed_some-feed :
        (bytes : Bytes) (s : T × X)
        → feed_some async_port machine bytes s ≡ feed (Blocking.transport port) machine bytes s
    unfolding feed
    feed_some-feed [] s = refl
    feed_some-feed (b ∷ bytes) (t, x) =
        ap (λ (c : T × ℕ). lift c.0 (machine.feed x (b ∷ bytes) c.1)) (agree.clocks t)

    module _ {A : Type 0} (exhausted : UploadError E)
        (until : V → Option (Result A (UploadError E))) where
      event_loop-poll_loop :
          (fuel : ℕ) (x : X)
          → event_loop async_port machine exhausted until fuel x
            ≡ poll_loop (Blocking.transport port) machine until fuel x
      unfolding event_loop poll_loop
      event_loop-poll_loop zero x = refl
      event_loop-poll_loop (suc fuel) x = polled (machine.poll x) (event_loop-poll_loop fuel)
        where
          Rest : Type 0
          Rest = X → Checked (X × Option (Result A (UploadError E)))

          judges :
              (v : Option (Result A (UploadError E))) (x' : X) (rest rest' : Rest)
              → rest x' ≡ rest' x'
              → elim v [ none ↦ rest x' | some r ↦ done (x', some r) ] ≡ judged v x' rest'
          judges none x' rest rest' h = h
          judges (some r) x' rest rest' h = refl

          polled :
              (p : X × Option V)
              → ((x' : X)
                  → event_loop async_port machine exhausted until fuel x'
                    ≡ poll_loop (Blocking.transport port) machine until fuel x')
              → event_next async_port machine exhausted until p
                  (event_loop async_port machine exhausted until fuel)
                ≡ poll_next
                    (Blocking.transport port)
                    machine
                    until
                    p
                    (poll_loop (Blocking.transport port) machine until fuel)
          polled (x', none) h = refl
          polled (x', some event) h =
              judges (until event) x' (event_loop async_port machine exhausted until fuel)
                (poll_loop (Blocking.transport port) machine until fuel) (h x')

      round_ends-tick :
          (rest rest' : Run (T × X) (UploadError E) A)
          → ((s : T × X) → rest s ≡ rest' s)
          → (t : T) (p : Checked (X × Option (Result A (UploadError E))))
          → round_ends async_port machine exhausted until t p rest
            ≡ bind_result
                (bind_result (found t p) (tick (Blocking.transport port) machine))
                (go_on rest')
      unfolding tick
      round_ends-tick rest rest' h t (done (x, some (ok a))) = refl
      round_ends-tick rest rest' h t (done (x, some (err e))) = refl
      round_ends-tick rest rest' h t panic = refl
      round_ends-tick rest rest' h t stuck = refl
      round_ends-tick rest rest' h t (done (x, none)) =
          ap
            (λ (c : T × ℕ).
              bind_result (lift {E = UploadError E} c.0 (machine.tick x c.1)) (λ _. rest))
            (agree.clocks t)
          ∙ ticked (port.now t).0 (machine.tick x (port.now t).1)
        where
          ticked :
              (t' : T) (m : Checked X)
              → bind_result (lift {E = UploadError E} t' m) (λ _. rest)
                ≡ bind_result (bind_result (lift t' m) (λ _. pure none)) (go_on rest')
          ticked t' (done x') = h (t', x')
          ticked t' panic = refl
          ticked t' stuck = refl

      pub async_loop-drive :
          (rounds : ℕ) (s : T × X)
          → async_loop async_port machine exhausted until rounds s
            ≡ drive (Blocking.transport port) machine exhausted until rounds s
      unfolding async_loop drive round flush poll
      async_loop-drive zero s = refl
      async_loop-drive (suc rounds) (t, x) =
          bind-step _ _ _ (write_loop-flush_loop (suc (machine.outbound_left x)) (t, x)) (λ _ s1.
            bind-step _ _ _ (read_some-receive s1) (λ bytes s2.
              bind-step _ _ _ (feed_some-feed bytes s2) (λ _ s3.
                ap
                  (λ p.
                    round_ends async_port machine exhausted until s3.0 p
                      (async_loop async_port machine exhausted until rounds))
                  (event_loop-poll_loop (suc (machine.events_left s3.1)) s3.1)
                ∙ round_ends-tick _ _ (async_loop-drive rounds) s3.0 _)))
