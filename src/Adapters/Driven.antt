-- ===== src/Adapters/Driven.antt =====
-- The driving loop of src/adapters on any machine that keeps an invariant: how it can end.
use marlin_binary_transfer.Common.{
  ℕ, zero, suc, ◌<◌, ◌≡◌, refl, arith, Option, none, some, [], ◌∷◌, Bytes, Result, ok, err, Checked,
  done, panic, stuck, Ensures,
}
use marlin_binary_transfer.Adapters.Types.{UploadError}
use marlin_binary_transfer.Adapters.Driver.{
  Run, bind_result, Transport, Machine, lift, written, arrived, judged, found, flush_next,
  flush_loop, flush, receive, feed, poll_next, poll_loop, poll, tick, round, drive,
}

-- The calls of the machine keep `Good`, the fallible ones return, and the two queues shrink.
pub record IsMachine {X V : Type 0} (machine : Machine X V) (Good : X → Type 0) : Type 0 where
  pub poll_outbound_keeps : (x : X) → Good x → Good (machine.poll_outbound x).0
  pub poll_outbound_left :
      (x next : X) (out : Bytes)
      → machine.poll_outbound x ≡ (next, some out)
      → machine.outbound_left next < machine.outbound_left x
  pub feed_keeps :
      (x : X) (bytes : Bytes) (now : ℕ) → Good x → Ensures Good (machine.feed x bytes now)
  pub poll_keeps : (x : X) → Good x → Good (machine.poll x).0
  pub poll_left :
      (x next : X) (event : V)
      → machine.poll x ≡ (next, some event)
      → machine.events_left next < machine.events_left x
  pub tick_keeps : (x : X) (now : ℕ) → Good x → Ensures Good (machine.tick x now)

-- `x` is what `poll` left of a good machine when it returned an event that the loop takes as `a`.
pub record IsFound {X V E A : Type 0} (machine : Machine X V) (Good : X → Type 0)
    (verdict : V → Option (Result A E)) (x : X) (a : A) : Type 0 where
  pub before : X
  pub event : V
  pub good : Good before
  pub polled : machine.poll before ≡ (x, some event)
  pub accepted : verdict event ≡ some (ok a)

-- What holds when the loop has ended: the machine is good, and `Ok(a)` has its event.
abbrev pub Driven :
    {T X V E A : Type 0} (machine : Machine X V) (Good : X → Type 0)
    (verdict : V → Option (Result A E))
    → (T × X) × Result A E
    → Type 0
Driven machine Good verdict ((t, x), ok a) = Good x × IsFound machine Good verdict x a
Driven machine Good verdict ((t, x), err e) = Good x

-- The same with the loop going on at `none`, of one round and of its loop over `poll`.
abbrev Rounded :
    {T X V E A : Type 0} (machine : Machine X V) (Good : X → Type 0)
    (verdict : V → Option (Result A E))
    → (T × X) × Result (Option A) E
    → Type 0
Rounded machine Good verdict ((t, x), ok (some a)) = Good x × IsFound machine Good verdict x a
Rounded machine Good verdict ((t, x), ok none) = Good x
Rounded machine Good verdict ((t, x), err e) = Good x

abbrev Polled :
    {X V E A : Type 0} (machine : Machine X V) (Good : X → Type 0)
    (verdict : V → Option (Result A E))
    → X × Option (Result A E)
    → Type 0
Polled machine Good verdict (x, some (ok a)) = Good x × IsFound machine Good verdict x a
Polled machine Good verdict (x, some (err e)) = Good x
Polled machine Good verdict (x, none) = Good x

-- The machine is good whatever the result.
abbrev pub Stays : {T X E B : Type 0} (Good : X → Type 0) → (T × X) × Result B E → Type 0
Stays Good ((t, x), r) = Good x

-- The rule for `>>=` behind code that keeps the machine good.
pub Stays-bind :
    {T X E B C : Type 0} (Good : X → Type 0) (Q : (T × X) × Result C E → Type 0)
    (m : Checked ((T × X) × Result B E)) (f : B → Run (T × X) E C)
    → Ensures (Stays Good) m
    → ((t : T) (x : X) (b : B) → Good x → Ensures Q (f b (t, x)))
    → ((t : T) (x : X) (e : E) → Good x → Q ((t, x), err e))
    → Ensures Q (bind_result m f)
Stays-bind Good Q (done ((t, x), ok b)) f h k l = k t x b h
Stays-bind Good Q (done ((t, x), err e)) f h k l = l t x e h
Stays-bind Good Q panic f h k l = h
Stays-bind Good Q stuck f h k l = h

pub lift-Stays :
    {T X : Type 0} (E : Type 0) (Good : X → Type 0) (t : T) (m : Checked X)
    → Ensures Good m
    → Ensures (Stays Good) (lift {E = E} t m)
lift-Stays E Good t (done x) h = h
lift-Stays E Good t panic h = h
lift-Stays E Good t stuck h = h

module _ {T E : Type 0} (env : Transport T E) {X V : Type 0} (machine : Machine X V)
    (Good : X → Type 0) (laws : IsMachine machine Good) where
  written-Stays :
      (x : X) (rest : Run (T × X) (UploadError E) (Unit {0})) (r : T × Result (Unit {0}) E)
      → Good x
      → ((t : T) → Ensures (Stays Good) (rest (t, x)))
      → Ensures (Stays Good) (written r x rest)
  written-Stays x rest (t, ok u) g k = k t
  written-Stays x rest (t, err e) g k = g

  flush_next-Stays :
      (x : X) (t : T) (p : X × Option Bytes) (rest : Run (T × X) (UploadError E) (Unit {0}))
      → machine.poll_outbound x ≡ p
      → Good p.0
      → ((t' : T) (x' : X)
          → machine.outbound_left x' < machine.outbound_left x
          → Good x'
          → Ensures (Stays Good) (rest (t', x')))
      → Ensures (Stays Good) (flush_next env machine p t rest)
  flush_next-Stays x t (x', none) rest e g k = g
  flush_next-Stays x t (x', some out) rest e g k =
      written-Stays x' rest (env.write_all t out) g
        (λ t'. k t' x' (laws.poll_outbound_left x x' out e) g)

  flush_loop-Stays :
      (fuel : ℕ) (t : T) (x : X)
      → machine.outbound_left x < fuel
      → Good x
      → Ensures (Stays Good) (flush_loop env machine fuel (t, x))
  unfolding flush_loop
  flush_loop-Stays zero t x h g = absurd (omega arith)
  flush_loop-Stays (suc fuel) t x h g =
      flush_next-Stays x t (machine.poll_outbound x) (flush_loop env machine fuel) refl
        (laws.poll_outbound_keeps x g) (λ t' x' less k. flush_loop-Stays fuel t' x' (omega arith) k)

  flush-Stays : (t : T) (x : X) → Good x → Ensures (Stays Good) (flush env machine (t, x))
  unfolding flush
  flush-Stays t x g = flush_loop-Stays (suc (machine.outbound_left x)) t x (omega arith) g

  receive-Stays : (t : T) (x : X) → Good x → Ensures (Stays Good) (receive env machine (t, x))
  unfolding receive
  receive-Stays t x g = from (env.receive t (machine.response_timeout x))
    where
      from : (r : T × Result Bytes E) → Ensures (Stays Good) (arrived r x)
      from (t', ok bytes) = g
      from (t', err e) = g

  feed-Stays :
      (bytes : Bytes) (t : T) (x : X)
      → Good x
      → Ensures (Stays Good) (feed env machine bytes (t, x))
  unfolding feed
  feed-Stays [] t x g = g
  feed-Stays (b ∷ bytes) t x g =
      lift-Stays _ Good _ (machine.feed x (b ∷ bytes) (env.now t).1) (laws.feed_keeps x _ _ g)

  module _ {A : Type 0} (verdict : V → Option (Result A (UploadError E))) where
    judged-Polled :
        (x x' : X) (event : V) (v : Option (Result A (UploadError E)))
        (rest : X → Checked (X × Option (Result A (UploadError E))))
        → Good x
        → Good x'
        → machine.poll x ≡ (x', some event)
        → verdict event ≡ v
        → Ensures (Polled machine Good verdict) (rest x')
        → Ensures (Polled machine Good verdict) (judged v x' rest)
    judged-Polled x x' event (some (ok a)) rest g h p e k =
        (h, record { before = x; event = event; good = g; polled = p; accepted = e })
    judged-Polled x x' event (some (err error)) rest g h p e k = h
    judged-Polled x x' event none rest g h p e k = k

    poll_next-Polled :
        (x : X) (p : X × Option V) (rest : X → Checked (X × Option (Result A (UploadError E))))
        → machine.poll x ≡ p
        → Good x
        → Good p.0
        → ((x' : X)
            → machine.events_left x' < machine.events_left x
            → Good x'
            → Ensures (Polled machine Good verdict) (rest x'))
        → Ensures (Polled machine Good verdict) (poll_next env machine verdict p rest)
    poll_next-Polled x (x', none) rest e g h k = h
    poll_next-Polled x (x', some event) rest e g h k =
        judged-Polled x x' event (verdict event) rest g h e refl
          (k x' (laws.poll_left x x' event e) h)

    poll_loop-Polled :
        (fuel : ℕ) (x : X)
        → machine.events_left x < fuel
        → Good x
        → Ensures (Polled machine Good verdict) (poll_loop env machine verdict fuel x)
    unfolding poll_loop
    poll_loop-Polled zero x h g = absurd (omega arith)
    poll_loop-Polled (suc fuel) x h g =
        poll_next-Polled x (machine.poll x) (poll_loop env machine verdict fuel) refl g
          (laws.poll_keeps x g) (λ x' less k. poll_loop-Polled fuel x' (omega arith) k)

    found-Rounded :
        (t : T) (m : Checked (X × Option (Result A (UploadError E))))
        → Ensures (Polled machine Good verdict) m
        → Ensures (Rounded machine Good verdict) (found t m)
    found-Rounded t (done (x, some (ok a))) h = h
    found-Rounded t (done (x, some (err e))) h = h
    found-Rounded t (done (x, none)) h = h
    found-Rounded t panic h = h
    found-Rounded t stuck h = h

    poll-Rounded :
        (t : T) (x : X)
        → Good x
        → Ensures (Rounded machine Good verdict) (poll env machine verdict (t, x))
    unfolding poll
    poll-Rounded t x g =
        found-Rounded t _ (poll_loop-Polled (suc (machine.events_left x)) x (omega arith) g)

    -- The rule for `>>=` behind a round, or behind its loop over `poll`.
    Rounded-bind :
        {C : Type 0} (Q : (T × X) × Result C (UploadError E) → Type 0)
        (m : Checked ((T × X) × Result (Option A) (UploadError E)))
        (f : Option A → Run (T × X) (UploadError E) C)
        → Ensures (Rounded machine Good verdict) m
        → ((t : T) (x : X) (a : A)
            → Good x
            → IsFound machine Good verdict x a
            → Ensures Q (f (some a) (t, x)))
        → ((t : T) (x : X) → Good x → Ensures Q (f none (t, x)))
        → ((t : T) (x : X) (e : UploadError E) → Good x → Q ((t, x), err e))
        → Ensures Q (bind_result m f)
    Rounded-bind Q (done ((t, x), ok (some a))) f h k l n = k t x a h.0 h.1
    Rounded-bind Q (done ((t, x), ok none)) f h k l n = l t x h
    Rounded-bind Q (done ((t, x), err e)) f h k l n = n t x e h
    Rounded-bind Q panic f h k l n = h
    Rounded-bind Q stuck f h k l n = h

    tick-Rounded :
        (t : T) (x : X)
        → Good x
        → Ensures (Rounded machine Good verdict) (tick env machine none (t, x))
    unfolding tick
    tick-Rounded t x g =
        Stays-bind Good (Rounded machine Good verdict)
          (lift (env.now t).0 (machine.tick x (env.now t).1)) _
          (lift-Stays _ Good _ (machine.tick x (env.now t).1) (laws.tick_keeps x _ g))
          (λ t' x' u k. k) (λ t' x' e k. k)

    round-Rounded :
        (t : T) (x : X)
        → Good x
        → Ensures (Rounded machine Good verdict) (round env machine verdict (t, x))
    unfolding round
    round-Rounded t x g =
        Stays-bind Good (Rounded machine Good verdict) (flush env machine (t, x)) _
          (flush-Stays t x g)
          (λ t1 x1 u g1.
            Stays-bind Good (Rounded machine Good verdict) (receive env machine (t1, x1)) _
              (receive-Stays t1 x1 g1)
              (λ t2 x2 bytes g2.
                Stays-bind Good (Rounded machine Good verdict) (feed env machine bytes (t2, x2)) _
                  (feed-Stays bytes t2 x2 g2)
                  (λ t3 x3 v g3.
                    Rounded-bind (Rounded machine Good verdict) (poll env machine verdict (t3, x3))
                      _ (poll-Rounded t3 x3 g3) (λ t4 x4 a g4 found. unfold tick in (g4, found))
                      (λ t4 x4 g4. tick-Rounded t4 x4 g4) (λ t4 x4 e g4. g4))
                  (λ t3 x3 e g3. g3))
              (λ t2 x2 e g2. g2))
          (λ t1 x1 e g1. g1)

    -- On a machine that keeps its laws the loop ends without a panic, whatever the transport and the
    -- clock do; the machine is good then, and `Ok(a)` is returned right after an event for `a`.
    pub drive-Driven :
        (exhausted : UploadError E) (rounds : ℕ) (t : T) (x : X)
        → Good x
        → Ensures (Driven machine Good verdict) (drive env machine exhausted verdict rounds (t, x))
    unfolding drive
    drive-Driven exhausted zero t x g = g
    drive-Driven exhausted (suc rounds) t x g =
        Rounded-bind (Driven machine Good verdict) (round env machine verdict (t, x)) _
          (round-Rounded t x g) (λ t' x' a h f. (h, f))
          (λ t' x' h. drive-Driven exhausted rounds t' x' h) (λ t' x' e h. h)
