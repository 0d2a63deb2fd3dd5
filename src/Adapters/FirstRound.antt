-- ===== src/Adapters/FirstRound.antt =====
-- The driving loop of src/adapters when the answer comes in its first round.
use marlin_binary_transfer.Common.{
  refl, ℕ, suc, ◌≡◌, Option, none, some, ◌∷◌, Bytes, Result, ok, err, done,
}
use marlin_binary_transfer.Adapters.Types.{UploadError}
use marlin_binary_transfer.Adapters.Driver.{
  Transport, Machine, flush_loop, flush, receive, feed, poll_loop, poll, tick, round, drive, found,
  go_on, bind_result,
}

-- One frame is written, an answer is read, and the machine makes an event of it.
pub record Exchange {T E X V : Type 0} (env : Transport T E) (machine : Machine X V) (t : T) (x : X)
    (t' : T) (x' : X) (event : V) : Type 0 where
  pub sent : X
  pub out : Bytes
  pub written : T
  pub read : T
  pub left : ℕ
  pub time : ℕ
  pub first : ℕ
  pub bytes : Bytes
  pub fed : X
  pub to_send : machine.poll_outbound x ≡ (sent, some out)
  pub is_last : machine.poll_outbound sent ≡ (sent, none)
  pub counted : machine.outbound_left x ≡ suc left
  pub writes : env.write_all t out ≡ (written, ok tt)
  pub reads : env.receive written (machine.response_timeout sent) ≡ (read, ok (first ∷ bytes))
  pub clock : env.now read ≡ (t', time)
  pub feeds : machine.feed sent (first ∷ bytes) time ≡ done fed
  pub polls : machine.poll fed ≡ (x', some event)

module _ {T E X V : Type 0} (env : Transport T E) (machine : Machine X V) where
  -- One chunk is written, and some bytes, or none, are read.
  pub flush_one :
      (t written : T) (x sent : X) (out : Bytes) (left : ℕ)
      → machine.outbound_left x ≡ suc left
      → machine.poll_outbound x ≡ (sent, some out)
      → env.write_all t out ≡ (written, ok tt)
      → machine.poll_outbound sent ≡ (sent, none)
      → flush env machine (t, x) ≡ done ((written, sent), ok tt)
  unfolding flush flush_loop
  flush_one t written x sent out left counted to_send writes is_last =
      rw (counted, to_send, writes, is_last)

  pub receive_read :
      (t read : T) (x : X) (bytes : Bytes)
      → env.receive t (machine.response_timeout x) ≡ (read, ok bytes)
      → receive env machine (t, x) ≡ done ((read, x), ok bytes)
  unfolding receive
  receive_read t read x bytes reads = rw reads

  flush-Exchange :
      (t t' : T) (x x' : X) (event : V) (e : Exchange env machine t x t' x' event)
      → flush env machine (t, x) ≡ done ((e.written, e.sent), ok tt)
  flush-Exchange t t' x x' event e =
      flush_one t e.written x e.sent e.out e.left e.counted e.to_send e.writes e.is_last

  receive-Exchange :
      (t t' : T) (x x' : X) (event : V) (e : Exchange env machine t x t' x' event)
      → receive env machine (e.written, e.sent) ≡ done ((e.read, e.sent), ok (e.first ∷ e.bytes))
  receive-Exchange t t' x x' event e =
      receive_read e.written e.read e.sent (e.first ∷ e.bytes) e.reads

  feed-Exchange :
      (t t' : T) (x x' : X) (event : V) (e : Exchange env machine t x t' x' event)
      → feed env machine (e.first ∷ e.bytes) (e.read, e.sent) ≡ done ((t', e.fed), ok tt)
  unfolding feed
  feed-Exchange t t' x x' event e = rw (e.clock, e.feeds)

  -- `Ok(a)` and `Err(e)` of an event, as the body of the loop returns them.
  abbrev returned : {A B : Type 0} → Result A B → Result (Option A) B
  returned (ok a) = ok (some a)
  returned (err e) = err e

  found_lem :
      {A B : Type 0} (t : T) (x : X) (r : Result A B)
      → found t (done (x, some r)) ≡ done ((t, x), returned r)
  found_lem t x (ok a) = refl
  found_lem t x (err e) = refl

  poll-Exchange :
      {A : Type 0} (verdict : V → Option (Result A (UploadError E))) (r : Result A (UploadError E))
      (t t' : T) (x x' : X) (event : V) (e : Exchange env machine t x t' x' event)
      → verdict event ≡ some r
      → poll env machine verdict (t', e.fed) ≡ done ((t', x'), returned r)
  unfolding poll poll_loop
  poll-Exchange verdict r t t' x x' event e v = rw (e.polls, v) (found_lem t' x' r)

  ends :
      {A : Type 0} (exhausted : UploadError E) (verdict : V → Option (Result A (UploadError E)))
      (rounds : ℕ) (t : T) (x : X) (r : Result A (UploadError E))
      → bind_result
          (bind_result (done ((t, x), returned r)) (tick env machine))
          (go_on (drive env machine exhausted verdict rounds))
        ≡ done ((t, x), r)
  unfolding tick
  ends exhausted verdict rounds t x (ok a) = refl
  ends exhausted verdict rounds t x (err e) = refl

  -- Such an exchange ends the loop if the loop returns at its event.
  pub drive-Exchange :
      {A : Type 0} (exhausted : UploadError E) (verdict : V → Option (Result A (UploadError E)))
      (r : Result A (UploadError E)) (rounds : ℕ) (t t' : T) (x x' : X) (event : V)
      → Exchange env machine t x t' x' event
      → verdict event ≡ some r
      → drive env machine exhausted verdict (suc rounds) (t, x) ≡ done ((t', x'), r)
  unfolding drive round
  drive-Exchange exhausted verdict r rounds t t' x x' event e v =
      rw
        (
          flush-Exchange t t' x x' event e,
          receive-Exchange t t' x x' event e,
          feed-Exchange t t' x x' event e,
          poll-Exchange verdict r t t' x x' event e v,
        )
        (ends exhausted verdict rounds t' x' r)

  -- A round without an answer: the loop goes on behind it.
  pub record Unanswered {A : Type 0} (verdict : V → Option (Result A (UploadError E))) (t : T)
      (x : X) (t' : T) (x' : X) : Type 0 where
    pub written : T
    pub sent : X
    pub read : T
    pub bytes : Bytes
    pub fed_at : T
    pub fed : X
    pub polled : X
    pub flushes : flush env machine (t, x) ≡ done ((written, sent), ok tt)
    pub reads : receive env machine (written, sent) ≡ done ((read, sent), ok bytes)
    pub feeds : feed env machine bytes (read, sent) ≡ done ((fed_at, fed), ok tt)
    pub polls : poll env machine verdict (fed_at, fed) ≡ done ((fed_at, polled), ok none)
    pub ticks : tick env machine {A = A} none (fed_at, polled) ≡ done ((t', x'), ok none)

  pub drive-Unanswered :
      {A : Type 0} (exhausted : UploadError E) (verdict : V → Option (Result A (UploadError E)))
      (rounds : ℕ) (t t' : T) (x x' : X)
      → Unanswered verdict t x t' x'
      → drive env machine exhausted verdict (suc rounds) (t, x)
        ≡ drive env machine exhausted verdict rounds (t', x')
  unfolding drive round
  drive-Unanswered exhausted verdict rounds t t' x x' u =
      rw (u.flushes, u.reads, u.feeds, u.polls, u.ticks)
