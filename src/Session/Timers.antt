-- ===== src/Session/Timers.antt =====
-- `tick` of src/session.rs over time: retransmissions and the total budget of a packet.
use marlin_binary_transfer.Common.{
  ℕ, zero, suc, ◌+◌, ◌-◌, ◌*◌, ◌≤◌, ◌<◌, ◌≡◌, sym, ap, ◌∙◌, arith, some, List, [], ◌∷◌, ◌++◌, Bytes,
  All, append_assoc, append-nil, Checked, done, ◌>>=◌, leb, le→leb, lt→leb, Bool-cases, inl, inr,
}
use marlin_binary_transfer.Session.State.{InFlight, Session}
use marlin_binary_transfer.Session.Operations.{tick}

-- The caller ticks at these times, and nothing else happens.
pub tick_each : List ℕ → Session → Checked Session
tick_each [] s = done s
tick_each (now ∷ times) s = tick s now >>= tick_each times

abbrev pub replicate {ℓ} : {A : Type ℓ} → ℕ → A → List A
replicate zero a = []
replicate (suc n) a = a ∷ replicate n a

-- The session with `f` in flight, after `k` retransmissions of which the last was at `last`.
abbrev pub retried : Session → InFlight → (k last : ℕ) → Session
retried s f k last = record s {
  in_flight = some (record f { last_sent = last });
  outbound = s.outbound ++ replicate k f.bytes;
}

tick_quiet :
    (s : Session) (f : InFlight) (now : ℕ)
    → now - f.first_sent < s.total_timeout
    → now - f.last_sent < s.response_timeout
    → tick (record s { in_flight = some f }) now ≡ done (record s { in_flight = some f })
unfolding tick
tick_quiet s f now h k =
    rw (
      lt→leb s.total_timeout (now - f.first_sent) h,
      lt→leb s.response_timeout (now - f.last_sent) k,
    )

tick_resends :
    (s : Session) (f : InFlight) (now : ℕ)
    → now - f.first_sent < s.total_timeout
    → s.response_timeout ≤ now - f.last_sent
    → tick (record s { in_flight = some f }) now ≡ done (retried s f 1 now)
unfolding tick
tick_resends s f now h k =
    rw (
      lt→leb s.total_timeout (now - f.first_sent) h,
      le→leb s.response_timeout (now - f.last_sent) k,
    )

-- The outcome of ticks within the budget.
pub record Retries (times : List ℕ) (s : Session) (f : InFlight) : Type 0 where
  pub count : ℕ
  pub last : ℕ
  pub outcome : tick_each times (record s { in_flight = some f }) ≡ done (retried s f count last)
  pub paced : count * s.response_timeout + f.last_sent ≤ last
  pub ordered : f.first_sent ≤ last
  pub within : last - f.first_sent < s.total_timeout
  pub bounded : count * s.response_timeout < s.total_timeout

-- While the budget of the packet in flight lasts, ticks at any times do nothing but send the same
-- bytes again: `count` times, the last at `last`, no earlier than `count` response timeouts after
-- the sending before them and within the budget, so that `count` response timeouts are shorter
-- than the budget.
pub tick_each-Retries :
    (times : List ℕ) (s : Session) (f : InFlight)
    → 0 < s.response_timeout
    → f.first_sent ≤ f.last_sent
    → f.last_sent - f.first_sent < s.total_timeout
    → All (λ now. now - f.first_sent < s.total_timeout) times
    → Retries times s f
unfolding tick_each
tick_each-Retries [] s f pos o h v = record {
  count = 0;
  last = f.last_sent;
  outcome = λ i. done (record s { in_flight = some f; outbound = sym (append-nil s.outbound) i });
  paced = omega arith;
  ordered = o;
  within = h;
  bounded = omega arith;
}
tick_each-Retries (now ∷ times) s f pos o h v =
    elim (Bool-cases (leb s.response_timeout (now - f.last_sent))) [
      | inl e ↦
          let later : s.response_timeout ≤ now - f.last_sent = ground arith in
          let r =
            tick_each-Retries times (record s { outbound = s.outbound ++ f.bytes ∷ [] })
              (record f { last_sent = now }) pos (omega arith) v.0 v.1 in
          record {
            count = suc r.count;
            last = r.last;
            outcome =
                ap (λ (m : Checked Session). m >>= tick_each times) (tick_resends s f now v.0 later)
                ∙ r.outcome
                ∙ ap
                    (λ (out : List Bytes). done (record s {
                      in_flight = some (record f { last_sent = r.last });
                      outbound = out;
                    }))
                    (append_assoc s.outbound (f.bytes ∷ []) (replicate r.count f.bytes));
            paced = omega (arith, r.paced, later);
            ordered = r.ordered;
            within = r.within;
            bounded = omega (arith, r.paced, r.within, later);
          }
      | inr e ↦
          let r = tick_each-Retries times s f pos o h v.1 in
          record {
            count = r.count;
            last = r.last;
            outcome =
                ap (λ (m : Checked Session). m >>= tick_each times)
                  (tick_quiet s f now v.0 (ground arith))
                ∙ r.outcome;
            paced = r.paced;
            ordered = r.ordered;
            within = r.within;
            bounded = r.bounded;
          }
    ]
