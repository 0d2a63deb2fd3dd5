-- ===== src/Transfer/Gates.antt =====
-- The states that the requests of src/file_transfer.rs ask for, and what holds in them.
use marlin_binary_transfer.Common.{◌≡◌, refl, Option, none, some, true}
use marlin_binary_transfer.Transfer.State.{State, PendingAscii}
use marlin_binary_transfer.Transfer.Operations.{is_idle, is_negotiated, is_opened}
use marlin_binary_transfer.Transfer.Invariant.{PendingFits}

pub is_idle→ : (state : State) → is_idle state ≡ true → state ≡ State.idle
is_idle→ State.idle e = refl
is_idle→ State.awaiting_query_reply e = cc
is_idle→ State.negotiated e = cc
is_idle→ State.awaiting_open_reply e = cc
is_idle→ State.opened e = cc
is_idle→ State.awaiting_write_ack e = cc
is_idle→ State.awaiting_close_reply e = cc
is_idle→ State.closed e = cc
is_idle→ State.awaiting_abort_reply e = cc
is_idle→ State.aborted e = cc
is_idle→ State.failed e = cc

pub is_negotiated→ : (state : State) → is_negotiated state ≡ true → state ≡ State.negotiated
is_negotiated→ State.idle e = cc
is_negotiated→ State.awaiting_query_reply e = cc
is_negotiated→ State.negotiated e = refl
is_negotiated→ State.awaiting_open_reply e = cc
is_negotiated→ State.opened e = cc
is_negotiated→ State.awaiting_write_ack e = cc
is_negotiated→ State.awaiting_close_reply e = cc
is_negotiated→ State.closed e = cc
is_negotiated→ State.awaiting_abort_reply e = cc
is_negotiated→ State.aborted e = cc
is_negotiated→ State.failed e = cc

pub is_opened→ : (state : State) → is_opened state ≡ true → state ≡ State.opened
is_opened→ State.idle e = cc
is_opened→ State.awaiting_query_reply e = cc
is_opened→ State.negotiated e = cc
is_opened→ State.awaiting_open_reply e = cc
is_opened→ State.opened e = refl
is_opened→ State.awaiting_write_ack e = cc
is_opened→ State.awaiting_close_reply e = cc
is_opened→ State.closed e = cc
is_opened→ State.awaiting_abort_reply e = cc
is_opened→ State.aborted e = cc
is_opened→ State.failed e = cc

-- The state before a request has no line pending, and the state after it may keep the compression.
pub idle_fits :
    (pending : Option PendingAscii)
    → PendingFits State.idle pending
    → PendingFits State.awaiting_query_reply pending
idle_fits none h = tt
idle_fits (some pending) h = absurd h

pub negotiated_fits :
    (pending : Option PendingAscii)
    → PendingFits State.negotiated pending
    → PendingFits State.awaiting_open_reply pending
negotiated_fits none h = tt
negotiated_fits (some pending) h = absurd h

pub opened_fits :
    (pending : Option PendingAscii) (state : State)
    → PendingFits State.opened pending
    → PendingFits state pending
opened_fits none state h = tt
opened_fits (some pending) state h = absurd h
