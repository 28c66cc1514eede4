-- ===== src/Capture/Pump.antt =====
-- pump of internal/capture/pump.go. Each event is a case that one of its two `select` statements takes;
-- which case is taken when several are ready is left to the sequence of events.
use asset_discovery.Capture.{Stats, new_stats, record_accepted}
use asset_discovery.Prelude.{Bool, List, [], false, if◌then◌else◌, ltb, true, ℕ, ◌++◌, ◌∷◌}

-- What pump reads of a packet of gopacket: isObservable and packetLengths.
pub record PacketView {ℓ} (P : Type ℓ) : Type ℓ where
  pub layer_count : P → ℕ
  pub len : P → ℕ
  pub capture_length : P → ℕ

pub data Event {ℓ} (P : Type ℓ) : Type ℓ where
  ctx_done : Event P
  source_closed : Event P
  packet : P → Event P
  packets_end : Event P
  sent : Event P

-- Where pump is: at the first select, at the second one with a packet, or returned; with ctx.Err()
-- where it was cancelled.
pub data Phase {ℓ} (P : Type ℓ) : Type ℓ where
  waiting : Phase P
  holding : P → Phase P
  returned : Bool → Phase P

-- The packets on the channel out, the oldest first, and the counters.
pub record Pump {ℓ} (P : Type ℓ) : Type ℓ where
  pub phase : Phase P
  pub out : List P
  pub stats : Stats

abbrev pub new_pump {ℓ} : {P : Type ℓ} → Pump P
new_pump = record { phase = waiting; out = []; stats = new_stats }

module _ {ℓ} {P : Type ℓ} (view : PacketView P) where
  unfoldable pub is_observable : P → Bool
  is_observable p = ltb 0 (view.layer_count p)

  -- The first select. A case that it does not have is never taken.
  unfoldable pub first_select : Pump P → Event P → Pump P
  unfolding is_observable
  first_select g ctx_done = record g { phase = returned true }
  first_select g source_closed = record g { phase = returned false }
  first_select g (packet p) = if is_observable p then record g { phase = holding p } else g
  first_select g packets_end = record g { phase = returned false }
  first_select g sent = g

  unfoldable pub second_select : Pump P → P → Event P → Pump P
  unfolding record_accepted
  second_select g p ctx_done = record g { phase = returned true }
  second_select g p source_closed = record g { phase = returned false }
  second_select g p sent = record {
    phase = waiting;
    out = g.out ++ p ∷ [];
    stats = record_accepted g.stats (view.len p) (view.capture_length p);
  }
  second_select g p (packet q) = g
  second_select g p packets_end = g

  abbrev step_in : Pump P → Event P → Phase P → Pump P
  step_in g e waiting = first_select g e
  step_in g e (holding p) = second_select g p e
  step_in g e (returned c) = g

  unfoldable pub pump_step : Pump P → Event P → Pump P
  unfolding first_select second_select
  pump_step g e = step_in g e g.phase

  unfoldable pub run_pump : Pump P → List (Event P) → Pump P
  unfolding pump_step
  run_pump g [] = g
  run_pump g (e ∷ es) = run_pump (pump_step g e) es
