-- ===== src/Capture/Ledger.antt =====
-- No packet is lost, doubled or counted twice by the pump.
use asset_discovery.Capture.{Stats, counted_bytes, record_accepted}
use asset_discovery.Capture.Pump.{
  Event, PacketView, Phase, Pump, ctx_done, first_select, holding, is_observable, new_pump, packet,
  packets_end, pump_step, returned, run_pump, second_select, sent, source_closed, waiting,
}
use asset_discovery.Prelude.{
  Bool-cases, List, [], ap, arith, false, if◌then◌else◌, inl, inr, length, length-append, refl, sym,
  true, ℕ, ◌%◌, ◌++◌, ◌+◌, ◌∙◌, ◌∷◌, ◌≡◌, ◌⊎◌,
}
use asset_discovery.Stats.{counter_mod}
use mathlib.Core.List.{append-nil, append_assoc}
use mathlib.Core.Path.{subst}

-- The packets that are not on the channel yet: in the pump's hands, or lost by its return.
abbrev Pending {ℓ} : {P : Type ℓ} → Phase P → List P → Type ℓ
Pending waiting rest = rest ≡ []
Pending (holding p) rest = rest ≡ p ∷ []
Pending {P = P} (returned c) rest = (rest ≡ []) ⊎ ((p : P) × (rest ≡ p ∷ []))

module _ {ℓ} {P : Type ℓ} (view : PacketView P) where
  -- The observable packet that the pump receives by an event, if any.
  abbrev pub seen_in : Phase P → Event P → List P
  seen_in waiting (packet p) = if is_observable view p then p ∷ [] else []
  seen_in _ _ = []

  -- The observable packets that it receives in a run, in their order.
  unfoldable pub seen : Pump P → List (Event P) → List P
  seen g [] = []
  seen g (e ∷ es) = seen_in g.phase e ++ seen (pump_step view g e) es

  abbrev pub byte_total : List P → ℕ
  byte_total [] = 0
  byte_total (p ∷ ps) = counted_bytes (view.len p) (view.capture_length p) + byte_total ps

  -- What went through the pump, `history` being the packets it has received.
  pub record Ledger (history : List P) (g : Pump P) : Type ℓ where
    pub rest : List P
    pub pending : Pending g.phase rest
    pub in_order : history ≡ g.out ++ rest
    pub counted : g.stats.received ≡ length g.out % counter_mod
    pub summed : g.stats.bytes ≡ byte_total g.out % counter_mod

  byte_total-append : (xs ys : List P) → byte_total (xs ++ ys) ≡ byte_total xs + byte_total ys
  byte_total-append [] ys = omega arith
  byte_total-append (x ∷ xs) ys = omega (arith, byte_total-append xs ys)

  -- The pump without a packet sent or received.
  keep :
      (phase phase' : Phase P) (history out : List P) (stats : Stats)
      (l : Ledger history (record { phase = phase; out = out; stats = stats }))
      → Pending phase' l.rest
      → Ledger (history ++ []) (record { phase = phase'; out = out; stats = stats })
  keep phase phase' history out stats l p = record {
    rest = l.rest;
    pending = p;
    in_order = append-nil history ∙ l.in_order;
    counted = l.counted;
    summed = l.summed;
  }

  step-Ledger :
      (phase : Phase P) (history out : List P) (stats : Stats) (e : Event P)
      → Ledger history (record { phase = phase; out = out; stats = stats })
      → Ledger
          (history ++ seen_in phase e)
          (pump_step view (record { phase = phase; out = out; stats = stats }) e)
  unfolding pump_step first_select second_select
  step-Ledger waiting history out stats ctx_done l =
      keep waiting (returned true) history out stats l (inl l.pending)
  step-Ledger waiting history out stats source_closed l =
      keep waiting (returned false) history out stats l (inl l.pending)
  step-Ledger waiting history out stats (packet p) l = elim (Bool-cases (is_observable view p)) [
    | inl e ↦ rw e record {
      rest = p ∷ [];
      pending = refl;
      in_order = ap (λ h. h ++ p ∷ []) (l.in_order ∙ ap (λ r. out ++ r) l.pending ∙ append-nil out);
      counted = l.counted;
      summed = l.summed;
    }
    | inr e ↦ rw e (keep waiting waiting history out stats l l.pending)
  ]
  step-Ledger waiting history out stats packets_end l =
      keep waiting (returned false) history out stats l (inl l.pending)
  step-Ledger waiting history out stats sent l = keep waiting waiting history out stats l l.pending
  step-Ledger (holding p) history out stats ctx_done l =
      keep (holding p) (returned true) history out stats l (inr (p, l.pending))
  step-Ledger (holding p) history out stats source_closed l =
      keep (holding p) (returned false) history out stats l (inr (p, l.pending))
  step-Ledger (holding p) history out stats (packet q) l =
      keep (holding p) (holding p) history out stats l l.pending
  step-Ledger (holding p) history out stats packets_end l =
      keep (holding p) (holding p) history out stats l l.pending
  step-Ledger (holding p) history out stats sent l =
      unfold record_accepted in
      record {
        rest = [];
        pending = refl;
        in_order =
            append-nil history
            ∙ l.in_order
            ∙ ap (λ r. out ++ r) l.pending
            ∙ sym (append-nil (out ++ p ∷ []));
        counted = omega (arith, l.counted, length-append out (p ∷ []));
        summed = omega (arith, l.summed, byte_total-append out (p ∷ []));
      }
  step-Ledger (returned c) history out stats e l =
      keep (returned c) (returned c) history out stats l l.pending

  run_pump-Ledger :
      (es : List (Event P)) (g : Pump P) (history : List P)
      → Ledger history g
      → Ledger (history ++ seen g es) (run_pump view g es)
  unfolding run_pump seen
  run_pump-Ledger [] g history l = keep g.phase g.phase history g.out g.stats l l.pending
  run_pump-Ledger (e ∷ es) g history l =
      subst (λ h. Ledger h (run_pump view (pump_step view g e) es))
        (append_assoc history (seen_in g.phase e) (seen (pump_step view g e) es))
        (run_pump-Ledger es (pump_step view g e) (history ++ seen_in g.phase e)
          (step-Ledger g.phase history g.out g.stats e l))

  -- From a new source, whichever cases the two selects of pump take: the packets on the channel are the
  -- observable ones that it received, in their order and each once, but for at most one, which it holds
  -- or has lost by returning; the counters are the number and the bytes of those on the channel, modulo
  -- 2 ^ 64.
  pub run_pump-new_pump-Ledger :
      (es : List (Event P)) → Ledger (seen new_pump es) (run_pump view new_pump es)
  run_pump-new_pump-Ledger es =
      run_pump-Ledger es new_pump []
        (record { rest = []; pending = refl; in_order = refl; counted = refl; summed = refl })
