-- ===== src/Capture/Tests.antt =====
-- A pump of four packets, the second of which has no layers, that is cancelled with the last in hand.
use asset_discovery.Capture.{
  invalid_bpf, new_source, replace_bpf, source_already_run, source_kind_file, start_run,
}
use asset_discovery.Capture.Ledger.{Ledger, run_pump-new_pump-Ledger, seen}
use asset_discovery.Capture.Pump.{Event, PacketView, ctx_done, new_pump, packet, run_pump, sent}
use asset_discovery.Prelude.{List, [], false, inl, refl, some, true, ℕ, ◌∷◌, ◌≡◌}
use asset_discovery.Prelude.Text.{is_empty, text, trim_space}

-- A packet is its number of layers, and has sixty bytes.
abbrev view : PacketView ℕ
view = record { layer_count = λ p. p; len = λ p. 60; capture_length = λ p. 0 }

abbrev events : List (Event ℕ)
events = packet 3 ∷ sent ∷ packet 0 ∷ packet 4 ∷ sent ∷ packet 5 ∷ ctx_done ∷ sent ∷ []

two_sent : (run_pump view new_pump events).out ≡ 3 ∷ 4 ∷ []
unfolding run_pump
two_sent = refl

bytes_of_two : (run_pump view new_pump events).stats.bytes ≡ 120
unfolding run_pump
bytes_of_two = refl

run_pump-new_pump-Ledger_example :
    Ledger view (seen view new_pump events) (run_pump view new_pump events)
run_pump-new_pump-Ledger_example = run_pump-new_pump-Ledger view events

second_run :
    start_run (record (new_source source_kind_file (text "a")) { run_started = true }) true
    ≡ inl source_already_run
unfolding start_run
second_run = refl

stored_before_refused :
    replace_bpf (text "arp") (text "nonsense") (some (λ e. false) ∷ [])
    ≡ (text "nonsense", some invalid_bpf)
unfolding replace_bpf is_empty trim_space
stored_before_refused = refl
