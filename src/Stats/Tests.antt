-- ===== src/Stats/Tests.antt =====
-- The packet rate at one sequence of ticks.
use asset_discovery.Stats.Window.{packets_of_interval}
use asset_discovery.Prelude.{[], arith, ◌∷◌, ◌≡◌}
use asset_discovery.Prelude.Time.{second}
use asset_discovery.Stats.{new_packet_rate, rate}
use asset_discovery.Stats.Window.{interval_over, packet, rate-ticks, ticks}

rate-ticks_example :
    rate (ticks (new_packet_rate second 60) (packet ∷ interval_over ∷ packet ∷ packet ∷ []))
    ≡ (2, 60)
unfolding packets_of_interval new_packet_rate
rate-ticks_example =
    rate-ticks second 60 (packet ∷ interval_over ∷ packet ∷ packet ∷ []) (omega arith)
