-- ===== src/Stats.antt =====
-- internal/stats/packet_rate.go: packets per second over a ring of buckets. The mutex makes each
-- method one step.
pub mod Window
pub mod Tests
use asset_discovery.Prelude.{List, [], if◌then◌else◌, suc, zero, ℕ, ◌%◌, ◌+◌, ◌-◌, ◌==◌, ◌^◌, ◌∷◌}
use asset_discovery.Prelude.Time.{second}

pub record PacketRate : Type 0 where
  pub buckets : List ℕ
  pub size : ℕ
  pub cur : ℕ
  pub total : ℕ
  pub interval : ℕ

-- p.buckets[i], 0 out of range
abbrev pub bucket : List ℕ → ℕ → ℕ
bucket [] i = 0
bucket (b ∷ bs) zero = b
bucket (b ∷ bs) (suc i) = bucket bs i

-- p.buckets[i] = v
abbrev pub set_bucket : List ℕ → ℕ → ℕ → List ℕ
set_bucket [] i v = []
set_bucket (b ∷ bs) zero v = v ∷ bs
set_bucket (b ∷ bs) (suc i) v = b ∷ set_bucket bs i v

abbrev pub zeros : ℕ → List ℕ
zeros zero = []
zeros (suc n) = 0 ∷ zeros n

-- NewPacketRate; the sizes and intervals that are not positive are 0 here.
unfoldable pub new_packet_rate : ℕ → ℕ → PacketRate
new_packet_rate interval size =
    let n = if size == 0 then 60 else size in
    record {
      buckets = zeros n;
      size = n;
      cur = 0;
      total = 0;
      interval = if interval == 0 then second else interval;
    }

abbrev pub counter_mod : ℕ
counter_mod = 2 ^ 64

unfoldable pub inc : PacketRate → PacketRate
inc p = record p {
  buckets = set_bucket p.buckets p.cur ((bucket p.buckets p.cur + 1) % counter_mod);
  total = (p.total + 1) % counter_mod;
}

-- The quotient that Rate returns, as numerator and denominator.
unfoldable pub rate : PacketRate → ℕ × ℕ
rate p = (p.total, p.size)

unfoldable pub rotate : PacketRate → PacketRate
rotate p = record p {
  buckets = set_bucket p.buckets p.cur 0;
  cur = (p.cur + 1) % p.size;
  total = (p.total + counter_mod - bucket p.buckets p.cur) % counter_mod;
}
