-- ===== src/Stats/Window.antt =====
-- What the ring of buckets of internal/stats/packet_rate.go counts.
use asset_discovery.Prelude.{Bool-cases, inl, inr, ◌==◌}
use asset_discovery.Stats.{new_packet_rate, rate}
use asset_discovery.Prelude.{sym, ◌%◌, ◌-◌, ◌∙◌}
use native.Mathlib.Decide.{ℕ_discrete}
use asset_discovery.Prelude.{
  List, [], ap, arith, length, refl, suc, zero, ℕ, ◌+◌, ◌<◌, ◌∷◌, ◌≡◌, ◌≢◌,
}
use asset_discovery.Stats.{PacketRate, bucket, counter_mod, inc, rotate, set_bucket, zeros}

pub record WindowInv (p : PacketRate) : Type 0 where
  pub size : length p.buckets ≡ p.size
  pub cur : p.cur < p.size
  pub others : (j : ℕ) → p.cur ≢ j → bucket p.buckets j ≡ 0
  pub total : p.total ≡ bucket p.buckets p.cur
  pub bounded : p.total < counter_mod

pub data Tick : Type 0 where
  packet : Tick
  interval_over : Tick

abbrev pub tick : PacketRate → Tick → PacketRate
tick p packet = inc p
tick p interval_over = rotate p

unfoldable pub ticks : PacketRate → List Tick → PacketRate
ticks p [] = p
ticks p (t ∷ ts) = ticks (tick p t) ts

-- The packets since the last end of an interval, or `n` more when there was none.
unfoldable pub packets_of_interval : ℕ → List Tick → ℕ
packets_of_interval n [] = n
packets_of_interval n (packet ∷ ts) = packets_of_interval (n + 1) ts
packets_of_interval n (interval_over ∷ ts) = packets_of_interval 0 ts

length-set_bucket : (bs : List ℕ) (i v : ℕ) → length (set_bucket bs i v) ≡ length bs
length-set_bucket [] i v = refl
length-set_bucket (b ∷ bs) zero v = refl
length-set_bucket (b ∷ bs) (suc i) v = ap (λ n. suc n) (length-set_bucket bs i v)

bucket-set_bucket_self : (bs : List ℕ) (i v : ℕ) → i < length bs → bucket (set_bucket bs i v) i ≡ v
bucket-set_bucket_self [] i v h = omega arith
bucket-set_bucket_self (b ∷ bs) zero v h = refl
bucket-set_bucket_self (b ∷ bs) (suc i) v h = bucket-set_bucket_self bs i v (omega arith)

bucket-set_bucket_ne :
    (bs : List ℕ) (i j v : ℕ) → i ≢ j → bucket (set_bucket bs i v) j ≡ bucket bs j
bucket-set_bucket_ne [] i j v h = refl
bucket-set_bucket_ne (b ∷ bs) zero zero v h = absurd (h refl)
bucket-set_bucket_ne (b ∷ bs) zero (suc j) v h = refl
bucket-set_bucket_ne (b ∷ bs) (suc i) zero v h = refl
bucket-set_bucket_ne (b ∷ bs) (suc i) (suc j) v h =
    bucket-set_bucket_ne bs i j v (λ e. h (ap (λ n. suc n) e))

bucket-zeros : (n j : ℕ) → bucket (zeros n) j ≡ 0
bucket-zeros zero j = refl
bucket-zeros (suc n) zero = refl
bucket-zeros (suc n) (suc j) = bucket-zeros n j

length-zeros : (n : ℕ) → length (zeros n) ≡ n
length-zeros zero = refl
length-zeros (suc n) = ap (λ n. suc n) (length-zeros n)

mod_small : (n : ℕ) → n < counter_mod → n % counter_mod ≡ n
mod_small n h = omega arith

inc-WindowInv :
    (p : PacketRate)
    → WindowInv p
    → p.total + 1 < counter_mod
    → WindowInv (inc p) × ((inc p).total ≡ p.total + 1)
unfolding inc
inc-WindowInv p v h =
    let small = mod_small (p.total + 1) h in
    (
      record {
        size = length-set_bucket p.buckets p.cur _ ∙ v.size;
        cur = v.cur;
        others = λ j e. bucket-set_bucket_ne p.buckets p.cur j _ e ∙ v.others j e;
        total =
            ap (λ n. (n + 1) % counter_mod) v.total
            ∙ sym (bucket-set_bucket_self p.buckets p.cur _ (rw v.size v.cur));
        bounded = rw small h;
      },
      small,
    )

-- After rotate every bucket is empty.
rotated : (p : PacketRate) → WindowInv p → (j : ℕ) → bucket (set_bucket p.buckets p.cur 0) j ≡ 0
rotated p v j = elim (ℕ_discrete p.cur j) [
  | yes e ↦ rw (sym e) (bucket-set_bucket_self p.buckets p.cur 0 (rw v.size v.cur))
  | no e ↦ bucket-set_bucket_ne p.buckets p.cur j 0 e ∙ v.others j e
]

one_below : 0 < counter_mod
one_below = omega arith

rotated_cur : (p : PacketRate) → WindowInv p → (p.cur + 1) % p.size < p.size
rotated_cur p v = omega (arith, v.cur)

rotate-WindowInv : (p : PacketRate) → WindowInv p → WindowInv (rotate p) × ((rotate p).total ≡ 0)
unfolding rotate
rotate-WindowInv p v =
    let drained = ap (λ n. (p.total + counter_mod - n) % counter_mod) (sym v.total) ∙ omega arith in
    (
      record {
        size = length-set_bucket p.buckets p.cur 0 ∙ v.size;
        cur = rotated_cur p v;
        others = λ j e. rotated p v j;
        total = drained ∙ sym (rotated p v _);
        bounded = rw drained one_below;
      },
      drained,
    )

new_packet_rate-WindowInv : (interval size : ℕ) → WindowInv (new_packet_rate interval size)
unfolding new_packet_rate
new_packet_rate-WindowInv interval size = record {
  size = length-zeros _;
  cur = elim (Bool-cases (size == 0)) [ inl e ↦ rw e (omega arith) | inr e ↦ rw e (ground arith) ];
  others = λ j e. bucket-zeros _ j;
  total = sym (bucket-zeros _ 0);
  bounded = omega arith;
}

ticks-total :
    (ts : List Tick) (p : PacketRate)
    → WindowInv p
    → p.total + length ts < counter_mod
    → (ticks p ts).total ≡ packets_of_interval p.total ts
unfolding ticks packets_of_interval
ticks-total [] p v h = refl
ticks-total (packet ∷ ts) p v h =
    let (v', e) = inc-WindowInv p v (omega (arith, h)) in
    ticks-total ts (inc p) v' (rw e (omega (arith, h))) ∙ rw e refl
ticks-total (interval_over ∷ ts) p v h =
    let (v', e) = rotate-WindowInv p v in
    ticks-total ts (rotate p) v' (rw e (omega (arith, h))) ∙ rw e refl

ticks-size : (ts : List Tick) (p : PacketRate) → (ticks p ts).size ≡ p.size
unfolding ticks inc rotate
ticks-size [] p = refl
ticks-size (packet ∷ ts) p = ticks-size ts (inc p)
ticks-size (interval_over ∷ ts) p = ticks-size ts (rotate p)

new_packet_rate-total : (interval size : ℕ) → (new_packet_rate interval size).total ≡ 0
unfolding new_packet_rate
new_packet_rate-total interval size = refl

-- After fewer than 2 ^ 64 packets and ends of intervals, in any order, Rate returns the number of
-- packets since the last end of an interval, divided by the number of buckets: no packet of an
-- interval before is counted, however many buckets there are.
pub rate-ticks :
    (interval size : ℕ) (ts : List Tick)
    → length ts < counter_mod
    → rate (ticks (new_packet_rate interval size) ts)
      ≡ (packets_of_interval 0 ts, (new_packet_rate interval size).size)
unfolding rate
rate-ticks interval size ts h =
    let p = new_packet_rate interval size in
    let e =
      ticks-total ts p (new_packet_rate-WindowInv interval size)
        (omega (arith, h, new_packet_rate-total interval size)) in
    cc (e, new_packet_rate-total interval size, ticks-size ts p)
