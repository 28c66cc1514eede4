-- ===== src/Analyzer/Valid.antt =====
-- What the analyzers promise the manager.
use asset_discovery.Analyzer.Arp.{arp_operation_name}
use asset_discovery.Prelude.{All-append, Bool, if◌then◌else◌}
use asset_discovery.Analyzer.Arp.{Arp, analyze_arp, arp_observation}
use asset_discovery.Analyzer.Dhcp.{Dhcpv4}
use asset_discovery.Analyzer.Dhcpv4.{analyze_dhcpv4}
use asset_discovery.Analyzer.Net.{is_usable}
use asset_discovery.Asset.Types.{Mac, Observation, bare_observation, valid}
use asset_discovery.Prelude.{
  All, Bool-cases, List, [], arith, false, inl, inr, length, refl, true, ℕ, ◌∷◌, ◌≡◌, ◌≢◌,
}
use asset_discovery.Prelude.Text.{Text, is_empty}
use asset_discovery.Prelude.Time.{Time}

-- An observation that the manager takes, of a whole hardware address and of the packet's time.
pub record Reports (at : Time) (o : Observation) : Type 0 where
  pub taken : valid o ≡ true
  pub address : length o.mac ≡ 6
  pub time : o.observed_at ≡ at

pub usable_length : (mac : Mac) → is_usable mac ≡ true → length mac ≡ 6
unfolding is_usable
usable_length mac h = ground arith

pub usable_nonempty : (mac : Mac) → is_usable mac ≡ true → is_empty mac ≡ false
unfolding is_usable is_empty
usable_nonempty [] h = ground arith
usable_nonempty (b ∷ mac) h = refl

arp_observation-Reports :
    (at : Time) (op : Text) (mac : Mac) (ip : List ℕ)
    → at ≢ 0
    → is_usable mac ≡ true
    → Reports at (arp_observation at op mac ip)
unfolding arp_observation valid bare_observation is_empty
arp_observation-Reports at op mac ip t h = record {
  taken = ground (arith, t, usable_nonempty mac h);
  address = usable_length mac h;
  time = refl;
}

pub All-guarded {ℓ κ} :
    {A : Type ℓ} (P : A → Type κ) (c : Bool) (x : A)
    → (c ≡ true → P x)
    → All P (if c then x ∷ [] else [])
All-guarded P true x h = (h refl, tt)
All-guarded P false x h = tt

-- An observation of a usable address that is tested before it is reported.
pub when_valid-Reports :
    (at : Time) (o : Observation)
    → is_usable o.mac ≡ true
    → o.observed_at ≡ at
    → All (Reports at) (if valid o then o ∷ [] else [])
when_valid-Reports at o u t =
    All-guarded (Reports at) (valid o) o
      (λ v. record { taken = v; address = usable_length o.mac u; time = t })

-- The ARP analyzer reports, for a packet with a time, only observations that the manager takes.
pub analyze_arp-Reports : (at : Time) (arp : Arp) → at ≢ 0 → All (Reports at) (analyze_arp at arp)
unfolding analyze_arp
analyze_arp-Reports at arp t =
    let op = arp_operation_name arp in
    All-append (Reports at) _ _
      (All-guarded (Reports at) (is_usable arp.source_hw)
        (arp_observation at op arp.source_hw arp.source_prot)
        (λ h. arp_observation-Reports at op arp.source_hw arp.source_prot t h))
      (All-guarded (Reports at) _ (arp_observation at op arp.dst_hw arp.dst_prot)
        (λ h. arp_observation-Reports at op arp.dst_hw arp.dst_prot t (ground (arith, h))))

-- The DHCPv4 analyzer reports, for a packet with a time, at most one observation, and the manager takes
-- it.
pub analyze_dhcpv4-Reports :
    (at : Time) (d : Dhcpv4) → at ≢ 0 → All (Reports at) (analyze_dhcpv4 at d)
unfolding analyze_dhcpv4 valid bare_observation is_empty
analyze_dhcpv4-Reports at d t = elim (Bool-cases (is_usable d.client_hw)) [
  | inl e ↦ rw e (
    record {
      taken = ground (arith, t, usable_nonempty d.client_hw e);
      address = usable_length d.client_hw e;
      time = refl;
    },
    tt,
  )
  | inr e ↦ rw e tt
]
