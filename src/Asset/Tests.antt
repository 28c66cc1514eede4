-- ===== src/Asset/Tests.antt =====
-- The theorems of the asset model at concrete assets and observations.
pub mod Merges
pub mod Managers
use asset_discovery.Asset.Identity.{generate_asset_id}
use asset_discovery.Asset.Types.{Asset, IpEntry, Mac, Observation, Service, online}
use asset_discovery.Prelude.{[], false, true, ◌∷◌}
use asset_discovery.Prelude.Text.{text}
use asset_discovery.Prelude.Time.{Time, pos}

abbrev pub laptop_mac : Mac
laptop_mac = 2 ∷ 17 ∷ 34 ∷ 51 ∷ 68 ∷ 85 ∷ []

abbrev pub entry : Time → IpEntry
entry t = record { first_seen = t; last_seen = t; lease = pos 0; is_active = true }

abbrev pub ssh : Service
ssh = record {
  protocol = text "tcp";
  port = 22;
  name = text "ssh";
  version = [];
  product = [];
  vendor = [];
  banner = [];
  is_active = true;
  last_seen = 5;
  is_client = false;
}

abbrev pub mdns_client : Service
mdns_client = record ssh {
  protocol = text "udp";
  port = 5353;
  name = text "mdns";
  is_client = true;
}

-- Seen at 10 with one address.
abbrev pub laptop_seen : Observation
laptop_seen = record {
  source = text "arp";
  observed_at = 10;
  mac = laptop_mac;
  ipv4s = (text "10.0.0.7", entry 10) ∷ [];
  ipv6s = [];
  hostnames = [];
  services = [];
  mac_vendor = [];
  device_type = [];
  model = [];
  os = [];
  extra = [];
}

-- Seen from 5 to 20, three times, without an address.
abbrev pub laptop : Asset
laptop = record {
  id = generate_asset_id laptop_mac;
  mac = laptop_mac;
  ipv4s = [];
  ipv6s = [];
  hostnames = text "laptop" ∷ [];
  services = ssh ∷ [];
  mac_vendor = [];
  device_type = [];
  model = [];
  os = [];
  extra = [];
  first_seen = 5;
  last_seen = 20;
  seen_count = 3;
  status = online;
}
