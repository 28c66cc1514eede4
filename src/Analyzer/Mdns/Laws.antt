-- ===== src/Analyzer/Mdns/Laws.antt =====
-- What mDNS answers become.
use asset_discovery.Analyzer.Mdns.{
  answer_service, mdns_analyze_ctx, mdns_hostnames, mdns_observation, mdns_services, on_port,
  ptr_names, response, service_name_key, skip_answer,
}
use asset_discovery.Analyzer.Net.{is_usable}
use asset_discovery.Analyzer.PacketCtx.{
  Dns, DnsRecord, Ethernet, PacketCtx, eth_src_mac, observed_at, usable_source, when_some,
}
use asset_discovery.Analyzer.Valid.{Reports, when_valid-Reports}
use asset_discovery.Asset.Merge.{has, merge_new, same_text}
use asset_discovery.Asset.Merge.Keys.{has-kept_texts, map-same_text}
use asset_discovery.Asset.Merge.Lists.{Distinct, Distinct-merge_new, kept_keys, merge_new_union}
use asset_discovery.Asset.Types.{Mac, Observation, Service}
use asset_discovery.Prelude.{
  All, Bool-cases, List, Option, [], ap, arith, inl, inr, map, none, not, refl, some, sym, true,
  ◌&&◌, ◌++◌, ◌∙◌, ◌≡◌, ◌∷◌,
}
use asset_discovery.Prelude.Text.{Text, is_empty, itoa, text}
use asset_discovery.Prelude.Time.{Time}

-- The host names are the names of the PTR answers that are not empty, each once.
pub mdns_hostnames_exact :
    (dns : Dns)
    → Distinct (mdns_hostnames dns)
      × ((k : Text)
          → has k (mdns_hostnames dns) ≡ (not (is_empty k) && has k (ptr_names dns.answers)))
unfolding mdns_hostnames
mdns_hostnames_exact dns =
    let names = ptr_names dns.answers in
    let m = (merge_new is_empty same_text [] names).out in
    (
      rw (← map-same_text m) (Distinct-merge_new is_empty same_text [] names tt),
      λ k.
          ap (has k) (sym (map-same_text m))
          ∙ merge_new_union is_empty same_text [] names k
          ∙ has-kept_texts names k,
    )

-- An observation of the mDNS analyzer is of a usable source address.
pub eth_src_mac-usable :
    (ctx : PacketCtx) (mac : Mac) → eth_src_mac ctx ≡ some mac → is_usable mac ≡ true
unfolding eth_src_mac
eth_src_mac-usable ctx mac h = go ctx.ethernet h
  where
    go : (o : Option Ethernet) → usable_source o ≡ some mac → is_usable mac ≡ true
    go none e = cc
    go (some eth) e = ground arith

pub All-when_some {ℓ} :
    {A : Type ℓ} (P : Observation → Type 0) (o : Option A) (f : A → List Observation)
    → ((a : A) → o ≡ some a → All P (f a))
    → All P (when_some o f)
All-when_some P none f h = tt
All-when_some P (some a) f h = h a refl

pub mdns_analyze_ctx-Reports :
    (now : Time) (ctx : PacketCtx) → All (Reports (observed_at now ctx)) (mdns_analyze_ctx now ctx)
unfolding mdns_analyze_ctx
mdns_analyze_ctx-Reports now ctx =
    let at = observed_at now ctx in
    elim (Bool-cases (on_port 5353 ctx.udp)) [
      | inl e ↦ rw e (
          All-when_some (Reports at) (response ctx.dns) _ (λ dns d.
            All-when_some (Reports at) (eth_src_mac ctx) _ (λ mac m.
              when_valid-Reports at (mdns_observation at ctx mac dns) (eth_src_mac-usable ctx mac m)
                refl)))
      | inr e ↦ rw e tt
    ]

-- The key of a service.
abbrev pub service_id : Service → Text
service_id s = text "tcp:" ++ itoa s.port ++ text ":" ++ s.name

service_id-answers :
    (at : Time) (rs : List DnsRecord)
    → map service_id (map (answer_service at) rs) ≡ map service_name_key rs
unfolding answer_service service_name_key
service_id-answers at [] = refl
service_id-answers at (r ∷ rs) = ap (◌∷◌ (service_name_key r)) (service_id-answers at rs)

-- No port and name stand twice among the services, and those that stand there are the ports and names
-- of the SRV answers whose port is not 0.
pub mdns_services_exact :
    (dns : Dns) (at : Time)
    → Distinct (map service_id (mdns_services dns at))
      × ((k : Text)
          → has k (map service_id (mdns_services dns at))
            ≡ has k (kept_keys skip_answer service_name_key dns.answers))
unfolding mdns_services
mdns_services_exact dns at =
    let rs = (merge_new skip_answer service_name_key [] dns.answers).out in
    (
      rw (service_id-answers at rs)
          (Distinct-merge_new skip_answer service_name_key [] dns.answers tt),
      λ k.
          ap (has k) (service_id-answers at rs)
          ∙ merge_new_union skip_answer service_name_key [] dns.answers k,
    )
