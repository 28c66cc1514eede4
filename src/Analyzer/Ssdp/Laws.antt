-- ===== src/Analyzer/Ssdp/Laws.antt =====
-- What the SSDP analyzer reports.
use asset_discovery.Analyzer.Mdns.Laws.{All-when_some, eth_src_mac-usable}
use asset_discovery.Analyzer.Net.{is_usable}
use asset_discovery.Analyzer.PacketCtx.{PacketCtx, eth_src_mac, fill_obs_ips, observed_at}
use asset_discovery.Analyzer.Mdns.{on_port}
use asset_discovery.Analyzer.Ssdp.{
  UrlParser, apply_server_scalars, apply_token, apply_tokens, is_ssdp_like, lines_from,
  parse_ssdp_headers, payload_of, ssdp_analyze_ctx, ssdp_device_type, ssdp_observation,
  ssdp_service, header_loop,
}
use asset_discovery.Analyzer.Ssdp.Colons.{ColonHeaders, ColonHeaders-unread}
use asset_discovery.Analyzer.Valid.{Reports, All-guarded, when_valid-Reports}
use asset_discovery.Asset.Identity.{get_or_empty}
use asset_discovery.Asset.Types.{Mac, Observation, bare_observation, valid}
use asset_discovery.Prelude.{
  All, Bool-cases, List, [], ap, arith, inl, inr, not, refl, true, ◌&&◌, ◌∙◌, ◌∷◌, ◌≡◌,
}
use asset_discovery.Prelude.Map.{Map, lookup}
use asset_discovery.Prelude.Text.{Text, fields, is_empty, text}
use asset_discovery.Prelude.Text.Decimal.{absent}
use asset_discovery.Prelude.Time.{Time}

-- The tokens of a Server header change neither the address nor the time.
SameFrame : Observation → Observation → Type 0
SameFrame o p = (p.mac ≡ o.mac) × (p.observed_at ≡ o.observed_at)

token_frame : (o : Observation) (t : Text) → SameFrame o (apply_token o t)
unfolding apply_token SameFrame
token_frame o t = (ground arith, ground arith)

tokens_frame : (o : Observation) (ts : List Text) → SameFrame o (apply_tokens o ts)
unfolding apply_tokens SameFrame
tokens_frame o [] = (refl, refl)
tokens_frame o (t ∷ ts) =
    let p = token_frame o t in let q = tokens_frame (apply_token o t) ts in (q.0 ∙ p.0, q.1 ∙ p.1)

server_frame : (o : Observation) (s : Text) → SameFrame o (apply_server_scalars o s)
unfolding apply_server_scalars SameFrame
server_frame o s = ground (arith, tokens_frame o (fields s))

module _ (parse_url : UrlParser) (at : Time) (ctx : PacketCtx) (mac : Mac) (hs : Map Text) where
  observation_frame :
      let o = ssdp_observation parse_url at ctx mac hs in (o.mac ≡ mac) × (o.observed_at ≡ at)
  unfolding ssdp_observation SameFrame
  observation_frame =
      server_frame (fill_obs_ips at ctx (bare_observation (text "ssdp") at mac))
        (get_or_empty (lookup (text "server") hs))

pub ssdp_analyze_ctx-Reports :
    (parse_url : UrlParser) (now : Time) (ctx : PacketCtx)
    → All (Reports (observed_at now ctx)) (ssdp_analyze_ctx parse_url now ctx)
unfolding ssdp_analyze_ctx
ssdp_analyze_ctx-Reports parse_url now ctx =
    let at = observed_at now ctx in
    let hs = parse_ssdp_headers (payload_of ctx.udp) in
    elim (Bool-cases
      ((on_port 1900 ctx.udp && is_ssdp_like (payload_of ctx.udp)) && not (is_empty hs))) [
        | inl e ↦ rw e (
            All-when_some (Reports at) (eth_src_mac ctx) _ (λ mac m.
              let (same, stamped) = observation_frame parse_url at ctx mac hs in
              when_valid-Reports at (ssdp_observation parse_url at ctx mac hs)
                (ap is_usable same ∙ eth_src_mac-usable ctx mac m) stamped))
        | inr e ↦ rw e tt
      ]

-- An observation that says of a host no more than its addresses.
pub record OnlyHost (o : Observation) : Type 0 where
  pub os : o.os ≡ []
  pub model : o.model ≡ []
  pub device_type : o.device_type ≡ []
  pub services : o.services ≡ []
  pub extra : o.extra ≡ []

colon_observation :
    (parse_url : UrlParser) (at : Time) (ctx : PacketCtx) (mac : Mac) (ls : List Text)
    → ColonHeaders ls
    → OnlyHost (ssdp_observation parse_url at ctx mac (header_loop true [] ls))
unfolding ssdp_observation absent apply_server_scalars ssdp_device_type ssdp_service is_empty
    bare_observation fill_obs_ips
colon_observation parse_url at ctx mac ls c =
    let server = ColonHeaders-unread (text "server") refl ls c in
    let st = ColonHeaders-unread (text "st") refl ls c in
    let nt = ColonHeaders-unread (text "nt") refl ls c in
    let location = ColonHeaders-unread (text "location") refl ls c in
    record {
      os = rw server refl;
      model = rw server refl;
      device_type = rw (st, nt) refl;
      services = rw location refl;
      extra = rw server refl;
    }

-- In a message whose header lines have a colon before any '=', as the headers of SSDP have, the analyzer
-- finds none of the headers that it looks for: all that it reports of a host are its addresses.
pub ssdp_colons_unread :
    (parse_url : UrlParser) (now : Time) (ctx : PacketCtx)
    → ColonHeaders (lines_from [] (payload_of ctx.udp))
    → All OnlyHost (ssdp_analyze_ctx parse_url now ctx)
unfolding ssdp_analyze_ctx parse_ssdp_headers
ssdp_colons_unread parse_url now ctx c =
    let at = observed_at now ctx in
    let ls = lines_from [] (payload_of ctx.udp) in
    elim (Bool-cases (
      (on_port 1900 ctx.udp && is_ssdp_like (payload_of ctx.udp))
      && not (is_empty (header_loop true [] ls)))) [
        | inl e ↦ rw e (
            All-when_some OnlyHost (eth_src_mac ctx) _ (λ mac m.
              All-guarded OnlyHost
                (valid (ssdp_observation parse_url at ctx mac (header_loop true [] ls)))
                (ssdp_observation parse_url at ctx mac (header_loop true [] ls))
                (λ v. colon_observation parse_url at ctx mac ls c)))
        | inr e ↦ rw e tt
      ]
