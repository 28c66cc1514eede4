-- ===== src/Analyzer/Ethernet/Throttle.antt =====
-- The throttle of the Ethernet analyzer, over any run of packets.
use asset_discovery.Analyzer.Ethernet.{
  EthernetAnalyzer, analyze_destination, analyze_frame, analyze_source, detect_syn,
  ethernet_analyze_ctx, host_observation, source_reports, throttled,
}
use asset_discovery.Analyzer.Net.{is_usable}
use asset_discovery.Analyzer.PacketCtx.{Ethernet, PacketCtx, observed_at, source}
use asset_discovery.Asset.Identity.{mac_string}
use asset_discovery.Asset.Identity.Keys.{mac_string_inj}
use asset_discovery.Asset.Types.{Mac, Observation, Service, bare_observation, valid}
use asset_discovery.Prelude.{
  All, Bool, Bool-cases, List, Option, [], arith, false, if◌then◌else◌, inl, inr, none, not, refl,
  sym, ap, some, true, ℕ, ◌&&◌, ◌++◌, ◌+◌, ◌≡◌, ◌≤◌, ◌⊎◌, ◌∷◌, ◌∙◌,
}
use mathlib.Core.Path.{subst}
use asset_discovery.Prelude.Map.{lookup, lookup-insert}
use asset_discovery.Prelude.Text.{is_empty, text_eq, text_eq_iff, text_eq→eq}
use asset_discovery.Prelude.Time.{Time, pos, sub_time}

-- The times of the observations that have no services, as the host observations have none but for a
-- packet with a SYN.
abbrev pub quiet_times : List Observation → List Time
quiet_times [] = []
quiet_times (o ∷ os) =
    let rest = quiet_times os in if is_empty o.services then o.observed_at ∷ rest else rest

abbrev pub from_source :
    EthernetAnalyzer → Time → PacketCtx → Mac → Option Ethernet → List Observation
from_source e at ctx mac none = []
from_source e at ctx mac (some eth) =
    if text_eq eth.src_mac mac then (analyze_source e at ctx eth.src_mac).0 else []

-- What a run over packets reports of an address as the source, each with the time of its arrival.
unfoldable pub reported_source : EthernetAnalyzer → Mac → List (Time × PacketCtx) → List Time
reported_source e mac [] = []
reported_source e mac ((now, ctx) ∷ ps) =
    quiet_times (from_source e (observed_at now ctx) ctx mac ctx.ethernet)
    ++ reported_source (ethernet_analyze_ctx e now ctx).1 mac ps

-- Each time is at least n after each before it.
abbrev pub Apart : ℕ → List Time → Type 0
Apart n [] = Unit
Apart n (t ∷ ts) = All (λ u. t + n ≤ u) ts × Apart n ts

abbrev Since : ℕ → Option Time → List Time → Type 0
Since n none ts = Unit
Since n (some s) ts = All (λ u. s + n ≤ u) ts

-- The source is reported, and its time is kept.
abbrev announces : EthernetAnalyzer → Time → Mac → Bool
announces e at mac =
    is_usable mac && not (throttled e.throttle_after at (lookup (mac_string mac) e.last_emit))

not_throttled : (n : ℕ) (at s : Time) → throttled (pos n) at (some s) ≡ false → s + n ≤ at
unfolding sub_time
not_throttled n at s h = ground arith

quiet_reports :
    (at : Time) (mac : Mac) (ctx : PacketCtx) (held : Bool) (svc : Option Service)
    → let ts = quiet_times (source_reports at mac ctx held svc) in
      (held ≡ true → ts ≡ []) × ((ts ≡ []) ⊎ (ts ≡ at ∷ []))
unfolding source_reports is_empty host_observation bare_observation
quiet_reports at mac ctx held (some svc) =
    elim (Bool-cases (not held && valid (host_observation source at mac ctx))) [
      | inl e ↦ rw e (λ h. refl, inl refl)
      | inr e ↦ rw e (λ h. refl, inl refl)
    ]
quiet_reports at mac ctx true none = (λ h. refl, inl refl)
quiet_reports at mac ctx false none =
    elim (Bool-cases (valid (host_observation source at mac ctx))) [
      | inl e ↦ rw e (λ h. cc, inr refl)
      | inr e ↦ rw e (λ h. refl, inl refl)
    ]

module _ (e : EthernetAnalyzer) (at : Time) (mac : Mac) (ctx : PacketCtx) where
  quiet_source :
      let ts = quiet_times (analyze_source e at ctx mac).0 in
      (announces e at mac ≡ false → ts ≡ []) × ((ts ≡ []) ⊎ (ts ≡ at ∷ []))
  unfolding analyze_source
  quiet_source = elim (Bool-cases (is_usable mac)) [
    | inl u ↦
        let held = throttled e.throttle_after at (lookup (mac_string mac) e.last_emit) in
        let (q, r) = quiet_reports at mac ctx held (detect_syn at ctx) in
        rw u ((λ h. q (ground (arith, h))), r)
    | inr u ↦ rw u (λ h. refl, inl refl)
  ]

  lookup-analyze_source :
      (k : Mac)
      → lookup (mac_string k) (analyze_source e at ctx mac).1.last_emit ≡ (
          if announces e at mac && text_eq (mac_string mac) (mac_string k)
          then some at
          else lookup (mac_string k) e.last_emit)
  unfolding analyze_source
  lookup-analyze_source k =
      ground (arith, lookup-insert (mac_string mac) (mac_string k) at e.last_emit)

  throttle-analyze_source : (analyze_source e at ctx mac).1.throttle_after ≡ e.throttle_after
  unfolding analyze_source
  throttle-analyze_source = ground arith

  destination_apart :
      let e' = (analyze_destination e at ctx mac).1 in
      (e'.last_emit ≡ e.last_emit) × (e'.throttle_after ≡ e.throttle_after)
  unfolding analyze_destination
  destination_apart = (ground arith, ground arith)

-- One packet, for the address k as the source.
abbrev Stepped : EthernetAnalyzer → EthernetAnalyzer → Time → Mac → List Time → Type 0
Stepped e e' at k ts =
    (e'.throttle_after ≡ e.throttle_after)
    × ((ts ≡ []) ⊎ (ts ≡ at ∷ []))
    × (((ts ≡ []) × (lookup (mac_string k) e'.last_emit ≡ lookup (mac_string k) e.last_emit))
        ⊎ ((lookup (mac_string k) e'.last_emit ≡ some at) × (announces e at k ≡ true)))

-- Different addresses have different keys.
same_key : (a b : Mac) → text_eq (mac_string a) (mac_string b) ≡ text_eq a b
same_key a b = ground (
  arith,
  text_eq_iff (mac_string a) (mac_string b),
  text_eq_iff a b,
  mac_string_inj a b,
  λ (e : a ≡ b). ap mac_string e,
)

module _ (e : EthernetAnalyzer) (at : Time) (ctx : PacketCtx) (k : Mac) where
  step_frame :
      (frame : Option Ethernet)
      → Stepped e (analyze_frame e at ctx frame).1 at k (quiet_times (from_source e at ctx k frame))
  step_frame none = (refl, inl refl, inl (refl, refl))
  step_frame (some eth) =
      let (from, e') = analyze_source e at ctx eth.src_mac in
      let (same_emit, same_throttle) = destination_apart e' at eth.dst_mac ctx in
      let look =
        ap (lookup (mac_string k)) same_emit ∙ lookup-analyze_source e at eth.src_mac ctx k in
      let throttle = same_throttle ∙ throttle-analyze_source e at eth.src_mac ctx in
      elim (Bool-cases (text_eq eth.src_mac k)) [
        | inl same ↦
            let here = text_eq→eq eth.src_mac k same in
            let (q, r) = quiet_source e at eth.src_mac ctx in
            elim (Bool-cases (announces e at eth.src_mac)) [
              | inl a ↦ rw same (
                throttle,
                r,
                inr (
                  look ∙ ground (arith, a, same, same_key eth.src_mac k),
                  ap (announces e at) (sym here) ∙ a,
                ),
              )
              | inr a ↦ rw same (throttle, r, inl (q a, look ∙ ground (arith, a)))
            ]
        | inr differs ↦
            rw differs (
              throttle,
              inl refl,
              inl (refl, look ∙ ground (arith, differs, same_key eth.src_mac k)),
            )
      ]

Since-later :
    (n : ℕ) (at : Time) (o : Option Time) (ts : List Time)
    → throttled (pos n) at o ≡ false
    → All (λ u. at + n ≤ u) ts
    → Since n o ts × Since n o (at ∷ ts)
Since-later n at none ts h a = (tt, tt)
Since-later n at (some s) ts h a =
    let b = not_throttled n at s h in (later s ts b a, (b, later s ts b a))
  where
    later :
        (s : Time) (us : List Time)
        → s + n ≤ at
        → All (λ u. at + n ≤ u) us
        → All (λ u. s + n ≤ u) us
    later s [] b a = tt
    later s (u ∷ us) b a = (omega (arith, b, a.0), later s us b a.1)

not_held : (u b : Bool) → u && not b ≡ true → b ≡ false
not_held u b h = ground arith

-- One packet before a run that is apart.
cons-Apart :
    (n : ℕ) (e e' : EthernetAnalyzer) (at : Time) (k : Mac) (ts rest : List Time)
    → e.throttle_after ≡ pos n
    → Stepped e e' at k ts
    → Since n (lookup (mac_string k) e'.last_emit) rest × Apart n rest
    → Since n (lookup (mac_string k) e.last_emit) (ts ++ rest) × Apart n (ts ++ rest)
cons-Apart n e e' at k ts rest d (same, shape, inl (nothing, kept)) (s, a) =
    rw nothing (rw (← kept) s, a)
cons-Apart n e e' at k ts rest d (same, shape, inr (stored, announced)) (s, a) =
    let s' : All (λ u. at + n ≤ u) rest = rw stored at s in
    let (p, q) =
      Since-later n at (lookup (mac_string k) e.last_emit) rest
        (subst (λ t. throttled t at (lookup (mac_string k) e.last_emit) ≡ false) d
          (not_held (is_usable k) _ announced))
        s' in
    elim shape [ inl nothing ↦ rw nothing (p, a) | inr one ↦ rw one (q, (s', a)) ]

reported_source-Since :
    (n : ℕ) (k : Mac) (ps : List (Time × PacketCtx)) (e : EthernetAnalyzer)
    → e.throttle_after ≡ pos n
    → Since n (lookup (mac_string k) e.last_emit) (reported_source e k ps)
      × Apart n (reported_source e k ps)
unfolding reported_source ethernet_analyze_ctx
reported_source-Since n k [] e d = (nothing_since (lookup (mac_string k) e.last_emit), tt)
  where
    nothing_since : (o : Option Time) → Since n o []
    nothing_since none = tt
    nothing_since (some s) = tt
reported_source-Since n k ((now, ctx) ∷ ps) e d =
    let at = observed_at now ctx in
    let step = step_frame e at ctx k ctx.ethernet in
    cons-Apart n e (analyze_frame e at ctx ctx.ethernet).1 at k _ _ d step
      (reported_source-Since n k ps (analyze_frame e at ctx ctx.ethernet).1 (step.0 ∙ d))

-- In any run over packets, in whatever order their times come, the observations without services that
-- the analyzer reports of an address as the source are apart: each is of a time at least the
-- throttle after the time of each that was reported before.
pub reported_source-Apart :
    (e : EthernetAnalyzer) (n : ℕ) (mac : Mac) (ps : List (Time × PacketCtx))
    → e.throttle_after ≡ pos n
    → Apart n (reported_source e mac ps)
reported_source-Apart e n mac ps d = (reported_source-Since n mac ps e d).1
