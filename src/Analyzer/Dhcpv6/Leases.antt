-- ===== src/Analyzer/Dhcpv6/Leases.antt =====
-- The lifetimes that dhcpv6IANALifetime finds in IA_NA options. RFC 8415 lays the sub-option of an
-- address out as its code 5 in two bytes, its length, the address and the two lifetimes.
use asset_discovery.Analyzer.Dhcpv6.{
  Walk, address_lifetime, iana_lifetime, nothing, option_length, option_lifetime, unfinished,
}
use asset_discovery.Analyzer.PacketCtx.{Dhcpv6Option}
use asset_discovery.Prelude.{
  All, Bool-cases, List, [], arith, drop, inl, inr, length, length-drop, ltb, refl, suc, zero, ℕ,
  ◌+◌, ◌<◌, ◌∷◌, ◌≡◌, ◌≢◌,
}

Finished : Walk → Type 0
Finished w = w ≢ unfinished

address_lifetime_finishes :
    (fuel : ℕ) (sub : List ℕ) → length sub < fuel → Finished (address_lifetime fuel sub)
unfolding address_lifetime Finished
address_lifetime_finishes zero sub h = ground (arith, h)
address_lifetime_finishes (suc fuel) sub h = elim (Bool-cases (ltb (length sub) 28)) [
  | inl e ↦ ground (arith, e)
  | inr e ↦
      let shorter = length-drop (28 + option_length sub) sub in
      let rest =
        address_lifetime_finishes fuel (drop (28 + option_length sub) sub)
          (ground (arith, shorter, h, e)) in
      ground (arith, rest)
]

-- The walk over the options always comes to an end.
pub iana_lifetime_finishes : (os : List Dhcpv6Option) → iana_lifetime os ≢ unfinished
unfolding iana_lifetime option_lifetime Finished
iana_lifetime_finishes [] = ground arith
iana_lifetime_finishes (o ∷ os) =
    let sub = drop 12 o.payload in
    let walk = address_lifetime_finishes (suc (length sub)) sub (omega arith) in
    let rest = iana_lifetime_finishes os in ground (arith, walk, rest)

-- An IA_NA option, whatever its T1, without a T2, whose sub-options start with one of the code 5: `after`
-- is the length of that sub-option, its address, its lifetimes and what follows.
pub data HasAddress : Dhcpv6Option → Type 0 where
  has_address :
      (a b c d e f g h : ℕ) (after : List ℕ)
      → HasAddress (record {
        code = 3;
        payload = a ∷ b ∷ c ∷ d ∷ e ∷ f ∷ g ∷ h ∷ 0 ∷ 0 ∷ 0 ∷ 0 ∷ 0 ∷ 5 ∷ after;
      })

address_unread : (fuel : ℕ) (after : List ℕ) → address_lifetime (suc fuel) (0 ∷ 5 ∷ after) ≡ nothing
unfolding address_lifetime
address_unread fuel after = ground arith

-- Where every option is an IA_NA without a T2 that starts with the sub-option of an address, no lifetime
-- is found, whatever lifetimes the addresses have.
pub address_lifetimes_unread :
    (os : List Dhcpv6Option) → All HasAddress os → iana_lifetime os ≡ nothing
unfolding iana_lifetime option_lifetime
address_lifetimes_unread [] w = refl
address_lifetimes_unread (o ∷ os) (has_address a b c d e f g h after, w) =
    rw (address_lifetimes_unread os w, address_unread (length (0 ∷ 5 ∷ after)) after) (ground arith)
