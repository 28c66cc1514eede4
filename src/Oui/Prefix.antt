-- ===== src/Oui/Prefix.antt =====
-- VendorForMAC finds the longest prefix of the address that is registered.
use asset_discovery.Oui.{collect_hex}
use asset_discovery.Prelude.{length-take, sym, ◌∙◌}
use asset_discovery.Prelude.Map.{lookup-insert}
use asset_discovery.Prelude.Text.{text_eq, text_eq→eq, trim_space}
use asset_discovery.Oui.{
  Lookup, add_entries, add_entry, add_normalized, clean_vendor, in_range, new_lookup, normalize_mac,
  normalize_prefix, vendor_for_mac, whole,
}
use asset_discovery.Prelude.{Bool-cases, length, ltb, true}
use asset_discovery.Prelude.Map.{insert}
use asset_discovery.Prelude.Text.{is_empty}
use native.Mathlib.Decide.{ℕ_discrete}
use asset_discovery.Oui.{insert_length, longest_match}
use asset_discovery.Prelude.{
  All, Bool, List, Option, Option-cases, [], arith, false, inl, inr, none, refl, some, take, ℕ, ◌<◌,
  ◌==◌, ◌||◌, ◌∷◌, ◌≡◌, ◌≤◌,
}
use asset_discovery.Prelude.Map.{Map, lookup}
use asset_discovery.Prelude.Text.{Text}

abbrev pub has_length : ℕ → List ℕ → Bool
has_length n [] = false
has_length n (m ∷ ms) = n == m || has_length n ms

abbrev pub Descending : List ℕ → Type 0
Descending [] = Unit
Descending (n ∷ ns) = All (λ m. m < n) ns × Descending ns

has_length-insert_length :
    (k n : ℕ) (ms : List ℕ) → has_length k (insert_length n ms) ≡ (k == n || has_length k ms)
unfolding insert_length
has_length-insert_length k n [] = refl
has_length-insert_length k n (m ∷ ms) = ground (arith, has_length-insert_length k n ms)

below-insert_length :
    (b n : ℕ) (ms : List ℕ) → n < b → All (λ m. m < b) ms → All (λ m. m < b) (insert_length n ms)
unfolding insert_length
below-insert_length b n [] h a = (h, tt)
below-insert_length b n (m ∷ ms) h a = ground (arith, a.0, below-insert_length b n ms h a.1)

below_trans : (b c : ℕ) (ms : List ℕ) → b < c → All (λ m. m < b) ms → All (λ m. m < c) ms
below_trans b c [] h a = tt
below_trans b c (m ∷ ms) h a = (omega (arith, h, a.0), below_trans b c ms h a.1)

Descending-insert_length : (n : ℕ) (ms : List ℕ) → Descending ms → Descending (insert_length n ms)
unfolding insert_length
Descending-insert_length n [] d = (tt, tt)
Descending-insert_length n (m ∷ ms) d = elim (Bool-cases (n == m)) [
  | inl e ↦ rw e d
  | inr e ↦ elim (Bool-cases (ltb m n)) [
    | inl f ↦ rw (e, f) ((ground (arith, f), below_trans m n ms (ground (arith, f)) d.0), d)
    | inr f ↦
        rw (e, f)
          (below-insert_length m n ms (ground (arith, e, f)) d.0, Descending-insert_length n ms d.1)
  ]
]

-- A length above the first one is not in a descending list.
above_absent : (m n : ℕ) (ns : List ℕ) → n < m → All (λ k. k < n) ns → has_length m (n ∷ ns) ≡ false
above_absent m n [] h a = ground (arith, h)
above_absent m n (k ∷ ns) h a = ground (arith, h, a.0, above_absent m n ns h a.1)

-- What a search for a prefix of at most twelve characters is to find.
abbrev pub Longest : Map Text → Text → Option Text → Type 0
Longest entries norm none = (n : ℕ) → n ≤ 12 → lookup (take n norm) entries ≡ none
Longest entries norm (some v) =
    (n : ℕ) × (lookup (take n norm) entries ≡ some v)
    × ((m : ℕ) → n < m → m ≤ 12 → lookup (take m norm) entries ≡ none)

longest_match-Longest :
    (entries : Map Text) (norm : Text) (ns : List ℕ)
    → Descending ns
    → ((m : ℕ) → m ≤ 12 → has_length m ns ≡ false → lookup (take m norm) entries ≡ none)
    → Longest entries norm (longest_match entries norm ns)
unfolding longest_match
longest_match-Longest entries norm [] d h = λ n b. h n b refl
longest_match-Longest entries norm (n ∷ ns) d h =
    elim (Option-cases (lookup (take n norm) entries)) [
      | inl e ↦ rw e (
          longest_match-Longest entries norm ns d.1 (λ m b a. elim (ℕ_discrete m n) [
            | yes s ↦ rw s e
            | no s ↦ h m b (ground (arith, a, s))
          ]))
      | inr (v, e) ↦ rw e (n, e, λ m b c. h m c (above_absent m n ns b d.0))
    ]

-- What NewLookup keeps: the lengths of its prefixes, longest first, each from 6 to 12.
pub record LookupInv (l : Lookup) : Type 0 where
  pub descending : Descending l.prefix_lens
  pub covered :
      (k v : Text)
      → lookup k l.entries ≡ some v
      → (has_length (length k) l.prefix_lens ≡ true) × (6 ≤ length k) × (length k ≤ 12)

in_range-length :
    (o : Option Text) (norm : Text)
    → in_range o ≡ some norm
    → (6 ≤ length norm) × (length norm ≤ 12)
in_range-length none norm h = cc
in_range-length (some hex) norm h = elim (Bool-cases (ltb (length hex) 6 || ltb 12 (length hex))) [
  | inl e ↦ cc (rw e at h)
  | inr e ↦
      let same : hex ≡ norm = cc (rw e at h) in rw (sym same) (ground (arith, e), ground (arith, e))
]

add_normalized-LookupInv :
    (l : Lookup) (vendor : Text) (o : Option Text)
    → LookupInv l
    → LookupInv (add_normalized l vendor (in_range o))
add_normalized-LookupInv l vendor o v = elim (Option-cases (in_range o)) [
  | inl e ↦ rw e v
  | inr (norm, e) ↦ elim (Bool-cases (is_empty vendor)) [
    | inl f ↦ rw (e, f) v
    | inr f ↦
        rw (e, f)
          (record {
            descending = Descending-insert_length (length norm) l.prefix_lens v.descending;
            covered =
                λ k w. covered_insert l norm (clean_vendor vendor) v (in_range-length o norm e) k w;
          })
  ]
]
  where
    covered_insert :
        (l : Lookup) (norm name : Text)
        → LookupInv l
        → (6 ≤ length norm) × (length norm ≤ 12)
        → (k w : Text) → lookup k (insert norm name l.entries) ≡ some w
        → (has_length (length k) (insert_length (length norm) l.prefix_lens) ≡ true)
          × (6 ≤ length k)
          × (length k ≤ 12)
    covered_insert l norm name v r k w h = elim (Bool-cases (text_eq norm k)) [
      | inl e ↦ rw (sym (text_eq→eq norm k e)) (
        has_length-insert_length (length norm) (length norm) l.prefix_lens ∙ ground arith,
        r.0,
        r.1,
      )
      | inr e ↦
          let (c, low, high) = v.covered k w (rw (lookup-insert norm k name l.entries, e) at h) in
          (
            has_length-insert_length (length k) (length norm) l.prefix_lens ∙ ground (arith, c),
            low,
            high,
          )
    ]

add_entries-LookupInv : (m : Map Text) (l : Lookup) → LookupInv l → LookupInv (add_entries l m)
unfolding add_entries add_entry normalize_prefix
add_entries-LookupInv [] l v = v
add_entries-LookupInv ((prefix, vendor) ∷ m) l v =
    add_entries-LookupInv m (add_entry l prefix vendor)
      (add_normalized-LookupInv l vendor (collect_hex (trim_space prefix)) v)

new_lookup-LookupInv : (m : Map Text) → LookupInv (new_lookup m)
unfolding new_lookup lookup
new_lookup-LookupInv m =
    add_entries-LookupInv m _ (record { descending = tt; covered = λ k v h. cc })

whole-length : (o : Option Text) (norm : Text) → whole o ≡ some norm → length norm ≡ 12
whole-length none norm h = cc
whole-length (some hex) norm h = elim (Bool-cases (length hex == 12)) [
  | inl e ↦ let same : hex ≡ norm = cc (rw e at h) in rw (sym same) (ground (arith, e))
  | inr e ↦ cc (rw e at h)
]

missing :
    (l : Lookup) (norm : Text) (k : ℕ)
    → LookupInv l
    → length norm ≡ 12
    → k ≤ 12
    → has_length k l.prefix_lens ≡ false
    → lookup (take k norm) l.entries ≡ none
missing l norm k v n b h = elim (Option-cases (lookup (take k norm) l.entries)) [
  | inl e ↦ e
  | inr (w, e) ↦
      let size : length (take k norm) ≡ k = length-take k norm ∙ omega (arith, n, b) in
      cc (h, rw size at (v.covered (take k norm) w e).0)
]

search-Longest :
    (l : Lookup) (norm : Text)
    → LookupInv l
    → length norm ≡ 12
    → Longest l.entries norm (longest_match l.entries norm l.prefix_lens)
search-Longest l norm v n =
    longest_match-Longest l.entries norm l.prefix_lens v.descending
      (λ k b h. missing l norm k v n b h)

empty-Longest :
    (entries : Map Text) (norm : Text) → is_empty entries ≡ true → Longest entries norm none
unfolding lookup is_empty
empty-Longest [] norm h = λ n b. refl
empty-Longest (e ∷ es) norm h = cc

-- The vendor of a well-formed address is the one of the longest registered prefix of its twelve digits;
-- when none is returned, no prefix of the address is registered.
pub vendor_for_mac-Longest :
    (m : Map Text) (mac norm : Text)
    → normalize_mac mac ≡ some norm
    → Longest (new_lookup m).entries norm (vendor_for_mac (new_lookup m) mac)
unfolding vendor_for_mac normalize_mac
vendor_for_mac-Longest m mac norm h = elim (Bool-cases (is_empty (new_lookup m).entries)) [
  | inl e ↦ rw e (empty-Longest (new_lookup m).entries norm e)
  | inr e ↦
      rw (e, h)
        (search-Longest (new_lookup m) norm (new_lookup-LookupInv m)
          (whole-length (collect_hex mac) norm h))
]
