-- ===== src/Asset/Interleaved/Held.antt =====
-- A caller of Apply that has resolved its address can end as long as no asset is lost.
use asset_discovery.Asset.Identity.{mac_key, resolve, shard_index, sharded_resolve}
use asset_discovery.Asset.Interleaved.{Pending}
use asset_discovery.Asset.Manager.{Manager, apply_resolved, cell, finish_apply, put_cell}
use asset_discovery.Asset.Manager.Apply.{
  ManagerInv, put_cell-ManagerInv, update_self, valid-mac, update_ne,
}
use asset_discovery.Asset.Manager.Run.{Sound, ignore_result}
use asset_discovery.Asset.Shard.{
  ApplyResult, Cell, Outcome, VendorResolver, apply_found, apply_locked, nil_dereference, returned,
  update_asset,
}
use asset_discovery.Asset.Shard.Apply.{Applied, Returns}
use asset_discovery.Asset.Shard.Invariant.{Owned, binding}
use asset_discovery.Asset.Shard.Locked.{hydrate-Applied, hydrated, update_asset-Applied}
use asset_discovery.Asset.Types.{Asset, AssetId, Observation, valid}
use asset_discovery.Prelude.{
  All, Bool, Bool-cases, List, Option, [], false, inl, inr, none, refl, some, true, ℕ, ◌∷◌, ◌≡◌,
  ◌⊎◌,
}
use asset_discovery.Prelude.Map.{lookup}
use asset_discovery.Prelude.Map.Laws.{Entries-lookup}
use asset_discovery.Prelude.Text.{text_eq, is_empty, text_eq→eq}
use native.Mathlib.Decide.{ℕ_discrete}

-- The map has the key.
abbrev pub present {ℓ} : {A : Type ℓ} → Option A → Bool
present none = false
present (some a) = true

-- No asset of the one shard is missing in the other.
abbrev pub CellGrows : Cell → Cell → Type 0
CellGrows c d =
    (k : AssetId)
    → present (lookup k c.shard.assets) ≡ true
    → present (lookup k d.shard.assets) ≡ true

abbrev pub Grows : Manager → Manager → Type 0
Grows m m' = (i : ℕ) → CellGrows (cell m i) (cell m' i)

-- A caller that has resolved: to its own shard, and to no id or to that of an asset that is there.
pub record Held (m : Manager) (p : Pending) : Type 0 where
  pub shard : p.target.1 ≡ shard_index p.obs.mac
  pub named : is_empty p.obs.mac ≡ false
  pub target :
      (p.target.0 ≡ none)
      ⊎ ((p.target.0 ≡ some (mac_key p.obs.mac))
          × (present (lookup (mac_key p.obs.mac) (m.shards (shard_index p.obs.mac)).assets) ≡ true))

Held-Grows : (m m' : Manager) (p : Pending) → Grows m m' → Held m p → Held m' p
Held-Grows m m' p g h = record {
  shard = h.shard;
  named = h.named;
  target = elim h.target [
    | inl e ↦ inl e
    | inr (e, there) ↦ inr (e, g (shard_index p.obs.mac) (mac_key p.obs.mac) there)
  ];
}

pub All-Grows :
    (m m' : Manager) (ps : List Pending) → Grows m m' → All (Held m) ps → All (Held m') ps
All-Grows m m' [] g h = tt
All-Grows m m' (p ∷ ps) g h = (Held-Grows m m' p g h.0, All-Grows m m' ps g h.1)

Applied-CellGrows :
    (v : Option VendorResolver) (i : ℕ) (c : Cell) (b : Option Asset) (obs : Observation)
    (r : Cell × ApplyResult)
    → Applied v i c b obs r
    → CellGrows c r.0
Applied-CellGrows v i c b obs r a k h = elim (Bool-cases (text_eq (mac_key obs.mac) k)) [
  | inl e ↦ rw (← text_eq→eq (mac_key obs.mac) k e, a.stored) refl
  | inr e ↦ rw (a.others k e) h
]

-- What a call keeps: the order of the shards, the law of the hydrator and all assets.
pub record Kept (m m' : Manager) : Type 0 where
  pub sound : Sound m'
  pub grows : Grows m m'

put_cell-Grows :
    (m : Manager) (i : ℕ) (c : Cell) → CellGrows (cell m i) c → Grows m (put_cell m i c)
put_cell-Grows m i c g j = elim (ℕ_discrete i j) [
  | yes e ↦
      mathlib.Core.Path.subst (λ k. CellGrows (cell m k) (cell (put_cell m i c) k)) e
        (λ k h. rw (update_self m.shards i c.shard) (g k h))
  | no e ↦ λ k h. rw (update_ne m.shards i j c.shard e) h
]

finish-Kept :
    (m : Manager) (i : ℕ) (b : Option Asset) (obs : Observation) (o : Outcome (Cell × ApplyResult))
    → Sound m
    → Returns (Applied m.vendor i (cell m i) b obs) o
    → Returns (Kept m) (ignore_result (finish_apply m i o))
finish-Kept m i b obs nil_dereference s p = p
finish-Kept m i b obs (returned (c, r)) s p = record {
  sound = record { inv = put_cell-ManagerInv m i c s.inv p.inv; law = s.law };
  grows = put_cell-Grows m i c (Applied-CellGrows m.vendor i (cell m i) b obs (c, r) p);
}

-- A caller that is held ends its Apply without a panic.
pub Held-Kept :
    (m : Manager) (p : Pending)
    → Sound m
    → Held m p
    → Returns (Kept m) (ignore_result (apply_resolved m p.obs p.target))
unfolding apply_resolved apply_locked apply_found
Held-Kept m p s h = go p.target.0 h.target
  where
    i : ℕ
    i = shard_index p.obs.mac

    key : AssetId
    key = mac_key p.obs.mac

    stored :
        (o : Option Asset)
        → lookup key (m.shards i).assets ≡ o
        → present o ≡ true
        → Returns (Kept m) (
            ignore_result
              (finish_apply m i (apply_locked m.vendor m.hydrator (cell m i) p.obs (some key))))
    stored none e t = cc
    stored (some a) e t = rw e (
        finish-Kept m i (some a) p.obs (update_asset m.vendor (cell m i) key p.obs (some a)) s (
          update_asset-Applied m.vendor i (cell m i) p.obs (s.inv i) h.named a
            (Entries-lookup (Owned i) key a (m.shards i).assets (s.inv i).owned e)))

    go :
        (o : Option AssetId)
        → (o ≡ none) ⊎ ((o ≡ some key) × (present (lookup key (m.shards i).assets) ≡ true))
        → Returns (Kept m) (
            ignore_result (
              finish_apply m p.target.1
                (apply_locked m.vendor m.hydrator (cell m p.target.1) p.obs o)))
    go o (inl e) =
        rw (h.shard, e)
          (finish-Kept m i (hydrated m.hydrator p.obs.mac) p.obs
            (apply_locked m.vendor m.hydrator (cell m i) p.obs none) s
            (hydrate-Applied m.vendor i (cell m i) p.obs (s.inv i) h.named refl m.hydrator s.law))
    go o (inr (e, there)) = rw (h.shard, e) (stored (lookup key (m.shards i).assets) refl there)

-- A caller that has just resolved is held.
pub resolve-Held :
    (m : Manager) (obs : Observation)
    → ManagerInv m
    → valid obs ≡ true
    → Held m (record { obs = obs; target = sharded_resolve m.resolver obs.mac })
unfolding sharded_resolve resolve
resolve-Held m obs inv ok = record {
  shard = refl;
  named = valid-mac obs ok;
  target =
      go (lookup (mac_key obs.mac) (m.shards (shard_index obs.mac)).assets)
        ((inv (shard_index obs.mac)).by_key (mac_key obs.mac)) refl;
}
  where
    go :
        (o : Option Asset)
        → lookup (mac_key obs.mac) (m.resolver (shard_index obs.mac)).by_key
          ≡ binding (mac_key obs.mac) o
        → lookup (mac_key obs.mac) (m.shards (shard_index obs.mac)).assets ≡ o
        → (lookup (mac_key obs.mac) (m.resolver (shard_index obs.mac)).by_key ≡ none)
          ⊎ ((lookup (mac_key obs.mac) (m.resolver (shard_index obs.mac)).by_key
                ≡ some (mac_key obs.mac))
              × (present (lookup (mac_key obs.mac) (m.shards (shard_index obs.mac)).assets) ≡ true))
    go none e f = inl e
    go (some a) e f = inr (e, rw f refl)
