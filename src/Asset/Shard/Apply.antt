-- ===== src/Asset/Shard/Apply.antt =====
-- Apply keeps the invariant of its shard and does not panic.
use asset_discovery.Asset.Identity.{generate_asset_id}
use asset_discovery.Asset.Identity.Keys.{is_empty-mac_key}
use asset_discovery.Asset.Merge.{has}
use asset_discovery.Asset.Shard.{Action, ApplyResult, created, new_asset, updated}
use asset_discovery.Prelude.{none, refl, sym, true}
use asset_discovery.Prelude.Map.{lookup, lookup-insert}
use asset_discovery.Prelude.Text.{text_eq, text_eq_refl}
use asset_discovery.Asset.Identity.{bind, mac_key}
use asset_discovery.Asset.Merge.{touch_timestamps}
use asset_discovery.Asset.Observe.{merge_observation, uint64_mod}
use asset_discovery.Asset.Shard.{
  Cell, Outcome, Shard, VendorResolver, fill_inferred, fill_vendor, mark_dirty, mark_if, merge_into,
  is_offline, nil_dereference, returned, revive,
}
use asset_discovery.Asset.Shard.Invariant.{CellInv, Owned, store-CellInv}
use asset_discovery.Asset.Types.{Asset, AssetId, Observation, Status, offline, online, unset}
use asset_discovery.Prelude.{◌+◌, ◌%◌, Bool, Gives, Option, ap, arith, false, some, ℕ, ◌∙◌, ◌≡◌}
use asset_discovery.Prelude.Map.{insert}
use asset_discovery.Prelude.Text.{is_empty}

-- The call returned, and P holds of what it returned.
abbrev pub Returns {ℓ} : {A : Type ℓ} → (A → Type 0) → Outcome A → Type 0
Returns P (returned a) = P a
Returns P nil_dereference = ⊥

pub assets-mark_if :
    (changed : Bool) (sh : Shard) (id : AssetId) → (mark_if changed sh id).assets ≡ sh.assets
unfolding mark_dirty
assets-mark_if changed sh id = ground arith

-- The invariant reads the assets and the index only.
pub CellInv-same :
    (i : ℕ) (c d : Cell)
    → d.shard.assets ≡ c.shard.assets
    → d.index ≡ c.index
    → CellInv i c
    → CellInv i d
CellInv-same i c d e f v = record {
  owned = rw e v.owned;
  distinct = rw e v.distinct;
  by_key = λ k. rw (e, f) (v.by_key k);
  by_id = λ k. rw (e, f) (v.by_id k);
}

-- Merging keeps the identity of the asset.
abbrev pub SameIdentity : Asset → Asset → Type 0
SameIdentity a b = (b.id ≡ a.id) × (b.mac ≡ a.mac)

merge_observation_identity :
    (a : Asset) (obs : Observation) → SameIdentity a (merge_observation a obs).0
unfolding merge_observation touch_timestamps
merge_observation_identity a obs = (ground arith, ground arith)

fill_vendor_identity :
    (v : Option VendorResolver) (a : Asset) (c : Bool) → SameIdentity a (fill_vendor v (a, c)).0
unfolding fill_vendor
fill_vendor_identity v a c = (ground arith, ground arith)

fill_inferred_identity : (a : Asset) (c : Bool) → SameIdentity a (fill_inferred (a, c)).0
unfolding fill_inferred
fill_inferred_identity a c = (ground arith, ground arith)

pub merge_into_identity :
    (v : Option VendorResolver) (a : Asset) (obs : Observation)
    → SameIdentity a (merge_into v a obs).0
unfolding merge_into
merge_into_identity v a obs =
    let (b, c1) = merge_observation a obs in
    let (d, c2) = fill_vendor v (b, c1) in
    let p = merge_observation_identity a obs in
    let q = fill_vendor_identity v b c1 in
    let r = fill_inferred_identity d c2 in (r.0 ∙ q.0 ∙ p.0, r.1 ∙ q.1 ∙ p.1)

pub revive_identity : (a : Asset) (c : Bool) → SameIdentity a (revive (a, c)).0
revive_identity a c = (ground arith, ground arith)

pub Owned-same :
    (i : ℕ) (id : AssetId) (a b : Asset) → SameIdentity a b → Owned i id a → Owned i id b
Owned-same i id a b (e, f) o = rw (e, f) o

-- The asset that Apply stores, given the one that was known in memory or in the database, and
-- whether it has to be saved.
abbrev pub applied : Option VendorResolver → Option Asset → Observation → Asset × Bool
applied v (some a) obs = revive (merge_into v a obs)
applied v none obs = ((merge_into v (new_asset (generate_asset_id obs.mac) obs.mac) obs).0, true)

-- The status after Apply: online, but for a text from the database that is no status of the program,
-- which stays.
abbrev pub seen_again : Status → Status
seen_again unset = unset
seen_again online = online
seen_again offline = online

abbrev pub status_after : Option Asset → Status
status_after (some a) = seen_again a.status
status_after none = online

abbrev pub came_back : Option Asset → Bool
came_back (some a) = is_offline a.status
came_back none = true

abbrev pub action_for : Option Asset → Action
action_for (some a) = updated
action_for none = created

-- What Apply promises of the shard, for the id of the observed address.
pub record Applied (v : Option VendorResolver) (i : ℕ) (c : Cell) (base : Option Asset)
    (obs : Observation) (r : Cell × ApplyResult) : Type 0 where
  pub inv : CellInv i r.0
  pub stored : lookup (mac_key obs.mac) r.0.shard.assets ≡ some (applied v base obs).0
  pub status : Gives (λ a. a.status ≡ status_after base) (lookup (mac_key obs.mac) r.0.shard.assets)
  pub others :
      (k : AssetId)
      → text_eq (mac_key obs.mac) k ≡ false
      → lookup k r.0.shard.assets ≡ lookup k c.shard.assets
  pub saved : (applied v base obs).1 ≡ true → has (mac_key obs.mac) r.0.shard.dirty ≡ true
  pub back_saved : came_back base ≡ true → has (mac_key obs.mac) r.0.shard.dirty ≡ true
  pub kept_dirty : (k : AssetId) → has k c.shard.dirty ≡ true → has k r.0.shard.dirty ≡ true
  pub result : r.1 ≡ record { asset_id = mac_key obs.mac; action = action_for base }

merge_observation_status :
    (a : Asset) (obs : Observation) → (merge_observation a obs).0.status ≡ a.status
unfolding merge_observation touch_timestamps
merge_observation_status a obs = ground arith

fill_status :
    (v : Option VendorResolver) (a : Asset) (c : Bool)
    → (fill_inferred (fill_vendor v (a, c))).0.status ≡ a.status
unfolding fill_vendor fill_inferred
fill_status v a c = ground arith

merge_into_status :
    (v : Option VendorResolver) (a : Asset) (obs : Observation)
    → (merge_into v a obs).0.status ≡ a.status
unfolding merge_into
merge_into_status v a obs =
    let (b, c) = merge_observation a obs in fill_status v b c ∙ merge_observation_status a obs

-- A sighting is counted, modulo 2 ^ 64.
merge_observation_counts :
    (a : Asset) (obs : Observation)
    → (merge_observation a obs).0.seen_count ≡ (a.seen_count + 1) % uint64_mod
unfolding merge_observation touch_timestamps
merge_observation_counts a obs = ground arith

fill_counts :
    (v : Option VendorResolver) (a : Asset) (c : Bool)
    → (fill_inferred (fill_vendor v (a, c))).0.seen_count ≡ a.seen_count
unfolding fill_vendor fill_inferred
fill_counts v a c = ground arith

pub merge_into_counts :
    (v : Option VendorResolver) (a : Asset) (obs : Observation)
    → (merge_into v a obs).0.seen_count ≡ (a.seen_count + 1) % uint64_mod
unfolding merge_into
merge_into_counts v a obs =
    let (b, c) = merge_observation a obs in fill_counts v b c ∙ merge_observation_counts a obs

pub revive_counts : (p : Asset × Bool) → (revive p).0.seen_count ≡ p.0.seen_count
revive_counts (a, c) = ground arith

revive_status : (p : Asset × Bool) → (revive p).0.status ≡ seen_again p.0.status
revive_status (a, c) = from_status a.status refl
  where
    from_status : (s : Status) → a.status ≡ s → (revive (a, c)).0.status ≡ seen_again a.status
    from_status unset e = rw e refl
    from_status online e = rw e refl
    from_status offline e = rw e refl

revive_back : (p : Asset × Bool) → is_offline p.0.status ≡ true → (revive p).1 ≡ true
revive_back (a, c) e = rw e refl

applied_status :
    (v : Option VendorResolver) (base : Option Asset) (obs : Observation)
    → (applied v base obs).0.status ≡ status_after base
unfolding new_asset
applied_status v none obs = merge_into_status v _ obs
applied_status v (some a) obs =
    revive_status (merge_into v a obs) ∙ ap seen_again (merge_into_status v a obs)

applied_back :
    (v : Option VendorResolver) (base : Option Asset) (obs : Observation)
    → came_back base ≡ true
    → (applied v base obs).1 ≡ true
applied_back v none obs e = refl
applied_back v (some a) obs e =
    revive_back (merge_into v a obs) (ap is_offline (merge_into_status v a obs) ∙ e)

has-mark_if :
    (changed : Bool) (sh : Shard) (id k : AssetId)
    → has k sh.dirty ≡ true
    → has k (mark_if changed sh id).dirty ≡ true
unfolding mark_dirty has
has-mark_if changed sh id k h = ground arith

has-mark_if_self :
    (changed : Bool) (sh : Shard) (id : AssetId)
    → is_empty id ≡ false
    → changed ≡ true
    → has id (mark_if changed sh id).dirty ≡ true
unfolding mark_dirty has
has-mark_if_self changed sh id h e = ground (arith, text_eq_refl id)

-- Both branches of Apply store an asset under its id, bind the address, and mark the asset.
pub stored-Applied :
    (v : Option VendorResolver) (i : ℕ) (c : Cell) (base : Option Asset) (obs : Observation)
    (a : Asset) (changed : Bool)
    → CellInv i c
    → Owned i (mac_key obs.mac) a
    → is_empty obs.mac ≡ false
    → applied v base obs ≡ (a, changed)
    → Applied v i c base obs (
      record {
        shard =
            mark_if changed
              (record c.shard { assets = insert (mac_key obs.mac) a c.shard.assets })
              (mac_key obs.mac);
        index = bind c.index (mac_key obs.mac) obs.mac;
      },
      record { asset_id = mac_key obs.mac; action = action_for base },
    )
stored-Applied v i c base obs a changed inv o h e =
    let key = mac_key obs.mac in
    let sh : Shard = record c.shard { assets = insert key a c.shard.assets } in
    let here : lookup key (mark_if changed sh key).assets ≡ some a =
      ap (lookup key) (assets-mark_if changed sh key)
      ∙ lookup-insert key key a c.shard.assets
      ∙ rw (text_eq_refl key) refl in
    let marked : (applied v base obs).1 ≡ true → has key (mark_if changed sh key).dirty ≡ true =
      λ s.
        has-mark_if_self changed sh key (is_empty-mac_key obs.mac ∙ h)
          (ap (λ (p : Asset × Bool). p.1) (sym e) ∙ s) in
    record {
      inv =
          CellInv-same i (record { shard = sh; index = bind c.index key obs.mac }) _
            (assets-mark_if changed sh key) refl
            (store-CellInv i c key a obs.mac c.shard.dirty inv o h refl);
      stored = here ∙ ap (λ (p : Asset × Bool). some p.0) (sym e);
      status = rw here (ap (λ (p : Asset × Bool). p.0.status) (sym e) ∙ applied_status v base obs);
      others = λ k d.
          ap (lookup k) (assets-mark_if changed sh key)
          ∙ lookup-insert key k a c.shard.assets
          ∙ rw d;
      saved = marked;
      back_saved = λ s. marked (applied_back v base obs s);
      kept_dirty = λ k d. has-mark_if changed sh key k d;
      result = refl;
    }
