-- ===== src/Asset/Extra/Laws.antt =====
-- mergeExtras: keys, and the flag.
use asset_discovery.Prelude.{◌∙◌}
use asset_discovery.Asset.Extra.{
  merge_any, merge_extra, merge_extra_at, merge_extras, merge_extras_from, store_merged,
}
use asset_discovery.Asset.Types.{Any, null}
use asset_discovery.Prelude.{Bool, Option, [], false, none, refl, some, true, ◌∷◌, ◌≡◌}
use asset_discovery.Prelude.Map.{Map, lookup}
use asset_discovery.Prelude.Text.{Text}

store_quiet :
    (k : Text) (dst : Map Any) (o : Option Any)
    → (store_merged k dst false o).1 ≡ false
    → (store_merged k dst false o).0 ≡ dst
unfolding store_merged
store_quiet k dst none h = refl
store_quiet k dst (some v) h = cc

store_flag : (k : Text) (dst : Map Any) (o : Option Any) → (store_merged k dst true o).1 ≡ true
unfolding store_merged
store_flag k dst none = refl
store_flag k dst (some v) = refl

merge_extra_at-flag :
    (k : Text) (v : Any) (dst : Map Any) (o : Option Any)
    → (merge_extra_at k v (dst, true) o).1 ≡ true
unfolding merge_extra_at
merge_extra_at-flag k v dst none = refl
merge_extra_at-flag k v dst (some x) = store_flag k dst (merge_any x v)

merge_extra_at-quiet :
    (k : Text) (v : Any) (dst : Map Any) (o : Option Any)
    → (merge_extra_at k v (dst, false) o).1 ≡ false
    → (merge_extra_at k v (dst, false) o).0 ≡ dst
unfolding merge_extra_at
merge_extra_at-quiet k v dst none h = cc
merge_extra_at-quiet k v dst (some x) h = store_quiet k dst (merge_any x v) h

merge_extra-flag : (dst : Map Any) (e : Text × Any) → (merge_extra (dst, true) e).1 ≡ true
unfolding merge_extra
merge_extra-flag dst (k, null) = refl
merge_extra-flag dst (k, v) = merge_extra_at-flag k v dst (lookup k dst)

merge_extra-quiet :
    (dst : Map Any) (e : Text × Any)
    → (merge_extra (dst, false) e).1 ≡ false
    → (merge_extra (dst, false) e).0 ≡ dst
unfolding merge_extra
merge_extra-quiet dst (k, null) h = refl
merge_extra-quiet dst (k, v) h = merge_extra_at-quiet k v dst (lookup k dst) h

merge_extra-step :
    (dst : Map Any) (changed : Bool) (e : Text × Any)
    → (merge_extra (dst, changed) e).1 ≡ false
    → (changed ≡ false) × ((merge_extra (dst, changed) e).0 ≡ dst)
merge_extra-step dst false e h = (refl, merge_extra-quiet dst e h)
merge_extra-step dst true e h = cc (merge_extra-flag dst e)

extras_quiet :
    (s : Map Any × Bool) (src : Map Any)
    → (merge_extras_from s src).1 ≡ false
    → (s.1 ≡ false) × ((merge_extras_from s src).0 ≡ s.0)
unfolding merge_extras_from
extras_quiet s [] h = (h, refl)
extras_quiet (dst, changed) (e ∷ src) h =
    let rest = extras_quiet (merge_extra (dst, changed) e) src h in
    let first = merge_extra-step dst changed e rest.0 in (first.0, rest.1 ∙ first.1)

-- When mergeExtras reports no change, the map is the one that it was given.
pub merge_extras_quiet :
    (dst src : Map Any) → (merge_extras dst src).1 ≡ false → (merge_extras dst src).0 ≡ dst
unfolding merge_extras
merge_extras_quiet dst src h = (extras_quiet (dst, false) src h).1
