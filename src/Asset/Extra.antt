-- ===== src/Asset/Extra.antt =====
-- mergeExtras of internal/asset/util.go.
pub mod Laws
use asset_discovery.Asset.Merge.{merge_strings}
use asset_discovery.Asset.Types.{Any, Anys, anys, cons, nil, null, str, strs}
use asset_discovery.Prelude.{Bool, List, Option, [], false, if◌then◌else◌, none, some, true, ◌∷◌}
use asset_discovery.Prelude.Map.{Map, insert, lookup}
use asset_discovery.Prelude.Text.{Text, is_empty}

pub anys_append : Anys → Anys → Anys
anys_append nil ys = ys
anys_append (cons x xs) ys = cons x (anys_append xs ys)

-- The strings of a []string as the elements of a []any.
pub promote : List Text → Anys
promote [] = nil
promote (s ∷ ss) = cons (str s) (promote ss)

-- The strings that are not empty, as the elements of a []any.
pub promote_nonempty : List Text → Anys
promote_nonempty [] = nil
promote_nonempty (s ∷ ss) =
    let rest = promote_nonempty ss in if is_empty s then rest else cons (str s) rest

-- A key that is there: the value to store, if one is stored.
pub merge_any : Any → Any → Option Any
unfolding anys_append promote promote_nonempty
merge_any (anys ev) (anys nv) = some (anys (anys_append ev nv))
merge_any (anys ev) (strs nv) = some (anys (anys_append ev (promote_nonempty nv)))
merge_any (strs ev) (strs nv) =
    let m = merge_strings ev nv in if m.changed then some (strs m.out) else none
merge_any (strs ev) (anys nv) = some (anys (anys_append (promote ev) nv))
merge_any existing v = none

pub store_merged : Text → Map Any → Bool → Option Any → Map Any × Bool
store_merged k dst changed none = (dst, changed)
store_merged k dst changed (some v) = (insert k v dst, true)

pub merge_extra_at : Text → Any → Map Any × Bool → Option Any → Map Any × Bool
unfolding merge_any store_merged
merge_extra_at k v (dst, changed) none = (insert k v dst, true)
merge_extra_at k v (dst, changed) (some existing) =
    store_merged k dst changed (merge_any existing v)

pub merge_extra : Map Any × Bool → Text × Any → Map Any × Bool
unfolding merge_extra_at
merge_extra s (k, null) = s
merge_extra (dst, changed) (k, v) = merge_extra_at k v (dst, changed) (lookup k dst)

pub merge_extras_from : Map Any × Bool → Map Any → Map Any × Bool
unfolding merge_extra
merge_extras_from s [] = s
merge_extras_from s (e ∷ src) = merge_extras_from (merge_extra s e) src

unfoldable pub merge_extras : Map Any → Map Any → Map Any × Bool
unfolding merge_extras_from
merge_extras dst src = merge_extras_from (dst, false) src
