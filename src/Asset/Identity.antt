-- ===== src/Asset/Identity.antt =====
-- internal/asset/identity.go, resolver.go, and the ShardedResolver of manager.go: from a MAC address
-- to an asset id. A lock makes each method one step.
pub mod Keys
use asset_discovery.Asset.Types.{AssetId, Mac}
use asset_discovery.Prelude.{
  Option, [], if◌then◌else◌, leb, ltb, none, some, ℕ, ◌%◌, ◌++◌, ◌+◌, ◌/◌, ◌==◌, ◌∷◌,
}
use asset_discovery.Prelude.Map.{Map, delete, insert, lookup}
use asset_discovery.Prelude.Text.{Text, is_empty, text, text_eq, to_lower}

unfoldable pub hex_digit : ℕ → ℕ
hex_digit n = if ltb n 10 then 48 + n else 87 + n

-- The bytes after the first one, each behind a colon.
unfoldable pub mac_tail : Mac → Text
unfolding hex_digit
mac_tail [] = []
mac_tail (b ∷ mac) = 58 ∷ hex_digit (b / 16) ∷ hex_digit (b % 16) ∷ mac_tail mac

-- net.HardwareAddr.String
unfoldable pub mac_string : Mac → Text
unfolding mac_tail
mac_string [] = []
mac_string (b ∷ mac) = hex_digit (b / 16) ∷ hex_digit (b % 16) ∷ mac_tail mac

unfoldable pub mac_key : Mac → Text
unfolding mac_string
mac_key mac = if is_empty mac then [] else text "mac:" ++ to_lower (mac_string mac)

unfoldable pub generate_asset_id : Mac → AssetId
generate_asset_id mac = mac_key mac

abbrev pub shard_count : ℕ
shard_count = 16

unfoldable pub byte_sum : Mac → ℕ
byte_sum [] = 0
byte_sum (b ∷ mac) = b + byte_sum mac

unfoldable pub shard_index : Mac → ℕ
unfolding byte_sum
shard_index mac = if is_empty mac then 0 else byte_sum mac % shard_count

-- IdentityIndex, and one shard of ShardedResolver.
pub record IdentityIndex : Type 0 where
  pub by_key : Map AssetId
  pub by_id : Map Text

abbrev pub new_identity_index : IdentityIndex
new_identity_index = record { by_key = []; by_id = [] }

unfoldable pub resolve : IdentityIndex → Mac → Option AssetId
resolve x mac = lookup (mac_key mac) x.by_key

unfoldable pub bind : IdentityIndex → AssetId → Mac → IdentityIndex
bind x id mac =
    let k = mac_key mac in
    if is_empty mac
    then x
    else record { by_key = insert k id x.by_key; by_id = insert id k x.by_id }

-- m[k], the empty string where the key is missing
abbrev pub get_or_empty : Option Text → Text
get_or_empty none = []
get_or_empty (some v) = v

unfoldable pub unbind_key : IdentityIndex → AssetId → Option Text → IdentityIndex
unbind_key x id none = x
unbind_key x id (some k) = record {
  by_key = if text_eq (get_or_empty (lookup k x.by_key)) id then delete k x.by_key else x.by_key;
  by_id = delete id x.by_id;
}

unfoldable pub unbind : IdentityIndex → AssetId → IdentityIndex
unfolding unbind_key
unbind x id = unbind_key x id (lookup id x.by_id)

-- f with the value at i replaced
abbrev pub update {ℓ} : {A : Type ℓ} → (ℕ → A) → ℕ → A → ℕ → A
update f i v j = if i == j then v else f j

-- ShardedResolver: its 16 shards, by number. An index that a method takes is not negative.
abbrev pub ShardedResolver : Type 0
ShardedResolver = ℕ → IdentityIndex

abbrev pub new_sharded_resolver : ShardedResolver
new_sharded_resolver i = new_identity_index

-- The id, if one is bound, and the shard.
unfoldable pub sharded_resolve : ShardedResolver → Mac → Option AssetId × ℕ
sharded_resolve r mac = let idx = shard_index mac in (resolve (r idx) mac, idx)

unfoldable pub sharded_bind : ShardedResolver → AssetId → Mac → ℕ → ShardedResolver
sharded_bind r id mac idx =
    let i = if leb shard_count idx then shard_index mac else idx in update r i (bind (r i) id mac)

unfoldable pub sharded_unbind : ShardedResolver → AssetId → ℕ → ShardedResolver
sharded_unbind r id idx = if leb shard_count idx then r else update r idx (unbind (r idx) id)
