-- ===== src/Storage/Laws/Conflict.antt =====
-- What the ON CONFLICT clause of upsertAsset keeps of a row that is there.
use asset_discovery.Asset.Types.{AssetId, AssetSnapshot}
use asset_discovery.Prelude.{
  Bool, Bool-cases, List, Option, [], arith, false, inl, inr, none, refl, some, true, ℕ, ◌∙◌, ◌∷◌,
  ◌≡◌, ◌≤◌,
}
use asset_discovery.Prelude.Map.{lookup, lookup-insert}
use asset_discovery.Prelude.Text.{Text, is_empty, text_eq, text_eq→eq}
use asset_discovery.Prelude.Text.Order.{text_ltb}
use asset_discovery.Storage.{
  AssetRow, Codec, Statement, Tables, coalesce, conflict_asset, execute, insert_asset,
  insert_hostname, insert_ip, insert_service, max_text, min_text,
}
use asset_discovery.Storage.Laws.{execute_all, save_batch_atomic}
use asset_discovery.Storage.Save.{batch_statements, save_batch}

text_ltb_irrefl : (a : Text) → text_ltb a a ≡ false
unfolding text_ltb
text_ltb_irrefl [] = refl
text_ltb_irrefl (a ∷ at) = ground (arith, text_ltb_irrefl at)

text_ltb_antisym : (a b : Text) → text_ltb a b ≡ true → text_ltb b a ≡ false
unfolding text_ltb
text_ltb_antisym [] [] h = refl
text_ltb_antisym [] (b ∷ bt) h = refl
text_ltb_antisym (a ∷ at) [] h = cc
text_ltb_antisym (a ∷ at) (b ∷ bt) h = ground (arith, text_ltb_antisym at bt)

-- `a <= b <= c`, where `a <= b` is that b is not less.
text_le_trans : (a b c : Text) → text_ltb b a ≡ false → text_ltb c b ≡ false → text_ltb c a ≡ false
unfolding text_ltb
text_le_trans [] b [] h k = refl
text_le_trans (a ∷ at) [] [] h k = cc
text_le_trans (a ∷ at) (b ∷ bt) [] h k = cc
text_le_trans [] b (c ∷ ct) h k = refl
text_le_trans (a ∷ at) [] (c ∷ ct) h k = cc
text_le_trans (a ∷ at) (b ∷ bt) (c ∷ ct) h k = ground (arith, text_le_trans at bt ct)

-- A text that was known is not emptied.
abbrev NotEmptied : Text → Text → Type 0
NotEmptied old new = is_empty new ≡ true → is_empty old ≡ true

-- A row, and the row that it has become.
pub record Kept (old new : AssetRow) : Type 0 where
  pub extra_same : new.extra_json ≡ old.extra_json
  pub mac_known : NotEmptied old.mac new.mac
  pub vendor_known : NotEmptied old.mac_vendor new.mac_vendor
  pub device_known : NotEmptied old.device_type new.device_type
  pub model_known : NotEmptied old.model new.model
  pub os_known : NotEmptied old.os new.os
  pub not_later : text_ltb old.first_seen new.first_seen ≡ false
  pub not_earlier : text_ltb new.last_seen old.last_seen ≡ false
  pub count_le : old.seen_count ≤ new.seen_count

coalesce-NotEmptied : (new old : Text) → NotEmptied old (coalesce new old)
coalesce-NotEmptied new old h = elim (Bool-cases (is_empty new)) [
  | inl e ↦ rw e at h
  | inr e ↦ ground arith
]

max_text_le : (a b : Text) → text_ltb (max_text a b) a ≡ false
max_text_le a b = elim (Bool-cases (text_ltb a b)) [
  | inl e ↦ rw e (text_ltb_antisym a b e)
  | inr e ↦ rw e (text_ltb_irrefl a)
]

min_text_le : (a b : Text) → text_ltb a (min_text a b) ≡ false
min_text_le a b = elim (Bool-cases (text_ltb b a)) [
  | inl e ↦ rw e (text_ltb_antisym b a e)
  | inr e ↦ rw e (text_ltb_irrefl a)
]

conflict_asset-Kept : (old new : AssetRow) → Kept old (conflict_asset (some old) new)
unfolding conflict_asset
conflict_asset-Kept old new = record {
  extra_same = refl;
  mac_known = coalesce-NotEmptied new.mac old.mac;
  vendor_known = coalesce-NotEmptied new.mac_vendor old.mac_vendor;
  device_known = coalesce-NotEmptied new.device_type old.device_type;
  model_known = coalesce-NotEmptied new.model old.model;
  os_known = coalesce-NotEmptied new.os old.os;
  not_later = min_text_le old.first_seen new.first_seen;
  not_earlier = max_text_le old.last_seen new.last_seen;
  count_le = ground arith;
}

Kept-refl : (r : AssetRow) → Kept r r
Kept-refl r = record {
  extra_same = refl;
  mac_known = λ e. e;
  vendor_known = λ e. e;
  device_known = λ e. e;
  model_known = λ e. e;
  os_known = λ e. e;
  not_later = text_ltb_irrefl r.first_seen;
  not_earlier = text_ltb_irrefl r.last_seen;
  count_le = omega arith;
}

Kept-trans : (a b c : AssetRow) → Kept a b → Kept b c → Kept a c
Kept-trans a b c h k = record {
  extra_same = k.extra_same ∙ h.extra_same;
  mac_known = λ e. h.mac_known (k.mac_known e);
  vendor_known = λ e. h.vendor_known (k.vendor_known e);
  device_known = λ e. h.device_known (k.device_known e);
  model_known = λ e. h.model_known (k.model_known e);
  os_known = λ e. h.os_known (k.os_known e);
  not_later = text_le_trans c.first_seen b.first_seen a.first_seen k.not_later h.not_later;
  not_earlier = text_le_trans a.last_seen b.last_seen c.last_seen h.not_earlier k.not_earlier;
  count_le = omega (arith, h.count_le, k.count_le);
}

-- There is a row, and it has become of the given one.
abbrev pub KeptIn : AssetRow → Option AssetRow → Type 0
KeptIn old none = ⊥
KeptIn old (some new) = Kept old new

execute-Kept :
    (st : Statement) (t : Tables) (id : AssetId) (old : AssetRow)
    → KeptIn old (lookup id t.assets)
    → KeptIn old (lookup id (execute st t).assets)
unfolding execute
execute-Kept (insert_asset j row) t id old h =
    rw (lookup-insert j id (conflict_asset (lookup j t.assets) row) t.assets)
      (elim (Bool-cases (text_eq j id)) [
        | inl e ↦ rw e (rw (text_eq→eq j id e) (conflict-KeptIn (lookup id t.assets) h))
        | inr e ↦ rw e h
      ])
  where
    conflict-KeptIn : (o : Option AssetRow) → KeptIn old o → Kept old (conflict_asset o row)
    conflict-KeptIn none k = absurd k
    conflict-KeptIn (some now) k = Kept-trans old now _ k (conflict_asset-Kept now row)
execute-Kept (insert_ip j ip row) t id old h = h
execute-Kept (insert_hostname j k row) t id old h = h
execute-Kept (insert_service j row) t id old h = h

execute_all-Kept :
    (sts : List Statement) (t : Tables) (id : AssetId) (old : AssetRow)
    → KeptIn old (lookup id t.assets)
    → KeptIn old (lookup id (execute_all sts t).assets)
unfolding execute_all
execute_all-Kept [] t id old h = h
execute_all-Kept (st ∷ sts) t id old h =
    execute_all-Kept sts (execute st t) id old (execute-Kept st t id old h)

-- A row of an asset stays through every batch, saved or not: its address, vendor, device type, model
-- and operating system are never emptied, the count of sightings never falls, the texts of the first
-- and the last sighting move only down and up in the order of bytes, and the extras stay those of the
-- first save, whatever later snapshots carry.
pub save_batch-Kept :
    (cx : Codec) (fails : ℕ → Bool) (t : Tables) (ss : List AssetSnapshot) (id : AssetId)
    (old : AssetRow)
    → lookup id t.assets ≡ some old
    → KeptIn old (lookup id (save_batch cx fails t ss).0.assets)
save_batch-Kept cx fails t ss id old h =
    let here : KeptIn old (lookup id t.assets) = rw h (Kept-refl old) in
    elim (save_batch_atomic cx fails t ss) [
      | inl e ↦ rw e (execute_all-Kept (batch_statements cx ss) t id old here)
      | inr (e, w) ↦ rw e here
    ]
