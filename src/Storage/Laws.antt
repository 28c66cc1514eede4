-- ===== src/Storage/Laws.antt =====
-- Predicates on the tables, and what a run of statements does to them.
pub mod Rows
pub mod Hydrate
pub mod Conflict
pub mod Children
pub mod Clean
pub mod Reading
pub mod Addresses
pub mod RoundTrip
pub mod Fractions
use asset_discovery.Asset.Identity.{generate_asset_id, mac_string}
use asset_discovery.Asset.Lifecycle.Load.{SnapshotLaw}
use asset_discovery.Asset.Types.{AssetId, AssetSnapshot, Mac}
use asset_discovery.Prelude.{
  All, Bool, Bool-cases, Gives, List, Option, Option-cases, [], ap, arith, drop, false, get_elem?,
  if◌then◌else◌, inl, inr, leb, leb→le, length, length-append, length-drop, length-take, lt→ltb,
  ltb, ltb→lt, map, none, not, refl, some, suc, sym, take, take-append-drop, true, zero, ==_iff, ℕ,
  ◌%◌, ◌&&◌, ◌*◌, ◌++◌, ◌+◌, ◌-◌, ◌/◌, ◌<◌, ◌==◌, ◌^◌, ◌||◌, ◌↔◌, ◌∙◌, ◌∷◌, ◌≡◌, ◌≢◌, ◌≤◌, ◌⊎◌,
}
use asset_discovery.Prelude.Map.Laws.{Entries}
use asset_discovery.Storage.{
  AssetRow, Codec, Statement, Tables, execute, insert_asset, insert_hostname, insert_ip,
  insert_service,
}
use asset_discovery.Prelude.Text.{is_empty}
use asset_discovery.Storage.Mac.{IsHardware}
use asset_discovery.Storage.Save.{batch_statements, finish_tx, run_statements, save_batch}

-- The row is one of a hardware address, under the id of the address.
pub record RowLaw (id : AssetId) (row : AssetRow) : Type 0 where
  pub address : Mac
  pub hardware : IsHardware address
  pub printed : row.mac ≡ mac_string address
  pub named : id ≡ generate_asset_id address

abbrev pub DbLaw : Tables → Type 0
DbLaw t = Entries RowLaw t.assets

-- A snapshot of an asset with a hardware address and its id.
pub record SavedLaw (s : AssetSnapshot) : Type 0 where
  pub law : SnapshotLaw s
  pub hardware : IsHardware s.mac

unfoldable pub execute_all : List Statement → Tables → Tables
execute_all [] t = t
execute_all (st ∷ sts) t = execute_all sts (execute st t)

pub execute_all-append :
    (xs ys : List Statement) (t : Tables)
    → execute_all (xs ++ ys) t ≡ execute_all ys (execute_all xs t)
unfolding execute_all
execute_all-append [] ys t = refl
execute_all-append (x ∷ xs) ys t = execute_all-append xs ys (execute x t)

-- A call of the driver fails, before or at the number n.
abbrev pub Fails : (ℕ → Bool) → ℕ → Type 0
Fails fails n = (i : ℕ) × (i ≤ n) × (fails i ≡ true)

run_statements-cases :
    (fails : ℕ → Bool) (n : ℕ) (sts : List Statement) (t : Tables)
    → (run_statements fails n sts t ≡ some (n + length sts, execute_all sts t))
      ⊎ ((run_statements fails n sts t ≡ none) × Fails fails (n + length sts))
unfolding run_statements execute_all
run_statements-cases fails n [] t = inl (ap (λ k. some (k, t)) (omega arith))
run_statements-cases fails n (st ∷ sts) t = elim (Bool-cases (fails n)) [
  | inl e ↦ inr (rw e refl, (n, omega arith, e))
  | inr e ↦ elim (run_statements-cases fails (suc n) sts (execute st t)) [
    | inl f ↦ inl (rw e (rw f (ap (λ k. some (k, execute_all sts (execute st t))) (omega arith))))
    | inr (f, (i, le, g)) ↦ inr (rw e f, (i, omega arith, g))
  ]
]

-- SaveBatch is all or nothing: either every row of every snapshot is written, in order, or the call
-- reports an error, one of its calls of the driver failed, and the tables are as before.
pub save_batch_atomic :
    (cx : Codec) (fails : ℕ → Bool) (t : Tables) (ss : List AssetSnapshot)
    → (save_batch cx fails t ss ≡ (execute_all (batch_statements cx ss) t, true))
      ⊎ ((save_batch cx fails t ss ≡ (t, false))
          × Fails fails (1 + length (batch_statements cx ss)))
unfolding save_batch finish_tx is_empty
save_batch_atomic cx fails t [] = inl (unfold batch_statements execute_all in refl)
save_batch_atomic cx fails t (s ∷ ss) = elim (Bool-cases (fails 0)) [
  | inl e ↦ inr (rw e refl, (0, omega arith, e))
  | inr e ↦
      let sts = batch_statements cx (s ∷ ss) in
      elim (run_statements-cases fails 1 sts t) [
        | inl f ↦ elim (Bool-cases (fails (1 + length sts))) [
          | inl g ↦ inr (rw e (rw f (rw g refl)), (1 + length sts, omega arith, g))
          | inr g ↦ inl (rw e (rw f (rw g refl)))
        ]
        | inr (f, w) ↦ inr (rw e (rw f refl), w)
      ]
]
