-- ===== src/Storage/Laws/Fractions.antt =====
-- SaveBatch compares last sightings as RFC3339Nano prints them, which drops the zeros at the end of the
-- fraction of a second.
use asset_discovery.Asset.Types.{AssetSnapshot}
use asset_discovery.Prelude.{
  Bool, Gives, [], ap, arith, false, if◌then◌else◌, inl, inr, refl, some, suc, zero, ℕ, ◌%◌, ◌&&◌,
  ◌*◌, ◌++◌, ◌+◌, ◌/◌, ◌<◌, ◌==◌, ◌∙◌, ◌∷◌, ◌≡◌, ◌≢◌,
}
use asset_discovery.Prelude.Map.{lookup, lookup-insert_self}
use asset_discovery.Prelude.Text.{Text, is_empty, text}
use asset_discovery.Prelude.Text.Order.{text_ltb}
use asset_discovery.Prelude.Time.{Time, is_zero, second}
use asset_discovery.Storage.{AssetRow, Codec, Tables, conflict_asset, parse_time_str, time_fmt}
use asset_discovery.Storage.Laws.{save_batch_atomic}
use asset_discovery.Storage.Laws.Clean.{year_10000}
use asset_discovery.Storage.Laws.RoundTrip.{execute_all-snapshot, saved}
use asset_discovery.Storage.Save.{asset_row, save_batch}

-- The last digits of a number, the highest first.
unfoldable pub last_digits : ℕ → ℕ → Text
last_digits zero n = []
last_digits (suc k) n = last_digits k (n / 10) ++ (b'0' + n % 10) ∷ []

unfoldable pub drop_zeros : Text → Text
drop_zeros [] = []
drop_zeros (c ∷ s) = let rest = drop_zeros s in if is_empty rest && c == b'0' then [] else c ∷ rest

-- The fraction of so many nanoseconds.
unfoldable pub fraction : ℕ → Text
unfolding last_digits drop_zeros
fraction n = if n == 0 then [] else b'.' ∷ drop_zeros (last_digits 9 n)

-- What time documents of the layout RFC3339Nano in UTC: the second, then the fraction, then 'Z'; and
-- that a whole second is read back.
pub record NanoLaw (cx : Codec) : Type 0 where
  pub print_second : ℕ → Text
  pub printed :
      (t : Time)
      → t < year_10000
      → cx.format_time t ≡ print_second (t / second) ++ (fraction (t % second) ++ text "Z")
  pub parsed :
      (n : ℕ)
      → n * second < year_10000
      → parse_time_str cx (cx.format_time (n * second)) ≡ n * second

text_ltb-prefix : (p a b : Text) → text_ltb (p ++ a) (p ++ b) ≡ text_ltb a b
unfolding text_ltb
text_ltb-prefix [] a b = refl
text_ltb-prefix (c ∷ p) a b = ground (arith, text_ltb-prefix p a b)

-- Later in a second is less than the second itself.
later_is_less :
    (p : Text) (m : ℕ) → m ≢ 0 → text_ltb (p ++ text "Z") (p ++ (fraction m ++ text "Z")) ≡ false
unfolding fraction
later_is_less p m h =
    let z : (m == 0) ≡ false = ground arith in
    rw z (
      text_ltb-prefix p (text "Z") (b'.' ∷ (drop_zeros (last_digits 9 m) ++ text "Z"))
      ∙ unfold text_ltb in refl)

module _ (cx : Codec) (n : ℕ) (u : Time) (law : NanoLaw cx) (some_second : n ≢ 0)
    (later : n * second < u) (same : u < (n + 1) * second) (printable : u < year_10000) where
  printed_later : time_fmt cx u ≡ law.print_second n ++ (fraction (u % second) ++ text "Z")
  unfolding time_fmt
  printed_later =
      let d : u / second ≡ n = omega (arith, later, same) in
      let z : is_zero u ≡ false = ground (arith, later) in
      rw z (
        law.printed u printable
        ∙ ap (λ k. law.print_second k ++ (fraction (u % second) ++ text "Z")) d)

  printed_whole : time_fmt cx (n * second) ≡ law.print_second n ++ text "Z"
  unfolding time_fmt fraction
  printed_whole =
      let d : n * second / second ≡ n = omega arith in
      let m : n * second % second ≡ 0 = omega arith in
      let z : is_zero (n * second) ≡ false = ground (arith, some_second) in
      rw z (law.printed (n * second) (omega (arith, later, printable)) ∙ rw (d, m) refl)

  read_whole : parse_time_str cx (time_fmt cx (n * second)) ≡ n * second
  unfolding time_fmt
  read_whole =
      let z : is_zero (n * second) ≡ false = ground (arith, some_second) in
      rw z (law.parsed n (omega (arith, later, printable)))

  whole_not_less : text_ltb (time_fmt cx (n * second)) (time_fmt cx u) ≡ false
  whole_not_less =
      let m : u % second ≢ 0 = λ e. absurd (omega (arith, e, later, same)) in
      rw (printed_later, printed_whole) (later_is_less (law.print_second n) (u % second) m)

-- With times printed as RFC3339Nano documents, a row of an asset that was last seen at a whole second,
-- not the zero time, keeps that time when SaveBatch saves a snapshot of a later sighting within the same
-- second, before the year 10000, whether the batch is committed or not: the last sighting that is read
-- from the row is the earlier one.
pub later_sighting_unsaved :
    (cx : Codec) (fails : ℕ → Bool) (t : Tables) (s : AssetSnapshot) (old : AssetRow) (n : ℕ)
    → NanoLaw cx
    → lookup s.id t.assets ≡ some old
    → old.last_seen ≡ time_fmt cx (n * second)
    → n ≢ 0
    → n * second < s.last_seen
    → s.last_seen < (n + 1) * second
    → s.last_seen < year_10000
    → Gives
        (λ row. parse_time_str cx row.last_seen ≡ n * second)
        (lookup s.id (save_batch cx fails t (s ∷ [])).0.assets)
unfolding saved conflict_asset asset_row
later_sighting_unsaved cx fails t s old n law here seen some_second later same printable =
    let read : parse_time_str cx old.last_seen ≡ n * second =
      rw seen (read_whole cx n s.last_seen law some_second later same printable) in
    let not_less : text_ltb old.last_seen (time_fmt cx s.last_seen) ≡ false =
      rw seen (whole_not_less cx n s.last_seen law some_second later same printable) in
    elim (save_batch_atomic cx fails t (s ∷ [])) [
      | inl e ↦ rw e (
          rw (execute_all-snapshot cx s t)
            (rw (lookup-insert_self s.id _ t.assets) (rw here (rw not_less read))))
      | inr (e, w) ↦ rw e (rw here read)
    ]
