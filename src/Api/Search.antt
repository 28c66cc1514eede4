-- ===== src/Api/Search.antt =====
-- The filter of ListAssets: which rows its conditions select.
use asset_discovery.Api.{
  AssetFilter, is_some_row, matches, matches_query, matches_times, matching, status_text,
  when_given,
}
use asset_discovery.Asset.Types.{AssetId}
use asset_discovery.Prelude.{
  Bool, Bool-cases, List, Option, [], arith, false, if◌then◌else◌, inl, inr, none, not, refl, some,
  sym, true, ==_iff, ◌&&◌, ◌++◌, ◌||◌, ◌↔◌, ◌∷◌, ◌≡◌, ◌⊎◌,
}
use asset_discovery.Prelude.Map.{Map, lookup}
use asset_discovery.Prelude.Text.{Text, contains, is_empty, text, text_eq_iff, to_lower}
use asset_discovery.Prelude.Text.Decimal.{absent}
use asset_discovery.Prelude.Text.Order.{text_ltb}
use asset_discovery.Prelude.Time.{Time, is_zero}
use asset_discovery.Storage.{AssetRow, Codec, Tables, rows_of}
use mathlib.Core.List.{Memᴰ}
use mathlib.Core.Path.{subst}

-- What SQLite documents of LIKE, for a text without wildcards between two percent signs.
abbrev pub LikeLaw : Codec → Type 0
LikeLaw cx =
    (q s : Text)
    → absent b'%' q ≡ true
    → absent b'_' q ≡ true
    → cx.like (text "%" ++ q ++ text "%") s ≡ contains (to_lower s) (to_lower q)

-- The text is part of the column, upper and lower case taken as one.
abbrev pub Within : Text → Text → Type 0
Within q s = contains (to_lower s) (to_lower q) ≡ true

abbrev pub Present {ℓ} : {A : Type ℓ} → Option A → Type ℓ
Present {A = A} o = (a : A) × (o ≡ some a)

-- A condition that holds where it is not asked for.
abbrev pub Asked : Text → Type 0 → Type 0
Asked v P = (is_empty v ≡ true) ⊎ P

pub record Selected (cx : Codec) (f : AssetFilter) (t : Tables) (id : AssetId) (row : AssetRow)
    : Type 0 where
  pub found : Asked f.q (
      Within f.q row.mac
      ⊎ (Within f.q row.mac_vendor
          ⊎ (Within f.q row.os ⊎ (Within f.q row.device_type ⊎ Within f.q id))))
  pub status : Asked f.status (status_text row.status ≡ f.status)
  pub vendor : Asked f.vendor (row.mac_vendor ≡ f.vendor)
  pub ip : Asked f.ip (Present (lookup f.ip (rows_of id t.ips)))
  pub mac : Asked f.mac (row.mac ≡ f.mac)
  pub hostname : Asked f.hostname (Present (lookup f.hostname (rows_of id t.hostnames)))
  pub not_before :
      (f.seen_after ≡ 0) ⊎ (text_ltb row.last_seen (cx.format_time f.seen_after) ≡ false)
  pub not_after :
      (f.seen_before ≡ 0) ⊎ (text_ltb (cx.format_time f.seen_before) row.last_seen ≡ false)

and_iff : (a b : Bool) (P Q : Type 0) → (a ≡ true) ↔ P → (b ≡ true) ↔ Q → (a && b ≡ true) ↔ (P × Q)
and_iff true b P Q f g = (λ h. (f.0 refl, g.0 h), λ (p, q). g.1 q)
and_iff false b P Q f g = (λ h. cc, λ (p, q). f.1 p)

or_iff : (a b : Bool) (P Q : Type 0) → (a ≡ true) ↔ P → (b ≡ true) ↔ Q → (a || b ≡ true) ↔ (P ⊎ Q)
or_iff true b P Q f g = (λ h. inl (f.0 refl), λ h. refl)
or_iff false b P Q f g = (
  λ h. inr (g.0 h),
  λ h. elim h [ inl p ↦ absurd (let e : false ≡ true = f.1 p in cc) | inr q ↦ g.1 q ],
)

given_iff :
    (v : Text) (b : Bool) (P : Type 0) → (b ≡ true) ↔ P → (when_given v b ≡ true) ↔ Asked v P
given_iff v b P f = elim (Bool-cases (is_empty v)) [
  | inl e ↦ rw e (λ h. inl refl, λ h. refl)
  | inr e ↦ rw e (λ h. inr (f.0 h), λ h. elim h [ inl x ↦ cc | inr p ↦ f.1 p ])
]

time_iff :
    (x : Time) (b : Bool) → ((if is_zero x then true else not b) ≡ true) ↔ ((x ≡ 0) ⊎ (b ≡ false))
time_iff x b = elim (Bool-cases (is_zero x)) [
  | inl e ↦ rw e (λ h. inl ((==_iff x 0).0 e), λ h. refl)
  | inr e ↦ rw e (
    λ h. inr (ground arith),
    λ h. elim h [
      | inl z ↦ absurd (let q : is_zero x ≡ true = (==_iff x 0).1 z in cc)
      | inr p ↦ rw p refl
    ],
  )
]

is_some_row_iff {ℓ} : {A : Type ℓ} (o : Option A) → (is_some_row o ≡ true) ↔ Present o
is_some_row_iff none = (λ h. cc, λ (a, h). cc)
is_some_row_iff (some a) = (λ h. (a, refl), λ h. refl)

like_iff :
    (cx : Codec) (q s : Text)
    → LikeLaw cx
    → absent b'%' q ≡ true
    → absent b'_' q ≡ true
    → (cx.like (text "%" ++ q ++ text "%") s ≡ true) ↔ Within q s
like_iff cx q s law h k = rw (law q s h k) (λ x. x, λ x. x)

matches_query_iff :
    (cx : Codec) (q : Text) (id : AssetId) (row : AssetRow)
    → LikeLaw cx
    → absent b'%' q ≡ true
    → absent b'_' q ≡ true
    → (matches_query cx q id row ≡ true) ↔ (
        Within q row.mac
        ⊎ (Within q row.mac_vendor ⊎ (Within q row.os ⊎ (Within q row.device_type ⊎ Within q id))))
unfolding matches_query
matches_query_iff cx q id row law h k =
    let w = λ (s : Text). like_iff cx q s law h k in
    or_iff _ _ _ _ (w row.mac) (
      or_iff _ _ _ _ (w row.mac_vendor)
        (or_iff _ _ _ _ (w row.os) (or_iff _ _ _ _ (w row.device_type) (w id))))

matches_iff :
    (cx : Codec) (f : AssetFilter) (t : Tables) (id : AssetId) (row : AssetRow)
    → LikeLaw cx
    → absent b'%' f.q ≡ true
    → absent b'_' f.q ≡ true
    → (matches cx f t id row ≡ true) ↔ Selected cx f t id row
unfolding matches matches_times
matches_iff cx f t id row law h k =
    let all = and_iff _ _ _ _ (given_iff f.q _ _ (matches_query_iff cx f.q id row law h k)) (
      and_iff _ _ _ _ (given_iff f.status _ _ (text_eq_iff (status_text row.status) f.status)) (
        and_iff _ _ _ _ (given_iff f.vendor _ _ (text_eq_iff row.mac_vendor f.vendor)) (
          and_iff _ _ _ _ (given_iff f.ip _ _ (is_some_row_iff (lookup f.ip (rows_of id t.ips)))) (
            and_iff _ _ _ _ (given_iff f.mac _ _ (text_eq_iff row.mac f.mac)) (
              and_iff _ _ _ _
                (given_iff f.hostname _ _
                  (is_some_row_iff (lookup f.hostname (rows_of id t.hostnames))))
                (and_iff _ _ _ _
                  (time_iff f.seen_after (text_ltb row.last_seen (cx.format_time f.seen_after)))
                  (time_iff f.seen_before
                    (text_ltb (cx.format_time f.seen_before) row.last_seen)))))))) in
    (
      λ e.
          let (q, (st, (v, (ip, (m, (n, (a, b))))))) = all.0 e in
          record {
            found = q;
            status = st;
            vendor = v;
            ip = ip;
            mac = m;
            hostname = n;
            not_before = a;
            not_after = b;
          },
      λ p. all.1 (
        p.found,
        (p.status, (p.vendor, (p.ip, (p.mac, (p.hostname, (p.not_before, p.not_after)))))),
      ),
    )

-- A row that is kept, and one that is left out, where P tells which rows are kept.
module _ {ℓ} {A : Type ℓ} (P : A → Type 0) (x y : A) (kept rows : List A)
    (rest : Memᴰ x kept ↔ (Memᴰ x rows × P x)) where
  keep_to : P y → Memᴰ x (y ∷ kept) → Memᴰ x (y ∷ rows) × P x
  keep_to p (Memᴰ.head e) = (Memᴰ.head e, subst P (sym e) p)
  keep_to p (Memᴰ.tail m) = let (n, q) = rest.0 m in (Memᴰ.tail n, q)

  keep_from : Memᴰ x (y ∷ rows) → P x → Memᴰ x (y ∷ kept)
  keep_from (Memᴰ.head e) q = Memᴰ.head e
  keep_from (Memᴰ.tail n) q = Memᴰ.tail (rest.1 (n, q))

  skip_from : (P y → ⊥) → Memᴰ x (y ∷ rows) → P x → Memᴰ x kept
  skip_from out (Memᴰ.head e) q = absurd (out (subst P e q))
  skip_from out (Memᴰ.tail n) q = rest.1 (n, q)

-- With a LIKE as SQLite documents it, and no wildcards in the search text, the rows that ListAssets
-- selects are exactly the rows of the table that the filter asks for. Each condition that is given
-- holds: the search text is part of the address, the vendor, the operating system, the device type or
-- the id, the case of ASCII letters aside; the status, the vendor and the address are equal; the IP
-- address and the host name are among those of the asset; and the printed last sighting lies, in the
-- order of texts, between the printed bounds.
pub matching-Selected :
    (cx : Codec) (f : AssetFilter) (t : Tables) (rows : Map AssetRow) (id : AssetId)
    (row : AssetRow)
    → LikeLaw cx
    → absent b'%' f.q ≡ true
    → absent b'_' f.q ≡ true
    → Memᴰ {A = AssetId × AssetRow} (id, row) (matching cx f t rows)
      ↔ (Memᴰ {A = AssetId × AssetRow} (id, row) rows × Selected cx f t id row)
unfolding matching
matching-Selected cx f t [] id row law h k = (λ m. absurd (none_in m), λ (m, p). m)
  where
    none_in : Memᴰ {A = AssetId × AssetRow} (id, row) [] → ⊥
    none_in m = elim m [ ]
matching-Selected cx f t ((j, r) ∷ rows) id row law h k =
    let P : AssetId × AssetRow → Type 0 = λ x. Selected cx f t x.0 x.1 in
    let kept = matching cx f t rows in
    let rest = matching-Selected cx f t rows id row law h k in
    let here = matches_iff cx f t j r law h k in
    elim (Bool-cases (matches cx f t j r)) [
      | inl e ↦ rw e (
        keep_to P (id, row) (j, r) kept rows rest (here.0 e),
        λ (m, p). keep_from P (id, row) (j, r) kept rows rest m p,
      )
      | inr e ↦ rw e (
        λ m. let (n, p) = rest.0 m in (Memᴰ.tail n, p),
        λ (m, p). skip_from P (id, row) (j, r) kept rows rest (λ q. let y = here.1 q in cc) m p,
      )
    ]
