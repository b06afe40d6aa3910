-- ===== src/Oee/Weld.antt =====
-- Weld current and scrap rate by bucket of time (backend/app/oee/weld.py). A current is a whole number of
-- thousandths of a kA.
pub mod Gains
pub mod Buckets
use cell_oee_demo.Prelude.{
  ℕ, zero, suc, ◌+◌, ◌-◌, ◌*◌, ◌/◌, min, max, Bool, not, ◌&&◌, ◌||◌, Option, none, some, List, [],
  ◌∷◌, ◌++◌, map, ◌==◌, ltb, leb, if◌then◌else◌, length, sum_of,
}
use cell_oee_demo.Oee.Types.{Instant, CounterDelta, Gap, Ratio}
use cell_oee_demo.Oee.Observed.{overlaps_gap}

pub record WeldPoint : Type 0 where
  pub ts : Instant
  pub current_ka : ℕ
  pub ok : Bool

pub record WeldBucket : Type 0 where
  pub start : Instant
  pub end : Instant
  pub avg_ka : Option Ratio
  pub min_ka : Option ℕ
  pub max_ka : Option ℕ
  pub points : ℕ
  pub points_nok : ℕ
  pub good : ℕ
  pub scrap : ℕ

-- `scrap_rate`
unfoldable pub scrap_rate : WeldBucket → Option Ratio
scrap_rate b =
    let total = b.good + b.scrap in
    if total == 0 then none else some (record { num = b.scrap; den = total })

-- `bucket_start`, for a width that is not 0: the floor of a quotient that may be negative. A start before
-- the first instant, which overflows in the source, is cut to it.
unfoldable pub bucket_start : Instant → Instant → ℕ → Instant
bucket_start ts origin bucket_s =
    if leb origin ts
    then origin + (ts - origin) / bucket_s * bucket_s
    else origin - (origin - ts + bucket_s - 1) / bucket_s * bucket_s

-- `choose_bucket_s`, for a target and a floor that are not 0.
unfoldable pub choose_bucket_s : ℕ → ℕ → ℕ → ℕ
choose_bucket_s window_s target_buckets floor_s =
    let widest = target_buckets * floor_s in
    max floor_s ((window_s + widest - 1) / widest * floor_s)

-- The accumulators of one bucket: `currents[i]`, `nok[i]`, `good[i]` and `scrap[i]`.
pub record Row : Type 0 where
  pub start : Instant
  pub currents : List ℕ
  pub nok : ℕ
  pub good : ℕ
  pub scrap : ℕ

-- `while cursor < to`, on fuel; `none` means that the fuel ran out.
unfoldable pub rows_from : ℕ → Instant → Instant → ℕ → Option (List Row)
rows_from zero cursor to bucket_s = none
rows_from (suc fuel) cursor to bucket_s =
    let rest = rows_from fuel (cursor + bucket_s) to bucket_s in
    if ltb cursor to
    then elim rest [
      | none ↦ none
      | some rows ↦
          some (record { start = cursor; currents = []; nok = 0; good = 0; scrap = 0 } ∷ rows)
    ]
    else some []

-- `idx.get(start)`, and the change of that row.
unfoldable pub update_row : Instant → (Row → Row) → List Row → List Row
update_row start f [] = []
update_row start f (r ∷ rows) = if r.start == start then f r ∷ rows else r ∷ update_row start f rows

abbrev pub in_range : Instant → Instant → Instant → Bool
in_range frm to ts = leb frm ts && ltb ts to

abbrev pub with_point : WeldPoint → Row → Row
with_point p r = record r {
  currents = r.currents ++ p.current_ka ∷ [];
  nok = r.nok + (if p.ok then 0 else 1);
}

abbrev pub with_delta : CounterDelta → Row → Row
with_delta d r = record r { good = r.good + d.good; scrap = r.scrap + d.scrap }

module _ (frm to : Instant) (bucket_s : ℕ) (day_origin : Instant) where
  -- The loop over the points.
  unfoldable pub add_points : List WeldPoint → List Row → List Row
  add_points [] rows = rows
  add_points (p ∷ points) rows = add_points points (
      if in_range frm to p.ts
      then update_row (bucket_start p.ts day_origin bucket_s) (with_point p) rows
      else rows)

  -- The loop over the deltas.
  unfoldable pub add_deltas : List Gap → List CounterDelta → List Row → List Row
  add_deltas gaps [] rows = rows
  add_deltas gaps (d ∷ deltas) rows = add_deltas gaps deltas (
      if not (in_range frm to d.ts) || overlaps_gap d gaps
      then rows
      else update_row (bucket_start d.ts day_origin bucket_s) (with_delta d) rows)

abbrev pub min_of : ℕ → List ℕ → ℕ
min_of n [] = n
min_of n (m ∷ ns) = min_of (min n m) ns

abbrev pub max_of : ℕ → List ℕ → ℕ
max_of n [] = n
max_of n (m ∷ ns) = max_of (max n m) ns

-- The bucket of a row; the statistics of no value are `None`.
unfoldable pub bucket_of : ℕ → Row → WeldBucket
bucket_of bucket_s r = record {
  start = r.start;
  end = r.start + bucket_s;
  avg_ka = elim r.currents [
    | [] ↦ none
    | v ∷ vals ↦ some (record { num = sum_of (λ n. n) (v ∷ vals); den = length (v ∷ vals) })
  ];
  min_ka = elim r.currents [ [] ↦ none | v ∷ vals ↦ some (min_of v vals) ];
  max_ka = elim r.currents [ [] ↦ none | v ∷ vals ↦ some (max_of v vals) ];
  points = length r.currents;
  points_nok = r.nok;
  good = r.good;
  scrap = r.scrap;
}

-- A width of a microsecond or more needs no more rounds than microseconds are left.
unfoldable pub compute_weld_buckets :
    List WeldPoint
    → List CounterDelta
    → List Gap
    → Instant
    → Instant
    → ℕ
    → Instant
    → Option (List WeldBucket)
compute_weld_buckets points deltas gaps frm to bucket_s day_origin =
    let first = bucket_start frm day_origin bucket_s in
    elim (rows_from (suc (to - first)) first to bucket_s) [
      | none ↦ none
      | some rows ↦ some (
          map (bucket_of bucket_s) (
            add_deltas frm to bucket_s day_origin gaps deltas
              (add_points frm to bucket_s day_origin points rows)))
    ]
