-- ===== src/Oee/Pareto.antt =====
-- Stop Pareto: losses by cause, station or fault code (backend/app/oee/pareto.py).
pub mod Grouping
use cell_oee_demo.Prelude.{
  ℕ, ◌+◌, max, Bool, false, not, ◌&&◌, ◌||◌, Option, none, some, List, [], ◌∷◌, ◌==◌, ltb, leb, pos,
  sub_ℕ, ltb_ℤ, if◌then◌else◌, sort_by, is_some,
}
use Prim.Native.String.{String}
use text.Mathlib.Text.{◌==◌ as str_eq}
use cell_oee_demo.Oee.Types.{Instant, Window, length_s, Gap}
use cell_oee_demo.Oee.Intervals.{total, clip, intersect, Interval}
use cell_oee_demo.Oee.Observed.{rel, observed_intervals}

pub data By : Type 0 where
  cause station fault_code : By

pub data Metric : Type 0 where
  duration count : Metric

pub record StopFact : Type 0 where
  pub start : Instant
  pub end : Option Instant
  pub state : ℕ
  pub origin_station : String
  pub fault_code : ℕ
  pub qualified_cause : Option String

-- The text of a bucket's key: itself, a number, or "state_" and a number.
pub data Key : Type 0 where
  label : String → Key
  code : ℕ → Key
  state : ℕ → Key

abbrev pub same_key : Key → Key → Bool
same_key (label a) (label b) = str_eq a b
same_key (code a) (code b) = a == b
same_key (state a) (state b) = a == b
same_key _ _ = false

abbrev pub unqualified : String
unqualified = "unqualified"

abbrev pub is_unqualified : Key → Bool
is_unqualified (label a) = str_eq a unqualified
is_unqualified (code n) = false
is_unqualified (state n) = false

-- `fact.qualified_cause or UNQUALIFIED`: an empty text counts as none.
abbrev pub cause_text : Option String → String
cause_text none = unqualified
cause_text (some c) = if str_eq c "" then unqualified else c

-- `_key`
unfoldable pub key_of : StopFact → By → Key
key_of f cause = label (cause_text f.qualified_cause)
key_of f station = label f.origin_station
key_of f fault_code = if f.fault_code == 0 then state f.state else code f.fault_code

pub record Bucket : Type 0 where
  pub key : Key
  pub duration_s : ℕ
  pub count : ℕ
  pub unqualified_duration_s : ℕ
  pub unqualified_count : ℕ

pub record ParetoResult : Type 0 where
  pub by : By
  pub metric : Metric
  pub buckets : List Bucket
  pub micro_count : ℕ
  pub micro_duration_s : ℕ

abbrev pub bound_of : Window → Option Instant → Instant
bound_of w none = w.end
bound_of w (some until) = until

abbrev pub end_of : Instant → StopFact → Instant
end_of bound f = elim f.end [ some end ↦ end | none ↦ max bound f.start ]

-- Not a planned stop, and not wholly outside the window.
abbrev pub is_relevant : Window → Instant → StopFact → Bool
is_relevant w bound f =
    not (f.state == 2) && not (leb (end_of bound f) w.start || leb w.end f.start)

abbrev pub is_micro : Instant → ℕ → StopFact → Bool
is_micro bound micro_stop_s f = ltb_ℤ (sub_ℕ (end_of bound f) f.start) (pos micro_stop_s)

abbrev pub starts_here : Window → StopFact → Bool
starts_here w f = leb w.start f.start && ltb f.start w.end

unfoldable pub overlap : Window → List Interval → Instant → StopFact → ℕ
overlap w observed bound f =
    total (intersect (clip ((rel w f.start, rel w (end_of bound f)) ∷ []) 0 (length_s w)) observed)

-- The row of a fact: what it adds to its key's row.
unfoldable pub row_of : By → ℕ → Bool → StopFact → Bucket
row_of by amount here f =
    let one = if here then 1 else 0 in
    let open_cause = not (is_some f.qualified_cause) in
    record {
      key = key_of f by;
      duration_s = amount;
      count = one;
      unqualified_duration_s = if open_cause then amount else 0;
      unqualified_count = if open_cause then one else 0;
    }

-- `totals.setdefault(key, …)` and the additions to its row.
unfoldable pub add_row : Bucket → List Bucket → List Bucket
add_row r [] = r ∷ []
add_row r (b ∷ rows) =
    if same_key r.key b.key
    then record b {
      duration_s = b.duration_s + r.duration_s;
      count = b.count + r.count;
      unqualified_duration_s = b.unqualified_duration_s + r.unqualified_duration_s;
      unqualified_count = b.unqualified_count + r.unqualified_count;
    }
      ∷ rows
    else b ∷ add_row r rows

pub record Totals : Type 0 where
  pub rows : List Bucket
  pub micro_count : ℕ
  pub micro_duration_s : ℕ

-- One round of the loop over the facts.
unfoldable pub add_fact : Window → List Interval → Instant → ℕ → By → Totals → StopFact → Totals
add_fact w observed bound micro_stop_s by t f =
    let amount = overlap w observed bound f in
    let here = starts_here w f in
    if not (is_relevant w bound f)
    then t
    else if is_micro bound micro_stop_s f
    then if here
      then record t {
        micro_count = t.micro_count + 1;
        micro_duration_s = t.micro_duration_s + amount;
      }
      else t
    else record t { rows = add_row (row_of by amount here f) t.rows }

unfoldable pub add_facts :
    Window → List Interval → Instant → ℕ → By → Totals → List StopFact → Totals
add_facts w observed bound micro_stop_s by t [] = t
add_facts w observed bound micro_stop_s by t (f ∷ facts) =
    add_facts w observed bound micro_stop_s by (add_fact w observed bound micro_stop_s by t f) facts

abbrev pub metric_value : Metric → Bucket → ℕ
metric_value duration b = b.duration_s
metric_value count b = b.count

-- The order of `(b.key == UNQUALIFIED, -value(b))`.
abbrev pub before : Metric → Bucket → Bucket → Bool
before metric a b =
    if is_unqualified a.key
    then is_unqualified b.key && leb (metric_value metric b) (metric_value metric a)
    else is_unqualified b.key || leb (metric_value metric b) (metric_value metric a)

abbrev pub no_totals : Totals
no_totals = record { rows = []; micro_count = 0; micro_duration_s = 0 }

unfoldable pub compute_pareto :
    List StopFact → Window → List Gap → By → Metric → ℕ → Option Instant → ParetoResult
compute_pareto facts w gaps by metric micro_stop_s until =
    let bound = bound_of w until in
    let t = add_facts w (observed_intervals w gaps) bound micro_stop_s by no_totals facts in
    record {
      by = by;
      metric = metric;
      buckets = sort_by (before metric) t.rows;
      micro_count = t.micro_count;
      micro_duration_s = t.micro_duration_s;
    }
