-- ===== src/Collector/Types.antt =====
-- What flows through the collector (backend/app/collector/types.py).
use cell_oee_demo.Prelude.{
  ℕ, ◌*◌, ◌/◌, Bool, not, Option, none, some, List, [], ◌∷◌, ◌==◌, if◌then◌else◌,
}
use cell_oee_demo.Domain.{Scope, Cause}
use cell_oee_demo.Oee.Types.{Instant}

pub data Station : Type 0 where
  op10 op20 op30 : Station

-- The tags of the address space, in the order of `ALL_TAGS`.
pub data Tag : Type 0 where
  cell_state cell_mode cell_fault cell_origin : Tag
  good scrap last_cycle tct heartbeat : Tag
  station_state station_fault : Station → Tag
  weld_current weld_points weld_ok : Tag

abbrev pub station_code : Station → ℕ
station_code op10 = 0
station_code op20 = 1
station_code op30 = 2

-- A number for each tag, by which tags are compared.
abbrev pub tag_code : Tag → ℕ
tag_code cell_state = 0
tag_code cell_mode = 1
tag_code cell_fault = 2
tag_code cell_origin = 3
tag_code good = 4
tag_code scrap = 5
tag_code last_cycle = 6
tag_code tct = 7
tag_code heartbeat = 8
tag_code (station_state op10) = 9
tag_code (station_fault op10) = 10
tag_code (station_state op20) = 11
tag_code (station_fault op20) = 12
tag_code (station_state op30) = 13
tag_code (station_fault op30) = 14
tag_code weld_current = 15
tag_code weld_points = 16
tag_code weld_ok = 17

abbrev pub same_tag : Tag → Tag → Bool
same_tag a b = tag_code a == tag_code b

-- `int | float | bool`; a float in thousandths. No value of the address space is negative.
pub data TagValue : Type 0 where
  int : ℕ → TagValue
  real : ℕ → TagValue
  flag : Bool → TagValue

-- `int(value)`, which truncates a float.
abbrev pub to_int : TagValue → ℕ
to_int (int n) = n
to_int (real n) = n / 1000
to_int (flag b) = if b then 1 else 0

-- `float(value)`, in thousandths.
abbrev pub to_float : TagValue → ℕ
to_float (int n) = n * 1000
to_float (real n) = n
to_float (flag b) = if b then 1000 else 0

-- `bool(value)`
abbrev pub to_bool : TagValue → Bool
to_bool (int n) = not (n == 0)
to_bool (real n) = not (n == 0)
to_bool (flag b) = b

pub record RawChange : Type 0 where
  pub tag : Tag
  pub value : TagValue
  pub ts : Instant

abbrev pub Values : Type 0
Values = List (Tag × TagValue)

-- All the tags that changed at one SourceTimestamp; `values` is a dict.
pub record Group : Type 0 where
  pub ts : Instant
  pub values : Values
  pub late : Bool

-- `values.get(tag)`
abbrev pub value_of : Tag → Values → Option TagValue
value_of tag [] = none
value_of tag ((t, v) ∷ values) = if same_tag tag t then some v else value_of tag values

-- The database operations.
pub data Op : Type 0 where
  state_event : Scope → Instant → ℕ → ℕ → Option ℕ → Op
  open_stop : Instant → ℕ → Scope → ℕ → Option Cause → Op
  close_stop : Instant → Instant → Op
  counter_sample : Instant → ℕ → ℕ → ℕ → ℕ → Op
  weld_sample : Instant → ℕ → ℕ → Bool → Op
  open_gap : Instant → Op
  close_gap : Instant → Instant → Op
  closed_gap : Instant → Instant → Op
