-- ===== src/Simulator/Model.antt =====
-- States, faults, origins and tags of the cell (simulator/cell_sim/model.py). The tags are those that the
-- collector subscribes to.
use cell_oee_demo.Prelude.{
  ℕ, ◌%◌, Bool, not, Option, none, some, List, [], ◌∷◌, ◌==◌, if◌then◌else◌, filter,
}
use cell_oee_demo.Domain.{Scope}
use cell_oee_demo.Collector.Types.{
  Tag, cell_state, cell_mode, cell_fault, cell_origin, good, scrap, last_cycle, tct, heartbeat,
  station_state, station_fault, weld_current, weld_points, weld_ok,
}
use cell_oee_demo.Simulator.World.{World}

pub data CellState : Type 0 where
  producing planned_stop fault setup starved blocked manual : CellState

abbrev pub state_code : CellState → ℕ
state_code producing = 1
state_code planned_stop = 2
state_code fault = 3
state_code setup = 4
state_code starved = 5
state_code blocked = 6
state_code manual = 7

pub data Mode : Type 0 where
  auto by_hand : Mode

abbrev pub mode_code : Mode → ℕ
mode_code auto = 1
mode_code by_hand = 2

-- `FAULTS`, without the texts.
abbrev pub faults : List (ℕ × Scope)
faults =
    (101, Scope.op10)
    ∷ (102, Scope.op10)
    ∷ (103, Scope.op10)
    ∷ (201, Scope.op20)
    ∷ (202, Scope.op20)
    ∷ (203, Scope.op20)
    ∷ (204, Scope.op20)
    ∷ (301, Scope.op30)
    ∷ (302, Scope.op30)
    ∷ (303, Scope.op30)
    ∷ (900, Scope.cell)
    ∷ []

module _ {ℓ} {A : Type ℓ} where
  -- A dict with keys of `int`: `get`.
  unfoldable pub lookup : ℕ → List (ℕ × A) → Option A
  lookup key [] = none
  lookup key ((k, x) ∷ rows) = if k == key then some x else lookup key rows

  abbrev pub keys : List (ℕ × A) → List ℕ
  keys [] = []
  keys ((k, x) ∷ rows) = k ∷ keys rows

abbrev pub weld_fault_code : ℕ
weld_fault_code = 201

abbrev pub mtbf_fault_codes : List ℕ
mtbf_fault_codes = filter (λ c. not (c == weld_fault_code)) (keys faults)

-- `StopOrigin`
abbrev pub origin_of_station : Scope → ℕ
origin_of_station Scope.cell = 99
origin_of_station Scope.op10 = 10
origin_of_station Scope.op20 = 20
origin_of_station Scope.op30 = 30

-- `FAULTS[code].station`, with `none` for the KeyError.
unfoldable pub fault_station : ℕ → Option Scope
unfolding lookup
fault_station code = lookup code faults

-- `none` for the KeyError.
unfoldable pub fault_origin : ℕ → Option ℕ
fault_origin code = elim (fault_station code) [
  | none ↦ none
  | some station ↦ some (origin_of_station station)
]

-- `none` for the KeyError of an unknown fault and the ValueError of MANUAL.
unfoldable pub default_origin : CellState → ℕ → Option ℕ
default_origin producing code = some 0
default_origin planned_stop code = some 99
default_origin fault code = fault_origin code
default_origin setup code = some 20
default_origin starved code = some 10
default_origin blocked code = some 30
default_origin manual code = none

-- `0xFFFFFFFF`, as the number of values under the mask.
abbrev pub uint32_range : ℕ
uint32_range = 4294967296

-- `n & UINT32_MASK`
unfoldable pub masked : ℕ → ℕ
masked n = n % uint32_range

pub data TagValue (w : World) : Type 0 where
  int : ℕ → TagValue w
  float : w.F → TagValue w
  flag : Bool → TagValue w

pub data TagType : Type 0 where
  int16 uint32 float boolean : TagType

-- `TAGS`
abbrev pub tag_type : Tag → TagType
tag_type cell_state = int16
tag_type cell_mode = int16
tag_type cell_fault = int16
tag_type cell_origin = int16
tag_type good = uint32
tag_type scrap = uint32
tag_type last_cycle = TagType.float
tag_type tct = TagType.float
tag_type heartbeat = uint32
tag_type (station_state station) = int16
tag_type (station_fault station) = int16
tag_type weld_current = TagType.float
tag_type weld_points = uint32
tag_type weld_ok = boolean

-- `TagChange`
pub record TagChange (w : World) : Type 0 where
  pub ts : ℕ
  pub path : Tag
  pub value : TagValue w
