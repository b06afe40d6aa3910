-- ===== src/Domain.antt =====
-- The vocabulary that the collector, the database and the API share (backend/app/domain.py).
use cell_oee_demo.Prelude.{ℕ, Option, none, some, List, [], ◌∷◌, ◌==◌, if◌then◌else◌}

pub data CellState : Type 0 where
  producing planned_stop fault setup starved blocked manual : CellState

-- `CellState(n)`: `none` where it raises `ValueError`.
unfoldable pub cell_state : ℕ → Option CellState
cell_state n =
    if n == 1
    then some producing
    else if n == 2
    then some planned_stop
    else if n == 3
    then some fault
    else if n == 4
    then some setup
    else if n == 5
    then some starved
    else if n == 6
    then some blocked
    else if n == 7
    then some manual
    else none

-- A station, or the whole cell: the scopes and the origins of stops.
pub data Scope : Type 0 where
  cell op10 op20 op30 : Scope

-- `STATION_OF_ORIGIN.get(origin)`
unfoldable pub station_of_origin : ℕ → Option Scope
station_of_origin n =
    if n == 10
    then some op10
    else if n == 20
    then some op20
    else if n == 30
    then some op30
    else if n == 99
    then some cell
    else none

pub data Cause : Type 0 where
  mechanical_breakdown electrical_breakdown setup_adjustment tool_change : Cause
  missing_parts downstream_saturation quality_issue other : Cause

abbrev pub cause_table : List (ℕ × Cause)
cause_table =
    (101, missing_parts)
    ∷ (102, mechanical_breakdown)
    ∷ (103, other)
    ∷ (201, quality_issue)
    ∷ (202, electrical_breakdown)
    ∷ (203, mechanical_breakdown)
    ∷ (204, mechanical_breakdown)
    ∷ (301, quality_issue)
    ∷ (302, electrical_breakdown)
    ∷ (303, mechanical_breakdown)
    ∷ (900, other)
    ∷ []

abbrev pub cause_or : Cause → ℕ → List (ℕ × Cause) → Cause
cause_or default code [] = default
cause_or default code ((c, cause) ∷ table) =
    if code == c then cause else cause_or default code table

-- `_CAUSE_BY_FAULT.get(fault_code, Cause.OTHER)`
unfoldable pub cause_of_fault : ℕ → Cause
cause_of_fault code = cause_or other code cause_table

-- `_CAUSE_BY_STATE.get(state)`
abbrev pub cause_of_state : CellState → Option Cause
cause_of_state setup = some tool_change
cause_of_state starved = some missing_parts
cause_of_state blocked = some downstream_saturation
cause_of_state manual = some other
cause_of_state producing = none
cause_of_state planned_stop = none
cause_of_state fault = none

-- `suggest_cause`: the outer `none` is a `ValueError` for a number that is no state.
unfoldable pub suggest_cause : ℕ → ℕ → Option (Option Cause)
suggest_cause state fault_code =
    if state == 3
    then some (some (cause_of_fault fault_code))
    else elim (cell_state state) [ none ↦ none | some s ↦ some (cause_of_state s) ]
