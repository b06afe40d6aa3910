-- ===== src/Simulator/Host.antt =====
-- What the engine offers to the cell (the Host of simulator/cell_sim/cell.py, implemented in
-- simulator/cell_sim/engine.py): the clock, the queue of events and the image of the tags.
use cell_oee_demo.Prelude.{
  ℕ, Bool, true, false, ◌&&◌, ◌||◌, Option, none, some, List, [], ◌∷◌, ◌++◌, ◌==◌, ltb,
  if◌then◌else◌,
}
use cell_oee_demo.Collector.Types.{Tag, same_tag}
use cell_oee_demo.Simulator.World.{World}
use cell_oee_demo.Simulator.Model.{
  TagValue, int, float, flag, TagType, int16, uint32, boolean, tag_type, TagChange, masked,
}
use cell_oee_demo.Simulator.Faults.{Interruption}

pub data SetupKind : Type 0 where
  dressing cap_change : SetupKind

-- The payload of `stop_end`: which stop ends.
pub data StopKind : Type 0 where
  fault : ℕ → StopKind
  setup : SetupKind → StopKind
  starved blocked manual : StopKind

pub data Payload (w : World) : Type 0 where
  nothing : Payload w
  interruption : Interruption w → Payload w
  stopped : StopKind → Payload w

-- The kinds of events; those of the cell, and those of the fault injection.
pub data EventKind : Type 0 where
  slot_end interrupt stop_end break_start break_end heartbeat : EventKind
  chaos_freeze_start chaos_freeze_end chaos_counter_reset : EventKind

abbrev pub kind_code : EventKind → ℕ
kind_code slot_end = 0
kind_code interrupt = 1
kind_code stop_end = 2
kind_code break_start = 3
kind_code break_end = 4
kind_code heartbeat = 5
kind_code chaos_freeze_start = 6
kind_code chaos_freeze_end = 7
kind_code chaos_counter_reset = 8

pub record Event (w : World) : Type 0 where
  pub ts : ℕ
  pub seq : ℕ
  pub kind : EventKind
  pub epoch : Option ℕ
  pub payload : Payload w

abbrev pub Image : World → Type 0
Image w = Tag → Option (TagValue w)

module _ (w : World) where
  abbrev pub before : Event w → Event w → Bool
  before a b = ltb a.ts b.ts || (a.ts == b.ts && ltb a.seq b.seq)

  -- `heappush`: the heap as the list of its elements in the order of `heappop`.
  unfoldable pub push : Event w → List (Event w) → List (Event w)
  push e [] = e ∷ []
  push e (d ∷ heap) = if before e d then e ∷ d ∷ heap else d ∷ push e heap

  -- `int(value)`
  abbrev pub to_int : TagValue w → ℕ
  to_int (int n) = n
  to_int (float x) = w.trunc x
  to_int (flag b) = if b then 1 else 0

  abbrev pub to_float : TagValue w → w.F
  to_float (int n) = w.real n
  to_float (float x) = x
  to_float (flag b) = if b then w.real 1 else w.real 0

  abbrev pub to_bool : TagValue w → Bool
  to_bool (int n) = ltb 0 n
  to_bool (float x) = if w.eq x (w.real 0) then false else true
  to_bool (flag b) = b

  -- `_coerce`
  unfoldable pub coerce : TagType → TagValue w → TagValue w
  coerce int16 v = int (to_int v)
  coerce uint32 v = int (masked (to_int v))
  coerce TagType.float v = float (to_float v)
  coerce boolean v = flag (to_bool v)

  -- `==` on values of one tag, which have one type.
  abbrev pub same_value : TagValue w → TagValue w → Bool
  same_value (int n) (int m) = n == m
  same_value (float x) (float y) = w.eq x y
  same_value (flag true) (flag b) = b
  same_value (flag false) (flag b) = if b then false else true
  same_value _ _ = false

  abbrev pub is_value : Option (TagValue w) → TagValue w → Bool
  is_value none v = false
  is_value (some old) v = same_value old v

  -- `set_tag`, on the image and the changes.
  unfoldable pub set_tag :
      ℕ → Tag → TagValue w → Image w × List (TagChange w) → Image w × List (TagChange w)
  set_tag now tag value (image, changes) =
      let v = coerce (tag_type tag) value in
      if is_value (image tag) v then (image, changes) else (
        λ t. if same_tag t tag then some v else image t,
        changes ++ record { ts = now; path = tag; value = v } ∷ [],
      )

  -- Several tags, one after another.
  unfoldable pub set_tags :
      ℕ → List (Tag × TagValue w) → Image w × List (TagChange w) → Image w × List (TagChange w)
  set_tags now [] out = out
  set_tags now ((tag, value) ∷ more) out = set_tags now more (set_tag now tag value out)
