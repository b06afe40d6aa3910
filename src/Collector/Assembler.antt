-- ===== src/Collector/Assembler.antt =====
-- Notifications grouped by SourceTimestamp and released in order
-- (backend/app/collector/assembler.py).
pub mod Release
pub mod Trace
use cell_oee_demo.Prelude.{
  ℕ, ◌-◌, min, Bool, true, false, Option, none, some, List, [], ◌∷◌, ◌++◌, map, ◌==◌, ltb, leb,
  if◌then◌else◌, sort_by,
}
use cell_oee_demo.Oee.Types.{Instant}
use cell_oee_demo.Collector.Types.{RawChange, Group, Values, Tag, TagValue, same_tag}

-- An entry of `_pending` with its entry of `_arrived`.
pub record Waiting : Type 0 where
  pub group : Group
  pub arrived : ℕ

-- The dicts `_pending` and `_arrived` have the same keys, and are only read by key, in sorted order or
-- by their least key: `pending` lists their entries.
pub record Assembler : Type 0 where
  pub settle_s : ℕ
  pub pending : List Waiting
  pub released_up_to : Option Instant

unfoldable pub new_assembler : ℕ → Assembler
new_assembler settle_s = record { settle_s = settle_s; pending = []; released_up_to = none }

-- `values[tag] = value`
unfoldable pub set_value : Tag → TagValue → Values → Values
set_value tag v [] = (tag, v) ∷ []
set_value tag v ((t, w) ∷ values) =
    if same_tag tag t then (t, v) ∷ values else (t, w) ∷ set_value tag v values

abbrev pub add_value : RawChange → Group → Group
add_value c g = record g { values = set_value c.tag c.value g.values }

abbrev pub new_group : RawChange → Bool → Group
new_group c late = record { ts = c.ts; values = (c.tag, c.value) ∷ []; late = late }

-- `late.setdefault(c.ts, Group(c.ts, late=True)).values[c.tag] = c.value`
unfoldable pub add_late : RawChange → List Group → List Group
add_late c [] = new_group c true ∷ []
add_late c (g ∷ groups) = if g.ts == c.ts then add_value c g ∷ groups else g ∷ add_late c groups

-- The same for `_pending`, with the arrival time of a new group.
unfoldable pub add_pending : RawChange → ℕ → List Waiting → List Waiting
add_pending c now [] = record { group = new_group c false; arrived = now } ∷ []
add_pending c now (w ∷ waiting) =
    if w.group.ts == c.ts
    then record w { group = add_value c w.group } ∷ waiting
    else w ∷ add_pending c now waiting

abbrev pub is_released : Option Instant → Instant → Bool
is_released none ts = false
is_released (some up_to) ts = leb ts up_to

-- The loop of `feed`.
unfoldable pub sort_changes : Assembler → List Group → List RawChange → ℕ → Assembler × List Group
sort_changes a late [] now = (a, late)
sort_changes a late (c ∷ changes) now =
    if is_released a.released_up_to c.ts
    then sort_changes a (add_late c late) changes now
    else sort_changes (record a { pending = add_pending c now a.pending }) late changes now

abbrev pub by_ts : Waiting → Waiting → Bool
by_ts a b = leb a.group.ts b.group.ts

abbrev pub group_by_ts : Group → Group → Bool
group_by_ts a b = leb a.ts b.ts

-- The loop of `poll` over the waiting groups in order: what is released, what is left, and the last
-- timestamp released.
unfoldable pub release :
    ℕ → ℕ → Option Instant → List Waiting → List Group × List Waiting × Option Instant
release settle_s now up_to [] = ([], [], up_to)
release settle_s now up_to (w ∷ waiting) =
    let (out, left, last) = release settle_s now (some w.group.ts) waiting in
    if ltb (now - w.arrived) settle_s then ([], w ∷ waiting, up_to) else (w.group ∷ out, left, last)

unfoldable pub poll : Assembler → ℕ → Assembler × List Group
poll a now =
    let (out, left, last) = release a.settle_s now a.released_up_to (sort_by by_ts a.pending) in
    (record a { pending = left; released_up_to = last }, out)

unfoldable pub feed : Assembler → List RawChange → ℕ → Assembler × List Group
feed a changes now =
    let (a₁, late) = sort_changes a [] changes now in
    let (a₂, out) = poll a₁ now in (a₂, sort_by group_by_ts late ++ out)

abbrev pub last_ts : Option Instant → List Group → Option Instant
last_ts up_to [] = up_to
last_ts up_to (g ∷ groups) = last_ts (some g.ts) groups

unfoldable pub flush : Assembler → Assembler × List Group
flush a =
    let out = map (λ w. w.group) (sort_by by_ts a.pending) in
    (record a { pending = []; released_up_to = last_ts a.released_up_to out }, out)

abbrev pub least : Instant → List Waiting → Instant
least ts [] = ts
least ts (w ∷ waiting) = least (min ts w.group.ts) waiting

unfoldable pub oldest_pending : Assembler → Option Instant
oldest_pending a = elim a.pending [ [] ↦ none | w ∷ waiting ↦ some (least w.group.ts waiting) ]
