-- ===== src/Collector/Pipeline.antt =====
-- The collector's steps: changes to assembler, tracker and watchdog, and what is handed to the store
-- (backend/app/collector/pipeline.py). A step is atomic: other tasks are not interleaved with it.
pub mod LastSeen
use cell_oee_demo.Prelude.{
  ℕ, ◌+◌, ◌-◌, min, max, Bool, true, false, not, ◌&&◌, ◌||◌, Option, none, some, List, [], ◌∷◌,
  ◌++◌, ltb, leb, if◌then◌else◌, filter, sort_by, is_some,
}
use cell_oee_demo.Oee.Types.{Instant}
use cell_oee_demo.Collector.Types.{Tag, RawChange, Group, Op, same_tag}
use cell_oee_demo.Collector.Assembler.{Assembler, feed, poll as poll_groups, flush, oldest_pending}
use cell_oee_demo.Collector.Tracker.{Tracker, apply_all}
use cell_oee_demo.Collector.Watchdog.{
  Watchdog, seed, on_connected, on_heartbeat, poll as poll_watchdog,
}

pub record Collector : Type 0 where
  pub tracker : Tracker
  pub assembler : Assembler
  pub watchdog : Watchdog
  pub first_run : Bool
  pub max_ts : Option Instant
  pub written_ts : Option Instant
  pub last_flush : ℕ
  pub last_seen_flush_s : ℕ

-- One call of `store.apply`: the operations, and the new `last_seen_ts` if there is one.
pub record Batch : Type 0 where
  pub ops : List Op
  pub last_seen : Option Instant

-- `_safe_last_seen`: a microsecond before the oldest change that is still waiting.
unfoldable pub safe_last_seen : Collector → Option Instant
safe_last_seen c = elim c.max_ts [
  | none ↦ none
  | some newest ↦ elim (oldest_pending c.assembler) [
    | none ↦ some newest
    | some oldest ↦ some (min newest (oldest - 1))
  ]
]

abbrev pub is_fresh : Option Instant → Option Instant → Bool
is_fresh written none = false
is_fresh none (some last_seen) = true
is_fresh (some written) (some last_seen) = ltb written last_seen

abbrev pub is_empty : List Op → Bool
is_empty [] = true
is_empty (op ∷ ops) = false

-- The `last_seen_ts` that `_write` writes.
abbrev pub write_seen : Collector → List Op → ℕ → Bool → Option Instant
write_seen c ops now force =
    let last_seen = safe_last_seen c in
    let due = leb (c.last_flush + c.last_seen_flush_s) now in
    if is_fresh c.written_ts last_seen && (not (is_empty ops) || (due || force))
    then last_seen
    else none

abbrev pub written : Collector → Option Instant → ℕ → Collector
written c none now = c
written c (some ts) now = record c { written_ts = some ts; last_flush = now }

-- `_write`, if the store does not raise; `none` if there is nothing to write.
unfoldable pub write : Collector → List Op → ℕ → Bool → Collector × Option Batch
write c ops now force =
    let seen = write_seen c ops now force in
    if is_empty ops && not (is_some seen)
    then (c, none)
    else (written c seen now, some (record { ops = ops; last_seen = seen }))

abbrev pub is_heartbeat : RawChange → Bool
is_heartbeat c = same_tag c.tag Tag.heartbeat

abbrev pub by_ts : RawChange → RawChange → Bool
by_ts a b = leb a.ts b.ts

abbrev pub oldest_of : Instant → List RawChange → Instant
oldest_of ts [] = ts
oldest_of ts (c ∷ changes) = oldest_of (min ts c.ts) changes

abbrev pub newest_of : Instant → List RawChange → Instant
newest_of ts [] = ts
newest_of ts (c ∷ changes) = newest_of (max ts c.ts) changes

abbrev pub newest_seen : Option Instant → Instant → Instant
newest_seen none newest = newest
newest_seen (some ts) newest = max ts newest

-- The loop over the heartbeats of a batch.
unfoldable pub on_heartbeats : Watchdog → List RawChange → ℕ → List Op → Watchdog × List Op
on_heartbeats w [] now ops = (w, ops)
on_heartbeats w (c ∷ beats) now ops =
    let (w', more) = on_heartbeat w c.ts now in on_heartbeats w' beats now (ops ++ more)

-- `_process` of a batch, which is not empty; `none` where the tracker raises.
unfoldable pub process :
    Collector → RawChange → List RawChange → ℕ → Option (Collector × Option Batch)
process c first rest now =
    let batch = first ∷ rest in
    let w₀ = if c.first_run then seed c.watchdog (oldest_of first.ts rest) else c.watchdog in
    let beats = sort_by by_ts (filter is_heartbeat batch) in
    let (w₁, ops₁) = on_heartbeats w₀ beats now [] in
    let (a₁, groups) = feed c.assembler (filter (λ r. not (is_heartbeat r)) batch) now in
    elim (apply_all c.tracker groups ops₁) [
      | none ↦ none
      | some (t₁, ops₂) ↦ some (
          write
            (record c {
              tracker = t₁;
              assembler = a₁;
              watchdog = w₁;
              first_run = false;
              max_ts = some (newest_seen c.max_ts (newest_of first.ts rest));
            })
            ops₂ now false)
    ]

-- One round of `_tick`.
unfoldable pub tick : Collector → ℕ → Option (Collector × Option Batch)
tick c now =
    let (a₁, groups) = poll_groups c.assembler now in
    let (w₁, more) = poll_watchdog c.watchdog now in
    elim (apply_all c.tracker groups []) [
      | none ↦ none
      | some (t₁, ops) ↦
          some (
            write (record c { tracker = t₁; assembler = a₁; watchdog = w₁ }) (ops ++ more) now
              false)
    ]

-- `_drain_on_shutdown`, with the changes that are still queued dropped.
unfoldable pub drain_on_shutdown : Collector → ℕ → Option (Collector × Option Batch)
drain_on_shutdown c now =
    let (a₁, groups) = flush c.assembler in
    elim (apply_all c.tracker groups []) [
      | none ↦ none
      | some (t₁, ops) ↦ some (write (record c { tracker = t₁; assembler = a₁ }) ops now true)
    ]
