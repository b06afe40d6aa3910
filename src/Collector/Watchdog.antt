-- ===== src/Collector/Watchdog.antt =====
-- Heartbeat watchdog (backend/app/collector/watchdog.py).
pub mod Gaps
use cell_oee_demo.Prelude.{
  ℕ, ◌-◌, Bool, true, false, ◌&&◌, Option, none, some, List, [], ◌∷◌, ltb, leb, if◌then◌else◌,
  is_some, not,
}
use cell_oee_demo.Oee.Types.{Instant}
use cell_oee_demo.Collector.Types.{Op, open_gap, close_gap, closed_gap}

-- Wall-clock times are in microseconds, as instants are.
pub record Watchdog : Type 0 where
  pub timeout_s : ℕ
  pub jump_s : ℕ
  pub last_hb : Option Instant
  pub last_change_wall : ℕ
  pub gap_start : Option Instant
  pub check_jump : Bool

-- `HeartbeatWatchdog.__init__`
unfoldable pub new_watchdog : ℕ → ℕ → ℕ → Option Instant → Option Instant → Watchdog
new_watchdog timeout_s now jump_s last_seen_ts open_gap_start = record {
  timeout_s = timeout_s;
  jump_s = jump_s;
  last_hb = last_seen_ts;
  last_change_wall = now;
  gap_start = open_gap_start;
  check_jump = is_some last_seen_ts;
}

abbrev pub in_gap : Watchdog → Bool
in_gap w = is_some w.gap_start

unfoldable pub seed : Watchdog → Instant → Watchdog
seed w first_ts = elim w.last_hb [
  | none ↦ record w { last_hb = some first_ts; check_jump = true }
  | some hb ↦ w
]

unfoldable pub on_connected : Watchdog → ℕ → Watchdog
on_connected w now = record w { last_change_wall = now; check_jump = is_some w.last_hb }

-- Not after the last heartbeat: a replay.
abbrev pub is_replay : Option Instant → Instant → Bool
is_replay none ts = false
is_replay (some hb) ts = leb ts hb

-- The operations of a new heartbeat, from the open gap, `check_jump` and the last heartbeat.
abbrev pub heartbeat_ops : ℕ → Option Instant → Bool → Option Instant → Instant → List Op
heartbeat_ops jump_s (some start) check last ts = close_gap start ts ∷ []
heartbeat_ops jump_s none check none ts = []
heartbeat_ops jump_s none check (some hb) ts =
    if check && ltb jump_s (ts - hb) then closed_gap hb ts ∷ [] else []

unfoldable pub on_heartbeat : Watchdog → Instant → ℕ → Watchdog × List Op
on_heartbeat w ts now = if is_replay w.last_hb ts then (w, []) else (
  record w { gap_start = none; check_jump = false; last_hb = some ts; last_change_wall = now },
  heartbeat_ops w.jump_s w.gap_start w.check_jump w.last_hb ts,
)

-- `poll` when no gap is open and the last heartbeat is known.
abbrev pub poll_from : Option Instant → Option Instant → Bool → Option Instant
poll_from none (some hb) true = some hb
poll_from none (some hb) false = none
poll_from none none silent = none
poll_from (some start) last silent = none

unfoldable pub poll : Watchdog → ℕ → Watchdog × List Op
poll w now =
    let silent = ltb w.timeout_s (now - w.last_change_wall) in
    elim (poll_from w.gap_start w.last_hb silent) [
      | some hb ↦ (record w { gap_start = some hb }, open_gap hb ∷ [])
      | none ↦ (w, [])
    ]
