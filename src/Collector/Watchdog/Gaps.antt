-- ===== src/Collector/Watchdog/Gaps.antt =====
-- The gaps that the watchdog records.
use cell_oee_demo.Prelude.{
  ℕ, ◌+◌, ◌-◌, ◌≤◌, ◌<◌, ◌≡◌, refl, Bool, true, false, Option, none, some, List, [], ◌∷◌, arith,
  Option-cases, Bool-cases, inl, inr, ltb, leb→lt,
}
use cell_oee_demo.Oee.Types.{Instant}
use cell_oee_demo.Collector.Types.{Op, open_gap, close_gap, closed_gap}
use cell_oee_demo.Collector.Watchdog.{
  Watchdog, in_gap, seed, on_connected, on_heartbeat, poll, is_replay, heartbeat_ops, poll_from,
}

-- The calls of the watchdog.
pub data Event : Type 0 where
  seeded : Instant → Event
  connected : ℕ → Event
  heartbeat : Instant → ℕ → Event
  polled : ℕ → Event

abbrev pub step : Watchdog → Event → Watchdog × List Op
step w (seeded ts) = (seed w ts, [])
step w (connected now) = (on_connected w now, [])
step w (heartbeat ts now) = on_heartbeat w ts now
step w (polled now) = poll w now

-- The record of gaps: the open one, and the closed ones, the latest first.
pub record GapLog : Type 0 where
  pub opened : Option Instant
  pub closed : List (Instant × Instant)

abbrev pub close_one : Option Instant → Instant → Instant → GapLog → GapLog
close_one none start end log = log
close_one (some s) start end log = record { opened = none; closed = (start, end) ∷ log.closed }

-- What an operation does to the record.
abbrev pub log_op : GapLog → Op → GapLog
log_op log (open_gap start) = record log { opened = some start }
log_op log (close_gap start end) = close_one log.opened start end log
log_op log (closed_gap start end) = record log { closed = (start, end) ∷ log.closed }
log_op log _ = log

abbrev pub log_ops : GapLog → List Op → GapLog
log_ops log [] = log
log_ops log (op ∷ ops) = log_ops (log_op log op) ops

-- Run the watchdog and keep the record.
abbrev pub run : Watchdog → GapLog → List Event → Watchdog × GapLog
run w log [] = (w, log)
run w log (e ∷ events) = run (step w e).0 (log_ops log (step w e).1) events

-- Proper, disjoint, in order, and none ends after the bound.
abbrev pub EndsInOrder : Instant → List (Instant × Instant) → Type 0
EndsInOrder bound [] = Unit
EndsInOrder bound ((start, end) ∷ gaps) = (start < end) × (end ≤ bound) × EndsInOrder start gaps

-- The record agrees with the watchdog: an open gap starts no later than the last heartbeat, the closed
-- ones are over before it, or before the last heartbeat if none is open.
abbrev pub Agrees : Option Instant → Option Instant → GapLog → Type 0
Agrees none none log = (log.opened ≡ none) × (log.closed ≡ [])
Agrees none (some hb) log = (log.opened ≡ none) × EndsInOrder hb log.closed
Agrees (some start) none log = ⊥
Agrees (some start) (some hb) log =
    (start ≤ hb) × (log.opened ≡ some start) × EndsInOrder start log.closed

abbrev pub IsLog : Watchdog → GapLog → Type 0
IsLog w log = Agrees w.gap_start w.last_hb log

EndsInOrder-le :
    (a b : Instant) (gaps : List (Instant × Instant))
    → EndsInOrder a gaps
    → a ≤ b
    → EndsInOrder b gaps
EndsInOrder-le a b [] h le = tt
EndsInOrder-le a b (x ∷ gaps) h le = (h.0, omega arith, h.2)

heartbeat_Agrees :
    (jump_s : ℕ) (start : Option Instant) (check : Bool) (last : Option Instant) (log : GapLog)
    (ts : Instant)
    → Agrees start last log
    → is_replay last ts ≡ false
    → Agrees none (some ts) (log_ops log (heartbeat_ops jump_s start check last ts))
heartbeat_Agrees jump_s none check none log ts h r = ground arith
heartbeat_Agrees jump_s none check (some hb) log ts h r =
    ground (arith, EndsInOrder-le hb ts log.closed h.1)
heartbeat_Agrees jump_s (some start) check none log ts h r = absurd h
heartbeat_Agrees jump_s (some start) check (some hb) log ts h r =
    rw h.1 (refl, (omega (arith, leb→lt ts hb r), omega arith, h.2))

poll_Agrees :
    (start last : Option Instant) (silent : Bool) (log : GapLog)
    → Agrees start last log
    → (hb : Instant) → poll_from start last silent ≡ some hb
    → Agrees (some hb) last (log_op log (open_gap hb))
poll_Agrees none none silent log h hb e = cc
poll_Agrees none (some last) true log h hb e = ground (arith, e)
poll_Agrees none (some last) false log h hb e = cc
poll_Agrees (some start) last silent log h hb e = cc

seed_Agrees :
    (start last : Option Instant) (log : GapLog) (ts : Instant)
    → Agrees start last log
    → last ≡ none
    → Agrees start (some ts) log
seed_Agrees none none log ts h e = (h.0, rw h.1 tt)
seed_Agrees (some start) none log ts h e = absurd h
seed_Agrees start (some hb) log ts h e = cc

abbrev silent : Watchdog → ℕ → Bool
silent w now = ltb w.timeout_s (now - w.last_change_wall)

poll_quiet :
    (w : Watchdog) (now : ℕ)
    → poll_from w.gap_start w.last_hb (silent w now) ≡ none
    → poll w now ≡ (w, [])
unfolding poll
poll_quiet w now e = rw (e, poll)

poll_opens :
    (w : Watchdog) (now : ℕ) {hb : Instant}
    → poll_from w.gap_start w.last_hb (silent w now) ≡ some hb
    → poll w now ≡ (record w { gap_start = some hb }, open_gap hb ∷ [])
unfolding poll
poll_opens w now e = rw (e, poll)

step-IsLog :
    (w : Watchdog) (log : GapLog) (e : Event)
    → IsLog w log
    → IsLog (step w e).0 (log_ops log (step w e).1)
unfolding seed on_connected on_heartbeat
step-IsLog w log (seeded ts) h = elim (Option-cases w.last_hb) [
  | inl e ↦ rw (e, seed) (seed_Agrees w.gap_start w.last_hb log ts h e)
  | inr (hb, e) ↦ rw (e, seed) h
]
step-IsLog w log (connected now) h = h
step-IsLog w log (heartbeat ts now) h = elim (Bool-cases (is_replay w.last_hb ts)) [
  | inl e ↦ rw e h
  | inr e ↦ rw e (heartbeat_Agrees w.jump_s w.gap_start w.check_jump w.last_hb log ts h e)
]
step-IsLog w log (polled now) h =
    elim (Option-cases (poll_from w.gap_start w.last_hb (silent w now))) [
      | inl e ↦ rw (poll_quiet w now e) h
      | inr (hb, e) ↦
          rw (poll_opens w now e) (poll_Agrees w.gap_start w.last_hb (silent w now) log h hb e)
    ]

-- Whatever sequence of seeds, connections, heartbeats and polls follows, the gaps that the watchdog has
-- recorded are proper intervals, pairwise disjoint and in order; at most one is open, the one that the
-- watchdog holds, and it starts at or after the end of the last closed one and not after the last
-- heartbeat.
pub run-IsLog :
    (w : Watchdog) (log : GapLog) (events : List Event)
    → IsLog w log
    → IsLog (run w log events).0 (run w log events).1
run-IsLog w log [] h = h
run-IsLog w log (e ∷ events) h =
    run-IsLog (step w e).0 (log_ops log (step w e).1) events (step-IsLog w log e h)

-- A loss of communication is recorded exactly: if no gap is open, the last heartbeat was at `hb` and
-- the timeout has passed, then a poll opens a gap at `hb`, a further poll adds nothing, and the next
-- heartbeat, at `ts` after `hb`, closes that gap at `ts` and leaves none open.
pub loss_recorded :
    (w : Watchdog) (hb ts : Instant) (now now' later : ℕ)
    → w.gap_start ≡ none
    → w.last_hb ≡ some hb
    → w.timeout_s < now - w.last_change_wall
    → hb < ts
    → let (w₁, ops₁) = poll w now in
      let (w₂, ops₂) = poll w₁ now' in
      let (w₃, ops₃) = on_heartbeat w₂ ts later in
      (ops₁ ≡ open_gap hb ∷ [])
      × (ops₂ ≡ [])
      × (ops₃ ≡ close_gap hb ts ∷ [])
      × (in_gap w₃ ≡ false)
      × (w₃.last_hb ≡ some ts)
unfolding poll on_heartbeat
loss_recorded w hb ts now now' later g l t h = ground arith

-- The collector was blind: after a connection with no gap open and a last heartbeat known, a later
-- heartbeat more than `jump_s` after the last one records the time between as a closed gap, and one within
-- `jump_s` records none.
pub jump_recorded :
    (w : Watchdog) (hb ts : Instant) (now later : ℕ)
    → w.gap_start ≡ none
    → w.last_hb ≡ some hb
    → hb < ts
    → let ops = (on_heartbeat (on_connected w now) ts later).1 in
      (hb + w.jump_s < ts → ops ≡ closed_gap hb ts ∷ []) × (ts ≤ hb + w.jump_s → ops ≡ [])
unfolding on_connected on_heartbeat
jump_recorded w hb ts now later g l h = ground arith
