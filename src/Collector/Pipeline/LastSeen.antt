-- ===== src/Collector/Pipeline/LastSeen.antt =====
-- What is recorded as seen is processed.
use cell_oee_demo.Prelude.{
  ℕ, ◌+◌, ◌-◌, ◌≤◌, ◌<◌, ◌≡◌, refl, min, Bool, true, false, not, ◌&&◌, ◌||◌, Option, none, some,
  List, [], ◌∷◌, arith, ltb, leb, if◌then◌else◌, Bool-cases, inl, inr, All, is_some,
}
use cell_oee_demo.Oee.Types.{Instant}
use cell_oee_demo.Collector.Types.{Op}
use cell_oee_demo.Collector.Assembler.{Waiting, oldest_pending, least}
use cell_oee_demo.Collector.Pipeline.{
  Collector, Batch, safe_last_seen, is_fresh, is_empty, write_seen, written, write,
}

-- Every waiting change is later.
abbrev pub IsBefore : Instant → List Waiting → Type 0
IsBefore ts = All (λ w. ts < w.group.ts)

least-le : (ts : Instant) (waiting : List Waiting) → least ts waiting ≤ ts
least-le ts [] = omega arith
least-le ts (w ∷ waiting) = omega (arith, least-le (min ts w.group.ts) waiting)

IsBefore-least :
    (ts at : Instant) (waiting : List Waiting) → ts < least at waiting → IsBefore ts waiting
IsBefore-least ts at [] h = tt
IsBefore-least ts at (w ∷ waiting) h = (
  omega (arith, least-le (min at w.group.ts) waiting),
  IsBefore-least ts (min at w.group.ts) waiting h,
)

least-pos :
    (at : Instant) (waiting : List Waiting) → 0 < at → IsBefore 0 waiting → 0 < least at waiting
least-pos at [] h k = h
least-pos at (w ∷ waiting) h k = least-pos (min at w.group.ts) waiting (omega (arith, k.0)) k.1

-- What may be recorded as seen: at most the newest change, and before every waiting one.
abbrev IsSafeFor : Option Instant → List Waiting → Option Instant → Type 0
IsSafeFor newest waiting none = Unit
IsSafeFor none waiting (some ts) = ⊥
IsSafeFor (some newest) waiting (some ts) = (ts ≤ newest) × IsBefore ts waiting

abbrev pub IsSafe : Collector → Option Instant → Type 0
IsSafe c seen = IsSafeFor c.max_ts c.assembler.pending seen

abbrev safe_of : Option Instant → List Waiting → Option Instant
safe_of none waiting = none
safe_of (some newest) [] = some newest
safe_of (some newest) (w ∷ waiting) = some (min newest (least w.group.ts waiting - 1))

safe_of-IsSafeFor :
    (newest : Option Instant) (waiting : List Waiting)
    → IsBefore 0 waiting
    → IsSafeFor newest waiting (safe_of newest waiting)
safe_of-IsSafeFor none waiting h = tt
safe_of-IsSafeFor (some newest) [] h = (omega arith, tt)
safe_of-IsSafeFor (some newest) (w ∷ waiting) h =
    let oldest = least w.group.ts waiting in
    let le = least-le w.group.ts waiting in
    let positive = least-pos w.group.ts waiting h.0 h.1 in
    (
      omega arith,
      (
        omega (arith, le, positive),
        IsBefore-least (min newest (oldest - 1)) w.group.ts waiting (omega (arith, positive)),
      ),
    )

safe_last_seen-eq-safe_of :
    (c : Collector) → safe_last_seen c ≡ safe_of c.max_ts c.assembler.pending
unfolding safe_last_seen oldest_pending
safe_last_seen-eq-safe_of c = ground arith

safe_last_seen-IsSafe :
    (c : Collector) → IsBefore 0 c.assembler.pending → IsSafe c (safe_last_seen c)
safe_last_seen-IsSafe c h =
    rw (safe_last_seen-eq-safe_of c) (safe_of-IsSafeFor c.max_ts c.assembler.pending h)

-- The last timestamp written only grows.
abbrev pub Grows : Option Instant → Option Instant → Type 0
Grows before none = Unit
Grows none (some ts) = Unit
Grows (some before) (some ts) = before < ts

-- What one `_write` does, with or without a batch.
abbrev pub Writes : Collector → List Op → Collector × Option Batch → Type 0
Writes c ops (c', none) = (ops ≡ []) × (c'.written_ts ≡ c.written_ts)
Writes c ops (c', some batch) =
    (batch.ops ≡ ops)
    × IsSafe c batch.last_seen
    × Grows c.written_ts batch.last_seen
    × (is_some batch.last_seen ≡ true → c'.written_ts ≡ batch.last_seen)

-- What is written is what is safe, if it is later than what was written, or nothing.
module _ (newest : Option Instant) (waiting : List Waiting) where
  chosen-IsSafeFor :
      (seen : Option Instant) (wanted : Bool)
      → IsSafeFor newest waiting seen
      → IsSafeFor newest waiting (if wanted then seen else none)
  chosen-IsSafeFor seen true h = h
  chosen-IsSafeFor seen false h = tt

chosen-Grows :
    (before seen : Option Instant) (wanted : Bool)
    → Grows before (if is_fresh before seen && wanted then seen else none)
chosen-Grows none none wanted = tt
chosen-Grows (some before) none wanted = tt
chosen-Grows none (some ts) true = tt
chosen-Grows none (some ts) false = tt
chosen-Grows (some before) (some ts) wanted = elim (Bool-cases (ltb before ts && wanted)) [
  | inl e ↦ rw e (ground (arith, e))
  | inr e ↦ rw e tt
]

-- The rest of `_write`, for the timestamp that it has chosen.
written-Writes :
    (c : Collector) (ops : List Op) (now : ℕ) (seen : Option Instant)
    → IsSafe c seen
    → Grows c.written_ts seen
    → Writes c ops (
        if is_empty ops && not (is_some seen)
        then (c, none)
        else (written c seen now, some (record { ops = ops; last_seen = seen })))
written-Writes c [] now none h g = (refl, refl)
written-Writes c (op ∷ ops) now none h g = (refl, h, g, λ e. absurd (ground (arith, e)))
written-Writes c [] now (some ts) h g = (refl, h, g, λ e. refl)
written-Writes c (op ∷ ops) now (some ts) h g = (refl, h, g, λ e. refl)

-- If no waiting change is of the first instant, `_write` hands over all the operations, whatever is due;
-- the timestamp that it records as seen is at most that of the newest change and before that of every
-- change that still waits, and later than the one recorded before, which it replaces.
pub write-Writes :
    (c : Collector) (ops : List Op) (now : ℕ) (force : Bool)
    → IsBefore 0 c.assembler.pending
    → Writes c ops (write c ops now force)
unfolding write
write-Writes c ops now force h =
    let due = leb (c.last_flush + c.last_seen_flush_s) now in
    let wanted = not (is_empty ops) || (due || force) in
    let seen = safe_last_seen c in
    written-Writes c ops now (write_seen c ops now force)
      (chosen-IsSafeFor c.max_ts c.assembler.pending seen (is_fresh c.written_ts seen && wanted)
        (safe_last_seen-IsSafe c h))
      (chosen-Grows c.written_ts seen wanted)
