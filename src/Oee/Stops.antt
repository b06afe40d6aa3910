-- ===== src/Oee/Stops.antt =====
-- Stop classification (backend/app/oee/stops.py).
use cell_oee_demo.Prelude.{
  ℕ, pos, sub_ℕ, ltb_ℤ, max, none, some, List, [], ◌∷◌, ◌==◌, if◌then◌else◌,
}
use cell_oee_demo.Oee.Types.{
  Instant, StopRecord, ClassifiedStop, StopKind, planned, loss, micro, Result, ok, err,
  producing_stop, ◌>>=◌,
}

abbrev pub planned_stop : ℕ
planned_stop = 2

abbrev pub producing : ℕ
producing = 1

-- An open stop lasts until `until`, or until its start if that is later.
abbrev pub end_of : Instant → StopRecord → Instant
end_of until s = elim s.end [ some end ↦ end | none ↦ max until s.start ]

-- The duration of a stored stop may be negative, and then it is below any threshold.
abbrev pub kind_of : Instant → ℕ → StopRecord → StopKind
kind_of until micro_stop_s s =
    if s.state == planned_stop
    then planned
    else if ltb_ℤ (sub_ℕ (end_of until s) s.start) (pos micro_stop_s)
    then micro
    else loss

abbrev pub classified : Instant → ℕ → StopRecord → ClassifiedStop
classified until micro_stop_s s = record {
  start = s.start;
  end = end_of until s;
  state = s.state;
  kind = kind_of until micro_stop_s s;
}

unfoldable pub classify_stops : List StopRecord → Instant → ℕ → Result (List ClassifiedStop)
classify_stops [] until micro_stop_s = ok []
classify_stops (s ∷ stops) until micro_stop_s =
    let rest = classify_stops stops until micro_stop_s in
    if s.state == producing
    then err producing_stop
    else rest >>= λ out. ok (classified until micro_stop_s s ∷ out)
