-- ===== src/Collector/Store/Repeats.antt =====
-- Delivering the same fact twice stores it once.
use cell_oee_demo.Prelude.{
  ◌≡◌, refl, ◌∙◌, Bool, true, false, ◌||◌, Option, none, some, List, [], ◌∷◌, map, any, arith,
  Bool-cases, Option-cases, inl, inr, ◌==◌,
}
use mathlib.Core.Path.{subst}
use cell_oee_demo.Domain.{Scope}
use cell_oee_demo.Oee.Types.{Instant}
use cell_oee_demo.Collector.Types.{
  Op, state_event, open_stop, close_stop, counter_sample, weld_sample, open_gap, close_gap,
  closed_gap,
}
use cell_oee_demo.Collector.Store.{
  Db, EventRow, StopRow, CounterRow, WeldRow, GapRow, is_event, is_open, close_stop_row,
  close_gap_row, checks, change, exec, exec_all, ◌>>=◌,
}

-- Whether there is a row with the key of an operation that inserts one.
abbrev pub is_stored : Op → Db → Bool
is_stored (state_event scope ts _ _ _) db = any (is_event scope ts) db.state_events
is_stored (open_stop start_ts _ _ _ _) db = any (λ r. r.start_ts == start_ts) db.stops
is_stored (close_stop _ _) db = false
is_stored (counter_sample ts _ _ _ _) db = any (λ r. r.ts == ts) db.counter_samples
is_stored (weld_sample ts _ _ _) db = any (λ r. r.ts == ts) db.weld_samples
is_stored (open_gap start_ts) db = any (λ r. r.start_ts == start_ts) db.comm_gaps
is_stored (close_gap _ _) db = false
is_stored (closed_gap start_ts _) db = any (λ r. r.start_ts == start_ts) db.comm_gaps

abbrev pub is_insert : Op → Bool
is_insert (close_stop _ _) = false
is_insert (close_gap _ _) = false
is_insert op = true

-- Closing a row keeps its key.
starts-close_stop_row :
    (ts a b : Instant) (rows : List StopRow)
    → any (λ r. r.start_ts == ts) (map (close_stop_row a b) rows) ≡ any (λ r. r.start_ts == ts) rows
starts-close_stop_row ts a b [] = refl
starts-close_stop_row ts a b (r ∷ rows) = rw (starts-close_stop_row ts a b rows) refl

starts-close_gap_row :
    (ts a b : Instant) (rows : List GapRow)
    → any (λ r. r.start_ts == ts) (map (close_gap_row a b) rows) ≡ any (λ r. r.start_ts == ts) rows
starts-close_gap_row ts a b [] = refl
starts-close_gap_row ts a b (r ∷ rows) = rw (starts-close_gap_row ts a b rows) refl

change-is_stored :
    (db : Db) (op : Op) {db' : Db}
    → is_insert op ≡ true
    → change db op ≡ some db'
    → is_stored op db' ≡ true
unfolding change
change-is_stored db (state_event scope ts _ _ _) i e = ground (arith, i, e)
change-is_stored db (open_stop start_ts _ _ _ _) i e = ground (arith, i, e)
change-is_stored db (close_stop _ _) i e = cc
change-is_stored db (counter_sample ts _ _ _ _) i e = ground (arith, i, e)
change-is_stored db (weld_sample ts _ _ _) i e = ground (arith, i, e)
change-is_stored db (open_gap start_ts) i e = ground (arith, i, e)
change-is_stored db (close_gap _ _) i e = cc
change-is_stored db (closed_gap start_ts _) i e = ground (arith, i, e)

-- No key disappears.
record Grows (db db' : Db) : Type 0 where
  events :
      (scope : Scope) (ts : Instant)
      → any (is_event scope ts) db.state_events ≡ true
      → any (is_event scope ts) db'.state_events ≡ true
  stops :
      (ts : Instant)
      → any (λ r. r.start_ts == ts) db.stops ≡ true
      → any (λ r. r.start_ts == ts) db'.stops ≡ true
  counters :
      (ts : Instant)
      → any (λ r. r.ts == ts) db.counter_samples ≡ true
      → any (λ r. r.ts == ts) db'.counter_samples ≡ true
  welds :
      (ts : Instant)
      → any (λ r. r.ts == ts) db.weld_samples ≡ true
      → any (λ r. r.ts == ts) db'.weld_samples ≡ true
  gaps :
      (ts : Instant)
      → any (λ r. r.start_ts == ts) db.comm_gaps ≡ true
      → any (λ r. r.start_ts == ts) db'.comm_gaps ≡ true

abbrev Grown : Db → Option Db → Type 0
Grown db none = Unit
Grown db (some db') = Grows db db'

Grows-refl : (db : Db) → Grows db db
Grows-refl db = record {
  events = λ scope ts h. h;
  stops = λ ts h. h;
  counters = λ ts h. h;
  welds = λ ts h. h;
  gaps = λ ts h. h;
}

or-true : (a b : Bool) → b ≡ true → (a || b) ≡ true
or-true a b h = ground (arith, h)

-- One table grows, and the others are as they were.
module _ (db : Db) where
  events-Grows :
      (rows : List EventRow)
      → ((scope : Scope) (ts : Instant)
          → any (is_event scope ts) db.state_events ≡ true
          → any (is_event scope ts) rows ≡ true)
      → Grows db (record db { state_events = rows })
  events-Grows rows h = record {
    events = h;
    stops = λ ts e. e;
    counters = λ ts e. e;
    welds = λ ts e. e;
    gaps = λ ts e. e;
  }

  stops-Grows :
      (rows : List StopRow)
      → ((ts : Instant)
          → any (λ r. r.start_ts == ts) db.stops ≡ true
          → any (λ r. r.start_ts == ts) rows ≡ true)
      → Grows db (record db { stops = rows })
  stops-Grows rows h = record {
    events = λ scope ts e. e;
    stops = h;
    counters = λ ts e. e;
    welds = λ ts e. e;
    gaps = λ ts e. e;
  }

  counters-Grows :
      (rows : List CounterRow)
      → ((ts : Instant)
          → any (λ r. r.ts == ts) db.counter_samples ≡ true
          → any (λ r. r.ts == ts) rows ≡ true)
      → Grows db (record db { counter_samples = rows })
  counters-Grows rows h = record {
    events = λ scope ts e. e;
    stops = λ ts e. e;
    counters = h;
    welds = λ ts e. e;
    gaps = λ ts e. e;
  }

  welds-Grows :
      (rows : List WeldRow)
      → ((ts : Instant)
          → any (λ r. r.ts == ts) db.weld_samples ≡ true
          → any (λ r. r.ts == ts) rows ≡ true)
      → Grows db (record db { weld_samples = rows })
  welds-Grows rows h = record {
    events = λ scope ts e. e;
    stops = λ ts e. e;
    counters = λ ts e. e;
    welds = h;
    gaps = λ ts e. e;
  }

  gaps-Grows :
      (rows : List GapRow)
      → ((ts : Instant)
          → any (λ r. r.start_ts == ts) db.comm_gaps ≡ true
          → any (λ r. r.start_ts == ts) rows ≡ true)
      → Grows db (record db { comm_gaps = rows })
  gaps-Grows rows h = record {
    events = λ scope ts e. e;
    stops = λ ts e. e;
    counters = λ ts e. e;
    welds = λ ts e. e;
    gaps = h;
  }

change-Grown : (db : Db) (op : Op) → Grown db (change db op)
unfolding change
change-Grown db (state_event scope ts state fault origin) =
    elim (Bool-cases (any (is_event scope ts) db.state_events)) [
      | inl e ↦ rw e (Grows-refl db)
      | inr e ↦ rw e (events-Grows db _ (λ sc t h. or-true _ _ h))
    ]
change-Grown db (open_stop start_ts state station fault cause) =
    elim (Bool-cases (any (λ r. r.start_ts == start_ts) db.stops)) [
      | inl e ↦ rw e (Grows-refl db)
      | inr e ↦ rw e (elim (Bool-cases (any (λ r. is_open r.end_ts) db.stops)) [
        | inl o ↦ rw o tt
        | inr o ↦ rw o (stops-Grows db _ (λ t h. or-true _ _ h))
      ])
    ]
change-Grown db (close_stop start_ts end_ts) =
    stops-Grows db _ (λ t h. starts-close_stop_row t start_ts end_ts db.stops ∙ h)
change-Grown db (counter_sample ts good scrap tct cycle) =
    elim (Bool-cases (any (λ r. r.ts == ts) db.counter_samples)) [
      | inl e ↦ rw e (Grows-refl db)
      | inr e ↦ rw e (counters-Grows db _ (λ t h. or-true _ _ h))
    ]
change-Grown db (weld_sample ts current points ok) =
    elim (Bool-cases (any (λ r. r.ts == ts) db.weld_samples)) [
      | inl e ↦ rw e (Grows-refl db)
      | inr e ↦ rw e (welds-Grows db _ (λ t h. or-true _ _ h))
    ]
change-Grown db (open_gap start_ts) =
    elim (Bool-cases (any (λ r. r.start_ts == start_ts) db.comm_gaps)) [
      | inl e ↦ rw e (Grows-refl db)
      | inr e ↦ rw e (elim (Bool-cases (any (λ r. is_open r.end_ts) db.comm_gaps)) [
        | inl o ↦ rw o tt
        | inr o ↦ rw o (gaps-Grows db _ (λ t h. or-true _ _ h))
      ])
    ]
change-Grown db (close_gap start_ts end_ts) =
    gaps-Grows db _ (λ t h. starts-close_gap_row t start_ts end_ts db.comm_gaps ∙ h)
change-Grown db (closed_gap start_ts end_ts) =
    elim (Bool-cases (any (λ r. r.start_ts == start_ts) db.comm_gaps)) [
      | inl e ↦ rw e (Grows-refl db)
      | inr e ↦ rw e (gaps-Grows db _ (λ t h. or-true _ _ h))
    ]

exec-Grown : (db : Db) (op : Op) → Grown db (exec db op)
unfolding exec
exec-Grown db op = elim (Bool-cases (checks op)) [
  | inl e ↦ rw (e, exec) (change-Grown db op)
  | inr e ↦ rw (e, exec) tt
]

Grows-is_stored :
    (op : Op) (db db' : Db) → Grows db db' → is_stored op db ≡ true → is_stored op db' ≡ true
Grows-is_stored (state_event scope ts _ _ _) db db' g h = g.events scope ts h
Grows-is_stored (open_stop start_ts _ _ _ _) db db' g h = g.stops start_ts h
Grows-is_stored (close_stop _ _) db db' g h = h
Grows-is_stored (counter_sample ts _ _ _ _) db db' g h = g.counters ts h
Grows-is_stored (weld_sample ts _ _ _) db db' g h = g.welds ts h
Grows-is_stored (open_gap start_ts) db db' g h = g.gaps start_ts h
Grows-is_stored (close_gap _ _) db db' g h = h
Grows-is_stored (closed_gap start_ts _) db db' g h = g.gaps start_ts h

exec_all-is_stored :
    (op : Op) (db : Db) (ops : List Op) {db' : Db}
    → is_stored op db ≡ true
    → exec_all db ops ≡ some db'
    → is_stored op db' ≡ true
unfolding exec_all
exec_all-is_stored op db [] h e = subst (λ o. is_stored op o ≡ true) (ground (arith, e)) h
exec_all-is_stored op db (other ∷ ops) h e = elim (Option-cases (exec db other)) [
  | inl n ↦ absurd (ground (arith, n, e))
  | inr (next, k) ↦
      exec_all-is_stored op next ops
        (Grows-is_stored op db next (subst (Grown db) k (exec-Grown db other)) h)
        (rw (k, ◌>>=◌) at e)
]

-- A row with the key is there: nothing happens.
change_stored : (db : Db) (op : Op) → is_stored op db ≡ true → change db op ≡ some db
unfolding change
change_stored db (state_event scope ts _ _ _) h = rw h refl
change_stored db (open_stop start_ts _ _ _ _) h = rw h refl
change_stored db (close_stop _ _) h = cc
change_stored db (counter_sample ts _ _ _ _) h = rw h refl
change_stored db (weld_sample ts _ _ _) h = rw h refl
change_stored db (open_gap start_ts) h = rw h refl
change_stored db (close_gap _ _) h = cc
change_stored db (closed_gap start_ts _) h = rw h refl

-- What was executed has passed its checks.
exec-checks :
    (db : Db) (op : Op) {db' : Db}
    → exec db op ≡ some db'
    → (checks op ≡ true) × (change db op ≡ some db')
unfolding exec
exec-checks db op e = elim (Bool-cases (checks op)) [
  | inl k ↦ (k, rw (k, exec) at e)
  | inr k ↦ let off = rw (k, exec) at e in absurd (ground (arith, off))
]

exec_stored : (db : Db) (op : Op) → checks op ≡ true → is_stored op db ≡ true → exec db op ≡ some db
unfolding exec
exec_stored db op k h = rw (k, exec) (change_stored db op h)

-- An operation that inserts a row and has been executed once does nothing when it is delivered again,
-- whatever operations were executed in between.
pub exec_again :
    (db : Db) (op : Op) (between : List Op) {db₁ db₂ : Db}
    → is_insert op ≡ true
    → exec db op ≡ some db₁
    → exec_all db₁ between ≡ some db₂
    → exec db₂ op ≡ some db₂
exec_again db op between {db₁} {db₂} i e k =
    let (ok, changed) = exec-checks db op e in
    exec_stored db₂ op ok (exec_all-is_stored op db₁ between (change-is_stored db op i changed) k)
