-- ===== src/Collector/Store/Recovery/Samples.antt =====
-- The counter samples and the weld samples.
use cell_oee_demo.Prelude.{
  ℕ, ◌<◌, ◌≡◌, refl, ◌∙◌, sym, Bool, false, ◌||◌, Option, none, some, List, [], ◌∷◌, arith, ◌==◌,
  Option-cases, Bool-cases, inl, inr, any, map,
}
use mathlib.Core.Path.{subst}
use cell_oee_demo.Oee.Types.{Instant}
use cell_oee_demo.Collector.Types.{
  Tag, Group, counter_sample, weld_sample, to_int, to_float, to_bool,
}
use cell_oee_demo.Collector.Tracker.{
  Tracker, changes, value, all_four, all_three, is_stored, counter_event, weld_event,
}
use cell_oee_demo.Collector.Store.{Db, CounterRow, WeldRow, change, greatest, greatest_of}
use cell_oee_demo.Collector.Store.Recovery.{Agrees, Commits, Commits-none, change_all_one}

-- A sample that is later than the last one has a new key, and is the last one.
greatest-IsAfter :
    (a : Instant) (o : Option Instant) (ts : Instant)
    → is_stored (greatest (some a) o) ts ≡ false
    → (a < ts) × (is_stored o ts ≡ false)
greatest-IsAfter a none ts h = (ground (arith, h), refl)
greatest-IsAfter a (some b) ts h = (ground (arith, h), ground (arith, h))

greatest_self :
    (o : Option Instant) (ts : Instant) → is_stored o ts ≡ false → greatest (some ts) o ≡ some ts
greatest_self none ts h = refl
greatest_self (some b) ts h = ground (arith, h)

fresh_counter :
    (ts : Instant) (rows : List CounterRow)
    → is_stored (greatest_of (map (λ r. r.ts) rows)) ts ≡ false
    → any (λ r. r.ts == ts) rows ≡ false
fresh_counter ts [] h = refl
fresh_counter ts (r ∷ rows) h =
    let k = greatest-IsAfter r.ts (greatest_of (map (λ r. r.ts) rows)) ts h in
    ground (arith, k.0, fresh_counter ts rows k.1)

fresh_weld :
    (ts : Instant) (rows : List WeldRow)
    → is_stored (greatest_of (map (λ r. r.ts) rows)) ts ≡ false
    → any (λ r. r.ts == ts) rows ≡ false
fresh_weld ts [] h = refl
fresh_weld ts (r ∷ rows) h =
    let k = greatest-IsAfter r.ts (greatest_of (map (λ r. r.ts) rows)) ts h in
    ground (arith, k.0, fresh_weld ts rows k.1)

abbrev with_counter : Db → CounterRow → Db
with_counter db r = record db { counter_samples = r ∷ db.counter_samples }

abbrev with_weld : Db → WeldRow → Db
with_weld db r = record db { weld_samples = r ∷ db.weld_samples }

module _ (t : Tracker) (db : Db) (h : Agrees t db) (ts : Instant) where
  counter-Commits :
      (good scrap tct cycle : ℕ)
      → is_stored t.last_counter_ts ts ≡ false
      → Commits db
          (record t { last_counter_ts = some ts }, counter_sample ts good scrap tct cycle ∷ [])
  unfolding change
  counter-Commits good scrap tct cycle fresh =
      let later = subst (λ o. is_stored o ts ≡ false) h.counter fresh in
      (
        with_counter db (record {
          ts = ts;
          good = good;
          scrap = scrap;
          theoretical_cycle_s = tct;
          last_cycle_s = cycle;
        }),
        change_all_one db (counter_sample ts good scrap tct cycle)
            ∙ rw (fresh_counter ts db.counter_samples later) refl,
        record {
          last_cell = h.last_cell;
          last_station = h.last_station;
          open_known = h.open_known;
          open_stored = h.open_stored;
          started = h.started;
          counter = sym (greatest_self _ ts later);
          weld = h.weld;
          one_gap = h.one_gap;
        },
      )

  weld-Commits :
      (current points : ℕ) (ok : Bool)
      → is_stored t.last_weld_ts ts ≡ false
      → Commits db (record t { last_weld_ts = some ts }, weld_sample ts current points ok ∷ [])
  unfolding change
  weld-Commits current points ok fresh =
      let later = subst (λ o. is_stored o ts ≡ false) h.weld fresh in
      (
        with_weld db
            (record { ts = ts; current_ka = current; points_since_cap_change = points; ok = ok }),
        change_all_one db (weld_sample ts current points ok)
            ∙ rw (fresh_weld ts db.weld_samples later) refl,
        record {
          last_cell = h.last_cell;
          last_station = h.last_station;
          open_known = h.open_known;
          open_stored = h.open_stored;
          started = h.started;
          counter = h.counter;
          weld = sym (greatest_self _ ts later);
          one_gap = h.one_gap;
        },
      )

pub counter_event-Commits :
    (t : Tracker) (g : Group) (db : Db) → Agrees t db → Commits db (counter_event t g)
unfolding counter_event
counter_event-Commits t g db h = elim (Bool-cases (changes g Tag.good || changes g Tag.scrap)) [
  | inr e ↦ rw e (Commits-none db t h)
  | inl e ↦
      rw e
        (elim (Option-cases (
          all_four (value t.latest Tag.good) (value t.latest Tag.scrap) (value t.latest Tag.tct)
            (value t.latest Tag.last_cycle))) [
              | inl n ↦ rw n (Commits-none db t h)
              | inr ((good, scrap, tct, cycle), k) ↦
                  rw k (elim (Bool-cases (is_stored t.last_counter_ts g.ts)) [
                    | inl old ↦ rw old (Commits-none db t h)
                    | inr fresh ↦ rw fresh (
                        counter-Commits t db h g.ts (to_int good) (to_int scrap) (to_float tct)
                          (to_float cycle) fresh)
                  ])
            ])
]

pub weld_event-Commits :
    (t : Tracker) (g : Group) (db : Db) → Agrees t db → Commits db (weld_event t g)
unfolding weld_event
weld_event-Commits t g db h = elim (Bool-cases (changes g Tag.weld_current)) [
  | inr e ↦ rw e (Commits-none db t h)
  | inl e ↦
      rw e
        (elim (Option-cases (
          all_three (value t.latest Tag.weld_current) (value t.latest Tag.weld_points)
            (value t.latest Tag.weld_ok))) [
              | inl n ↦ rw n (Commits-none db t h)
              | inr ((current, points, ok), k) ↦
                  rw k (elim (Bool-cases (is_stored t.last_weld_ts g.ts)) [
                    | inl old ↦ rw old (Commits-none db t h)
                    | inr fresh ↦ rw fresh (
                        weld-Commits t db h g.ts (to_float current) (to_int points) (to_bool ok)
                          fresh)
                  ])
            ])
]
