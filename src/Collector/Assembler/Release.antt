-- ===== src/Collector/Assembler/Release.antt =====
-- Groups are released in strict order of their timestamps, and nothing is lost.
use cell_oee_demo.Prelude.{
  ℕ, ◌-◌, ◌≤◌, ◌<◌, ◌≡◌, refl, ap, false, Option, none, some, List, [], ◌∷◌, ◌++◌, map, arith, ltb,
  sort_by, insert_by, All, Bool-cases, inl, inr, ◌≢◌,
}
use cell_oee_demo.Oee.Types.{Instant}
use cell_oee_demo.Collector.Types.{Group}
use cell_oee_demo.Collector.Assembler.{Waiting, Assembler, by_ts, release, poll, last_ts}

-- Later than everything released so far.
abbrev pub Later : Option Instant → Instant → Type 0
Later none ts = Unit
Later (some up_to) ts = up_to < ts

-- Different timestamps, all later than everything released.
abbrev pub Fresh : Instant → List Waiting → Type 0
Fresh ts [] = Unit
Fresh ts (w ∷ waiting) = (w.group.ts ≢ ts) × Fresh ts waiting

abbrev pub IsPending : Option Instant → List Waiting → Type 0
IsPending up_to [] = Unit
IsPending up_to (w ∷ waiting) =
    Later up_to w.group.ts
    × Fresh w.group.ts waiting
    × IsPending up_to waiting
    × (w.group.late ≡ false)

abbrev pub IsValid : Assembler → Type 0
IsValid a = IsPending a.released_up_to a.pending

-- Groups in strict order, after what was released.
abbrev pub InOrder : Option Instant → List Group → Type 0
InOrder up_to [] = Unit
InOrder up_to (g ∷ groups) = Later up_to g.ts × InOrder (some g.ts) groups

abbrev Ascending : Option Instant → List Waiting → Type 0
Ascending up_to [] = Unit
Ascending up_to (w ∷ waiting) =
    Later up_to w.group.ts × Ascending (some w.group.ts) waiting × (w.group.late ≡ false)

Later-lt : (up_to : Option Instant) (a b : Instant) → Later up_to a → a < b → Later up_to b
Later-lt none a b h lt = tt
Later-lt (some u) a b h lt = omega arith

insert_by-Ascending :
    (up_to : Option Instant) (w : Waiting) (waiting : List Waiting)
    → Later up_to w.group.ts
    → Fresh w.group.ts waiting
    → (w.group.late ≡ false)
    → Ascending up_to waiting
    → Ascending up_to (insert_by by_ts w waiting)
unfolding insert_by
insert_by-Ascending up_to w [] l f late s = (l, tt, late)
insert_by-Ascending up_to w (x ∷ waiting) l f late s = elim (Bool-cases (by_ts w x)) [
  | inl e ↦ rw e (l, (ground (arith, f.0, e), s.1, s.2), late)
  | inr e ↦
      rw e
        (s.0, insert_by-Ascending (some x.group.ts) w waiting (ground (arith, e)) f.1 late s.1, s.2)
]

Fresh-insert_by :
    (ts : Instant) (w : Waiting) (waiting : List Waiting)
    → w.group.ts ≢ ts
    → Fresh ts waiting
    → Fresh ts (insert_by by_ts w waiting)
unfolding insert_by
Fresh-insert_by ts w [] n f = (n, tt)
Fresh-insert_by ts w (x ∷ waiting) n f = elim (Bool-cases (by_ts w x)) [
  | inl e ↦ rw e (n, f)
  | inr e ↦ rw e (f.0, Fresh-insert_by ts w waiting n f.1)
]

Fresh-sort_by :
    (ts : Instant) (waiting : List Waiting) → Fresh ts waiting → Fresh ts (sort_by by_ts waiting)
unfolding sort_by
Fresh-sort_by ts [] f = tt
Fresh-sort_by ts (w ∷ waiting) f =
    Fresh-insert_by ts w (sort_by by_ts waiting) f.0 (Fresh-sort_by ts waiting f.1)

sort_by-Ascending :
    (up_to : Option Instant) (waiting : List Waiting)
    → IsPending up_to waiting
    → Ascending up_to (sort_by by_ts waiting)
unfolding sort_by
sort_by-Ascending up_to [] p = tt
sort_by-Ascending up_to (w ∷ waiting) p =
    insert_by-Ascending up_to w (sort_by by_ts waiting) p.0 (Fresh-sort_by w.group.ts waiting p.1)
      p.3 (sort_by-Ascending up_to waiting p.2)

Fresh-of_Ascending :
    (ts last : Instant) (waiting : List Waiting)
    → ts ≤ last
    → Ascending (some last) waiting
    → Fresh ts waiting
Fresh-of_Ascending ts last [] h s = tt
Fresh-of_Ascending ts last (w ∷ waiting) h s =
    (omega arith, Fresh-of_Ascending ts w.group.ts waiting (omega arith) s.1)

Ascending-le :
    (up_to : Option Instant) (ts : Instant) (waiting : List Waiting)
    → Later up_to ts
    → Ascending (some ts) waiting
    → Ascending up_to waiting
Ascending-le up_to ts [] h s = tt
Ascending-le up_to ts (w ∷ waiting) h s = (Later-lt up_to ts w.group.ts h s.0, s.1, s.2)

IsPending-of_Ascending :
    (up_to : Option Instant) (waiting : List Waiting)
    → Ascending up_to waiting
    → IsPending up_to waiting
IsPending-of_Ascending up_to [] s = tt
IsPending-of_Ascending up_to (w ∷ waiting) s = (
  s.0,
  Fresh-of_Ascending w.group.ts w.group.ts waiting (omega arith) s.1,
  IsPending-of_Ascending up_to waiting (Ascending-le up_to w.group.ts waiting s.0 s.1),
  s.2,
)

abbrev pub groups_of : List Waiting → List Group
groups_of = map (λ w. w.group)

abbrev pub OnTime : List Group → Type 0
OnTime = All (λ g. g.late ≡ false)

-- A group is released once it has waited for the settling time.
abbrev pub HasSettled : ℕ → ℕ → Waiting → Type 0
HasSettled settle_s now w = settle_s ≤ now - w.arrived

-- The first one that is left has not waited for so long.
abbrev pub IsWaiting : ℕ → ℕ → List Waiting → Type 0
IsWaiting settle_s now [] = Unit
IsWaiting settle_s now (w ∷ waiting) = now - w.arrived < settle_s

-- The waiting groups are those released, which have settled, and then those left.
abbrev pub IsSplit : ℕ → ℕ → List Waiting → List Group → List Waiting → Type 0
IsSplit settle_s now waiting out left =
    (gone : List Waiting) × (waiting ≡ gone ++ left)
    × (out ≡ groups_of gone)
    × All (HasSettled settle_s now) gone
    × IsWaiting settle_s now left

-- What `release` returns, for waiting groups in order.
pub record Released (settle_s now : ℕ) (up_to : Option Instant) (waiting : List Waiting)
    (r : List Group × List Waiting × Option Instant) : Type 0 where
  pub split : IsSplit settle_s now waiting r.0 r.1
  pub in_order : InOrder up_to r.0
  pub on_time : OnTime r.0
  pub left : IsPending r.2 r.1
  pub last : r.2 ≡ last_ts up_to r.0

release-Released :
    (settle_s now : ℕ) (up_to : Option Instant) (waiting : List Waiting)
    → Ascending up_to waiting
    → Released settle_s now up_to waiting (release settle_s now up_to waiting)
unfolding release
release-Released settle_s now up_to [] s = record {
  split = ([], refl, refl, tt, tt);
  in_order = tt;
  on_time = tt;
  left = tt;
  last = refl;
}
release-Released settle_s now up_to (w ∷ waiting) s =
    let ih = release-Released settle_s now (some w.group.ts) waiting s.1 in
    let (gone, whole, out, settled, waits) = ih.split in
    elim (Bool-cases (ltb (now - w.arrived) settle_s)) [
      | inl e ↦ rw e (record {
        split = ([], refl, refl, tt, ground (arith, e));
        in_order = tt;
        on_time = tt;
        left = IsPending-of_Ascending up_to (w ∷ waiting) s;
        last = refl;
      })
      | inr e ↦ rw e (record {
        split =
            (w ∷ gone, ap (◌∷◌ w) whole, ap (◌∷◌ w.group) out, (ground (arith, e), settled), waits);
        in_order = (s.0, ih.in_order);
        on_time = (s.2, ih.on_time);
        left = ih.left;
        last = ih.last;
      })
    ]

-- On a valid assembler, `poll` takes the waiting groups in the order of their timestamps and releases
-- those before the first that has not waited for the settling time: all that are released have waited for
-- so long, and the first that is left, if any, has not. They are released on time, in strict order and
-- after everything released before; the others stay pending, all later than the last one released,
-- which is remembered.
pub poll-Released :
    (a : Assembler) (now : ℕ)
    → IsValid a
    → Released a.settle_s now a.released_up_to
        (sort_by by_ts a.pending)
        ((poll a now).1, (poll a now).0.pending, (poll a now).0.released_up_to)
unfolding poll
poll-Released a now v =
    release-Released a.settle_s now a.released_up_to (sort_by by_ts a.pending)
      (sort_by-Ascending a.released_up_to a.pending v)
