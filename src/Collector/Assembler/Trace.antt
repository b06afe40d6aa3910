-- ===== src/Collector/Assembler/Trace.antt =====
-- Whatever is fed and polled, what is released on time is in strict order of its timestamps.
use cell_oee_demo.Prelude.{
  ℕ, ◌≡◌, refl, ◌∙◌, sym, true, false, Option, none, some, List, [], ◌∷◌, ◌++◌, arith, ◌==◌,
  sort_by, insert_by, All, Bool-cases, inl, inr, not, filter, ◌≢◌,
}
use cell_oee_demo.Oee.Types.{Instant}
use cell_oee_demo.Collector.Types.{RawChange, Group}
use cell_oee_demo.Collector.Assembler.{
  Waiting, Assembler, new_assembler, add_pending, add_late, is_released, sort_changes, group_by_ts,
  poll, feed, last_ts,
}
use cell_oee_demo.Collector.Assembler.Release.{
  Later, Fresh, IsPending, IsValid, InOrder, OnTime, poll-Released,
}

-- A change that is not late joins a waiting group, or starts one.
Fresh-add_pending :
    (ts : Instant) (c : RawChange) (now : ℕ) (waiting : List Waiting)
    → c.ts ≢ ts
    → Fresh ts waiting
    → Fresh ts (add_pending c now waiting)
unfolding add_pending
Fresh-add_pending ts c now [] n f = (n, tt)
Fresh-add_pending ts c now (w ∷ waiting) n f = elim (Bool-cases (w.group.ts == c.ts)) [
  | inl e ↦ rw e (f.0, f.1)
  | inr e ↦ rw e (f.0, Fresh-add_pending ts c now waiting n f.1)
]

add_pending-IsPending :
    (up_to : Option Instant) (c : RawChange) (now : ℕ) (waiting : List Waiting)
    → Later up_to c.ts
    → IsPending up_to waiting
    → IsPending up_to (add_pending c now waiting)
unfolding add_pending
add_pending-IsPending up_to c now [] l p = (l, tt, tt, refl)
add_pending-IsPending up_to c now (w ∷ waiting) l p = elim (Bool-cases (w.group.ts == c.ts)) [
  | inl e ↦ rw e (p.0, p.1, p.2, p.3)
  | inr e ↦ rw e (
    p.0,
    Fresh-add_pending w.group.ts c now waiting (λ q. ground (arith, e, q)) p.1,
    add_pending-IsPending up_to c now waiting l p.2,
    p.3,
  )
]

Later-of_not_released :
    (up_to : Option Instant) (ts : Instant) → is_released up_to ts ≡ false → Later up_to ts
Later-of_not_released none ts e = tt
Later-of_not_released (some u) ts e = ground (arith, e)

abbrev AreLate : List Group → Type 0
AreLate = All (λ g. g.late ≡ true)

add_late-AreLate : (c : RawChange) (late : List Group) → AreLate late → AreLate (add_late c late)
unfolding add_late
add_late-AreLate c [] h = (refl, tt)
add_late-AreLate c (g ∷ late) h = elim (Bool-cases (g.ts == c.ts)) [
  | inl e ↦ rw e (h.0, h.1)
  | inr e ↦ rw e (h.0, add_late-AreLate c late h.1)
]

-- What `sort_changes` returns.
record Sorted (a : Assembler) (r : Assembler × List Group) : Type 0 where
  valid : IsValid r.0
  released : r.0.released_up_to ≡ a.released_up_to
  are_late : AreLate r.1

sort_changes-Sorted :
    (a : Assembler) (late : List Group) (changes : List RawChange) (now : ℕ)
    → IsValid a
    → AreLate late
    → Sorted a (sort_changes a late changes now)
unfolding sort_changes
sort_changes-Sorted a late [] now v h = record { valid = v; released = refl; are_late = h }
sort_changes-Sorted a late (c ∷ changes) now v h =
    elim (Bool-cases (is_released a.released_up_to c.ts)) [
      | inl e ↦
          rw e (sort_changes-Sorted a (add_late c late) changes now v (add_late-AreLate c late h))
      | inr e ↦
          let ih =
            sort_changes-Sorted (record a { pending = add_pending c now a.pending }) late changes
              now
              (add_pending-IsPending a.released_up_to c now a.pending
                (Later-of_not_released a.released_up_to c.ts e) v)
              h in
          rw e (record { valid = ih.valid; released = ih.released; are_late = ih.are_late })
    ]

-- The calls of `_tick`, one after another.
pub data Call : Type 0 where
  changed : List RawChange → ℕ → Call
  polled : ℕ → Call

-- All groups that a sequence of calls returns.
unfoldable pub run : Assembler → List Call → Assembler × List Group
run a [] = (a, [])
run a (changed changes now ∷ calls) =
    let (a₁, out) = feed a changes now in let (a₂, rest) = run a₁ calls in (a₂, out ++ rest)
run a (polled now ∷ calls) =
    let (a₁, out) = poll a now in let (a₂, rest) = run a₁ calls in (a₂, out ++ rest)

abbrev pub on_time : List Group → List Group
on_time = filter (λ g. not g.late)

on_time-append : (xs ys : List Group) → on_time (xs ++ ys) ≡ on_time xs ++ on_time ys
on_time-append [] ys = refl
on_time-append (g ∷ xs) ys = elim (Bool-cases g.late) [
  | inl e ↦ rw e (on_time-append xs ys)
  | inr e ↦ simp (e, on_time-append xs ys)
]

on_time-OnTime : (xs : List Group) → OnTime xs → on_time xs ≡ xs
on_time-OnTime [] h = refl
on_time-OnTime (g ∷ xs) h = simp (h.0, on_time-OnTime xs h.1)

on_time-AreLate : (xs : List Group) → AreLate xs → on_time xs ≡ []
on_time-AreLate [] h = refl
on_time-AreLate (g ∷ xs) h = rw h.0 (on_time-AreLate xs h.1)

insert_by-AreLate :
    (g : Group) (xs : List Group)
    → (g.late ≡ true)
    → AreLate xs
    → AreLate (insert_by group_by_ts g xs)
unfolding insert_by
insert_by-AreLate g [] l h = (l, tt)
insert_by-AreLate g (x ∷ xs) l h = elim (Bool-cases (group_by_ts g x)) [
  | inl e ↦ rw e (l, h)
  | inr e ↦ rw e (h.0, insert_by-AreLate g xs l h.1)
]

sort_by-AreLate : (xs : List Group) → AreLate xs → AreLate (sort_by group_by_ts xs)
unfolding sort_by
sort_by-AreLate [] h = tt
sort_by-AreLate (g ∷ xs) h =
    insert_by-AreLate g (sort_by group_by_ts xs) h.0 (sort_by-AreLate xs h.1)

InOrder-append :
    (up_to : Option Instant) (xs ys : List Group)
    → InOrder up_to xs
    → InOrder (last_ts up_to xs) ys
    → InOrder up_to (xs ++ ys)
InOrder-append up_to [] ys h k = k
InOrder-append up_to (g ∷ xs) ys h k = (h.0, InOrder-append (some g.ts) xs ys h.1 k)

last_ts-append :
    (up_to : Option Instant) (xs ys : List Group)
    → last_ts up_to (xs ++ ys) ≡ last_ts (last_ts up_to xs) ys
last_ts-append up_to [] ys = refl
last_ts-append up_to (g ∷ xs) ys = last_ts-append (some g.ts) xs ys

-- What one call keeps: the groups released on time follow those released before, and the assembler is
-- left valid, with the last of their timestamps.
record Step (up_to : Option Instant) (r : Assembler × List Group) : Type 0 where
  valid : IsValid r.0
  in_order : InOrder up_to (on_time r.1)
  last : r.0.released_up_to ≡ last_ts up_to (on_time r.1)

Step-from : (u v : Option Instant) (r : Assembler × List Group) → (u ≡ v) → Step u r → Step v r
Step-from u v r e h = rw (sym e) h

poll-Step : (a : Assembler) (now : ℕ) → IsValid a → Step a.released_up_to (poll a now)
poll-Step a now v =
    let h = poll-Released a now v in
    let e = on_time-OnTime (poll a now).1 h.on_time in
    record { valid = h.left; in_order = rw e h.in_order; last = rw e h.last }

feed-Step :
    (a : Assembler) (changes : List RawChange) (now : ℕ)
    → IsValid a
    → Step a.released_up_to (feed a changes now)
unfolding feed
feed-Step a changes now v =
    let s = sort_changes-Sorted a [] changes now v tt in
    let p =
      Step-from (sort_changes a [] changes now).0.released_up_to a.released_up_to
        (poll (sort_changes a [] changes now).0 now) s.released
        (poll-Step (sort_changes a [] changes now).0 now s.valid) in
    let late = sort_by group_by_ts (sort_changes a [] changes now).1 in
    let e = on_time-append late (poll (sort_changes a [] changes now).0 now).1 in
    let f = on_time-AreLate late (sort_by-AreLate (sort_changes a [] changes now).1 s.are_late) in
    record { valid = p.valid; in_order = rw (e, f) p.in_order; last = rw (e, f) p.last }

Step-then :
    (a b : Assembler) (out rest : List Group) (c : Assembler)
    → Step a.released_up_to (b, out)
    → Step b.released_up_to (c, rest)
    → Step a.released_up_to (c, out ++ rest)
Step-then a b out rest c s t = record {
  valid = t.valid;
  in_order = rw (on_time-append out rest) (
      InOrder-append a.released_up_to (on_time out) (on_time rest) s.in_order
        (rw (sym s.last) t.in_order));
  last =
      rw (on_time-append out rest)
        (t.last ∙ rw s.last (sym (last_ts-append a.released_up_to (on_time out) (on_time rest))));
}

run-Step : (a : Assembler) (calls : List Call) → IsValid a → Step a.released_up_to (run a calls)
unfolding run
run-Step a [] v = record { valid = v; in_order = tt; last = refl }
run-Step a (changed changes now ∷ calls) v =
    let s = feed-Step a changes now v in
    Step-then a (feed a changes now).0 (feed a changes now).1 (run (feed a changes now).0 calls).1
      (run (feed a changes now).0 calls).0
      (record { valid = s.valid; in_order = s.in_order; last = s.last })
      (run-Step (feed a changes now).0 calls s.valid)
run-Step a (polled now ∷ calls) v =
    let s = poll-Step a now v in
    Step-then a (poll a now).0 (poll a now).1 (run (poll a now).0 calls).1
      (run (poll a now).0 calls).0
      (record { valid = s.valid; in_order = s.in_order; last = s.last })
      (run-Step (poll a now).0 calls s.valid)

-- From a new assembler, whatever is fed and polled and whenever: the groups that are returned without
-- the flag `late` come in strict order of their timestamps.
pub run-InOrder :
    (settle_s : ℕ) (calls : List Call)
    → InOrder none (on_time (run (new_assembler settle_s) calls).1)
unfolding new_assembler
run-InOrder settle_s calls = (run-Step (new_assembler settle_s) calls tt).in_order
