-- ===== src/Simulator/Ready/Queue.antt =====
-- The queue and the tags: what scheduling and publishing keep.
use cell_oee_demo.Prelude.{
  ℕ, ◌≤◌, ◌≡◌, refl, Bool, true, false, Option, none, some, List, [], ◌∷◌, ◌++◌, arith,
  if◌then◌else◌, Bool-cases, inl, inr, any, All, ℤ, pos, negsuc,
}
use cell_oee_demo.Simulator.Valid.{IsForward, Forward}
use cell_oee_demo.Collector.Types.{Tag}
use cell_oee_demo.Simulator.World.{World}
use cell_oee_demo.Simulator.Model.{CellState, TagValue, TagChange, tag_type}
use cell_oee_demo.Simulator.Config.{SimConfig}
use cell_oee_demo.Simulator.Host.{
  Payload, EventKind, Event, Image, before, push, set_tag, set_tags, coerce, is_value,
}
use cell_oee_demo.Simulator.Cell.{Simulation, ◌>>=◌, schedule, publish, after_delay, with_cell}
use cell_oee_demo.Simulator.Ready.{
  Sure, SortedFrom, WayOut, NextBreak, IsKnown, AreKnown, CoreOf, HasBeat, IsFree, HasWay,
}

pub Sure-then {ℓ} :
    {A B : Type ℓ} (P : A → Type 0) (Q : B → Type 0) (o : Option A) (f : A → Option B)
    → Sure P o
    → ((x : A) → P x → Sure Q (f x))
    → Sure Q (o >>= f)
Sure-then P Q none f h k = h
Sure-then P Q (some x) f h k = k x h

pub if-both {ℓ} :
    {A : Type ℓ} (P : A → Type 0) (b : Bool) (x y : A)
    → (b ≡ true → P x)
    → (b ≡ false → P y)
    → P (if b then x else y)
if-both P true x y h k = h refl
if-both P false x y h k = k refl

after_delay-le : (t : ℕ) (d : ℤ) → IsForward d → t ≤ after_delay t d
after_delay-le t (pos n) h = omega arith
after_delay-le t (negsuc n) h = elim h [ ]

module _ (w : World) where
  pub any-push-new :
      (p : Event w → Bool) (e : Event w) (heap : List (Event w))
      → p e ≡ true
      → any p (push w e heap) ≡ true
  unfolding push
  any-push-new p e [] h = rw h
  any-push-new p e (d ∷ heap) h = elim (Bool-cases (before w e d)) [
    | inl b ↦ rw (b, h) refl
    | inr b ↦ let rest = any-push-new p e heap h in rw b (ground arith)
  ]

  any-push-old :
      (p : Event w → Bool) (e : Event w) (heap : List (Event w))
      → any p heap ≡ true
      → any p (push w e heap) ≡ true
  unfolding push
  any-push-old p e [] h = ground arith
  any-push-old p e (d ∷ heap) h = elim (Bool-cases (before w e d)) [
    | inl b ↦ rw b (ground arith)
    | inr b ↦ elim (Bool-cases (p d)) [
      | inl q ↦ rw (b, q) refl
      | inr q ↦ let later = rw q at h in rw (b, q) (any-push-old p e heap later)
    ]
  ]

  push-SortedFrom :
      (t : ℕ) (e : Event w) (heap : List (Event w))
      → SortedFrom w t heap
      → t ≤ e.ts
      → SortedFrom w t (push w e heap)
  unfolding push
  push-SortedFrom t e [] h le = (le, tt)
  push-SortedFrom t e (d ∷ heap) h le = elim (Bool-cases (before w e d)) [
    | inl b ↦ rw b (let earlier : e.ts ≤ d.ts = ground arith in (le, (earlier, h.1)))
    | inr b ↦
        rw b
          (let later : d.ts ≤ e.ts = ground arith in (h.0, push-SortedFrom d.ts e heap h.1 later))
  ]

  push-AreKnown :
      (cfg : SimConfig w) (e : Event w) (heap : List (Event w))
      → IsKnown w cfg e.kind e.payload
      → AreKnown w cfg heap
      → AreKnown w cfg (push w e heap)
  unfolding push
  push-AreKnown cfg e [] k h = (k, tt)
  push-AreKnown cfg e (d ∷ heap) k h = elim (Bool-cases (before w e d)) [
    | inl b ↦ rw b (k, h)
    | inr b ↦ rw b (h.0, push-AreKnown cfg e heap k h.1)
  ]

  pub push-WayOut :
      (state : CellState) (epoch : ℕ) (active : Bool) (e : Event w) (heap : List (Event w))
      → WayOut w state epoch active heap
      → WayOut w state epoch active (push w e heap)
  push-WayOut CellState.producing epoch active e heap h = any-push-old _ e heap h
  push-WayOut CellState.planned_stop epoch active e heap h = h
  push-WayOut CellState.fault epoch active e heap h = any-push-old _ e heap h
  push-WayOut CellState.setup epoch active e heap h = any-push-old _ e heap h
  push-WayOut CellState.starved epoch active e heap h = any-push-old _ e heap h
  push-WayOut CellState.blocked epoch active e heap h = any-push-old _ e heap h
  push-WayOut CellState.manual epoch active e heap h = any-push-old _ e heap h

  pub push-NextBreak :
      (active : Bool) (e : Event w) (heap : List (Event w))
      → NextBreak w active heap
      → NextBreak w active (push w e heap)
  push-NextBreak true e heap h = any-push-old _ e heap h
  push-NextBreak false e heap h = any-push-old _ e heap h

  abbrev AreStamped : ℕ → List (TagChange w) → Type 0
  AreStamped now changes = All (λ (c : TagChange w). c.ts ≡ now) changes

  append-AreStamped :
      (now : ℕ) (changes : List (TagChange w)) (c : TagChange w)
      → AreStamped now changes
      → c.ts ≡ now
      → AreStamped now (changes ++ c ∷ [])
  append-AreStamped now [] c h e = (e, tt)
  append-AreStamped now (d ∷ changes) c h e = (h.0, append-AreStamped now changes c h.1 e)

  set_tags-AreStamped :
      (now : ℕ) (tags : List (Tag × TagValue w)) (out : Image w × List (TagChange w))
      → AreStamped now out.1
      → AreStamped now (set_tags w now tags out).1
  unfolding set_tags set_tag
  set_tags-AreStamped now [] out h = h
  set_tags-AreStamped now ((tag, value) ∷ tags) out h =
      elim (Bool-cases (is_value w (out.0 tag) (coerce w (tag_type tag) value))) [
        | inl b ↦ set_tags-AreStamped now tags (set_tag w now tag value out) (rw b h)
        | inr b ↦
            set_tags-AreStamped now tags (set_tag w now tag value out)
              (rw b (append-AreStamped now out.1 _ h refl))
      ]

  module _ (cfg : SimConfig w) where
    -- A slot whose length and rest are not negative.
    pub slot-CoreOf :
        (slot : ℤ) (len : w.F) (s : Simulation w)
        → IsForward slot
        → Forward w len
        → CoreOf w cfg s
        → CoreOf w cfg (with_cell w (λ c. record c { slot_remaining = slot; slot_len = len }) s)
    slot-CoreOf slot len s f g core = record {
      sorted = core.sorted;
      known = core.known;
      stamped = core.stamped;
      good_bound = core.good_bound;
      scrap_bound = core.scrap_bound;
      beats_bound = core.beats_bound;
      slot_forward = f;
      len_forward = g;
    }

    pub schedule-CoreOf :
        (delay : ℤ) (kind : EventKind) (epoch : Option ℕ) (payload : Payload w) (s : Simulation w)
        → IsForward delay
        → IsKnown w cfg kind payload
        → CoreOf w cfg s
        → CoreOf w cfg (schedule w delay kind epoch payload s)
    unfolding schedule
    schedule-CoreOf delay kind epoch payload s f k core =
        let later = after_delay-le s.now delay f in
        record {
          sorted = push-SortedFrom s.now _ s.heap core.sorted later;
          known = push-AreKnown cfg _ s.heap k core.known;
          stamped = core.stamped;
          good_bound = core.good_bound;
          scrap_bound = core.scrap_bound;
          beats_bound = core.beats_bound;
          slot_forward = core.slot_forward;
          len_forward = core.len_forward;
        }

    pub schedule-HasBeat :
        (delay : ℤ) (kind : EventKind) (epoch : Option ℕ) (payload : Payload w) (s : Simulation w)
        → HasBeat w cfg s
        → HasBeat w cfg (schedule w delay kind epoch payload s)
    unfolding schedule
    schedule-HasBeat delay kind epoch payload s beat = any-push-old _ _ s.heap beat

    pub schedule-IsFree :
        (delay : ℤ) (kind : EventKind) (epoch : Option ℕ) (payload : Payload w) (s : Simulation w)
        → IsForward delay
        → IsKnown w cfg kind payload
        → IsFree w cfg s
        → IsFree w cfg (schedule w delay kind epoch payload s)
    unfolding schedule
    schedule-IsFree delay kind epoch payload s f k (core, beat, (next, window)) = (
      schedule-CoreOf delay kind epoch payload s f k core,
      schedule-HasBeat delay kind epoch payload s beat,
      (push-NextBreak s.cell.break_active _ s.heap next, window),
    )

    pub schedule-HasWay :
        (delay : ℤ) (kind : EventKind) (epoch : Option ℕ) (payload : Payload w) (s : Simulation w)
        → HasWay w cfg s
        → HasWay w cfg (schedule w delay kind epoch payload s)
    unfolding schedule
    schedule-HasWay delay kind epoch payload s h =
        push-WayOut s.cell.state s.cell.epoch s.cell.break_active _ s.heap h

    pub publish-CoreOf :
        (tags : List (Tag × TagValue w)) (s : Simulation w)
        → CoreOf w cfg s
        → CoreOf w cfg (publish w tags s)
    unfolding publish
    publish-CoreOf tags s core = record {
      sorted = core.sorted;
      known = core.known;
      stamped = set_tags-AreStamped s.now tags (s.image, s.changes) core.stamped;
      good_bound = core.good_bound;
      scrap_bound = core.scrap_bound;
      beats_bound = core.beats_bound;
      slot_forward = core.slot_forward;
      len_forward = core.len_forward;
    }

    pub publish-IsFree :
        (tags : List (Tag × TagValue w)) (s : Simulation w)
        → IsFree w cfg s
        → IsFree w cfg (publish w tags s)
    unfolding publish
    publish-IsFree tags s (core, beat, next) = (publish-CoreOf tags s core, beat, next)
