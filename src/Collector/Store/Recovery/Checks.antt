-- ===== src/Collector/Store/Recovery/Checks.antt =====
-- What the tracker stores passes the checks of the tables, if the values of the tags do.
use cell_oee_demo.Prelude.{
  ℕ, ◌≡◌, refl, sym, Bool, true, ◌&&◌, ◌||◌, Option, none, some, List, [], ◌∷◌, ◌++◌, arith, ◌==◌,
  ltb, leb, Option-cases, Bool-cases, inl, inr, All,
}
use mathlib.Core.Path.{subst}
use cell_oee_demo.Domain.{Scope, suggest_cause, cell_state}
use cell_oee_demo.Oee.Types.{Instant}
use cell_oee_demo.Collector.Types.{
  Station, op10, op20, op30, Tag, TagValue, Group, Op, state_event, station_state, station_fault,
  same_tag, value_of, to_int, to_float,
}
use cell_oee_demo.Collector.Tracker.{
  Tracker, Latest, newer, learn, changes, value, both, is_stale, closing, transition, cell_event,
  scope_of, is_stale_station, station_event, station_events, is_stored, counter_event, weld_event,
  other_events, then_others, apply, apply_all,
}
use cell_oee_demo.Collector.Tracker.Runs.{
  IsReadable, Knows, AreReadable, Runs, learn-Knows, cell_event-Runs, apply-Runs,
  station_event_latest, counter_event_latest,
}
use cell_oee_demo.Collector.Store.{checks, is_state, is_origin, origin_fits, is_smallint, is_uint32}

-- A value of a tag that the tables take: a state of the enum, an origin, a smallint or 32 bits.
abbrev pub fits : Tag → TagValue → Bool
fits Tag.cell_state v = is_state 1 (to_int v)
fits Tag.cell_fault v = is_smallint (to_int v)
fits Tag.cell_origin v = is_origin (to_int v)
fits (station_state st) v = is_state 1 (to_int v)
fits (station_fault st) v = is_smallint (to_int v)
fits Tag.good v = is_uint32 (to_int v)
fits Tag.scrap v = is_uint32 (to_int v)
fits Tag.tct v = ltb 0 (to_float v)
fits Tag.weld_points v = is_uint32 (to_int v)
fits tag v = true

abbrev pub Fits : Tag → Option TagValue → Type 0
Fits tag none = Unit
Fits tag (some v) = fits tag v ≡ true

-- All values that are known, and all that arrive.
abbrev pub KnowsFit : Latest → Type 0
KnowsFit latest = (tag : Tag) → Fits tag (value latest tag)

abbrev pub AllFit : List Group → Type 0
AllFit = All (λ (g : Group). (tag : Tag) → Fits tag (value_of tag g.values))

abbrev pub AllPass : List Op → Type 0
AllPass ops = All (λ op. checks op ≡ true) ops

AllPass-append : (a b : List Op) → AllPass a → AllPass b → AllPass (a ++ b)
AllPass-append [] b h k = k
AllPass-append (op ∷ a) b h k = (h.0, AllPass-append a b h.1 k)

newer-Fits :
    (tag : Tag) (ts : Instant) (known : Option (Instant × TagValue)) (v : TagValue)
    → Fits tag (elim known [ none ↦ none | some (at, w) ↦ some w ])
    → Fits tag (some v)
    → Fits tag (elim (newer ts known v) [ none ↦ none | some (at, w) ↦ some w ])
newer-Fits tag ts none v h k = k
newer-Fits tag ts (some (at, w)) v h k = elim (Bool-cases (leb at ts)) [
  | inl e ↦ rw e k
  | inr e ↦ rw e h
]

learn-KnowsFit :
    (g : Group) (latest : Latest)
    → KnowsFit latest
    → ((tag : Tag) → Fits tag (value_of tag g.values))
    → KnowsFit (learn g latest)
unfolding learn
learn-KnowsFit g latest h k tag = elim (Option-cases (value_of tag g.values)) [
  | inl e ↦ rw (e, value, learn) (h tag)
  | inr (v, e) ↦ elim (Bool-cases (same_tag tag Tag.heartbeat)) [
    | inl b ↦ rw (e, value, learn) (rw b (h tag))
    | inr b ↦
        rw (e, value, learn)
          (rw b (newer-Fits tag g.ts (latest tag) v (h tag) (subst (Fits tag) e (k tag))))
  ]
]

-- What is known of a tag, with its value.
known-fits :
    (latest : Latest) (tag : Tag) (v : TagValue)
    → KnowsFit latest
    → value latest tag ≡ some v
    → fits tag v ≡ true
known-fits latest tag v h e = subst (Fits tag) e (h tag)

both-values :
    (a b : Option TagValue) (s f : ℕ)
    → both a b ≡ some (s, f)
    → (v : TagValue) × (u : TagValue) × (a ≡ some v)
      × (b ≡ some u)
      × (to_int v ≡ s)
      × (to_int u ≡ f)
both-values none b s f e = absurd (ground (arith, e))
both-values (some v) none s f e = absurd (ground (arith, e))
both-values (some v) (some u) s f e = (v, u, refl, refl, ground (arith, e), ground (arith, e))

abbrev pub Passes : Option (Tracker × List Op) → Type 0
Passes none = Unit
Passes (some (t, ops)) = AllPass ops

closing-AllPass : (o : Option Instant) (ts : Instant) → AllPass (closing o ts)
unfolding checks
closing-AllPass none ts = tt
closing-AllPass (some start) ts = (refl, tt)

transition-Passes :
    (t : Tracker) (ts s f o : ℕ)
    → is_state 1 s ≡ true
    → is_smallint f ≡ true
    → is_origin o ≡ true
    → Passes (transition t ts s f o)
unfolding transition checks
transition-Passes t ts s f o st fa og =
    let event : checks (state_event Scope.cell ts s f (some o)) ≡ true = rw (st, fa, og) refl in
    let closed = closing-AllPass t.open_stop_start ts in
    elim (Bool-cases (s == 1)) [
      | inl e ↦ rw e (event, closed)
      | inr e ↦ rw e (elim (Option-cases (suggest_cause s f)) [
        | inl n ↦ rw n tt
        | inr (cause, n) ↦
            let stop : (is_state 2 s && is_smallint f) ≡ true = ground (arith, st, fa, e) in
            rw n (event, AllPass-append (closing t.open_stop_start ts) _ closed (stop, tt))
      ])
    ]

cell_event-Passes : (t : Tracker) (g : Group) → KnowsFit t.latest → Passes (cell_event t g)
unfolding cell_event
cell_event-Passes t g h =
    elim (Bool-cases
      (changes g Tag.cell_state || (changes g Tag.cell_fault || changes g Tag.cell_origin))) [
        | inr e ↦ rw e tt
        | inl e ↦
            rw e
              (elim (Option-cases
                (both (value t.latest Tag.cell_state) (value t.latest Tag.cell_fault))) [
                  | inl n ↦ rw n tt
                  | inr ((s, f), n) ↦ rw n (elim (Option-cases (value t.latest Tag.cell_origin)) [
                    | inl m ↦ rw m tt
                    | inr (o, m) ↦
                        rw m (elim (Bool-cases (is_stale t.last_cell g.ts (s, f, to_int o))) [
                          | inl stale ↦ rw stale tt
                          | inr fresh ↦
                              let (v, u, a, b, sv, fu) =
                                both-values (value t.latest Tag.cell_state)
                                  (value t.latest Tag.cell_fault) s f n in
                              rw fresh (
                                transition-Passes t g.ts s f (to_int o)
                                  (subst (λ k. is_state 1 k ≡ true) sv
                                    (known-fits t.latest Tag.cell_state v h a))
                                  (subst (λ k. is_smallint k ≡ true) fu
                                    (known-fits t.latest Tag.cell_fault u h b))
                                  (known-fits t.latest Tag.cell_origin o h m))
                        ])
                  ])
                ])
      ]

station-checks :
    (st : Station) (s f : ℕ)
    → is_state 1 s ≡ true
    → is_smallint f ≡ true
    → (is_state 1 s && (is_smallint f && origin_fits (scope_of st) none)) ≡ true
station-checks op10 s f h k = rw (h, k) refl
station-checks op20 s f h k = rw (h, k) refl
station-checks op30 s f h k = rw (h, k) refl

station_event-AllPass :
    (t : Tracker) (g : Group) (st : Station) → KnowsFit t.latest → AllPass (station_event t g st).1
unfolding station_event checks
station_event-AllPass t g st h =
    elim (Bool-cases (changes g (station_state st) || changes g (station_fault st))) [
      | inr e ↦ rw e tt
      | inl e ↦
          rw e
            (elim (Option-cases
              (both (value t.latest (station_state st)) (value t.latest (station_fault st)))) [
                | inl n ↦ rw n tt
                | inr ((s, f), n) ↦
                    rw n (elim (Bool-cases (is_stale_station (t.last_station st) g.ts (s, f))) [
                      | inl stale ↦ rw stale tt
                      | inr fresh ↦
                          let (v, u, a, b, sv, fu) =
                            both-values (value t.latest (station_state st))
                              (value t.latest (station_fault st)) s f n in
                          let state =
                            subst (λ k. is_state 1 k ≡ true) sv
                              (known-fits t.latest (station_state st) v h a) in
                          let fault =
                            subst (λ k. is_smallint k ≡ true) fu
                              (known-fits t.latest (station_fault st) u h b) in
                          rw fresh (station-checks st s f state fault, tt)
                    ])
              ])
    ]

counter_event-AllPass :
    (t : Tracker) (g : Group) → KnowsFit t.latest → AllPass (counter_event t g).1
unfolding counter_event checks
counter_event-AllPass t g h = elim (Bool-cases (changes g Tag.good || changes g Tag.scrap)) [
  | inr e ↦ rw e tt
  | inl e ↦ rw e (elim (Option-cases (value t.latest Tag.good)) [
    | inl n ↦ rw n tt
    | inr (a, n) ↦ elim (Option-cases (value t.latest Tag.scrap)) [
      | inl m ↦ rw (n, m) tt
      | inr (b, m) ↦ elim (Option-cases (value t.latest Tag.tct)) [
        | inl l ↦ rw (n, m, l) tt
        | inr (c, l) ↦ elim (Option-cases (value t.latest Tag.last_cycle)) [
          | inl k ↦ rw (n, m, l, k) tt
          | inr (d, k) ↦
              rw (n, m, l, k)
                (elim (Bool-cases (is_stored t.last_counter_ts g.ts)) [
                  | inl stored ↦ rw stored tt
                  | inr fresh ↦
                      let good = known-fits t.latest Tag.good a h n in
                      let scrap = known-fits t.latest Tag.scrap b h m in
                      let tct = known-fits t.latest Tag.tct c h l in
                      rw fresh (rw (good, scrap, tct) refl, tt)
                ])
        ]
      ]
    ]
  ])
]

weld_event-AllPass : (t : Tracker) (g : Group) → KnowsFit t.latest → AllPass (weld_event t g).1
unfolding weld_event checks
weld_event-AllPass t g h = elim (Bool-cases (changes g Tag.weld_current)) [
  | inr e ↦ rw e tt
  | inl e ↦ rw e (elim (Option-cases (value t.latest Tag.weld_current)) [
    | inl n ↦ rw n tt
    | inr (a, n) ↦ elim (Option-cases (value t.latest Tag.weld_points)) [
      | inl m ↦ rw (n, m) tt
      | inr (b, m) ↦ elim (Option-cases (value t.latest Tag.weld_ok)) [
        | inl l ↦ rw (n, m, l) tt
        | inr (c, l) ↦
            rw (n, m, l)
              (elim (Bool-cases (is_stored t.last_weld_ts g.ts)) [
                | inl stored ↦ rw stored tt
                | inr fresh ↦ rw fresh (known-fits t.latest Tag.weld_points b h m, tt)
              ])
      ]
    ]
  ])
]

other_events-AllPass : (t : Tracker) (g : Group) → KnowsFit t.latest → AllPass (other_events t g).1
unfolding other_events station_events
other_events-AllPass t g h =
    let (t₁, a) = station_event t g op10 in
    let (t₂, b) = station_event t₁ g op20 in
    let (t₃, c) = station_event t₂ g op30 in
    let (t₄, d) = counter_event t₃ g in
    let (t₅, e) = weld_event t₄ g in
    let h₁ = subst KnowsFit (sym (station_event_latest t g op10)) h in
    let h₂ = subst KnowsFit (sym (station_event_latest t₁ g op20)) h₁ in
    let h₃ = subst KnowsFit (sym (station_event_latest t₂ g op30)) h₂ in
    let h₄ = subst KnowsFit (sym (counter_event_latest t₃ g)) h₃ in
    AllPass-append (a ++ (b ++ c)) (d ++ e)
      (AllPass-append a (b ++ c) (station_event-AllPass t g op10 h) (
        AllPass-append b c (station_event-AllPass t₁ g op20 h₁)
          (station_event-AllPass t₂ g op30 h₂)))
      (AllPass-append d e (counter_event-AllPass t₃ g h₃) (weld_event-AllPass t₄ g h₄))

then_others-Passes :
    (latest : Latest) (g : Group) (r : Option (Tracker × List Op))
    → KnowsFit latest
    → Runs latest r
    → Passes r
    → Passes (then_others g r)
then_others-Passes latest g none h l k = tt
then_others-Passes latest g (some (t, ops)) h l k =
    AllPass-append ops (other_events t g).1 k (other_events-AllPass t g (subst KnowsFit (sym l) h))

apply-Passes :
    (t : Tracker) (g : Group)
    → Knows (learn g t.latest)
    → KnowsFit (learn g t.latest)
    → Passes (apply t g)
unfolding apply
apply-Passes t g k h =
    let known : Tracker = record t { latest = learn g t.latest } in
    then_others-Passes known.latest g (cell_event known g) h (cell_event-Runs known g k)
      (cell_event-Passes known g h)

-- All that is stored passes its checks.
pub apply_all-Passes :
    (t : Tracker) (groups : List Group) (ops : List Op)
    → Knows t.latest
    → AreReadable groups
    → KnowsFit t.latest
    → AllFit groups
    → AllPass ops
    → Passes (apply_all t groups ops)
unfolding apply_all
apply_all-Passes t [] ops k r h a p = p
apply_all-Passes t (g ∷ groups) ops k r h a p =
    let knows = learn-Knows g t.latest k r.0 in
    let fit = learn-KnowsFit g t.latest h a.0 in
    let runs = apply-Runs t g knows in
    let passes = apply-Passes t g knows fit in
    elim (Option-cases (apply t g)) [
      | inl e ↦ rw (e, apply_all) tt
      | inr ((t', more), e) ↦
          let same = sym (subst (Runs (learn g t.latest)) e runs) in
          rw (e, apply_all)
            (apply_all-Passes t' groups (ops ++ more) (subst Knows same knows) r.1
              (subst KnowsFit same fit) a.1 (AllPass-append ops more p (subst Passes e passes)))
    ]

state-IsReadable : (o : Option TagValue) → Fits Tag.cell_state o → IsReadable o
unfolding cell_state
state-IsReadable none h = tt
state-IsReadable (some v) h = ground (arith, h)

pub AllFit-AreReadable : (groups : List Group) → AllFit groups → AreReadable groups
AllFit-AreReadable [] h = tt
AllFit-AreReadable (g ∷ groups) h = (
  state-IsReadable (value_of Tag.cell_state g.values) (h.0 Tag.cell_state),
  AllFit-AreReadable groups h.1,
)

pub KnowsFit-Knows : (latest : Latest) → KnowsFit latest → Knows latest
KnowsFit-Knows latest h = state-IsReadable (value latest Tag.cell_state) (h Tag.cell_state)
