-- ===== src/Oee/Intervals/Algebra.antt =====
-- `complement`, `intersect` and `subtract` of merged lists, as Boolean algebra on points.
use cell_oee_demo.Prelude.{
  ℕ, suc, ◌≤◌, ◌<◌, ◌≡◌, refl, not, ◌&&◌, ◌||◌, List, [], ◌∷◌, ◌++◌, arith, ltb, leb, min, max,
  Bool-cases, inl, inr,
}
use cell_oee_demo.Oee.Intervals.{Interval, push, complement, intersect, subtract_from, subtract}
use cell_oee_demo.Oee.Intervals.Points.{
  inside, covers, IsMerged, IsMerged-le, covers_below, covers-append,
}

covers-push :
    (lo hi : ℕ) (l : List Interval) (t : ℕ)
    → covers (push lo hi l) t ≡ (inside (lo, hi) t || covers l t)
unfolding push
covers-push lo hi l t = ground arith

-- A piece [a, b) goes before a merged list that starts after it, if it is not empty.
push-IsMerged :
    (lo hi a b : ℕ) (l : List Interval)
    → lo ≤ a
    → b ≤ hi
    → (a < b → IsMerged (suc b) hi l)
    → IsMerged lo hi l
    → IsMerged lo hi (push a b l)
unfolding push
push-IsMerged lo hi a b l p q after m = elim (Bool-cases (ltb a b)) [
  | inl e ↦ let lt : a < b = ground (arith, e) in rw e (p, lt, q, after lt)
  | inr e ↦ rw e m
]

IsMerged-append :
    (lo mid hi : ℕ) (l r : List Interval)
    → lo ≤ suc mid
    → mid ≤ hi
    → IsMerged lo mid l
    → IsMerged (suc mid) hi r
    → IsMerged lo hi (l ++ r)
IsMerged-append lo mid hi [] r p q m k = IsMerged-le (suc mid) lo hi r p k
IsMerged-append lo mid hi ((a, b) ∷ l) r p q m k =
    (m.0, m.1, omega arith, IsMerged-append (suc b) mid hi l r (omega arith) q m.3 k)

pub complement-IsMerged :
    (lo hi : ℕ) (l : List Interval) → IsMerged lo hi l → IsMerged lo hi (complement l lo hi)
unfolding complement
complement-IsMerged lo hi [] m =
    push-IsMerged lo hi lo hi [] (omega arith) (omega arith) (λ _. tt) tt
complement-IsMerged lo hi ((a, b) ∷ l) m =
    let cursor : max lo b ≡ b = omega arith in
    let tail = complement-IsMerged b hi l (IsMerged-le (suc b) b hi l (omega arith) m.3) in
    rw cursor (
      push-IsMerged lo hi lo a (complement l b hi) (omega arith) (omega arith)
        (λ _. IsMerged-le b (suc a) hi (complement l b hi) m.1 tail)
        (IsMerged-le b lo hi (complement l b hi) (omega arith) tail))

-- The complement in [lo, hi) covers exactly the other points of [lo, hi).
pub covers-complement :
    (lo hi : ℕ) (l : List Interval) (t : ℕ)
    → IsMerged lo hi l
    → covers (complement l lo hi) t ≡ (inside (lo, hi) t && not (covers l t))
unfolding complement
covers-complement lo hi [] t m = rw covers-push (ground arith)
covers-complement lo hi ((a, b) ∷ l) t m =
    let cursor : max lo b ≡ b = omega arith in
    rw (cursor, covers-push)
      (rw (covers-complement b hi l t (IsMerged-le (suc b) b hi l (omega arith) m.3))
        (ground (arith, covers_below (suc b) hi t l m.3)))

pub intersect-IsMerged :
    (k lo lo' hi : ℕ) (l r : List Interval)
    → k ≤ max lo lo'
    → IsMerged lo hi l
    → IsMerged lo' hi r
    → IsMerged k hi (intersect l r)
unfolding intersect
intersect-IsMerged k lo lo' hi [] r h m n = tt
intersect-IsMerged k lo lo' hi (x ∷ l) [] h m n = tt
intersect-IsMerged k lo lo' hi ((a, b) ∷ l) ((c, d) ∷ r) h m n = elim (Bool-cases (ltb b d)) [
  | inl e ↦
      let lt : b < d = ground (arith, e) in
      rw e (
        push-IsMerged k hi (max a c) (min b d) (intersect l ((c, d) ∷ r)) (omega arith)
          (omega arith)
          (λ p.
            intersect-IsMerged (suc (min b d)) (suc b) c hi l ((c, d) ∷ r) (omega arith) m.3
              (omega arith, n.1, n.2, n.3))
          (intersect-IsMerged k (suc b) c hi l ((c, d) ∷ r) (omega arith) m.3
            (omega arith, n.1, n.2, n.3)))
  | inr e ↦
      let ge : d ≤ b = ground (arith, e) in
      rw e (
        push-IsMerged k hi (max a c) (min b d) (intersect ((a, b) ∷ l) r) (omega arith)
          (omega arith)
          (λ p.
            intersect-IsMerged (suc (min b d)) a (suc d) hi ((a, b) ∷ l) r (omega arith)
              (omega arith, m.1, m.2, m.3) n.3)
          (intersect-IsMerged k a (suc d) hi ((a, b) ∷ l) r (omega arith)
            (omega arith, m.1, m.2, m.3) n.3))
]

-- For two merged lists, the intersection covers exactly the points that both cover.
pub covers-intersect :
    (lo lo' hi : ℕ) (l r : List Interval) (t : ℕ)
    → IsMerged lo hi l
    → IsMerged lo' hi r
    → covers (intersect l r) t ≡ (covers l t && covers r t)
unfolding intersect
covers-intersect lo lo' hi [] r t m n = refl
covers-intersect lo lo' hi (x ∷ l) [] t m n = ground arith
covers-intersect lo lo' hi ((a, b) ∷ l) ((c, d) ∷ r) t m n = elim (Bool-cases (ltb b d)) [
  | inl e ↦
      rw (e, covers-push)
        (rw (covers-intersect (suc b) lo' hi l ((c, d) ∷ r) t m.3 n)
          (ground (arith, e, covers_below (suc b) hi t l m.3, covers_below (suc d) hi t r n.3)))
  | inr e ↦
      rw (e, covers-push)
        (rw (covers-intersect lo (suc d) hi ((a, b) ∷ l) r t m n.3)
          (ground (arith, e, covers_below (suc b) hi t l m.3, covers_below (suc d) hi t r n.3)))
]

subtract_from-IsMerged :
    (k lo hi bot top : ℕ) (holes : List Interval)
    → k ≤ lo
    → IsMerged bot top holes
    → IsMerged k hi (subtract_from lo hi holes)
unfolding subtract_from
subtract_from-IsMerged k lo hi bot top [] h m =
    push-IsMerged k hi lo hi [] h (omega arith) (λ _. tt) tt
subtract_from-IsMerged k lo hi bot top ((a, b) ∷ holes) h m =
    elim (Bool-cases (leb b lo || leb hi a)) [
      | inl e ↦ rw e (subtract_from-IsMerged k lo hi (suc b) top holes h m.3)
      | inr e ↦ rw e (
          push-IsMerged k hi lo a (subtract_from (max lo b) hi holes) h (ground (arith, e))
            (λ _. subtract_from-IsMerged (suc a) (max lo b) hi (suc b) top holes (omega arith) m.3)
            (subtract_from-IsMerged k (max lo b) hi (suc b) top holes (omega arith) m.3))
    ]

covers-subtract_from :
    (lo hi bot top : ℕ) (holes : List Interval) (t : ℕ)
    → IsMerged bot top holes
    → covers (subtract_from lo hi holes) t ≡ (inside (lo, hi) t && not (covers holes t))
unfolding subtract_from
covers-subtract_from lo hi bot top [] t m = rw covers-push (ground arith)
covers-subtract_from lo hi bot top ((a, b) ∷ holes) t m = elim (Bool-cases (leb b lo || leb hi a)) [
  | inl e ↦ rw e (rw (covers-subtract_from lo hi (suc b) top holes t m.3) (ground (arith, e)))
  | inr e ↦
      rw (e, covers-push)
        (rw (covers-subtract_from (max lo b) hi (suc b) top holes t m.3)
          (ground (arith, e, covers_below (suc b) top t holes m.3)))
]

pub subtract-IsMerged :
    (lo hi bot top : ℕ) (l holes : List Interval)
    → IsMerged lo hi l
    → IsMerged bot top holes
    → IsMerged lo hi (subtract l holes)
unfolding subtract
subtract-IsMerged lo hi bot top [] holes m k = tt
subtract-IsMerged lo hi bot top ((a, b) ∷ l) holes m k =
    IsMerged-append lo b hi (subtract_from a b holes) (subtract l holes) (omega arith) m.2
      (subtract_from-IsMerged lo a b bot top holes m.0 k)
      (subtract-IsMerged (suc b) hi bot top l holes m.3 k)

-- For a merged list of holes, the difference covers exactly the points of the first list that no hole
-- covers.
pub covers-subtract :
    (bot top : ℕ) (l holes : List Interval) (t : ℕ)
    → IsMerged bot top holes
    → covers (subtract l holes) t ≡ (covers l t && not (covers holes t))
unfolding subtract
covers-subtract bot top [] holes t m = refl
covers-subtract bot top ((a, b) ∷ l) holes t m = rw covers-append (
    rw (covers-subtract_from a b bot top holes t m, covers-subtract bot top l holes t m)
      (ground arith))
