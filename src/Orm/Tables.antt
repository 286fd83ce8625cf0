-- ===== src/Orm/Tables.antt =====
-- Tables under a change of some of their rows.
use expertos.Common.{
  ◌≤◌, ◌≡◌, refl, inl, inr, Bool, true, false, List, [], ◌∷◌, arith, Bool-cases, ◌∙◌, sym, In, any,
  keep, length, All,
}
use expertos.Orm.{change}
use expertos.Orm.Reads.{In-keep, keep-change_stable}

module _ {Row : Type 0} where
  single : (l : List Row) (x y : Row) → length l ≤ 1 → In x l → In y l → x ≡ y
  single [] x y h m n = absurd m
  single (z ∷ []) x y h (inl a) (inl b) = a ∙ sym b
  single (z ∷ []) x y h (inr a) n = absurd a
  single (z ∷ []) x y h (inl a) (inr b) = absurd b
  single (z ∷ w ∷ l) x y h m n = absurd (omega arith)

  pub only_one :
      (p : Row → Bool) (t : List Row) (x y : Row)
      → length (keep p t) ≤ 1
      → In x t
      → p x ≡ true
      → In y t
      → p y ≡ true
      → x ≡ y
  only_one p t x y h m k n l = single (keep p t) x y h (In-keep p x t m k) (In-keep p y t n l)

  pub length-change :
      (p : Row → Bool) (f : Row → Row) (t : List Row) → length (change p f t) ≡ length t
  length-change p f [] = refl
  length-change p f (x ∷ t) = omega (arith, length-change p f t)

  pub unique-change :
      (p q : Row → Bool) (f : Row → Row) (t : List Row)
      → ((r : Row) → q (f r) ≡ q r)
      → length (keep q t) ≤ 1
      → length (keep q (change p f t)) ≤ 1
  unique-change p q f t h k =
      rw (keep-change_stable p q f t h) (omega (arith, length-change p f (keep q t)))

  -- A property of a changed table, from the rows before.
  pub All-change :
      (Q R : Row → Type 0) (p : Row → Bool) (f : Row → Row) (t s : List Row)
      → ((r : Row) → In r s → Q r → p r ≡ true → R (f r))
      → ((r : Row) → In r s → Q r → p r ≡ false → R r)
      → ((r : Row) → In r t → In r s)
      → All Q t
      → All R (change p f t)
  All-change Q R p f [] s h k i a = tt
  All-change Q R p f (x ∷ t) s h k i a =
      let rest = All-change Q R p f t s h k (λ r m. i r (inr m)) a.1 in
      elim (Bool-cases (p x)) [
        | inl e ↦ rw e (h x (i x (inl refl)) (a.0) e, rest)
        | inr e ↦ rw e (k x (i x (inl refl)) (a.0) e, rest)
      ]

  -- A test that some row passes, after a change of rows that do not pass it.
  pub any-change :
      (p q : Row → Bool) (f : Row → Row) (t s : List Row)
      → ((r : Row) → In r s → p r ≡ true → q r ≡ false)
      → ((r : Row) → In r t → In r s)
      → any q t ≡ true
      → any q (change p f t) ≡ true
  any-change p q f [] s h i a = a
  any-change p q f (x ∷ t) s h i a = elim (Bool-cases (p x)) [
    | inl e ↦
        let miss = h x (i x (inl refl)) e in
        let rest = any-change p q f t s h (λ r m. i r (inr m)) (rw miss at a) in
        rw e (ground (arith, rest))
    | inr e ↦ elim (Bool-cases (q x)) [
      | inl k ↦ rw (e, k) refl
      | inr k ↦ rw (e, k) (any-change p q f t s h (λ r m. i r (inr m)) (rw k at a))
    ]
  ]

  pub any-witness :
      (q : Row → Bool) (t : List Row) → any q t ≡ true → (r : Row) × In r t × (q r ≡ true)
  any-witness q [] a = cc
  any-witness q (x ∷ t) a = elim (Bool-cases (q x)) [
    | inl k ↦ (x, inl refl, k)
    | inr k ↦ let (r, m, h) = any-witness q t (rw k at a) in (r, inr m, h)
  ]

  pub any-stable :
      (p q : Row → Bool) (f : Row → Row) (t : List Row)
      → ((r : Row) → q (f r) ≡ q r)
      → any q (change p f t) ≡ any q t
  any-stable p q f [] h = refl
  any-stable p q f (x ∷ t) h = elim (Bool-cases (p x)) [
    | inl e ↦ rw (e, h x, any-stable p q f t h) refl
    | inr e ↦ rw (e, any-stable p q f t h) refl
  ]
