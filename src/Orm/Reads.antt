-- ===== src/Orm/Reads.antt =====
-- What a query's result says of the table, in the forms that the services' proofs use.
use expertos.Common.{
  ◌≡◌, refl, inl, inr, Bool, true, false, none, some, List, [], ◌∷◌, map, All, In, any, keep,
  any-eq_false, any_of_In, is_some, or_else, if◌then◌else◌, Bool-cases, Option-cases, ap, ◌∙◌,
  subst,
}
use expertos.Orm.{Prisma, Order, change}

pub All-All : {A : Type 0} (Q : A → Type 0) (t : List A) → ((a : A) → Q a) → All Q t
All-All Q [] h = tt
All-All Q (a ∷ t) h = (h a, All-All Q t h)

module _ {Row : Type 0} where
  -- The rows that pass a test, seen from one of them.
  pub In-keep : (p : Row → Bool) (r : Row) (t : List Row) → In r t → p r ≡ true → In r (keep p t)
  In-keep p r [] m h = absurd m
  In-keep p r (s ∷ t) (inl e) h = rw (← e) (rw h (inl refl))
  In-keep p r (s ∷ t) (inr m) h = elim (Bool-cases (p s)) [
    | inl k ↦ rw k (inr (In-keep p r t m h))
    | inr k ↦ rw k (In-keep p r t m h)
  ]

  pub keep-nil : (p : Row → Bool) (t : List Row) → All (λ s. p s ≡ false) t → keep p t ≡ []
  keep-nil p [] h = refl
  keep-nil p (s ∷ t) h = rw (h.0) (keep-nil p t h.1)

  pub keep-change :
      (p : Row → Bool) (f : Row → Row) (t : List Row)
      → ((r : Row) → p r ≡ true → p (f r) ≡ true)
      → keep p (change p f t) ≡ map f (keep p t)
  keep-change p f [] h = refl
  keep-change p f (s ∷ t) h = elim (Bool-cases (p s)) [
    | inl k ↦ rw (k, h s k) (ap (◌∷◌ (f s)) (keep-change p f t h))
    | inr k ↦ rw (k, k) (keep-change p f t h)
  ]

  -- A change of rows that another test does not see, before or after.
  pub keep-change_other :
      (p q : Row → Bool) (f : Row → Row) (t : List Row)
      → ((r : Row) → p r ≡ true → q r ≡ false)
      → ((r : Row) → p r ≡ true → q (f r) ≡ false)
      → keep q (change p f t) ≡ keep q t
  keep-change_other p q f [] h k = refl
  keep-change_other p q f (s ∷ t) h k = elim (Bool-cases (p s)) [
    | inl e ↦ rw (e, h s e, k s e) (keep-change_other p q f t h k)
    | inr e ↦ rw e (elim (Bool-cases (q s)) [
      | inl g ↦ rw g (ap (◌∷◌ s) (keep-change_other p q f t h k))
      | inr g ↦ rw g (keep-change_other p q f t h k)
    ])
  ]

-- `create` in a table whose one key is the uuid that the database draws: no row is like the new one.
module _ (P : Prisma) {Row : Type 0} where
  unfoldable pub create_row : Row → List Row → List Row
  create_row r t = or_else (P.create (λ a b. false) r t) t

  pub create_row-eq : (r : Row) (t : List Row) → create_row r t ≡ r ∷ t
  unfolding create_row
  create_row-eq r t =
      rw (P.create_eq, any-eq_false (λ b. false) t (All-All (λ b. false ≡ false) t (λ b. refl)))
        refl

module _ (P : Prisma) {Row : Type 0} (p : Row → Bool) (o : Order Row) (t : List Row) where
  -- A query finds a row exactly when some row passes its test.
  pub find_first-any : is_some (P.find_first p o t) ≡ any p t
  find_first-any = elim (Option-cases (P.find_first p o t)) [
    | inl e ↦ rw (e, any-eq_false p t (P.find_first_none p o t e))
    | inr (r, e) ↦ let (m, h, _) = P.find_first_some p o t r e in rw (e, any_of_In p r t m h)
  ]

  -- Where one row passes the test, the query finds it.
  pub find_first_only : (r : Row) → keep p t ≡ r ∷ [] → P.find_first p o t ≡ some r
  find_first_only r h = elim (Option-cases (P.find_first p o t)) [
    | inl e ↦ absurd (cc (h, keep-nil p t (P.find_first_none p o t e)))
    | inr (s, e) ↦
        let (m, k, _) = P.find_first_some p o t s e in
        elim (rw h at (In-keep p s t m k)) [
          | inl same ↦ e ∙ ap some same
          | inr none_left ↦ absurd none_left
        ]
  ]

  pub find_first_empty : keep p t ≡ [] → P.find_first p o t ≡ none
  find_first_empty h = elim (Option-cases (P.find_first p o t)) [
    | inl e ↦ e
    | inr (s, e) ↦
        let (m, k, _) = P.find_first_some p o t s e in absurd (rw h at (In-keep p s t m k))
  ]

module _ {Row : Type 0} where
  -- A change that another test does not notice moves inside it.
  pub keep-change_stable :
      (p q : Row → Bool) (f : Row → Row) (t : List Row)
      → ((r : Row) → q (f r) ≡ q r)
      → keep q (change p f t) ≡ change p f (keep q t)
  keep-change_stable p q f [] h = refl
  keep-change_stable p q f (s ∷ t) h = elim (Bool-cases (p s)) [
    | inl e ↦
        rw (e, h s)
          (elim (Bool-cases (q s)) [
            | inl g ↦ rw (g, e) (ap (◌∷◌ (f s)) (keep-change_stable p q f t h))
            | inr g ↦ rw g (keep-change_stable p q f t h)
          ])
    | inr e ↦ rw e (elim (Bool-cases (q s)) [
      | inl g ↦ rw (g, e) (ap (◌∷◌ s) (keep-change_stable p q f t h))
      | inr g ↦ rw g (keep-change_stable p q f t h)
    ])
  ]

  pub change_twice :
      (p : Row → Bool) (f : Row → Row) (t : List Row)
      → ((r : Row) → p (f r) ≡ p r)
      → ((r : Row) → f (f r) ≡ f r)
      → change p f (change p f t) ≡ change p f t
  change_twice p f [] h k = refl
  change_twice p f (s ∷ t) h k = elim (Bool-cases (p s)) [
    | inl e ↦ rw (e, h s, e, k s) (ap (◌∷◌ (f s)) (change_twice p f t h k))
    | inr e ↦ rw (e, e) (ap (◌∷◌ s) (change_twice p f t h k))
  ]

  pub change_none :
      (p : Row → Bool) (f : Row → Row) (t : List Row) → any p t ≡ false → change p f t ≡ t
  change_none p f [] h = refl
  change_none p f (s ∷ t) h = elim (Bool-cases (p s)) [
    | inl e ↦ cc (rw e at h)
    | inr e ↦ rw e (ap (◌∷◌ s) (change_none p f t (rw e at h)))
  ]

  pub In-change :
      (p : Row → Bool) (f : Row → Row) (r : Row) (t : List Row)
      → In r t
      → In (if p r then f r else r) (change p f t)
  In-change p f r [] m = absurd m
  In-change p f r (s ∷ t) (inl e) = inl (rw e refl)
  In-change p f r (s ∷ t) (inr m) = inr (In-change p f r t m)

  pub In-change_hit :
      (p : Row → Bool) (f : Row → Row) (r : Row) (t : List Row)
      → In r t
      → p r ≡ true
      → In (f r) (change p f t)
  In-change_hit p f r t m h = subst (λ x. In x (change p f t)) (rw h refl) (In-change p f r t m)
