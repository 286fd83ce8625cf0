-- ===== src/Orm/Listed.antt =====
-- A database client over plain lists: it meets every law of `Prisma`, and it runs in the tests.
use expertos.Common.{
  ◌≡◌, refl, ◌↔◌, inl, inr, Bool, true, false, not, Option, none, some, List, [], ◌∷◌, All, In,
  All_in, All-of_In, any, keep, length, if◌then◌else◌, leb, arith, Bool-cases,
}
use expertos.Orm.{Prisma, Order, unordered, asc, desc, Precedes, IsOrdered, upserted, change}

pub precedes : {Row : Type 0} → Order Row → Row → Row → Bool
precedes unordered r s = true
precedes (asc key) r s = leb (key r) (key s)
precedes (desc key) r s = leb (key s) (key r)

precedes-true : {Row : Type 0} (o : Order Row) (r s : Row) → precedes o r s ≡ true → Precedes o r s
unfolding precedes
precedes-true unordered r s h = tt
precedes-true (asc key) r s h = ground arith
precedes-true (desc key) r s h = ground arith

precedes-false :
    {Row : Type 0} (o : Order Row) (r s : Row) → precedes o r s ≡ false → Precedes o s r
unfolding precedes
precedes-false unordered r s h = tt
precedes-false (asc key) r s h = ground arith
precedes-false (desc key) r s h = ground arith

Precedes-trans :
    {Row : Type 0} (o : Order Row) (r s : Row) (l : List Row)
    → Precedes o r s
    → All (Precedes o s) l
    → All (Precedes o r) l
Precedes-trans o r s [] h k = tt
Precedes-trans unordered r s (x ∷ l) h k = (tt, Precedes-trans unordered r s l h k.1)
Precedes-trans (asc key) r s (x ∷ l) h k = (omega arith, Precedes-trans (asc key) r s l h k.1)
Precedes-trans (desc key) r s (x ∷ l) h k = (omega arith, Precedes-trans (desc key) r s l h k.1)

pub place : {Row : Type 0} → Order Row → Row → List Row → List Row
place o r [] = r ∷ []
place o r (s ∷ l) = if precedes o r s then r ∷ s ∷ l else s ∷ place o r l

pub sort : {Row : Type 0} → Order Row → List Row → List Row
sort o [] = []
sort o (r ∷ l) = place o r (sort o l)

In-place :
    {Row : Type 0} (o : Order Row) (r x : Row) (l : List Row) → In x (place o r l) ↔ In x (r ∷ l)
unfolding place
In-place o r x [] = ((λ h. h), (λ h. h))
In-place o r x (s ∷ l) =
    let ih = In-place o r x l in
    elim (Bool-cases (precedes o r s)) [
      | inl e ↦ rw e ((λ h. h), (λ h. h))
      | inr e ↦ rw e (
        (λ h. elim h [
          | inl a ↦ inr (inl a)
          | inr b ↦ elim (ih.0 b) [ inl c ↦ inl c | inr d ↦ inr (inr d) ]
        ]),
        (λ h. elim h [
          | inl a ↦ inr (ih.1 (inl a))
          | inr b ↦ elim b [ inl c ↦ inl c | inr d ↦ inr (ih.1 (inr d)) ]
        ]),
      )
    ]

pub In-sort-keep :
    {Row : Type 0} (o : Order Row) (p : Row → Bool) (x : Row) (l : List Row)
    → In x (sort o (keep p l)) ↔ (In x l × (p x ≡ true))
unfolding sort
In-sort-keep o p x [] = ((λ h. absurd h), (λ h. h.0))
In-sort-keep o p x (r ∷ l) =
    let ih = In-sort-keep o p x l in
    elim (Bool-cases (p r)) [
      | inl e ↦ rw e (
        (λ h. elim ((In-place o r x (sort o (keep p l))).0 h) [
          | inl a ↦ (inl a, rw a e)
          | inr b ↦ (inr (ih.0 b).0, (ih.0 b).1)
        ]),
        (λ h.
            (In-place o r x (sort o (keep p l))).1
              (elim h.0 [ inl a ↦ inl a | inr b ↦ inr (ih.1 (b, h.1)) ])),
      )
      | inr e ↦ rw e (
        (λ h. (inr (ih.0 h).0, (ih.0 h).1)),
        (λ h. elim h.0 [ inl a ↦ cc (a, e, h.1) | inr b ↦ ih.1 (b, h.1) ]),
      )
    ]

All-place :
    {Row : Type 0} (Q : Row → Type 0) (o : Order Row) (r : Row) (l : List Row)
    → Q r
    → All Q l
    → All Q (place o r l)
unfolding place
All-place Q o r [] q h = (q, tt)
All-place Q o r (s ∷ l) q h = elim (Bool-cases (precedes o r s)) [
  | inl e ↦ rw e (q, h)
  | inr e ↦ rw e (h.0, All-place Q o r l q h.1)
]

IsOrdered-place :
    {Row : Type 0} (o : Order Row) (r : Row) (l : List Row)
    → IsOrdered o l
    → IsOrdered o (place o r l)
unfolding place
IsOrdered-place o r [] h = (tt, tt)
IsOrdered-place o r (s ∷ l) h = elim (Bool-cases (precedes o r s)) [
  | inl e ↦ rw e ((precedes-true o r s e, Precedes-trans o r s l (precedes-true o r s e) h.0), h)
  | inr e ↦
      rw e (All-place (Precedes o s) o r l (precedes-false o r s e) h.0, IsOrdered-place o r l h.1)
]

pub IsOrdered-sort : {Row : Type 0} (o : Order Row) (l : List Row) → IsOrdered o (sort o l)
unfolding sort
IsOrdered-sort o [] = tt
IsOrdered-sort o (r ∷ l) = IsOrdered-place o r (sort o l) (IsOrdered-sort o l)

Precedes-refl : {Row : Type 0} (o : Order Row) (r : Row) → Precedes o r r
Precedes-refl unordered r = tt
Precedes-refl (asc key) r = omega arith
Precedes-refl (desc key) r = omega arith

pub first : {Row : Type 0} → List Row → Option Row
first [] = none
first (r ∷ l) = some r

pub first-some :
    {Row : Type 0} (o : Order Row) (p : Row → Bool) (t l : List Row) (r : Row)
    → ((x : Row) → In x l ↔ (In x t × (p x ≡ true)))
    → IsOrdered o l
    → first l ≡ some r
    → In r t × (p r ≡ true) × All (λ s. p s ≡ true → Precedes o r s) t
unfolding first
first-some o p t [] r h k e = cc
first-some o p t (x ∷ l) r h k e =
    let same : x ≡ r = ground arith in
    let (m, q) = (h x).0 (inl refl) in
    rw (← same) (
      m,
      q,
      All-of_In t (λ s i. λ ps. elim ((h s).1 (i, ps)) [
        | inl a ↦ rw a (Precedes-refl o x)
        | inr b ↦ All_in (Precedes o x) s l b k.0
      ]),
    )

pub first-none :
    {Row : Type 0} (p : Row → Bool) (t l : List Row)
    → ((x : Row) → In x l ↔ (In x t × (p x ≡ true)))
    → first l ≡ none
    → All (λ s. p s ≡ false) t
unfolding first
first-none p t [] h e =
    All-of_In t (λ s i. elim (Bool-cases (p s)) [ inl q ↦ absurd ((h s).1 (i, q)) | inr q ↦ q ])
first-none p t (x ∷ l) h e = cc

-- Equal at a unique key only if the client says so; the newest row stands first.
unfoldable pub listed : Prisma
unfolding first sort place precedes
listed = record {
  find_first = λ p o t. first (sort o (keep p t));
  find_many = λ p o t. sort o (keep p t);
  count = λ p t. length (keep p t);
  create = λ same r t. if any (same r) t then none else some (r ∷ t);
  update_many = λ p f t. change p f t;
  upsert = λ p new f t. upserted p new f t (first (sort unordered (keep p t)));
  delete_many = λ p t. keep (λ r. not (p r)) t;
  find_first_some = λ p o t r e.
      first-some o p t (sort o (keep p t)) r (λ x. In-sort-keep o p x t)
        (IsOrdered-sort o (keep p t)) e;
  find_first_none = λ p o t e. first-none p t (sort o (keep p t)) (λ x. In-sort-keep o p x t) e;
  find_many_in = λ p o t r. In-sort-keep o p r t;
  find_many_order = λ p o t. IsOrdered-sort o (keep p t);
  count_eq = λ p t. refl;
  create_eq = λ same r t. refl;
  update_many_eq = λ p f t. refl;
  upsert_eq = λ p new f t. refl;
  delete_many_eq = λ p t. refl;
}
