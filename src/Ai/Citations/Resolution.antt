-- ===== src/Ai/Citations/Resolution.antt =====
-- What the loops over the markers collect (prompt/citations.ts).
use expertos.Common.{
  ℕ, suc, zero, ◌-◌, ◌≡◌, refl, ◌∙◌, inl, inr, Bool, true, false, not, ◌&&◌, ◌||◌, some, List, [],
  ◌∷◌, ◌++◌, All, any, arith, leb, ◌==◌, ==_iff, length, Bool-cases,
}
use expertos.Ai.Citations.{
  CitationSource, ResolvedCitation, Segment, prose, marker, source_at, resolved, has_ordinal,
  is_resolvable, refer, note_number,
}

-- The number stands in some marker.
abbrev pub mentions : ℕ → Segment → Bool
mentions n (prose text) = false
mentions n (marker group numbers) = any (λ k. k == n) numbers

-- A citation is the source at its place.
pub record IsResolved (sources : List CitationSource) (c : ResolvedCitation) : Type 0 where
  pub source : CitationSource
  pub at_place : source_at (c.ordinal - 1) sources ≡ some source
  pub in_range : is_resolvable c.ordinal sources ≡ true
  pub is_source : c ≡ resolved c.ordinal source

-- The ordinals differ.
abbrev pub Distinct : List ResolvedCitation → Type 0
Distinct [] = Unit
Distinct (c ∷ cs) = (has_ordinal c.ordinal cs ≡ false) × Distinct cs

module _ (sources : List CitationSource) where
  -- The collection: each citation is resolved, and no ordinal stands twice.
  pub record IsSound (cs : List ResolvedCitation) : Type 0 where
    pub all_resolved : All (IsResolved sources) cs
    pub distinct : Distinct cs

  source_in_range :
      (i : ℕ) (ss : List CitationSource)
      → leb (suc i) (length ss) ≡ true
      → (s : CitationSource) × (source_at i ss ≡ some s)
  source_in_range i [] h = absurd (ground arith)
  source_in_range zero (s ∷ ss) h = (s, refl)
  source_in_range (suc i) (s ∷ ss) h = source_in_range i ss (ground arith)

  has_ordinal-append :
      (n : ℕ) (cs : List ResolvedCitation) (c : ResolvedCitation)
      → has_ordinal n (cs ++ c ∷ []) ≡ (has_ordinal n cs || (c.ordinal == n))
  has_ordinal-append n [] c = ground arith
  has_ordinal-append n (d ∷ cs) c = ground (arith, has_ordinal-append n cs c)

  append-IsResolved :
      (cs : List ResolvedCitation) (c : ResolvedCitation)
      → All (IsResolved sources) cs
      → IsResolved sources c
      → All (IsResolved sources) (cs ++ c ∷ [])
  append-IsResolved [] c h k = (k, tt)
  append-IsResolved (d ∷ cs) c h k = (h.0, append-IsResolved cs c (h.1) k)

  append-Distinct :
      (cs : List ResolvedCitation) (c : ResolvedCitation)
      → Distinct cs
      → has_ordinal c.ordinal cs ≡ false
      → Distinct (cs ++ c ∷ [])
  append-Distinct [] c h k = (refl, tt)
  append-Distinct (d ∷ cs) c h k = (
    has_ordinal-append d.ordinal cs c ∙ ground (arith, h.0),
    append-Distinct cs c (h.1) (ground arith),
  )

  pub note_number-IsSound :
      (n : ℕ) (cs : List ResolvedCitation) → IsSound cs → IsSound (note_number sources n cs)
  note_number-IsSound n cs h =
      elim (Bool-cases (is_resolvable n sources && not (has_ordinal n cs))) [
        | inr e ↦ rw e h
        | inl e ↦
            let inside : is_resolvable n sources ≡ true = ground arith in
            let first : has_ordinal n cs ≡ false = ground arith in
            let (s, place) = source_in_range (n - 1) sources (ground arith) in
            rw (e, refer, place)
              (record {
                all_resolved =
                    append-IsResolved cs (resolved n s) (h.all_resolved) (record {
                      source = s;
                      at_place = place;
                      in_range = inside;
                      is_source = refl;
                    });
                distinct = append-Distinct cs (resolved n s) (h.distinct) first;
              })
      ]

  again :
      (m n : ℕ) (cs : List ResolvedCitation)
      → (is_resolvable n sources && not (has_ordinal n cs)) ≡ false
      → has_ordinal m cs ≡ (has_ordinal m cs || (is_resolvable m sources && n == m))
  again m n cs e = elim (Bool-cases (n == m)) [
    | inl f ↦ rw f (rw (← (==_iff n m).0 f) (ground arith))
    | inr f ↦ rw f (ground arith)
  ]

  pub has_ordinal-note_number :
      (m n : ℕ) (cs : List ResolvedCitation)
      → has_ordinal m (note_number sources n cs)
        ≡ (has_ordinal m cs || (is_resolvable m sources && n == m))
  has_ordinal-note_number m n cs =
      elim (Bool-cases (is_resolvable n sources && not (has_ordinal n cs))) [
        | inr e ↦ rw e (again m n cs e)
        | inl e ↦
            let inside : is_resolvable n sources ≡ true = ground arith in
            let (s, place) = source_in_range (n - 1) sources (ground arith) in
            rw (e, refer, place)
              (has_ordinal-append m cs (resolved n s) ∙ (elim (Bool-cases (n == m)) [
                | inl f ↦ rw (f, ← (==_iff n m).0 f, inside) refl
                | inr f ↦ rw f (ground arith)
              ]))
      ]
