-- ===== src/Ai/Citations/Ordinals.antt =====
-- The citations of an answer against the markers in it (prompt/citations.ts).
use expertos.Common.{
  ℕ, ◌<◌, ◌≡◌, refl, ◌∙◌, inl, inr, Bool, false, ◌&&◌, ◌||◌, List, [], ◌∷◌, String, All, any, arith,
  leb, ◌==◌, Bool-cases,
}
use expertos.Ai.Citations.{
  CitationSource, ResolvedCitation, Segment, prose, marker, TextEnv, has_ordinal, is_resolvable,
  note_number, resolve_numbers, replace_markers, insert_citation, sort_citations, build_citations,
}
use expertos.Ai.Citations.Resolution.{
  mentions, IsResolved, Distinct, IsSound, note_number-IsSound, has_ordinal-note_number,
}

-- The ordinals rise.
abbrev pub IsAscending : List ResolvedCitation → Type 0
IsAscending [] = Unit
IsAscending (c ∷ cs) = All (λ d. c.ordinal < d.ordinal) cs × IsAscending cs

or_both : (a a' r p q : Bool) → a' ≡ (a || (r && p)) → (a' || (r && q)) ≡ (a || (r && (p || q)))
or_both a a' r p q h = ground arith

module _ (sources : List CitationSource) where
  numbers-IsSound :
      (ns : List ℕ) (found : Bool) (cs : List ResolvedCitation)
      → IsSound sources cs
      → IsSound sources (resolve_numbers sources ns found cs).1
  unfolding resolve_numbers
  numbers-IsSound [] found cs h = h
  numbers-IsSound (n ∷ ns) found cs h =
      numbers-IsSound ns _ (note_number sources n cs) (note_number-IsSound sources n cs h)

  -- The ordinals that are noted are the resolvable numbers.
  has_ordinal-numbers :
      (m : ℕ) (ns : List ℕ) (found : Bool) (cs : List ResolvedCitation)
      → has_ordinal m (resolve_numbers sources ns found cs).1
        ≡ (has_ordinal m cs || (is_resolvable m sources && any (λ k. k == m) ns))
  unfolding resolve_numbers
  has_ordinal-numbers m [] found cs = ground arith
  has_ordinal-numbers m (n ∷ ns) found cs =
      has_ordinal-numbers m ns (is_resolvable n sources || found) (note_number sources n cs)
      ∙ or_both (has_ordinal m cs) (has_ordinal m (note_number sources n cs))
          (is_resolvable m sources) (n == m) (any (λ k. k == m) ns)
          (has_ordinal-note_number sources m n cs)

  markers-IsSound :
      (segments : List Segment) (cs : List ResolvedCitation)
      → IsSound sources cs
      → IsSound sources (replace_markers sources segments cs).1
  unfolding replace_markers
  markers-IsSound [] cs h = h
  markers-IsSound (prose text ∷ rest) cs h = markers-IsSound rest cs h
  markers-IsSound (marker group numbers ∷ rest) cs h =
      markers-IsSound rest _ (numbers-IsSound numbers false cs h)

  has_ordinal-markers :
      (m : ℕ) (segments : List Segment) (cs : List ResolvedCitation)
      → has_ordinal m (replace_markers sources segments cs).1
        ≡ (has_ordinal m cs || (is_resolvable m sources && any (mentions m) segments))
  unfolding replace_markers
  has_ordinal-markers m [] cs = ground arith
  has_ordinal-markers m (prose text ∷ rest) cs = has_ordinal-markers m rest cs
  has_ordinal-markers m (marker group numbers ∷ rest) cs =
      has_ordinal-markers m rest (resolve_numbers sources numbers false cs).1
      ∙ or_both (has_ordinal m cs) (has_ordinal m (resolve_numbers sources numbers false cs).1)
          (is_resolvable m sources) (any (λ k. k == m) numbers) (any (mentions m) rest)
          (has_ordinal-numbers m numbers false cs)

has_ordinal-insert :
    (m : ℕ) (c : ResolvedCitation) (cs : List ResolvedCitation)
    → has_ordinal m (insert_citation c cs) ≡ ((c.ordinal == m) || has_ordinal m cs)
has_ordinal-insert m c [] = refl
has_ordinal-insert m c (d ∷ cs) = elim (Bool-cases (leb c.ordinal d.ordinal)) [
  | inl e ↦ rw e refl
  | inr e ↦ rw (e, has_ordinal-insert m c cs) (ground arith)
]

has_ordinal-sort :
    (m : ℕ) (cs : List ResolvedCitation) → has_ordinal m (sort_citations cs) ≡ has_ordinal m cs
has_ordinal-sort m [] = refl
has_ordinal-sort m (c ∷ cs) =
    has_ordinal-insert m c (sort_citations cs) ∙ rw (has_ordinal-sort m cs) refl

All-insert :
    (Q : ResolvedCitation → Type 0) (c : ResolvedCitation) (cs : List ResolvedCitation)
    → Q c
    → All Q cs
    → All Q (insert_citation c cs)
All-insert Q c [] q h = (q, tt)
All-insert Q c (d ∷ cs) q h = elim (Bool-cases (leb c.ordinal d.ordinal)) [
  | inl e ↦ rw e (q, h)
  | inr e ↦ rw e (h.0, All-insert Q c cs q (h.1))
]

All-sort :
    (Q : ResolvedCitation → Type 0) (cs : List ResolvedCitation)
    → All Q cs
    → All Q (sort_citations cs)
All-sort Q [] h = tt
All-sort Q (c ∷ cs) h = All-insert Q c (sort_citations cs) (h.0) (All-sort Q cs (h.1))

later :
    (a b : ResolvedCitation) (cs : List ResolvedCitation)
    → a.ordinal < b.ordinal
    → All (λ d. b.ordinal < d.ordinal) cs
    → All (λ d. a.ordinal < d.ordinal) cs
later a b [] h k = tt
later a b (c ∷ cs) h k = (omega (arith, k.0), later a b cs h (k.1))

insert-IsAscending :
    (c : ResolvedCitation) (cs : List ResolvedCitation)
    → has_ordinal c.ordinal cs ≡ false
    → IsAscending cs
    → IsAscending (insert_citation c cs)
insert-IsAscending c [] f h = (tt, tt)
insert-IsAscending c (d ∷ cs) f h = elim (Bool-cases (leb c.ordinal d.ordinal)) [
  | inl e ↦
      let less : c.ordinal < d.ordinal = ground arith in rw e ((less, later c d cs less (h.0)), h)
  | inr e ↦ rw e (
    All-insert (λ x. d.ordinal < x.ordinal) c cs (ground arith) (h.0),
    insert-IsAscending c cs (ground arith) (h.1),
  )
]

sort-IsAscending : (cs : List ResolvedCitation) → Distinct cs → IsAscending (sort_citations cs)
sort-IsAscending [] h = tt
sort-IsAscending (c ∷ cs) h =
    insert-IsAscending c (sort_citations cs) (has_ordinal-sort c.ordinal cs ∙ h.0)
      (sort-IsAscending cs (h.1))

module _ (env : TextEnv) where
  -- The citations of an answer are sources at their places, in rising order of their ordinals; and a
  -- number is the ordinal of a citation exactly if it is between 1 and the number of the sources and
  -- stands in some marker of the answer.
  pub citations_resolve :
      (answer : String) (sources : List CitationSource) (n : ℕ)
      → All (IsResolved sources) (build_citations env answer sources).citations
        × IsAscending (build_citations env answer sources).citations
        × (has_ordinal n (build_citations env answer sources).citations ≡ (
            is_resolvable n sources && any (mentions n) (env.segments (env.normalize_text answer))))
  unfolding build_citations
  citations_resolve answer sources n =
      let segments = env.segments (env.normalize_text answer) in
      let start : IsSound sources [] = record { all_resolved = tt; distinct = tt } in
      let sound = markers-IsSound sources segments [] start in
      (
        All-sort (IsResolved sources) _ sound.all_resolved,
        sort-IsAscending _ sound.distinct,
        has_ordinal-sort n _ ∙ has_ordinal-markers sources n segments [],
      )
