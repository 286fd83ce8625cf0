-- ===== src/Ai/Citations.antt =====
-- packages/ai/src/prompt/citations.ts: the citations of an answer. Finding the markers and squeezing
-- the spaces are regular expressions, and the normal form is JavaScript's: they are parameters.
pub mod Resolution
pub mod Ordinals
use Prim.Native.String.{◌++◌ as str_append}
use expertos.Common.{
  ℕ, suc, zero, ◌-◌, Bool, true, false, not, ◌&&◌, ◌||◌, Option, none, some, List, [], ◌∷◌, ◌++◌,
  String, if◌then◌else◌, leb, ◌==◌, or_else, length, any,
}

pub data CitationKind : Type 0 where
  knowledge upload : CitationKind

pub record CitationSource : Type 0 where
  pub chunk_id : String
  pub document_version_id : String
  pub content : String
  pub kind : Option CitationKind
  pub upload_chunk_id : Option String
  pub source_label : Option String

pub record ResolvedCitation : Type 0 where
  pub ordinal : ℕ
  pub chunk_id : String
  pub document_version_id : String
  pub content : String
  pub kind : CitationKind
  pub upload_chunk_id : Option String
  pub source_label : Option String

pub record BuiltCitations : Type 0 where
  pub text : String
  pub citations : List ResolvedCitation

-- The answer cut at its markers: text between them, and a marker with the numbers in it.
pub data Segment : Type 0 where
  prose : String → Segment
  marker : String → List ℕ → Segment

pub record TextEnv : Type 0 where
  pub normalize_text : String → String
  pub segments : String → List Segment
  pub squeeze_whitespace : String → String

-- `sources[i]`.
abbrev pub source_at : ℕ → List CitationSource → Option CitationSource
source_at i [] = none
source_at zero (s ∷ ss) = some s
source_at (suc i) (s ∷ ss) = source_at i ss

abbrev pub resolved : ℕ → CitationSource → ResolvedCitation
resolved n src = record {
  ordinal = n;
  chunk_id = src.chunk_id;
  document_version_id = src.document_version_id;
  content = src.content;
  kind = or_else src.kind knowledge;
  upload_chunk_id = src.upload_chunk_id;
  source_label = src.source_label;
}

abbrev pub has_ordinal : ℕ → List ResolvedCitation → Bool
has_ordinal n = any (λ c. c.ordinal == n)

abbrev pub is_resolvable : ℕ → List CitationSource → Bool
is_resolvable n sources = leb 1 n && leb n (length sources)

-- `referenced` is the map in its order of insertion; a place that is out of range adds nothing.
abbrev pub refer : List CitationSource → ℕ → List ResolvedCitation → List ResolvedCitation
refer sources n referenced = elim (source_at (n - 1) sources) [
  | none ↦ referenced
  | some src ↦ referenced ++ resolved n src ∷ []
]

-- One number of a marker: a resolvable one is noted once.
abbrev pub note_number : List CitationSource → ℕ → List ResolvedCitation → List ResolvedCitation
note_number sources n referenced =
    if is_resolvable n sources && not (has_ordinal n referenced)
    then refer sources n referenced
    else referenced

-- The loop over the numbers of one marker, with `anyResolvable` first.
unfoldable pub resolve_numbers :
    List CitationSource → List ℕ → Bool → List ResolvedCitation → Bool × List ResolvedCitation
resolve_numbers sources [] found referenced = (found, referenced)
resolve_numbers sources (n ∷ ns) found referenced =
    resolve_numbers sources ns (is_resolvable n sources || found) (note_number sources n referenced)

-- The replacement of every marker.
unfoldable pub replace_markers :
    List CitationSource → List Segment → List ResolvedCitation → String × List ResolvedCitation
replace_markers sources [] referenced = ("", referenced)
replace_markers sources (prose text ∷ rest) referenced =
    let (tail, after) = replace_markers sources rest referenced in (str_append text tail, after)
replace_markers sources (marker group numbers ∷ rest) referenced =
    let (found, now) = resolve_numbers sources numbers false referenced in
    let (tail, after) = replace_markers sources rest now in
    (str_append (if found then group else "") tail, after)

abbrev pub insert_citation : ResolvedCitation → List ResolvedCitation → List ResolvedCitation
insert_citation c [] = c ∷ []
insert_citation c (d ∷ ds) =
    let rest = insert_citation c ds in if leb c.ordinal d.ordinal then c ∷ d ∷ ds else d ∷ rest

-- The sort by ordinal.
abbrev pub sort_citations : List ResolvedCitation → List ResolvedCitation
sort_citations [] = []
sort_citations (c ∷ cs) = insert_citation c (sort_citations cs)

module _ (env : TextEnv) where
  unfoldable pub build_citations : String → List CitationSource → BuiltCitations
  build_citations answer sources =
      let (stripped, referenced) =
        replace_markers sources (env.segments (env.normalize_text answer)) [] in
      record { text = env.squeeze_whitespace stripped; citations = sort_citations referenced }
