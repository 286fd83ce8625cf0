-- ===== src/Concierge/Flags.antt =====
-- Which chunks a bad verdict flags (concierge-flywheel.service.ts, flagSourceChunks).
use expertos.Common.{
  ℕ, ◌≡◌, refl, ap, ◌+◌, ◌||◌, map, Option, none, some, if◌then◌else◌, subst, ◌∙◌, inl, inr, Bool,
  true, List, [], ◌∷◌, ◌&&◌, ◌==◌, ==_iff, any, any_of_In, arith, Bool-cases, Option-cases,
}
use expertos.Orm.{Prisma, unordered, change}
use expertos.Orm.Tables.{any-witness}
use expertos.Concierge.{ReviewVerdict, Message, Conversation, Citation, Chunk, ConciergeDb, is_id}
use expertos.Concierge.Flywheel.{
  FlywheelEnv, FlywheelInput, VoicePlan, distinct_ids, flag, is_bad, is_great, find_answer,
  flag_source_chunks, create_draft, persist_answer, persist, capture, insert_voice_example,
  apply_review_outcome,
}

-- A citation of the message names the chunk.
abbrev pub cites : ℕ → ℕ → Citation → Bool
cites message_id chunk_id c = (c.message_id == message_id) && is_id c.chunk_id chunk_id

any-distinct_ids :
    (x : ℕ) (cs : List Citation)
    → any (λ id. id == x) (distinct_ids cs) ≡ any (λ c. is_id c.chunk_id x) cs
any-distinct_ids x [] = refl
any-distinct_ids x (c ∷ cs) = elim (Option-cases c.chunk_id) [
  | inl e ↦ rw (e, any-distinct_ids x cs) refl
  | inr (id, e) ↦ elim (Bool-cases (any (λ other. other == id) (distinct_ids cs))) [
    | inr f ↦ rw (e, f, any-distinct_ids x cs) refl
    | inl f ↦ elim (Bool-cases (id == x)) [
      | inr g ↦ rw (e, f, g, any-distinct_ids x cs) refl
      | inl g ↦
          rw (e, f, g)
            (subst (λ y. any (λ other. other == y) (distinct_ids cs) ≡ true) ((==_iff id x).0 g) f)
    ]
  ]
]

module _ (P : Prisma) (message_id chunk_id : ℕ) (citations : List Citation) where
  -- The query for a message and a pass over its citations.
  any-cited :
      any
        (λ c. is_id c.chunk_id chunk_id)
        (P.find_many (λ c. c.message_id == message_id) unordered citations)
      ≡ any (cites message_id chunk_id) citations
  any-cited =
      let found = P.find_many (λ c. c.message_id == message_id) unordered citations in
      elim (Bool-cases (any (cites message_id chunk_id) citations)) [
        | inl e ↦
            let (c, m, k) = any-witness (cites message_id chunk_id) citations e in
            rw e (
              any_of_In (λ c. is_id c.chunk_id chunk_id) c found
                ((P.find_many_in _ _ citations c).1 (m, ground arith)) (ground arith))
        | inr e ↦ elim (Bool-cases (any (λ c. is_id c.chunk_id chunk_id) found)) [
          | inr f ↦ rw (e, f) refl
          | inl f ↦
              let (c, m, k) = any-witness (λ c. is_id c.chunk_id chunk_id) found f in
              let (m', k') = (P.find_many_in _ _ citations c).0 m in
              absurd
                (cc (e, any_of_In (cites message_id chunk_id) c citations m' (rw (k', k) refl)))
        ]
      ]

change_ext :
    (p q : Chunk → Bool) (f : Chunk → Chunk) (t : List Chunk)
    → ((c : Chunk) → p c ≡ q c)
    → change p f t ≡ change q f t
change_ext p q f [] h = refl
change_ext p q f (c ∷ t) h = rw (h c, change_ext p q f t h) refl

-- The chunk after a verdict on an answer that cites it or does not.
abbrev pub judged : ReviewVerdict → ℕ → Bool → Chunk → Chunk
judged ReviewVerdict.bad now true chunk = record chunk {
  flag_count = chunk.flag_count + 1;
  last_flagged_at = some now;
}
judged _ now _ chunk = chunk

judged_bad :
    (now : ℕ) (p : Chunk → Bool) (t : List Chunk)
    → change p (flag now) t ≡ map (λ c. judged ReviewVerdict.bad now (p c) c) t
judged_bad now p [] = refl
judged_bad now p (c ∷ t) = elim (Bool-cases (p c)) [
  | inl e ↦ rw (e, judged_bad now p t) refl
  | inr e ↦ rw (e, judged_bad now p t) refl
]

map_same : (t : List Chunk) → t ≡ map (λ c. c) t
map_same [] = refl
map_same (c ∷ t) = ap (◌∷◌ c) (map_same t)

module _ (P : Prisma) (env : FlywheelEnv) where
  flagged :
      (message_id now : ℕ) (db : ConciergeDb)
      → (flag_source_chunks P env message_id now db).chunks
        ≡ change (λ chunk. any (cites message_id chunk.id) db.citations) (flag now) db.chunks
  unfolding flag_source_chunks
  flagged message_id now db =
      let found = P.find_many (λ c. c.message_id == message_id) unordered db.citations in
      P.update_many_eq _ _ db.chunks
      ∙ change_ext (λ c. any (λ id. id == c.id) (distinct_ids found))
          (λ chunk. any (cites message_id chunk.id) db.citations) (flag now) db.chunks
          (λ c. any-distinct_ids c.id found ∙ any-cited P message_id c.id db.citations)

  -- What a verdict does to the chunks before the drafts are written.
  abbrev flags : FlywheelInput → ℕ → Message → ConciergeDb → ConciergeDb
  flags input now message db =
      if is_bad input.verdict then flag_source_chunks P env message.id now db else db

  flags-judged :
      (input : FlywheelInput) (verdict : ReviewVerdict) (now : ℕ) (message : Message)
      (db : ConciergeDb)
      → input.verdict ≡ verdict
      → (flags input now message db).chunks
        ≡ map (λ c. judged verdict now (any (cites message.id c.id) db.citations) c) db.chunks
  flags-judged input ReviewVerdict.bad now message db e = rw e (
      flagged message.id now db
      ∙ judged_bad now (λ c. any (cites message.id c.id) db.citations) db.chunks)
  flags-judged input ReviewVerdict.good now message db e = rw e (map_same db.chunks)
  flags-judged input ReviewVerdict.great now message db e = rw e (map_same db.chunks)

  persist_answer-chunks :
      (input : FlywheelInput) (now : ℕ) (message : Message) (conversation : Conversation)
      (db : ConciergeDb)
      → (persist_answer P env input now message conversation db).1.chunks
        ≡ (flags input now message db).chunks
  unfolding persist_answer create_draft
  persist_answer-chunks input now message conversation db =
      elim (Bool-cases (is_great input.verdict || input.edited)) [
        | inl g ↦ rw (persist_answer, g) refl
        | inr g ↦ rw (persist_answer, g) refl
      ]

  capture-chunks :
      (input : FlywheelInput) (now : ℕ) (p : Option VoicePlan × ConciergeDb)
      → (capture P env input now p).chunks ≡ p.1.chunks
  unfolding capture insert_voice_example
  capture-chunks input now (none, db) = refl
  capture-chunks input now (some plan, db) = elim (Option-cases (env.embed plan.content)) [
    | inl e ↦ rw (capture, e) refl
    | inr (v, e) ↦ rw (capture, e) refl
  ]

  -- A verdict on a request whose answer is found: a bad one adds one flag, with the time, to each
  -- chunk that some citation of the answer names, however often it is cited, and to no other chunk;
  -- a good or a great one flags no chunk.
  pub flags_cited_once :
      (input : FlywheelInput) (message : Message) (conversation : Conversation) (now : ℕ)
      (db : ConciergeDb)
      → find_answer P env input.review_request_id db ≡ some (message, conversation)
      → (apply_review_outcome P env input now db).chunks
        ≡ map (λ c. judged input.verdict now (any (cites message.id c.id) db.citations) c) db.chunks
  unfolding apply_review_outcome persist
  flags_cited_once input message conversation now db found =
      capture-chunks input now (persist P env input now db)
      ∙ rw (persist, found) (persist_answer-chunks input now message conversation db)
      ∙ flags-judged input input.verdict now message db refl
