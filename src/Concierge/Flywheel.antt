-- ===== src/Concierge/Flywheel.antt =====
-- apps/api/src/concierge/concierge-flywheel.service.ts: what a verdict feeds back. The provider of
-- embeddings is outside, as are the string methods of JavaScript.
use Prim.Native.String.{◌++◌ as str_append}
use expertos.Common.{
  ℕ, ◌+◌, Bool, true, false, not, ◌&&◌, ◌||◌, Option, none, some, List, [], ◌∷◌, String, str_eq,
  if◌then◌else◌, ◌==◌, leb, ltb, any, map_option,
}
use expertos.Common.{◌>>=◌}
use expertos.Orm.{Prisma, unordered, desc}
use expertos.Orm.Reads.{create_row}
use expertos.Concierge.{
  ReviewVerdict, MessageRole, Language, Message, Conversation, Citation, Chunk, ConciergeDb,
  same_language,
}

pub record FlywheelInput : Type 0 where
  pub review_request_id : ℕ
  pub tenant_id : ℕ
  pub verdict : ReviewVerdict
  pub improved_answer : String
  pub edited : Bool

pub record VoicePlan : Type 0 where
  pub voice_profile_id : ℕ
  pub prompt : Option String
  pub content : String
  pub language : Language

-- `embed` answers with the vector's literal; `none` is an error.
pub record FlywheelEnv : Type 0 where
  pub embed : String → Option String
  pub trim : String → String
  pub string_length : String → ℕ
  pub first_chars : ℕ → String → String

abbrev pub is_bad : ReviewVerdict → Bool
is_bad ReviewVerdict.bad = true
is_bad _ = false

abbrev pub is_great : ReviewVerdict → Bool
is_great ReviewVerdict.great = true
is_great _ = false

abbrev pub is_user : MessageRole → Bool
is_user MessageRole.user = true
is_user _ = false

-- `chunkIds`: the chunks that the citations name, each once.
abbrev pub distinct_ids : List Citation → List ℕ
distinct_ids [] = []
distinct_ids (c ∷ cs) = elim c.chunk_id [
  | none ↦ distinct_ids cs
  | some id ↦
      if any (λ other. other == id) (distinct_ids cs) then distinct_ids cs else id ∷ distinct_ids cs
]

abbrev pub flag : ℕ → Chunk → Chunk
flag now c = record c { flag_count = c.flag_count + 1; last_flagged_at = some now }

-- The test of the latest question before an answer.
abbrev pub is_question_of : Message → Message → Bool
is_question_of answer m =
    m.conversation_id == answer.conversation_id
    && is_user m.role
    && leb m.created_at answer.created_at

module _ (P : Prisma) (env : FlywheelEnv) where
  unfoldable pub draft_title : Option String → String
  draft_title none = "Reviewed answer"
  draft_title (some question) =
      let base = env.trim question in
      if str_eq base ""
      then "Reviewed answer"
      else if ltb 80 (env.string_length base)
      then str_append (env.first_chars 80 base) "…"
      else base

  unfoldable pub draft_content : Option String → String → String
  draft_content none answer = answer
  draft_content (some question) answer =
      let q = env.trim question in
      if str_eq q "" then answer else str_append q (str_append "\n\n" answer)

  unfoldable pub flag_source_chunks : ℕ → ℕ → ConciergeDb → ConciergeDb
  flag_source_chunks message_id now db =
      let chunk_ids =
        distinct_ids (P.find_many (λ c. c.message_id == message_id) unordered db.citations) in
      record db {
        chunks = P.update_many (λ c. any (λ id. id == c.id) chunk_ids) (flag now) db.chunks;
      }

  unfoldable pub question_of : Message → ConciergeDb → Option String
  question_of answer db =
      map_option (λ m. m.content)
        (P.find_first (is_question_of answer) (desc (λ m. m.created_at)) db.messages)

  unfoldable pub voice_plan :
      FlywheelInput → Option String → Conversation → ConciergeDb → Option VoicePlan
  voice_plan input question conversation db = elim conversation.expert_id [
    | none ↦ none
    | some expert_id ↦
        map_option
          (λ profile. record {
            voice_profile_id = profile.id;
            prompt = question;
            content = input.improved_answer;
            language = conversation.language;
          })
          (P.find_first
            (λ p.
              p.expert_id == expert_id
              && same_language p.language conversation.language
              && p.published)
            (desc (λ p. p.updated_at)) db.voice_profiles)
  ]

  unfoldable pub create_draft :
      FlywheelInput → Option String → Conversation → ConciergeDb → ConciergeDb
  create_draft input question conversation db = record db {
    drafts =
        create_row P
          (record {
            tenant_id = input.tenant_id;
            conversation_id = conversation.id;
            expert_id = conversation.expert_id;
            title = draft_title question;
            content = draft_content question input.improved_answer;
            language = conversation.language;
          })
          db.drafts;
  }

  -- The request with the answer and the conversation it is about.
  unfoldable pub find_answer : ℕ → ConciergeDb → Option (Message × Conversation)
  find_answer review_request_id db = do
    request ← P.find_first (λ r. r.id == review_request_id) unordered db.requests
    message ← P.find_first (λ m. m.id == request.message_id) unordered db.messages
    conversation ← P.find_first (λ c. c.id == message.conversation_id) unordered db.conversations
    some (message, conversation)

  unfoldable pub persist_answer :
      FlywheelInput → ℕ → Message → Conversation → ConciergeDb → Option VoicePlan × ConciergeDb
  persist_answer input now message conversation db =
      let db1 = if is_bad input.verdict then flag_source_chunks message.id now db else db in
      if not (is_great input.verdict || input.edited)
      then (none, db1)
      else let question = question_of message db1 in
        let db2 = create_draft input question conversation db1 in
        (voice_plan input question conversation db2, db2)

  unfoldable pub persist : FlywheelInput → ℕ → ConciergeDb → Option VoicePlan × ConciergeDb
  persist input now db = elim (find_answer input.review_request_id db) [
    | none ↦ (none, db)
    | some (message, conversation) ↦ persist_answer input now message conversation db
  ]

  unfoldable pub insert_voice_example : ℕ → VoicePlan → String → ℕ → ConciergeDb → ConciergeDb
  insert_voice_example tenant_id plan embedding now db = record db {
    voice_examples =
        create_row P
          (record {
            tenant_id = tenant_id;
            voice_profile_id = plan.voice_profile_id;
            prompt = plan.prompt;
            content = plan.content;
            language = plan.language;
            embedding = embedding;
            created_at = now;
          })
          db.voice_examples;
  }

  -- The second transaction runs only where the embedding has come back; an error is swallowed.
  unfoldable pub capture : FlywheelInput → ℕ → Option VoicePlan × ConciergeDb → ConciergeDb
  capture input now (none, db) = db
  capture input now (some plan, db) = elim (env.embed plan.content) [
    | none ↦ db
    | some embedding ↦ insert_voice_example input.tenant_id plan embedding now db
  ]

  unfoldable pub apply_review_outcome : FlywheelInput → ℕ → ConciergeDb → ConciergeDb
  apply_review_outcome input now db = capture input now (persist input now db)
