-- ===== src/Concierge/Delivery.antt =====
-- apps/api/src/concierge/concierge-delivery.service.ts: a refined answer goes back into the
-- conversation, and the user is told by mail. The mail provider is outside.
use Prim.Native.String.{◌++◌ as str_append}
use expertos.Common.{ℕ, Bool, true, Option, none, some, ◌∷◌, String, str_eq, if◌then◌else◌, ◌==◌}
use expertos.Common.{◌>>=◌}
use expertos.Orm.{Prisma, unordered}
use expertos.Orm.Reads.{create_row}
use expertos.Concierge.{MessageRole, Message, UserRow, EmailMessage, ConciergeDb}

pub record DeliveryInput : Type 0 where
  pub review_request_id : ℕ
  pub response_id : ℕ
  pub tenant_id : ℕ
  pub revised_answer : Option String
  pub edited : Bool

-- The uuid is a number here; `show_id` writes it out. `send` says whether the provider took the mail.
pub record DeliveryEnv : Type 0 where
  pub web_app_url : String
  pub show_id : ℕ → String
  pub send : EmailMessage → Bool

pub record DeliveryPlan : Type 0 where
  pub email : String
  pub display_name : Option String
  pub conversation_id : ℕ

unfoldable pub greeting : Option String → String
greeting none = "Hi,"
greeting (some name) = if str_eq name "" then "Hi," else str_append "Hi " (str_append name ",")

-- `original` is the answer that is refined.
abbrev pub refined_message : ℕ → ℕ → DeliveryInput → String → Message → Message
refined_message fresh now input revised original = record {
  id = fresh;
  tenant_id = input.tenant_id;
  conversation_id = original.conversation_id;
  role = MessageRole.assistant;
  content = revised;
  refined_from_message_id = some original.id;
  created_at = now;
}

module _ (P : Prisma) (env : DeliveryEnv) where
  unfoldable pub notification : DeliveryPlan → EmailMessage
  notification plan = record {
    to = plan.email;
    subject = "Your answer was reviewed and refined";
    text = str_append (greeting plan.display_name) (
        str_append "\n\nOne of our experts reviewed your recent question and posted a refined " (
          str_append "answer in your conversation. You can read it here:\n\n" (
            str_append env.web_app_url (
              str_append "/history?c=" (
                str_append (env.show_id plan.conversation_id)
                  "\n\nThis response includes AI-reviewed/edited content.")))));
  }

  unfoldable pub find_recipient : ℕ → ConciergeDb → Option (Message × UserRow)
  find_recipient review_request_id db = do
    request ← P.find_first (λ r. r.id == review_request_id) unordered db.requests
    user ← P.find_first (λ u. u.id == request.user_id) unordered db.users
    message ← P.find_first (λ m. m.id == request.message_id) unordered db.messages
    some (message, user)

  unfoldable pub push_refined_update :
      DeliveryInput → String → ℕ → ℕ → ConciergeDb → Option DeliveryPlan × ConciergeDb
  push_refined_update input revised fresh now db =
      elim (find_recipient input.review_request_id db) [
        | none ↦ (none, db)
        | some (message, user) ↦ (
          some (record {
            email = user.email;
            display_name = user.display_name;
            conversation_id = message.conversation_id;
          }),
          record db {
            messages = create_row P (refined_message fresh now input revised message) db.messages;
            conversations =
                P.update_many (λ c. c.id == message.conversation_id)
                  (λ c. record c { updated_at = now }) db.conversations;
            responses =
                P.update_many (λ r. r.id == input.response_id)
                  (λ r. record r { delivered_to_user = true }) db.responses;
          },
        )
      ]

  unfoldable pub notify : Option DeliveryPlan × ConciergeDb → ConciergeDb
  notify (none, db) = db
  notify (some plan, db) =
      if env.send (notification plan)
      then record db { outbox = notification plan ∷ db.outbox }
      else db

  unfoldable pub deliver_revised : DeliveryInput → Option String → ℕ → ℕ → ConciergeDb → ConciergeDb
  deliver_revised input none fresh now db = db
  deliver_revised input (some revised) fresh now db =
      notify (push_refined_update input revised fresh now db)

  unfoldable pub deliver : DeliveryInput → ℕ → ℕ → ConciergeDb → ConciergeDb
  deliver input fresh now db =
      if input.edited then deliver_revised input input.revised_answer fresh now db else db
