-- ===== src/Lib.antt =====
-- A model of the expertos API server (apps/api), the parts that decide who may do what and that must
-- not lose or repeat money, bookings or quota, and of the pure functions of packages/ai.
--
-- Parts and files, with the source of each:
--   Cache.Lru      apps/api/src/cache/lru-cache.ts: get, set (with evict, its loop), delete,
--                  delete_prefix, stats. The Map is the list of its pairs, the oldest first.
--   RateLimit      apps/api/src/rate-limit: create and hit of rate-limit.service.ts over that cache,
--                  can_activate of rate-limit.guard.ts; Client has client_ip, and
--                  resolve_rate_limit_options of rate-limit.config.ts.
--   Database       The results and the transactions of apps/api/src/auth/rls.service.ts; Rows holds
--                  the rows of packages/db/prisma/schema.prisma that several services share.
--   Entitlement    apps/api/src/entitlements/entitlement.service.ts: enforce, get_entitlements,
--                  list_upgrade_plans; Window has current_window_start. Types in Entitlement.Model.
--   Billing        apps/api/src/billing/billing.service.ts: create_checkout, create_portal,
--                  handle_webhook (apply_subscription_change, append_ledger_entry). Billing.Model has
--                  the seam of payment-provider.ts.
--   Booking        apps/api/src/consultation/booking.service.ts: reconcile, apply_booking_event,
--                  correlate, list_unmatched; Booking.Targets has resolve_targets and
--                  tidycal-provider.factory.ts; Booking.Model the seam of tidycal-provider.ts; Drivers the
--                  drivers that fill it (http-tidycal-provider.ts, offline-tidycal-provider.ts);
--                  Webhook has handle_webhook.
--   Knowledge      apps/api/src/knowledge: submit, request_changes, approve and archive of
--                  knowledge.service.ts over publish_reviewed_version_tx of publish-version.ts.
--   Concierge      apps/api/src/concierge: Config has concierge-config.service.ts (update_config), Queue
--                  concierge-queue.service.ts (enqueue_if_triggered), Review
--                  concierge-review.service.ts (respond, escalate), Flywheel
--                  concierge-flywheel.service.ts (apply_review_outcome), Delivery
--                  concierge-delivery.service.ts (deliver). Diagram is the abstract machine of a
--                  request, Calls the runs of calls.
--   Database.Audit apps/api/src/admin/admin-audit.service.ts: record_entry.
--   Admin          apps/api/src/admin/admin-user.service.ts in Service (update_role, flag_fair_use,
--                  execute_deletion and the others) and Dto; apps/api/src/auth in Auth: resolve_user
--                  of auth.service.ts, is_enabled of beta-gate.service.ts, can_activate of
--                  roles.guard.ts. Requests puts them together, one request after the other.
--   Ai             packages/ai/src: Chunk has ingestion/chunk.ts (chunk_text, words) and
--                  normalize_text of text.ts, Recommendation
--                  recommendation/evaluate.ts (evaluate_recommendation), Citations
--                  prompt/citations.ts (build_citations).
--   Common, Orm    Shared names and lemmas; the database client.
--
-- How they meet: the guard asks RateLimit before anything else; a gated route then asks
-- Entitlement.enforce, which reads the subscriptions that Billing writes from the payment provider's
-- webhooks. A chat turn hands its weak answer to Concierge.Queue; the verdict on it goes, after its
-- commit, to the flywheel and the delivery. Booking reads the experts' calendars and writes consultations.
--
-- State is passed explicitly: an operation takes the tables it can see and returns them changed. A
-- transaction that throws returns the tables as they were (Database.run). The database client is
-- third-party: Orm.Prisma is a record of its queries with their documented behaviour as laws, a
-- parameter of every definition that queries; Orm.Listed is an instance over plain lists, for the
-- tests. Payment providers, the calendar's network, JSON.parse, JavaScript's string methods,
-- decryption and the clock are parameters too: each reading of the clock is an argument, the ids that
-- the database fills in are arguments or a counter, and a taken id is an error. What other
-- transactions commit between a check and an insert is an argument where the code handles it.
--
-- Numbers: uuids, timestamps in milliseconds and counts are natural numbers; a subtraction whose
-- result the source uses only when it is not negative stops at 0. Strings are native.
-- Fuel: evict and chunk_loop have fuel. A round of evict drops an entry, and it is given the number of
-- entries; a round of chunk_loop starts a word further on at least, and it is given the number of
-- words. So both end by their own tests.
--
-- Left out: row-level policies (a table is what the transaction sees), logging, the HTTP layer, the
-- portal's sign-in and its whitelist editor (apps/api/src/auth/admin-session.service.ts), the
-- payment and storage drivers, the user interfaces, the lists that only read, and the services that
-- are listed as not modelled in the project's manifest: ingestion, retrieval, chat, uploads, voice
-- and reports.
pub mod Admin
pub mod Ai
pub mod Billing
pub mod Booking
pub mod Cache
pub mod Common
pub mod Concierge
pub mod Database
pub mod Entitlement
pub mod Knowledge
pub mod Orm
pub mod RateLimit
