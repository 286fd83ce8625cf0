-- ===== src/Concierge/Diagram.antt =====
-- The promise of the review, without its tables: a case is a status and a number of verdicts, and it
-- moves along a diagram (the statuses of packages/db/prisma/schema.prisma).
use expertos.Common.{ℕ, suc, ◌≤◌, ◌≡◌, true, Option, none, some, arith}
use expertos.Concierge.{
  ReviewRequestStatus, requested, in_review, answered, escalated, dismissed, respondable,
}

-- A message without a request has no status.
abbrev pub Case : Type 0
Case = Option ReviewRequestStatus × ℕ

infix 40 ◌⟶◌ ◌⟶*◌
pub data ◌⟶◌ : Case → Case → Type 0 where
  stays : {c : Case} → c ⟶ c
  is_queued : {n : ℕ} → (none, n) ⟶ (some requested, n)
  is_answered :
      {s : ReviewRequestStatus} {n : ℕ}
      → respondable s ≡ true
      → (some s, n) ⟶ (some answered, suc n)
  is_escalated :
      {s : ReviewRequestStatus} {n : ℕ} → respondable s ≡ true → (some s, n) ⟶ (some escalated, n)

pub data ◌⟶*◌ : Case → Case → Type 0 where
  here : {c : Case} → c ⟶* c
  moves_then : {c d e : Case} → c ⟶ d → d ⟶* e → c ⟶* e

-- An open case has no verdict, and a closed one has one at most.
abbrev pub IsSettled : Case → Type 0
IsSettled (none, n) = n ≡ 0
IsSettled (some requested, n) = n ≡ 0
IsSettled (some in_review, n) = n ≡ 0
IsSettled (some answered, n) = n ≤ 1
IsSettled (some escalated, n) = n ≤ 1
IsSettled (some dismissed, n) = n ≤ 1

⟶-IsSettled : {c d : Case} → c ⟶ d → IsSettled c → IsSettled d
⟶-IsSettled stays h = h
⟶-IsSettled is_queued h = h
⟶-IsSettled (is_answered {s = requested} o) h = omega arith
⟶-IsSettled (is_answered {s = in_review} o) h = omega arith
⟶-IsSettled (is_answered {s = answered} o) h = cc
⟶-IsSettled (is_answered {s = escalated} o) h = cc
⟶-IsSettled (is_answered {s = dismissed} o) h = cc
⟶-IsSettled (is_escalated {s = requested} o) h = omega arith
⟶-IsSettled (is_escalated {s = in_review} o) h = omega arith
⟶-IsSettled (is_escalated {s = answered} o) h = cc
⟶-IsSettled (is_escalated {s = escalated} o) h = cc
⟶-IsSettled (is_escalated {s = dismissed} o) h = cc

pub ⟶*-IsSettled : {c d : Case} → c ⟶* d → IsSettled c → IsSettled d
⟶*-IsSettled here h = h
⟶*-IsSettled (moves_then m r) h = ⟶*-IsSettled r (⟶-IsSettled m h)

pub IsSettled-one : (c : Case) → IsSettled c → c.1 ≤ 1
IsSettled-one (none, n) h = omega arith
IsSettled-one (some requested, n) h = omega arith
IsSettled-one (some in_review, n) h = omega arith
IsSettled-one (some answered, n) h = h
IsSettled-one (some escalated, n) h = h
IsSettled-one (some dismissed, n) h = h
