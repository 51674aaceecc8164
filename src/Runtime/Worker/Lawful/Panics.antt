-- ===== src/Runtime/Worker/Lawful/Panics.antt =====
-- No expectation of an evaluation fails.
use swbt_rs.Base.{ℕ, Option, none, some, ok, err}
use swbt_rs.Runtime.Readiness.{ReadinessGate, Evaluated, still_pending, ready, expect_failed}
use swbt_rs.Runtime.Readiness.Laws.{Answers, Kept}
use swbt_rs.Runtime.Sender.{ReportSender}
use swbt_rs.Runtime.Sessions.{ConnectionSessions}
use swbt_rs.Runtime.Worker.Lawful.{NoPanic}

abbrev pub Anything : ℕ → Type 0
Anything _ = Unit {0}

pub Kept-Anything : (held : Option ℕ) → Kept Anything held
Kept-Anything none = tt
Kept-Anything (some _) = tt

pub Answers-NoPanic :
    (gate : ReadinessGate) (now : ℕ) (sessions : ConnectionSessions) (sender : ReportSender)
    (result : Evaluated)
    → Answers Anything gate now sessions sender result
    → NoPanic result
Answers-NoPanic gate now sessions sender (_, _, ok (ready id)) h = tt
Answers-NoPanic gate now sessions sender (_, _, ok expect_failed) h = h
Answers-NoPanic gate now sessions sender (_, _, ok (still_pending _)) h = tt
Answers-NoPanic gate now sessions sender (_, _, err _) h = tt
