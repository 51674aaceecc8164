-- ===== src/Runtime/Readiness.antt =====
-- src/runtime/readiness.rs: when a connection is ready.
pub mod Laws
pub mod Starts
use swbt_rs.Base.{
  ℕ, Bool, true, false, not, Option, none, some, ltb, ◌==◌, if◌then◌else◌, Result, ok, err,
}
use swbt_rs.Protocol.Session.{protocol_ready, report_mode}
use swbt_rs.Runtime.Handshake.{Handshake, completion}
use swbt_rs.Runtime.Periodic.{
  PeriodicPolicy, PeriodicStart, start_held_off, started, start_when_unheld,
}
use swbt_rs.Runtime.Scheduler.{SchedulerError}
use swbt_rs.Runtime.Sender.{ReportSender}
use swbt_rs.Runtime.Sessions.{ConnectionSessions, is_current}

pub data ReadinessWait : Type 0 where
  wait_handshake wait_protocol : ReadinessWait
  wait_holdoff : ℕ → ReadinessWait

-- `expect_failed` stands for a panic of `expect`.
pub data ReadinessProgress : Type 0 where
  still_pending : ReadinessWait → ReadinessProgress
  ready : ℕ → ReadinessProgress
  expect_failed : ReadinessProgress

pub data ReadinessError : Type 0 where
  -- expected, current
  stale_session : ℕ → Option ℕ → ReadinessError
  -- expected, actual
  handshake_session_mismatch : ℕ → ℕ → ReadinessError
  disconnected : Option ℕ → ReadinessError
  timed_out : ReadinessError
  scheduler_failed : SchedulerError → ReadinessError

-- The completed handshake is kept as the identifier of its session.
pub record ReadinessGate : Type 0 where
  pub session_id : ℕ
  pub operation_deadline : ℕ
  pub handshake : Option ℕ

unfoldable pub new : ℕ → ℕ → ReadinessGate
new session_id operation_deadline = record {
  session_id = session_id;
  operation_deadline = operation_deadline;
  handshake = none;
}

unfoldable pub ensure_current :
    ReadinessGate → ConnectionSessions → Result ReadinessError (Unit {0})
ensure_current gate sessions =
    if is_current sessions.current gate.session_id
    then ok tt
    else err (stale_session gate.session_id sessions.current)

unfoldable pub ensure_before_timeout : ReadinessGate → ℕ → Result ReadinessError (Unit {0})
ensure_before_timeout gate now = if ltb now gate.operation_deadline then ok tt else err timed_out

abbrev and_then :
    Result ReadinessError (Unit {0})
    → Result ReadinessError (Unit {0})
    → Result ReadinessError (Unit {0})
and_then (ok _) next = next
and_then (err e) next = err e

unfoldable pub ensure_active :
    ReadinessGate → ℕ → ConnectionSessions → Result ReadinessError (Unit {0})
ensure_active gate now sessions =
    and_then (ensure_current gate sessions) (ensure_before_timeout gate now)

-- The gate, the handshake that is left, and the answer.
abbrev pub Collected : Type 0
Collected = ReadinessGate × Option Handshake × Result ReadinessError Bool

abbrev collect_completed : ReadinessGate → Handshake → Option ℕ → Collected
collect_completed gate h none = (gate, some h, ok false)
collect_completed gate h (some id) =
    if id == gate.session_id
    then (record gate { handshake = some id }, none, ok true)
    else (gate, some h, err (handshake_session_mismatch gate.session_id id))

abbrev collect_new : ReadinessGate → Option Handshake → Collected
collect_new gate none = (gate, none, ok false)
collect_new gate (some h) = collect_completed gate h (completion h)

abbrev collect_from : ReadinessGate → Option Handshake → Option ℕ → Collected
collect_from gate handshake (some _) = (gate, handshake, ok true)
collect_from gate handshake none = collect_new gate handshake

unfoldable pub collect_handshake : ReadinessGate → Option Handshake → Collected
collect_handshake gate handshake = collect_from gate handshake gate.handshake

abbrev ready_of : Option ℕ → ReadinessProgress
ready_of none = expect_failed
ready_of (some id) = ready id

unfoldable pub take_ready_session : ReadinessGate → ReadinessGate × ReadinessProgress
take_ready_session gate = (record gate { handshake = none }, ready_of gate.handshake)

abbrev pub Evaluated : Type 0
Evaluated = ReadinessGate × Option Handshake × Result ReadinessError ReadinessProgress

abbrev with_ready : Option Handshake → ReadinessGate × ReadinessProgress → Evaluated
with_ready handshake (gate, progress) = (gate, handshake, ok progress)

abbrev direct_collected : ReportSender → Collected → Evaluated
direct_collected sender (gate, handshake, err e) = (gate, handshake, err e)
direct_collected sender (gate, handshake, ok false) =
    (gate, handshake, ok (still_pending wait_handshake))
direct_collected sender (gate, handshake, ok true) =
    if protocol_ready sender.committed.session
    then with_ready handshake (take_ready_session gate)
    else (gate, handshake, ok (still_pending wait_protocol))

abbrev direct_active :
    ReadinessGate → Option Handshake → ReportSender → Result ReadinessError (Unit {0}) → Evaluated
direct_active gate handshake sender (err e) = (gate, handshake, err e)
direct_active gate handshake sender (ok _) =
    direct_collected sender (collect_handshake gate handshake)

unfoldable pub evaluate_direct :
    ReadinessGate → ℕ → ConnectionSessions → Option Handshake → ReportSender → Evaluated
evaluate_direct gate now sessions handshake sender =
    direct_active gate handshake sender (ensure_active gate now sessions)

-- The periodic policy is changed too.
abbrev pub EvaluatedPeriodic : Type 0
EvaluatedPeriodic = PeriodicPolicy × Evaluated

abbrev is_mode_0x30 : Option ℕ → Bool
is_mode_0x30 none = false
is_mode_0x30 (some mode) = mode == 0x30

abbrev periodic_started : ReadinessGate → Option Handshake → Bool → Option PeriodicStart → Evaluated
periodic_started gate handshake false reporting =
    (gate, handshake, ok (still_pending wait_protocol))
periodic_started gate handshake true none = (gate, handshake, ok expect_failed)
periodic_started gate handshake true (some (start_held_off until)) =
    (gate, handshake, ok (still_pending (wait_holdoff until)))
periodic_started gate handshake true (some (started _)) =
    with_ready handshake (take_ready_session gate)

abbrev reporting_started :
    ReadinessGate
    → Option Handshake
    → Bool
    → PeriodicPolicy × Result SchedulerError PeriodicStart
    → EvaluatedPeriodic
reporting_started gate handshake is_ready (policy, err e) =
    (policy, (gate, handshake, err (scheduler_failed e)))
reporting_started gate handshake is_ready (policy, ok start) =
    (policy, periodic_started gate handshake is_ready (some start))

abbrev periodic_collected : ReportSender → PeriodicPolicy → ℕ → Collected → EvaluatedPeriodic
periodic_collected sender policy now (gate, handshake, err e) = (policy, (gate, handshake, err e))
periodic_collected sender policy now (gate, handshake, ok false) =
    (policy, (gate, handshake, ok (still_pending wait_handshake)))
periodic_collected sender policy now (gate, handshake, ok true) =
    let session = sender.committed.session in
    if is_mode_0x30 (report_mode session)
    then reporting_started gate handshake (protocol_ready session) (start_when_unheld policy now)
    else (policy, periodic_started gate handshake (protocol_ready session) none)

abbrev periodic_active :
    ReadinessGate
    → Option Handshake
    → ReportSender
    → PeriodicPolicy
    → ℕ
    → Result ReadinessError (Unit {0})
    → EvaluatedPeriodic
periodic_active gate handshake sender policy now (err e) = (policy, (gate, handshake, err e))
periodic_active gate handshake sender policy now (ok _) =
    periodic_collected sender policy now (collect_handshake gate handshake)

unfoldable pub evaluate_periodic :
    ReadinessGate
    → ℕ
    → ConnectionSessions
    → Option Handshake
    → ReportSender
    → PeriodicPolicy
    → EvaluatedPeriodic
evaluate_periodic gate now sessions handshake sender policy =
    periodic_active gate handshake sender policy now (ensure_active gate now sessions)
