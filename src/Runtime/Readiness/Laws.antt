-- ===== src/Runtime/Readiness/Laws.antt =====
-- A connection is ready only in time, in its session, and when the protocol is ready.
use swbt_rs.Base.{
  first_of_and, ℕ, ◌<◌, ◌≡◌, refl, Bool, true, false, Option, none, some, ltb, ◌==◌, arith, by_test,
  Result, ok, err,
}
use swbt_rs.Protocol.Session.{
  ReportModeSelection, is_standard, mode_byte, lights_on, ProtocolSession, protocol_ready,
  report_mode, report_mode_supported, standard_full, unsupported,
}
use swbt_rs.Runtime.Handshake.{Handshake, completion}
use swbt_rs.Runtime.Periodic.{
  PeriodicPolicy, PeriodicStart, start_held_off, started, start_when_unheld,
}
use swbt_rs.Runtime.Readiness.{
  ReadinessGate, ReadinessError, still_pending, ready, expect_failed, Evaluated, Collected,
  collect_handshake, collect_from, collect_new, collect_completed, direct_collected, direct_active,
  evaluate_direct, EvaluatedPeriodic, periodic_collected, periodic_active, evaluate_periodic,
  reporting_started, periodic_started, take_ready_session, is_mode_0x30, ensure_active,
  ensure_current, ensure_before_timeout, with_ready, and_then, timed_out, stale_session,
}
use swbt_rs.Runtime.Scheduler.{SchedulerError}
use swbt_rs.Runtime.Sender.{ReportSender}
use swbt_rs.Runtime.Sessions.{ConnectionSessions, is_current}

-- The completion that a gate holds, where it holds one, has `Q`.
abbrev pub Kept : (ℕ → Type 0) → Option ℕ → Type 0
Kept Q none = Unit {0}
Kept Q (some id) = Q id

abbrev Held : (ℕ → Type 0) → Option ℕ → Type 0
Held Q none = ⊥
Held Q (some id) = Q id

abbrev pub IsActive : ReadinessGate → ℕ → ConnectionSessions → Type 0
IsActive gate now sessions =
    (is_current sessions.current gate.session_id ≡ true) × (now < gate.operation_deadline)

-- What an evaluation answers, and the gate that it leaves.
abbrev pub Answers :
    (ℕ → Type 0) → ReadinessGate → ℕ → ConnectionSessions → ReportSender → Evaluated → Type 0
Answers Q gate now sessions sender (gate', _, ok (ready id)) =
    Q id × IsActive gate now sessions × (protocol_ready sender.committed.session ≡ true)
Answers Q gate now sessions sender (gate', _, ok expect_failed) = ⊥
Answers Q gate now sessions sender (gate', _, ok (still_pending _)) =
    IsActive gate now sessions × Kept Q gate'.handshake × (gate'.session_id ≡ gate.session_id)
Answers Q gate now sessions sender (gate', _, err _) = Unit {0}

-- What a collection leaves.
abbrev Collects : (ℕ → Type 0) → ReadinessGate → Collected → Type 0
Collects Q gate (gate', _, ok true) = Held Q gate'.handshake × (gate'.session_id ≡ gate.session_id)
Collects Q gate (gate', _, ok false) = Kept Q gate'.handshake × (gate'.session_id ≡ gate.session_id)
Collects Q gate (gate', _, err _) = Unit {0}

completed-Collects :
    (Q : ℕ → Type 0) (gate : ReadinessGate) (h : Handshake) (completion : Option ℕ)
    → Q gate.session_id
    → gate.handshake ≡ none
    → Collects Q gate (collect_completed gate h completion)
completed-Collects Q gate h none own e = (rw e tt, refl)
completed-Collects Q gate h (some id) own e =
    by_test (Collects Q gate) (id == gate.session_id)
      (λ same. let same' : id ≡ gate.session_id = ground (arith, same) in (rw same' own, refl))
      λ _. tt

new-Collects :
    (Q : ℕ → Type 0) (gate : ReadinessGate) (handshake : Option Handshake)
    → Q gate.session_id
    → gate.handshake ≡ none
    → Collects Q gate (collect_new gate handshake)
new-Collects Q gate none own e = (rw e tt, refl)
new-Collects Q gate (some h) own e = completed-Collects Q gate h (completion h) own e

from-Collects :
    (Q : ℕ → Type 0) (gate : ReadinessGate) (handshake : Option Handshake) (held : Option ℕ)
    → Q gate.session_id
    → Kept Q held
    → gate.handshake ≡ held
    → Collects Q gate (collect_from gate handshake held)
from-Collects Q gate handshake none own kept e = new-Collects Q gate handshake own e
from-Collects Q gate handshake (some id) own kept e = (rw e kept, refl)

collect_handshake-Collects :
    (Q : ℕ → Type 0) (gate : ReadinessGate) (handshake : Option Handshake)
    → Q gate.session_id
    → Kept Q gate.handshake
    → Collects Q gate (collect_handshake gate handshake)
unfolding collect_handshake
collect_handshake-Collects Q gate handshake own kept =
    from-Collects Q gate handshake gate.handshake own kept refl

Held-Kept : (Q : ℕ → Type 0) (held : Option ℕ) → Held Q held → Kept Q held
Held-Kept Q none impossible = absurd impossible
Held-Kept Q (some id) h = h

taken-Answers :
    (Q : ℕ → Type 0) (gate gate' : ReadinessGate) (now : ℕ) (sessions : ConnectionSessions)
    (sender : ReportSender) (handshake : Option Handshake) (held : Option ℕ)
    → gate'.handshake ≡ held
    → Held Q held
    → IsActive gate now sessions
    → protocol_ready sender.committed.session ≡ true
    → Answers Q gate now sessions sender (with_ready handshake (take_ready_session gate'))
unfolding take_ready_session
taken-Answers Q gate gate' now sessions sender handshake none e impossible active is_ready =
    absurd impossible
taken-Answers Q gate gate' now sessions sender handshake (some id) e held active is_ready =
    rw e (held, active, is_ready)

direct_collected-Answers :
    (Q : ℕ → Type 0) (gate : ReadinessGate) (now : ℕ) (sessions : ConnectionSessions)
    (sender : ReportSender) (collected : Collected)
    → IsActive gate now sessions
    → Collects Q gate collected
    → Answers Q gate now sessions sender (direct_collected sender collected)
direct_collected-Answers Q gate now sessions sender (gate', h, err e) active collects = tt
direct_collected-Answers Q gate now sessions sender (gate', h, ok false) active (kept, same) =
    (active, kept, same)
direct_collected-Answers Q gate now sessions sender (gate', h, ok true) active (held, same) =
    by_test (Answers Q gate now sessions sender) (protocol_ready sender.committed.session)
      (λ is_ready.
        taken-Answers Q gate gate' now sessions sender h gate'.handshake refl held active is_ready)
      λ _. (active, Held-Kept Q gate'.handshake held, same)

-- A gate passes when its session is the current one and its time has not come.
pub active_cases {ℓ} :
    {A : Type 0} (P : A → Type ℓ) (gate : ReadinessGate) (now : ℕ) (sessions : ConnectionSessions)
    (next : Result ReadinessError (Unit {0}) → A)
    → (IsActive gate now sessions → P (next (ok tt)))
    → ((e : ReadinessError) → P (next (err e)))
    → P (next (ensure_active gate now sessions))
unfolding ensure_active ensure_current ensure_before_timeout
active_cases P gate now sessions next passes fails =
    by_test (λ current. P (next (and_then current (ensure_before_timeout gate now))))
      (is_current sessions.current gate.session_id)
      (λ current.
        by_test (λ before. P (next before)) (ltb now gate.operation_deadline)
          (λ before. passes (current, ground (arith, before))) λ _. fails timed_out)
      λ _. fails (stale_session gate.session_id sessions.current)

-- With any property of the completion.
pub evaluate_direct-Answers_of :
    (Q : ℕ → Type 0) (gate : ReadinessGate) (now : ℕ) (sessions : ConnectionSessions)
    (handshake : Option Handshake) (sender : ReportSender)
    → Q gate.session_id
    → Kept Q gate.handshake
    → Answers Q gate now sessions sender (evaluate_direct gate now sessions handshake sender)
unfolding evaluate_direct
evaluate_direct-Answers_of Q gate now sessions handshake sender own kept =
    active_cases (Answers Q gate now sessions sender) gate now sessions
      (direct_active gate handshake sender)
      (λ active.
        direct_collected-Answers Q gate now sessions sender (collect_handshake gate handshake)
          active (collect_handshake-Collects Q gate handshake own kept))
      λ e. tt

-- The protocol is ready in the report mode 0x30 only.
mode_cases :
    (mode : Option ReportModeSelection)
    → is_standard mode ≡ true
    → is_mode_0x30 (mode_byte mode) ≡ true
mode_cases none h = absurd (ground (arith, h))
mode_cases (some standard_full) h = refl
mode_cases (some (unsupported _)) h = absurd (ground (arith, h))

not_ready_by : (a b : Bool) → (a ≡ true → b ≡ true) → b ≡ false → a ≡ false
not_ready_by false b implies h = refl
not_ready_by true b implies h = absurd (let e = implies refl in ground (arith, e, h))

ready_mode : (s : ProtocolSession) → protocol_ready s ≡ true → is_mode_0x30 (report_mode s) ≡ true
unfolding protocol_ready report_mode report_mode_supported
ready_mode s h = mode_cases s.mode (first_of_and (is_standard s.mode) (lights_on s.lights) h)

reporting_started-Answers :
    (Q : ℕ → Type 0) (gate gate' : ReadinessGate) (now : ℕ) (sessions : ConnectionSessions)
    (sender : ReportSender) (h : Option Handshake)
    (begun : PeriodicPolicy × Result SchedulerError PeriodicStart) (is_ready : Bool)
    → protocol_ready sender.committed.session ≡ is_ready
    → IsActive gate now sessions
    → Held Q gate'.handshake
    → gate'.session_id ≡ gate.session_id
    → Answers Q gate now sessions sender (reporting_started gate' h is_ready begun).1
reporting_started-Answers Q gate gate' now sessions sender h (policy, err e) is_ready said active
      held same =
    tt
reporting_started-Answers Q gate gate' now sessions sender h (policy, ok start) false said active
      held same =
    (active, Held-Kept Q gate'.handshake held, same)
reporting_started-Answers Q gate gate' now sessions sender h (policy, ok (start_held_off until))
      true said active held same =
    (active, Held-Kept Q gate'.handshake held, same)
reporting_started-Answers Q gate gate' now sessions sender h (policy, ok (started _)) true said
      active held same =
    taken-Answers Q gate gate' now sessions sender h gate'.handshake refl held active said

unstarted-Answers :
    (Q : ℕ → Type 0) (gate gate' : ReadinessGate) (now : ℕ) (sessions : ConnectionSessions)
    (sender : ReportSender) (h : Option Handshake) (is_ready : Bool)
    → is_ready ≡ false
    → IsActive gate now sessions
    → Held Q gate'.handshake
    → gate'.session_id ≡ gate.session_id
    → Answers Q gate now sessions sender (periodic_started gate' h is_ready none)
unstarted-Answers Q gate gate' now sessions sender h false e active held same =
    (active, Held-Kept Q gate'.handshake held, same)
unstarted-Answers Q gate gate' now sessions sender h true e active held same =
    absurd (ground (arith, e))

not_ready_mode :
    (s : ProtocolSession) → is_mode_0x30 (report_mode s) ≡ false → protocol_ready s ≡ false
not_ready_mode s h = not_ready_by (protocol_ready s) (is_mode_0x30 (report_mode s)) (ready_mode s) h

periodic_collected-Answers :
    (Q : ℕ → Type 0) (gate : ReadinessGate) (now : ℕ) (sessions : ConnectionSessions)
    (sender : ReportSender) (policy : PeriodicPolicy) (collected : Collected)
    → IsActive gate now sessions
    → Collects Q gate collected
    → Answers Q gate now sessions sender (periodic_collected sender policy now collected).1
periodic_collected-Answers Q gate now sessions sender policy (gate', h, err e) active collects = tt
periodic_collected-Answers Q gate now sessions sender policy (gate', h, ok false) active
      (kept, same) =
    (active, kept, same)
periodic_collected-Answers Q gate now sessions sender policy (gate', h, ok true) active
      (held, same) =
    by_test {A = EvaluatedPeriodic} (λ r. Answers Q gate now sessions sender r.1)
      (is_mode_0x30 (report_mode sender.committed.session))
      (λ _.
        reporting_started-Answers Q gate gate' now sessions sender h (start_when_unheld policy now)
          (protocol_ready sender.committed.session) refl active held same)
      λ other.
        unstarted-Answers Q gate gate' now sessions sender h
          (protocol_ready sender.committed.session) (not_ready_mode sender.committed.session other)
          active held same

pub evaluate_periodic-Answers_of :
    (Q : ℕ → Type 0) (gate : ReadinessGate) (now : ℕ) (sessions : ConnectionSessions)
    (handshake : Option Handshake) (sender : ReportSender) (policy : PeriodicPolicy)
    → Q gate.session_id
    → Kept Q gate.handshake
    → Answers Q gate now sessions sender
        (evaluate_periodic gate now sessions handshake sender policy).1
unfolding evaluate_periodic
evaluate_periodic-Answers_of Q gate now sessions handshake sender policy own kept =
    active_cases (λ (r : EvaluatedPeriodic). Answers Q gate now sessions sender r.1) gate now
      sessions (periodic_active gate handshake sender policy now)
      (λ active.
        periodic_collected-Answers Q gate now sessions sender policy
          (collect_handshake gate handshake) active
          (collect_handshake-Collects Q gate handshake own kept))
      λ e. tt

-- A completion that a gate holds is that of its own session.
abbrev pub Own : ReadinessGate → ℕ → Type 0
Own gate id = id ≡ gate.session_id

-- For a gate that holds no completion but that of its own session: a direct session is ready only
-- with the identifier of the gate, while it is the current one, before the deadline of the operation
-- and when the protocol is ready; as long as it waits the first two of these hold, and the gate is
-- again such a gate of the same session. The completion that is expected at the end is there.
pub evaluate_direct-Answers :
    (gate : ReadinessGate) (now : ℕ) (sessions : ConnectionSessions) (handshake : Option Handshake)
    (sender : ReportSender)
    → Kept (Own gate) gate.handshake
    → Answers
        (Own gate)
        gate
        now
        sessions
        sender
        (evaluate_direct gate now sessions handshake sender)
evaluate_direct-Answers gate now sessions handshake sender kept =
    evaluate_direct-Answers_of (Own gate) gate now sessions handshake sender refl kept
