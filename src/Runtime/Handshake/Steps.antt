-- ===== src/Runtime/Handshake/Steps.antt =====
-- A step of a handshake against what has happened.
use swbt_rs.Base.{
  first_of_and, negated, ℕ, ◌≡◌, sym, ap, ◌∙◌, Bool, true, false, not, ◌&&◌, ◌||◌, Option, none,
  some, ltb, ◌==◌, by_test, Result, ok, err,
}
use swbt_rs.Model.Spec.{ControllerKind}
use swbt_rs.Input.State
use swbt_rs.Protocol.Floats.{F64Ops}
use swbt_rs.Protocol.Session.{protocol_ready}
use swbt_rs.Runtime.Clock.{protocol_timestamp}
use swbt_rs.Runtime.Handshake.{
  Handshake, HandshakeCompletionCondition, bootstrap_retry, is_satisfied, topology_ready,
  record_bootstrap_attempt, Stepped, send_bootstrap, attempted, first_attempt, next_attempt,
  attempt, step,
}
use swbt_rs.Runtime.Scheduler
use swbt_rs.Runtime.Scheduler.{ReportScheduler, SchedulerError, TickDecision, not_due, due}
use swbt_rs.Runtime.Transport.{TransportResult, TransportPort, Io, send_state}
use swbt_rs.Runtime.Handshake.Seen.{Seen, is_accepted, is_attempt, holds, step_seen, accepts}
use swbt_rs.Runtime.Handshake.Follows.{
  Follows, retried, waits, accepted, stopped, met_now, or_true, or_false, same_condition,
  second_of_and,
}

module _ {T : Type 0} (f : F64Ops) (m : ControllerKind) (port : TransportPort T) (session_id : ℕ)
    (condition : HandshakeCompletionCondition) where
  abbrev Same : Handshake → Seen → Type 0
  Same = Follows session_id condition

  -- A step keeps the flags in step with what was seen.
  abbrev pub Keeps : Seen → Bool → Bool → Stepped f m port → Type 0
  Keeps seen same accepts (h', io', r) =
      Same h' (step_seen condition same (is_attempt r && accepts) io' seen)

  is_met :
      (h : Handshake) (seen : Seen) (io : Io T)
      → Same h seen
      → is_satisfied h.completion_condition io.observed (protocol_ready io.sender.committed.session)
        ≡ true
      → holds condition io ≡ true
  is_met h seen io s e =
      sym (same_condition condition io)
      ∙ ap
          (λ (c : HandshakeCompletionCondition).
            is_satisfied c io.observed (protocol_ready io.sender.committed.session))
          (sym s.own_condition)
      ∙ e

  attempted-Keeps :
      (h : Handshake) (seen : Seen) (same : Bool) (skipped : ℕ)
      (result : Io T × TransportResult (Unit {0}))
      → Same h seen
      → same ≡ true
      → Keeps seen same (is_accepted result.1) (attempted f m port h skipped result)
  unfolding record_bootstrap_attempt
  attempted-Keeps h seen same skipped (io, err _) s e = waits session_id condition h seen same io s
  attempted-Keeps h seen same skipped (io, ok _) s e =
      by_test (λ (h' : Handshake). Same h' (step_seen condition same true io seen))
        (is_satisfied h.completion_condition io.observed
          (protocol_ready io.sender.committed.session))
        (λ satisfied.
          stopped session_id condition (record h { bootstrap_accepted = true })
            (step_seen condition same true io seen) (accepted session_id condition h seen same io s)
            (met_now session_id condition seen.met same (seen.sent || true) (holds condition io) e
              (or_true seen.sent) (is_met h seen io s satisfied)))
        λ _. accepted session_id condition h seen same io s

  abbrev bootstrap : Io T → ℕ → Io T × TransportResult (Unit {0})
  bootstrap io now = send_state f m port io State.neutral (protocol_timestamp now)

  first_attempt-Keeps :
      (h : Handshake) (seen : Seen) (same : Bool) (io : Io T) (now : ℕ)
      (begun : Result SchedulerError ReportScheduler)
      → Same h seen
      → same ≡ true
      → Keeps seen same (is_accepted (bootstrap io now).1) (first_attempt f m port h io now begun)
  unfolding send_bootstrap
  first_attempt-Keeps h seen same io now (err _) s e = waits session_id condition h seen same io s
  first_attempt-Keeps h seen same io now (ok begun) s e =
      attempted-Keeps (record h { retry = some begun }) seen same 0 (bootstrap io now)
        (retried session_id condition h seen (some begun) s) e

  next_attempt-Keeps :
      (h : Handshake) (seen : Seen) (same : Bool) (io : Io T) (now : ℕ)
      (ticked : ReportScheduler × Result SchedulerError TickDecision)
      → Same h seen
      → same ≡ true
      → Keeps seen same (is_accepted (bootstrap io now).1) (next_attempt f m port h io now ticked)
  unfolding send_bootstrap
  next_attempt-Keeps h seen same io now (t, err _) s e =
      waits session_id condition (record h { retry = some t }) seen same io
        (retried session_id condition h seen (some t) s)
  next_attempt-Keeps h seen same io now (t, ok not_due) s e =
      waits session_id condition (record h { retry = some t }) seen same io
        (retried session_id condition h seen (some t) s)
  next_attempt-Keeps h seen same io now (t, ok (due skipped)) s e =
      attempted-Keeps (record h { retry = some t }) seen same skipped (bootstrap io now)
        (retried session_id condition h seen (some t) s) e

  attempt-Keeps :
      (h : Handshake) (seen : Seen) (same : Bool) (io : Io T) (now : ℕ)
      (retry : Option ReportScheduler)
      → Same h seen
      → same ≡ true
      → Keeps seen same (is_accepted (bootstrap io now).1) (attempt f m port h io now retry)
  attempt-Keeps h seen same io now none s e =
      first_attempt-Keeps h seen same io now (Scheduler.start now bootstrap_retry) s e
  attempt-Keeps h seen same io now (some t) s e =
      by_test {A = Stepped f m port} (Keeps seen same (is_accepted (bootstrap io now).1))
        (ltb now t.next_deadline) (λ _. waits session_id condition h seen same io s)
        λ _. next_attempt-Keeps h seen same io now (Scheduler.step t now) s e

  both_met :
      (h : Handshake) (seen : Seen) (same : Bool) (io : Io T)
      → Same h seen
      → same ≡ true
      → h.bootstrap_accepted
          && is_satisfied h.completion_condition io.observed
              (protocol_ready io.sender.committed.session)
        ≡ true
      → (step_seen condition same false io seen).met ≡ true
  both_met h seen same io s e both =
      let was_sent = first_of_and h.bootstrap_accepted _ both in
      let satisfied = second_of_and h.bootstrap_accepted _ both in
      met_now session_id condition seen.met same (seen.sent || false) (holds condition io) e
        (or_false seen.sent ∙ sym s.same_sent ∙ was_sent) (is_met h seen io s satisfied)

  pub step-Keeps :
      (h : Handshake) (seen : Seen) (id now : ℕ) (io : Io T)
      → Same h seen
      → Keeps seen (id == session_id) (is_accepted (bootstrap io now).1) (step f m port h id now io)
  unfolding step
  step-Keeps h seen id now io s =
      let P = λ (r : Stepped f m port).
        Keeps seen (id == session_id) (is_accepted (bootstrap io now).1) r in
      let stays = waits session_id condition h seen (id == session_id) io s in
      by_test {A = Stepped f m port} P (not (id == h.session_id)) (λ _. stays)
        λ own.
          let same : (id == session_id) ≡ true =
            ap (λ (n : ℕ). id == n) (sym s.own_session) ∙ negated (id == h.session_id) own in
          by_test {A = Stepped f m port} P h.bootstrap_stopped (λ _. stays)
            λ _.
              by_test {A = Stepped f m port} P (not (topology_ready h)) (λ _. stays)
                λ _.
                  by_test {A = Stepped f m port} P
                    (h.bootstrap_accepted
                      && is_satisfied h.completion_condition io.observed
                          (protocol_ready io.sender.committed.session))
                    (λ both.
                      stopped session_id condition h
                        (step_seen condition (id == session_id) false io seen) stays
                        (both_met h seen (id == session_id) io s same both))
                    λ _. attempt-Keeps h seen (id == session_id) io now h.retry s same
