-- ===== src/Runtime/Handshake.antt =====
-- src/runtime/handshake.rs: bootstrap reports once a second, until the host answers.
pub mod Complete
pub mod Proper
pub mod Seen
mod Follows
mod Steps
use swbt_rs.Base.{
  ℕ, Bool, true, false, not, ◌&&◌, Option, none, some, ltb, ◌==◌, if◌then◌else◌, Result, ok, err,
}
use swbt_rs.Model.Spec.{ControllerKind}
use swbt_rs.Input.State
use swbt_rs.Protocol.Floats.{F64Ops}
use swbt_rs.Protocol.Session.{protocol_ready}
use swbt_rs.Runtime.Clock.{protocol_timestamp}
use swbt_rs.Runtime.Connection.{ObservedSubcommands, is_empty}
use swbt_rs.Runtime.Scheduler
use swbt_rs.Runtime.Scheduler.{ReportScheduler, SchedulerError, TickDecision, not_due, due}
use swbt_rs.Runtime.Transport.{
  TransportResult, TransportPort, Io, send_state, HidChannel, control, interrupt,
}

-- One second.
abbrev pub bootstrap_retry : ℕ
bootstrap_retry = 1_000_000_000

pub data HandshakeProgress : Type 0 where
  stale_session waiting_for_topology subcommand_observed : HandshakeProgress
  waiting_until : ℕ → HandshakeProgress
  -- result, skipped
  bootstrap_attempted : TransportResult (Unit {0}) → ℕ → HandshakeProgress

-- `HandshakeError` has the one case `Scheduler`.
abbrev pub HandshakeResult : Type 0
HandshakeResult = Result SchedulerError HandshakeProgress

pub data HandshakeCompletionCondition : Type 0 where
  first_subcommand until_ready : HandshakeCompletionCondition

pub record Handshake : Type 0 where
  pub session_id : ℕ
  pub completion_condition : HandshakeCompletionCondition
  pub link_observed : Bool
  pub control_observed : Bool
  pub interrupt_observed : Bool
  pub retry : Option ReportScheduler
  pub bootstrap_accepted : Bool
  pub bootstrap_stopped : Bool

unfoldable pub is_satisfied : HandshakeCompletionCondition → ObservedSubcommands → Bool → Bool
is_satisfied first_subcommand observed ready = not (is_empty observed)
is_satisfied until_ready observed ready = ready

unfoldable pub with_completion_condition : ℕ → HandshakeCompletionCondition → Handshake
with_completion_condition session_id condition = record {
  session_id = session_id;
  completion_condition = condition;
  link_observed = false;
  control_observed = false;
  interrupt_observed = false;
  retry = none;
  bootstrap_accepted = false;
  bootstrap_stopped = false;
}

unfoldable pub new : ℕ → Handshake
unfolding with_completion_condition
new session_id = with_completion_condition session_id first_subcommand

unfoldable pub until_protocol_ready : ℕ → Handshake
unfolding with_completion_condition
until_protocol_ready session_id = with_completion_condition session_id until_ready

unfoldable pub observe_link : Handshake → ℕ → Handshake
observe_link h session_id =
    if session_id == h.session_id then record h { link_observed = true } else h

abbrev opened_channel : Handshake → HidChannel → Handshake
opened_channel h control = record h { control_observed = true }
opened_channel h interrupt = record h { interrupt_observed = true }

unfoldable pub observe_channel : Handshake → ℕ → HidChannel → Handshake
observe_channel h session_id channel =
    if session_id == h.session_id then opened_channel h channel else h

unfoldable pub topology_ready : Handshake → Bool
topology_ready h = h.link_observed && (h.control_observed && h.interrupt_observed)

-- The completion of a handshake is the identifier of its session.
unfoldable pub completion : Handshake → Option ℕ
completion h = if h.bootstrap_stopped then some h.session_id else none

abbrev retry_deadline : Option ReportScheduler → Option ℕ
retry_deadline none = none
retry_deadline (some s) = some s.next_deadline

unfoldable pub next_deadline : Handshake → Option ℕ
next_deadline h = if h.bootstrap_stopped then none else retry_deadline h.retry

unfoldable pub stop_bootstrap : Handshake → Handshake
stop_bootstrap h = record h { retry = none; bootstrap_stopped = true }

abbrev recorded : Handshake → ObservedSubcommands → Bool → TransportResult (Unit {0}) → Handshake
recorded h observed ready (err _) = h
recorded h observed ready (ok _) =
    let h' = record h { bootstrap_accepted = true } in
    if is_satisfied h.completion_condition observed ready then stop_bootstrap h' else h'

unfoldable pub record_bootstrap_attempt :
    Handshake
    → ObservedSubcommands
    → Bool
    → TransportResult (Unit {0})
    → ℕ
    → Handshake × HandshakeProgress
record_bootstrap_attempt h observed ready result skipped =
    (recorded h observed ready result, bootstrap_attempted result skipped)

module _ {T : Type 0} (f : F64Ops) (m : ControllerKind) (port : TransportPort T) where
  abbrev pub Stepped : Type 0
  Stepped = Handshake × Io T × HandshakeResult

  unfoldable pub send_bootstrap : Io T → ℕ → Io T × TransportResult (Unit {0})
  send_bootstrap io now_ns = send_state f m port io State.neutral now_ns

  abbrev attempted : Handshake → ℕ → Io T × TransportResult (Unit {0}) → Stepped
  attempted h skipped (io, result) =
      let (h', progress) =
        record_bootstrap_attempt h io.observed (protocol_ready io.sender.committed.session) result
          skipped in
      (h', io, ok progress)

  abbrev first_attempt : Handshake → Io T → ℕ → Result SchedulerError ReportScheduler → Stepped
  first_attempt h io now (err e) = (h, io, err e)
  first_attempt h io now (ok scheduler) =
      attempted (record h { retry = some scheduler }) 0 (send_bootstrap io (protocol_timestamp now))

  abbrev next_attempt :
      Handshake → Io T → ℕ → ReportScheduler × Result SchedulerError TickDecision → Stepped
  next_attempt h io now (s, err e) = (record h { retry = some s }, io, err e)
  next_attempt h io now (s, ok not_due) =
      (record h { retry = some s }, io, ok (waiting_until s.next_deadline))
  next_attempt h io now (s, ok (due skipped)) =
      attempted (record h { retry = some s }) skipped (send_bootstrap io (protocol_timestamp now))

  abbrev attempt : Handshake → Io T → ℕ → Option ReportScheduler → Stepped
  attempt h io now none = first_attempt h io now (Scheduler.start now bootstrap_retry)
  attempt h io now (some s) =
      if ltb now s.next_deadline
      then (h, io, ok (waiting_until s.next_deadline))
      else next_attempt h io now (Scheduler.step s now)

  unfoldable pub step : Handshake → ℕ → ℕ → Io T → Stepped
  step h session_id now io =
      if not (session_id == h.session_id)
      then (h, io, ok stale_session)
      else if h.bootstrap_stopped
      then (h, io, ok subcommand_observed)
      else if not (topology_ready h)
      then (h, io, ok waiting_for_topology)
      else if h.bootstrap_accepted
          && is_satisfied h.completion_condition io.observed
              (protocol_ready io.sender.committed.session)
      then (stop_bootstrap h, io, ok subcommand_observed)
      else attempt h io now h.retry
