-- ===== src/Runtime/Worker/Tally/Handle.antt =====
-- An event keeps the tally.
use swbt_rs.Base.{ℕ, ◌+◌, ◌≡◌, refl, Bool, false, Option, none, some, arith}
use swbt_rs.Model.Spec.{ControllerKind}
use swbt_rs.Protocol.Facade.{SwitchHidProtocol}
use swbt_rs.Protocol.Floats.{F64Ops}
use swbt_rs.Runtime.Handshake
use swbt_rs.Runtime.Handshake.{
  HandshakeResult, stale_session, waiting_for_topology, subcommand_observed, waiting_until,
  bootstrap_attempted,
}
use swbt_rs.Runtime.Output.{OutputResult, handle_output}
use swbt_rs.Runtime.Sessions.{SessionEvent, take_current}
use swbt_rs.Runtime.Transport.{
  TransportEvent, link_connected, hid_channel_opened, hid_output, link_disconnected, Io,
}
use swbt_rs.Runtime.Worker.Core.{WorkerCore, ConnectionWork, observe_topology}
use swbt_rs.Runtime.Worker.Drive.{
  Surroundings, output_at, read_clock, mode_event, current_event, handle_event, output_handled,
}
use swbt_rs.Runtime.Worker.Lawful.{IsLawful, EventKeeps, Interrupts}
use swbt_rs.Runtime.Worker.PeriodicReporting.{is_pending}
use swbt_rs.Runtime.Worker.Reporting.{
  Reporting, ReportingEvent, passthrough, output_done, session_disconnected,
}
use swbt_rs.Runtime.Worker.Tally.{bit, Tally, owed, Good}
use swbt_rs.Runtime.Worker.Tally.Core.{
  reporting-Good, GoodAct, end_connection-Good, record_output-Good,
}
use swbt_rs.Runtime.Worker.Types.{WorkerCommandError, StepProgress}

observe_topology-is_pending :
    (observe : ℕ → Handshake.Handshake → Handshake.Handshake) (connection : Option ConnectionWork)
    → is_pending (observe_topology observe connection) ≡ is_pending connection
observe_topology-is_pending observe none = refl
observe_topology-is_pending observe (some _) = refl

module _ {R C T : Type 0} (f : F64Ops) (p : SwitchHidProtocol) (m : ControllerKind)
    (env : Surroundings T C) (ops : Reporting R C T) (lawful : IsLawful ops) where
  interrupted-Tally :
      (base : ℕ) (core : WorkerCore R T) (progress : StepProgress) (reporting : R) (io : Io T)
      (completion : Option WorkerCommandError)
      → Interrupts (ops.has_pending core.reporting) (ops.has_pending reporting) completion
      → Tally base (owed ops core) progress
      → Tally base
          (bit (is_pending completion) + owed ops (record core { reporting = reporting; io = io }))
          progress
  interrupted-Tally base core progress reporting io none (before, after) (balance, bound, sane) =
      let balance' = rw before at balance in rw after (omega arith, bound, sane)
  interrupted-Tally base core progress reporting io (some _) (before, after)
        (balance, bound, sane) =
      let balance' = rw before at balance in rw after (omega arith, bound, sane)

  read_output-Good :
      (base : ℕ) (core : WorkerCore R T) (progress : StepProgress) (completion : OutputResult)
      (read : WorkerCore R T × ℕ)
      → Good ops base read.0 progress
      → GoodAct ops lawful base (output_at f p m env ops completion progress read)
  read_output-Good base core progress completion (core', now) good =
      record_output-Good ops lawful base core' now completion progress good

  output_handled-Good :
      (base : ℕ) (core : WorkerCore R T) (progress : StepProgress) (handled : Io T × OutputResult)
      → Good ops base core progress
      → GoodAct ops lawful base (output_handled f p m env ops core progress handled)
  output_handled-Good base core progress (io, completion) good =
      read_output-Good base core progress completion
        (read_clock f p m env ops (record core { io = io })) good

  after_interrupt :
      (before after : Bool) (completion : Option WorkerCommandError)
      → Interrupts before after completion
      → after ≡ false
  after_interrupt before after none (_, h) = h
  after_interrupt before after (some _) (_, h) = h

  -- The connection that an event leaves is the connection before it, or none.
  mode_event-Good :
      (base : ℕ) (core : WorkerCore R T) (progress : StepProgress) (reporting : R) (io : Io T)
      (event : ReportingEvent)
      → EventKeeps (ops.has_pending core.reporting) (ops.has_pending reporting) event
      → Good ops base core progress
      → GoodAct ops lawful base (mode_event f p m env ops core progress (reporting, io, event))
  mode_event-Good base core progress reporting io (passthrough link_connected) same
        (tally, (taps, connects)) =
      (rw same tally, (rw same taps, rw (observe_topology-is_pending _ core.connection) connects))
  mode_event-Good base core progress reporting io (passthrough (hid_channel_opened channel)) same
        (tally, (taps, connects)) =
      (rw same tally, (rw same taps, rw (observe_topology-is_pending _ core.connection) connects))
  mode_event-Good base core progress reporting io (passthrough (hid_output channel payload)) same
        good =
      output_handled-Good base (record core { reporting = reporting; io = io }) progress
        (handle_output p m env.port io payload io.input.committed)
        (reporting-Good ops base core progress reporting same good)
  mode_event-Good base core progress reporting io (passthrough (link_disconnected reason))
        (before, after) (tally, _) =
      end_connection-Good ops lawful base (record core { reporting = reporting; io = io }) reason
        none progress (interrupted-Tally base core progress reporting io none (before, after) tally)
        after
  mode_event-Good base core progress reporting io (session_disconnected reason completion) ends
        (tally, _) =
      end_connection-Good ops lawful base (record core { reporting = reporting; io = io }) reason
        completion progress
        (interrupted-Tally base core progress reporting io completion ends tally)
        (after_interrupt (ops.has_pending core.reporting) (ops.has_pending reporting) completion
          ends)
  mode_event-Good base core progress reporting io (output_done completion) same good =
      read_output-Good base core progress completion
        (read_clock f p m env ops (record core { reporting = reporting; io = io }))
        (reporting-Good ops base core progress reporting same good)

  current_event-Good :
      (base : ℕ) (core : WorkerCore R T) (progress : StepProgress) (event : Option TransportEvent)
      → Good ops base core progress
      → GoodAct ops lawful base (current_event f p m env ops core progress event)
  current_event-Good base core progress none good = good
  current_event-Good base core progress (some event) good =
      let (reporting, io, handled) = ops.handle_event core.reporting event core.io in
      mode_event-Good base core progress (ops.handle_event core.reporting event core.io).0
        (ops.handle_event core.reporting event core.io).1
        (ops.handle_event core.reporting event core.io).2
        (lawful.handle_event core.reporting event core.io) good

  pub handle_event-Good :
      (base : ℕ) (core : WorkerCore R T) (tag : SessionEvent TransportEvent)
      (progress : StepProgress)
      → Good ops base core progress
      → GoodAct ops lawful base (handle_event f p m env ops core tag progress)
  unfolding handle_event
  handle_event-Good base core tag progress good =
      current_event-Good base core progress (take_current core.sessions tag) good
