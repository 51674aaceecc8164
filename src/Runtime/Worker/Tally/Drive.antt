-- ===== src/Runtime/Worker/Tally/Drive.antt =====
-- The drive of the connection keeps the tally.
use swbt_rs.Base.{
  Only, ℕ, ◌+◌, min, ◌≡◌, refl, ◌∙◌, ap, Bool, true, false, Option, none, some, arith, by_test,
  Result, ok, err, ◌==◌,
}
use swbt_rs.Model.Spec.{ControllerKind}
use swbt_rs.Protocol.Facade.{SwitchHidProtocol}
use swbt_rs.Protocol.Floats.{F64Ops}
use swbt_rs.Runtime.Clock.{max_u64}
use swbt_rs.Runtime.Handshake
use swbt_rs.Runtime.Handshake.{
  HandshakeResult, stale_session, waiting_for_topology, subcommand_observed, waiting_until,
  bootstrap_attempted,
}
use swbt_rs.Runtime.Lifecycle
use swbt_rs.Runtime.Lifecycle.{RuntimeState, mark_ready, opened, connecting, closing, failed}
use swbt_rs.Runtime.Output.{transport_failed}
use swbt_rs.Runtime.Readiness.{
  ReadinessError, Evaluated, still_pending, ready, expect_failed, ensure_active,
}
use swbt_rs.Runtime.Transport.{TransportError, Io, is_rejected}
use swbt_rs.Runtime.Worker.Core
use swbt_rs.Runtime.Worker.Core.{WorkerCore, ConnectionWork, Act, observe_topology}
use swbt_rs.Runtime.Worker.Drive.{
  Surroundings, is_ready, evaluated, evaluate, attempt_done, stepped, handshake_stepped,
  drive_handshake, drive_active, drive_work, drive_connection,
}
use swbt_rs.Runtime.Worker.Lawful.{IsLawful, NoPanic}
use swbt_rs.Runtime.Worker.PeriodicReporting.{is_pending}
use swbt_rs.Runtime.Worker.Reporting.{Reporting}
use swbt_rs.Runtime.Worker.Step.{is_state_ready, is_state_connecting}
use swbt_rs.Runtime.Worker.Tally.{Tally, owed, Good}
use swbt_rs.Runtime.Worker.Tally.Core.{
  false_not_true, GoodAct, complete_connection_command-Tally, abort_connection-Good,
}
use swbt_rs.Runtime.Worker.Types.{StepProgress, push_error, output_operation, minimum_deadline}

module _ {R C T : Type 0} (f : F64Ops) (p : SwitchHidProtocol) (m : ControllerKind)
    (env : Surroundings T C) (ops : Reporting R C T) (lawful : IsLawful ops) where
  -- While the connection is driven.
  abbrev Driven : ℕ → WorkerCore R T → StepProgress → Type 0
  Driven base core progress =
      Tally base (owed ops core) progress
      × (ops.has_pending core.reporting ≡ false)
      × (is_state_connecting core.lifecycle ≡ true)
      × (is_pending core.connection ≡ false)

  held-Good :
      (base : ℕ) (core : WorkerCore R T) (progress : StepProgress) (c : ConnectionWork)
      → Driven base core progress
      → Good ops base (record core { connection = some c }) progress
  held-Good base core progress c (tally, no_tap, connecting', _) =
      (tally, (rw no_tap tt, connecting'))

  is_ready-Good :
      (base : ℕ) (core : WorkerCore R T) (c : ConnectionWork) (progress : StepProgress)
      (actions : ℕ) (same : Bool)
      → Driven base core progress
      → GoodAct ops lawful base (is_ready f p m env ops core c progress actions same)
  unfolding Core.complete_connection_command
  is_ready-Good base core c progress actions false driven = held-Good base core progress c driven
  is_ready-Good base core c progress actions true driven =
      let (tally, no_tap, connecting', no_connection) = driven in
      by_test (GoodAct ops lawful base) (mark_ready core.lifecycle).1
        (λ _. (
          complete_connection_command-Tally ops lawful base
              (record core { lifecycle = (mark_ready core.lifecycle).0 }) progress (ok tt) tally,
          (rw no_tap tt, rw no_connection tt),
        ))
        λ _. held-Good base core progress c driven

  evaluated-Good :
      (base : ℕ) (core : WorkerCore R T) (c : ConnectionWork) (progress : StepProgress)
      (actions : ℕ) (result : R × Evaluated)
      → (ops.has_pending result.0 ≡ ops.has_pending core.reporting) × NoPanic result.1
      → Driven base core progress
      → GoodAct ops lawful base (evaluated f p m env ops core c progress actions result)
  evaluated-Good base core c progress actions (reporting, (gate, handshake, err e)) (same, _)
        (tally, no_tap, _, _) =
      abort_connection-Good ops lawful base (record core { reporting = reporting }) progress e
        (rw same tally) (same ∙ no_tap)
  evaluated-Good base core c progress actions (reporting, (gate, handshake, ok (still_pending _)))
        (same, _) (tally, no_tap, connecting', no_connection) =
      held-Good base (record core { reporting = reporting }) progress
        (record c { handshake = handshake; readiness = gate })
        (rw same tally, same ∙ no_tap, connecting', no_connection)
  evaluated-Good base core c progress actions (reporting, (gate, handshake, ok (ready id)))
        (same, _) (tally, no_tap, connecting', no_connection) =
      is_ready-Good base (record core { reporting = reporting })
        (record c { handshake = handshake; readiness = gate }) progress actions (id == c.session_id)
        (rw same tally, same ∙ no_tap, connecting', no_connection)
  evaluated-Good base core c progress actions (reporting, (gate, handshake, ok expect_failed))
        (_, impossible) driven =
      absurd impossible

  evaluate-Good :
      (base : ℕ) (core : WorkerCore R T) (c : ConnectionWork) (now : ℕ) (progress : StepProgress)
      (actions : ℕ)
      → Driven base core progress
      → GoodAct ops lawful base (evaluate f p m env ops core c now progress actions)
  evaluate-Good base core c now progress actions driven =
      evaluated-Good base core c progress actions
        (ops.evaluate_readiness core.reporting now core.sessions c.handshake core.io.sender
          c.readiness)
        (lawful.evaluate_readiness core.reporting now core.sessions c.handshake core.io.sender
          c.readiness)
        driven

  attempt_done-Good :
      (base : ℕ) (core : WorkerCore R T) (c : ConnectionWork) (now : ℕ) (progress : StepProgress)
      (result : Result TransportError (Unit {0}))
      → Driven base core progress
      → GoodAct ops lawful base (attempt_done f p m env ops core c now progress result)
  attempt_done-Good base core c now progress (ok _) driven =
      evaluate-Good base core c now progress 1 driven
  attempt_done-Good base core c now progress (err error) driven =
      by_test (GoodAct ops lawful base) (is_rejected error)
        (λ _.
          evaluate-Good base core c now
            (push_error progress (output_operation (transport_failed error))) 1 driven)
        λ _. held-Good base core progress c driven

  stepped-Good :
      (base : ℕ) (core : WorkerCore R T) (c : ConnectionWork) (now : ℕ) (progress : StepProgress)
      (result : HandshakeResult)
      → Driven base core progress
      → GoodAct ops lawful base (stepped f p m env ops core c now progress result)
  stepped-Good base core c now progress (err e) driven = held-Good base core progress c driven
  stepped-Good base core c now progress (ok (waiting_until deadline)) driven =
      evaluate-Good base core c now
        (record progress {
          next_deadline = minimum_deadline progress.next_deadline (some deadline);
        })
        0 driven
  stepped-Good base core c now progress (ok (bootstrap_attempted result skipped)) driven =
      attempt_done-Good base core c now
        (record progress { skipped_deadlines = min (progress.skipped_deadlines + skipped) max_u64 })
        result driven
  stepped-Good base core c now progress (ok stale_session) driven =
      evaluate-Good base core c now progress 0 driven
  stepped-Good base core c now progress (ok waiting_for_topology) driven =
      evaluate-Good base core c now progress 0 driven
  stepped-Good base core c now progress (ok subcommand_observed) driven =
      evaluate-Good base core c now progress 0 driven

  handshake_stepped-Good :
      (base : ℕ) (core : WorkerCore R T) (c : ConnectionWork) (now : ℕ) (progress : StepProgress)
      (result : Handshake.Handshake × Io T × HandshakeResult)
      → Driven base core progress
      → GoodAct ops lawful base (handshake_stepped f p m env ops core c now progress result)
  handshake_stepped-Good base core c now progress (h, io, result) driven =
      stepped-Good base (record core { io = io }) (record c { handshake = some h }) now progress
        result driven

  drive_handshake-Good :
      (base : ℕ) (core : WorkerCore R T) (c : ConnectionWork) (now : ℕ) (progress : StepProgress)
      (h : Option Handshake.Handshake)
      → Driven base core progress
      → GoodAct ops lawful base (drive_handshake f p m env ops core c now progress h)
  drive_handshake-Good base core c now progress none driven =
      evaluate-Good base core c now progress 0 driven
  drive_handshake-Good base core c now progress (some h) driven =
      handshake_stepped-Good base core c now progress
        (Handshake.step f m env.port h c.session_id now core.io) driven

  drive_active-Good :
      (base : ℕ) (core : WorkerCore R T) (c : ConnectionWork) (now : ℕ) (progress : StepProgress)
      (active : Result ReadinessError (Unit {0}))
      → Driven base core progress
      → GoodAct ops lawful base (drive_active f p m env ops core c now progress active)
  drive_active-Good base core c now progress (err e) (tally, no_tap, _, _) =
      abort_connection-Good ops lawful base core progress e tally no_tap
  drive_active-Good base core c now progress (ok _) driven =
      drive_handshake-Good base core c now progress c.handshake driven

  -- The two states exclude each other, so no tap is pending while a connection is in progress.
  connecting_not_ready :
      (state : RuntimeState) → is_state_connecting state ≡ true → is_state_ready state ≡ false
  connecting_not_ready connecting h = refl
  connecting_not_ready opened h = refl
  connecting_not_ready Lifecycle.ready h = absurd (ground (arith, h))
  connecting_not_ready closing h = refl
  connecting_not_ready failed h = refl

  tap_excluded :
      (tap : Bool) (state : RuntimeState)
      → Only tap (is_state_ready state)
      → is_state_connecting state ≡ true
      → tap ≡ false
  tap_excluded false state taps connects = refl
  tap_excluded true state taps connects = false_not_true (connecting_not_ready state connects) taps

  drive_work-Good :
      (base : ℕ) (core : WorkerCore R T) (now : ℕ) (progress : StepProgress)
      (connection : Option ConnectionWork)
      → core.connection ≡ connection
      → Good ops base core progress
      → GoodAct ops lawful base (drive_work f p m env ops core now progress connection)
  drive_work-Good base core now progress none e good = good
  drive_work-Good base core now progress (some c) e (tally, (taps, connects)) =
      let connecting' = rw (ap is_pending e) at connects in
      drive_active-Good base (record core { connection = none }) c now progress
        (ensure_active c.readiness now core.sessions)
        (
          tally,
          tap_excluded (ops.has_pending core.reporting) core.lifecycle taps connecting',
          connecting',
          refl,
        )

  pub drive_connection-Good :
      (base : ℕ) (core : WorkerCore R T) (now : ℕ) (progress : StepProgress)
      → Good ops base core progress
      → GoodAct ops lawful base (drive_connection f p m env ops core now progress)
  unfolding drive_connection
  drive_connection-Good base core now progress good =
      drive_work-Good base core now progress core.connection refl good
