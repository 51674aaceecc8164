-- ===== src/Runtime/Worker/Tally/Events.antt =====
-- The events of a batch and the drive of the connection keep the tally.
use swbt_rs.Base.{
  ℕ, zero, suc, ◌+◌, Bool, true, false, Option, none, some, List, [], ◌∷◌, map, ok, err, ◌>>=◌,
}
use swbt_rs.Model.Spec.{ControllerKind}
use swbt_rs.Protocol.Facade.{SwitchHidProtocol}
use swbt_rs.Protocol.Floats.{F64Ops}
use swbt_rs.Runtime.Sessions.{SessionEvent, tag_current}
use swbt_rs.Runtime.Transport.{TransportEvent, TransportResult}
use swbt_rs.Runtime.Worker.Core.{WorkerCore, Act}
use swbt_rs.Runtime.Worker.Drive.{
  Surroundings, with_transport, read_clock, handle_event, drive_connection,
}
use swbt_rs.Runtime.Worker.Lawful.{IsLawful}
use swbt_rs.Runtime.Worker.Reporting.{Reporting}
use swbt_rs.Runtime.Worker.Step.{
  Flow, actions_done, then_shutdown, drive_at, drive_phase, drive_changed, event_done, tagged_event,
  run_event, run_events, budgeted, batch_polled, is_zero, poll_batches,
}
use swbt_rs.Runtime.Worker.Tally.{Good}
use swbt_rs.Runtime.Worker.Tally.Core.{GoodAct}
use swbt_rs.Runtime.Worker.Tally.Handle.{handle_event-Good}
use swbt_rs.Runtime.Worker.Tally.Drive.{drive_connection-Good}
use swbt_rs.Runtime.Worker.Types.{core_transport, StepProgress}
use swbt_rs.Runtime.Worker.Tally.Flow.{
  GoodFlow, bind-Good, shutdown_or-Good, fail_unless_shutdown-Good,
}

module _ {R C T : Type 0} (f : F64Ops) (p : SwitchHidProtocol) (m : ControllerKind)
    (env : Surroundings T C) (ops : Reporting R C T) (lawful : IsLawful ops) where
  actions_done-Good :
      (base : ℕ) (act : Act R T ℕ)
      → GoodAct ops lawful base act
      → GoodFlow f p m env ops lawful base (actions_done f p m env ops act)
  actions_done-Good base (core, progress, ok actions) good = good
  actions_done-Good base (core, progress, err e) good =
      fail_unless_shutdown-Good f p m env ops lawful base core e progress good

  drive_at-Good :
      (base : ℕ) (progress : StepProgress) (read : WorkerCore R T × ℕ)
      → Good ops base read.0 progress
      → GoodFlow f p m env ops lawful base (drive_at f p m env ops progress read)
  drive_at-Good base progress (core, now) good =
      bind-Good f p m env ops lawful base
        (actions_done f p m env ops (drive_connection f p m env ops core now progress))
        (then_shutdown f p m env ops)
        (λ core progress good.
          shutdown_or-Good f p m env ops lawful base core progress (λ core. ok (core, progress))
            (λ core good. good) good)
        (actions_done-Good base (drive_connection f p m env ops core now progress)
          (drive_connection-Good f p m env ops lawful base core now progress good))

  pub drive_phase-Good :
      (base : ℕ) (core : WorkerCore R T) (progress : StepProgress)
      → Good ops base core progress
      → GoodFlow f p m env ops lawful base (drive_phase f p m env ops core progress)
  unfolding drive_phase
  drive_phase-Good base core progress good =
      drive_at-Good base progress (read_clock f p m env ops core) good

  drive_changed-Good :
      (base : ℕ) (changed : Bool) (progress : StepProgress) (core : WorkerCore R T)
      → Good ops base core progress
      → GoodFlow f p m env ops lawful base (drive_changed f p m env ops changed progress core)
  drive_changed-Good base true progress core good = drive_phase-Good base core progress good
  drive_changed-Good base false progress core good = good

  event_done-Good :
      (base : ℕ) (act : Act R T Bool)
      → GoodAct ops lawful base act
      → GoodFlow f p m env ops lawful base (event_done f p m env ops act)
  event_done-Good base (core, progress, err e) good =
      fail_unless_shutdown-Good f p m env ops lawful base core e progress good
  event_done-Good base (core, progress, ok changed) good =
      shutdown_or-Good f p m env ops lawful base core progress
        (drive_changed f p m env ops changed progress)
        (λ core good. drive_changed-Good base changed progress core good) good

  tagged_event-Good :
      (base : ℕ) (core : WorkerCore R T) (progress : StepProgress)
      (event : Option (SessionEvent TransportEvent))
      → Good ops base core progress
      → GoodFlow f p m env ops lawful base (tagged_event f p m env ops core progress event)
  tagged_event-Good base core progress none good =
      event_done-Good base (core, progress, ok false) good
  tagged_event-Good base core progress (some tag) good =
      event_done-Good base (handle_event f p m env ops core tag progress)
        (handle_event-Good f p m env ops lawful base core tag progress good)

  run_events-Good :
      (base : ℕ) (events : List (Option (SessionEvent TransportEvent))) (core : WorkerCore R T)
      (progress : StepProgress)
      → Good ops base core progress
      → GoodFlow f p m env ops lawful base (run_events f p m env ops events (core, progress))
  unfolding run_events run_event
  run_events-Good base [] core progress good = good
  run_events-Good base (event ∷ events) core progress good =
      bind-Good f p m env ops lawful base (run_event f p m env ops event (core, progress))
        (run_events f p m env ops events)
        (λ core progress good. run_events-Good base events core progress good)
        (tagged_event-Good base core (record progress { hci_events = progress.hci_events + 1 })
          event good)

  budgeted-Good :
      (base : ℕ) (last : Bool) (core : WorkerCore R T) (progress : StepProgress)
      → Good ops base core progress
      → GoodFlow f p m env ops lawful base (budgeted f p m env ops last (core, progress))
  budgeted-Good base true core progress good = good
  budgeted-Good base false core progress good = good

  batch_polled-Good :
      (base : ℕ) (last : Bool) (progress : StepProgress)
      (next : WorkerCore R T × StepProgress → Flow f p m env ops)
      (polled : WorkerCore R T × TransportResult (List TransportEvent))
      → ((core : WorkerCore R T) (progress : StepProgress)
          → Good ops base core progress
          → GoodFlow f p m env ops lawful base (next (core, progress)))
      → Good ops base polled.0 progress
      → GoodFlow f p m env ops lawful base (batch_polled f p m env ops last progress next polled)
  batch_polled-Good base last progress next (core, err e) goes good =
      fail_unless_shutdown-Good f p m env ops lawful base core (core_transport e) progress good
  batch_polled-Good base last progress next (core, ok []) goes good = good
  batch_polled-Good base last progress next (core, ok (event ∷ events)) goes good =
      let run =
        run_events f p m env ops (map (tag_current core.sessions) (event ∷ events))
          (core, progress) in
      bind-Good f p m env ops lawful base (run >>= budgeted f p m env ops last) next goes (
        bind-Good f p m env ops lawful base run (budgeted f p m env ops last)
          (budgeted-Good base last)
          (run_events-Good base (map (tag_current core.sessions) (event ∷ events)) core progress
            good))

  pub poll_batches-Good :
      (base left : ℕ) (core : WorkerCore R T) (progress : StepProgress)
      → Good ops base core progress
      → GoodFlow f p m env ops lawful base (poll_batches f p m env ops left (core, progress))
  unfolding poll_batches
  poll_batches-Good base zero core progress good = good
  poll_batches-Good base (suc left) core progress good =
      batch_polled-Good base (is_zero f p m env ops left) progress (poll_batches f p m env ops left)
        (with_transport f p m env ops core (env.port.poll core.io.transport 0))
        (λ core progress good. poll_batches-Good base left core progress good) good
