-- ===== src/Runtime/Cleanup/Once.antt =====
-- A runtime is closed once.
use swbt_rs.Base.{ℕ, Bool, ◌≡◌, refl, ◌∙◌}
use swbt_rs.Model.Spec.{ControllerKind}
use swbt_rs.Protocol.Floats.{F64Ops}
use swbt_rs.Runtime.Cleanup.{CleanupSequence, not_performed, run_action, run}
use swbt_rs.Runtime.Lifecycle.{
  RuntimeState, opened, connecting, ready, closing, failed, LifecycleAction, begin_cleanup, closed,
  no_action, request_close,
}
use swbt_rs.Runtime.Transport.{TransportPort, Io}

request_close-closing : (state : RuntimeState) → (request_close state).0 ≡ closing
unfolding request_close
request_close-closing opened = refl
request_close-closing connecting = refl
request_close-closing ready = refl
request_close-closing closing = refl
request_close-closing failed = refl

module _ {T : Type 0} (f : F64Ops) (m : ControllerKind) (port : TransportPort T) where
  run_action-lifecycle :
      (sequence : CleanupSequence) (connected : Bool) (now_ns : ℕ) (io : Io T)
      (asked : RuntimeState × LifecycleAction)
      → (run_action f m port sequence connected now_ns io asked).0 ≡ asked.0
  run_action-lifecycle sequence connected now_ns io (lifecycle, begin_cleanup) = refl
  run_action-lifecycle sequence connected now_ns io (lifecycle, closed) = refl
  run_action-lifecycle sequence connected now_ns io (lifecycle, no_action) = refl

  run-closing :
      (sequence : CleanupSequence) (connected : Bool) (now_ns : ℕ) (lifecycle : RuntimeState)
      (io : Io T)
      → (run f m port sequence connected now_ns lifecycle io).0 ≡ closing
  unfolding run
  run-closing sequence connected now_ns lifecycle io =
      run_action-lifecycle sequence connected now_ns io (request_close lifecycle)
      ∙ request_close-closing lifecycle

  run_when_closing :
      (sequence : CleanupSequence) (connected : Bool) (now_ns : ℕ) (lifecycle : RuntimeState)
      (io : Io T)
      → lifecycle ≡ closing
      → run f m port sequence connected now_ns lifecycle io ≡ (closing, io, not_performed)
  unfolding run request_close
  run_when_closing sequence connected now_ns lifecycle io e = rw e refl

  -- From every state of the runtime, after one close a second one, of any kind, performs nothing: it
  -- leaves the transport, the sender and the input as the first one did.
  pub run-run :
      (first second : CleanupSequence) (connected connected' : Bool) (now_ns now_ns' : ℕ)
      (lifecycle : RuntimeState) (io : Io T)
      → run f m port second connected' now_ns'
          (run f m port first connected now_ns lifecycle io).0
          (run f m port first connected now_ns lifecycle io).1
        ≡ (closing, (run f m port first connected now_ns lifecycle io).1, not_performed)
  run-run first second connected connected' now_ns now_ns' lifecycle io =
      run_when_closing second connected' now_ns'
        (run f m port first connected now_ns lifecycle io).0
        (run f m port first connected now_ns lifecycle io).1
        (run-closing first connected now_ns lifecycle io)
