-- ===== src/Runtime/Lifecycle.antt =====
-- src/runtime/lifecycle.rs: the life of one runtime, from open to closing.
use swbt_rs.Base.{
  ℕ, ◌+◌, ◌≤◌, ◌≡◌, ◌↔◌, refl, Bool, true, false, List, [], ◌∷◌, All, Result, ok, err, arith,
}

pub data RuntimeState : Type 0 where
  opened connecting ready closing failed : RuntimeState

pub data LifecycleAction : Type 0 where
  begin_cleanup closed no_action : LifecycleAction

pub data LifecycleCommandError : Type 0 where
  shutdown_error failed_error : LifecycleCommandError

unfoldable pub new : RuntimeState
new = opened

unfoldable pub mark_failed : RuntimeState → RuntimeState
mark_failed _ = failed

-- Each of these returns the state after the call, and what the call answers.
unfoldable pub begin_connection : RuntimeState → RuntimeState × Bool
begin_connection opened = (connecting, true)
begin_connection state = (state, false)

unfoldable pub mark_ready : RuntimeState → RuntimeState × Bool
mark_ready connecting = (ready, true)
mark_ready state = (state, false)

unfoldable pub mark_connection_ended : RuntimeState → RuntimeState × Bool
mark_connection_ended connecting = (opened, true)
mark_connection_ended ready = (opened, true)
mark_connection_ended state = (state, false)

unfoldable pub request_close : RuntimeState → RuntimeState × LifecycleAction
request_close closing = (closing, no_action)
request_close _ = (closing, begin_cleanup)

unfoldable pub complete_close : RuntimeState → LifecycleAction
complete_close closing = closed
complete_close _ = no_action

unfoldable pub ensure_input_command : RuntimeState → Result LifecycleCommandError (Unit {0})
ensure_input_command closing = err shutdown_error
ensure_input_command failed = err failed_error
ensure_input_command _ = ok tt

-- The calls that change the state.
pub data Call : Type 0 where
  fail connect become_ready end_connection close : Call

-- The state after a call, and the number of cleanups that the call begins.
unfoldable pub cleanups_of : LifecycleAction → ℕ
cleanups_of begin_cleanup = 1
cleanups_of _ = 0

unfoldable pub call : Call → RuntimeState → RuntimeState × ℕ
unfolding mark_failed begin_connection mark_ready mark_connection_ended request_close cleanups_of
call fail state = (mark_failed state, 0)
call connect state = ((begin_connection state).0, 0)
call become_ready state = ((mark_ready state).0, 0)
call end_connection state = ((mark_connection_ended state).0, 0)
call close state = ((request_close state).0, cleanups_of (request_close state).1)

-- A run of calls, with the number of cleanups that it begins.
pub data Runs : RuntimeState → List Call → RuntimeState → ℕ → Type 0 where
  done : (s : RuntimeState) → Runs s [] s 0
  next :
      (s t : RuntimeState) (c : Call) (calls : List Call) (n : ℕ)
      → Runs (call c s).0 calls t n
      → Runs s (c ∷ calls) t ((call c s).1 + n)

-- The edges of the state machine.
pub data Edge : RuntimeState → RuntimeState → Type 0 where
  stay : (s : RuntimeState) → Edge s s
  opens : Edge opened connecting
  becomes_ready : Edge connecting ready
  gives_up : Edge connecting opened
  disconnects : Edge ready opened
  closes : (s : RuntimeState) → Edge s closing
  fails : (s : RuntimeState) → Edge s failed

-- For every call and state, the state after the call is reached by an edge of the state machine: it
-- is the same state, or closing, or failed, or the step goes from open to connecting, from
-- connecting to ready or open, or from ready to open.
pub call-Edge : (c : Call) (s : RuntimeState) → Edge s (call c s).0
unfolding call mark_failed begin_connection mark_ready mark_connection_ended request_close
call-Edge fail s = fails s
call-Edge connect opened = opens
call-Edge connect s = stay s
call-Edge become_ready connecting = becomes_ready
call-Edge become_ready s = stay s
call-Edge end_connection connecting = gives_up
call-Edge end_connection ready = disconnects
call-Edge end_connection s = stay s
call-Edge close opened = closes opened
call-Edge close connecting = closes connecting
call-Edge close ready = closes ready
call-Edge close closing = closes closing
call-Edge close failed = closes failed

-- The cleanup that a run may still begin: none once closing.
unfoldable pub budget : RuntimeState → ℕ
budget closing = 0
budget _ = 1

unfoldable pub keeps_alive : Call → Bool
keeps_alive fail = false
keeps_alive _ = true

call-budget :
    (c : Call) (s : RuntimeState)
    → keeps_alive c ≡ true
    → (call c s).1 + budget (call c s).0 ≡ budget s
unfolding call mark_failed begin_connection mark_ready mark_connection_ended request_close
    cleanups_of budget keeps_alive
call-budget fail s h = absurd (ground arith)
call-budget connect opened h = refl
call-budget connect connecting h = refl
call-budget connect ready h = refl
call-budget connect closing h = refl
call-budget connect failed h = refl
call-budget become_ready opened h = refl
call-budget become_ready connecting h = refl
call-budget become_ready ready h = refl
call-budget become_ready closing h = refl
call-budget become_ready failed h = refl
call-budget end_connection opened h = refl
call-budget end_connection connecting h = refl
call-budget end_connection ready h = refl
call-budget end_connection closing h = refl
call-budget end_connection failed h = refl
call-budget close opened h = refl
call-budget close connecting h = refl
call-budget close ready h = refl
call-budget close closing h = refl
call-budget close failed h = refl

Runs-budget :
    {s t : RuntimeState} {calls : List Call} {n : ℕ}
    → Runs s calls t n
    → All (λ c. keeps_alive c ≡ true) calls
    → n + budget t ≡ budget s
Runs-budget (done s) alive = omega arith
Runs-budget (next s t c calls n run) (now, later) =
    ground (arith, call-budget c s now, Runs-budget run later)

budget_of_closing : (t : RuntimeState) → (budget t ≡ 0) ↔ (complete_close t ≡ closed)
unfolding budget complete_close
budget_of_closing opened = ground arith
budget_of_closing connecting = ground arith
budget_of_closing ready = ground arith
budget_of_closing closing = ground arith
budget_of_closing failed = ground arith

-- For every run from a new state machine in which no call marks a failure, at most one cleanup
-- begins, and one has begun exactly when the close can be completed.
pub Runs-begins_one_cleanup :
    (t : RuntimeState) (calls : List Call) (n : ℕ)
    → Runs new calls t n
    → All (λ c. keeps_alive c ≡ true) calls
    → (n ≤ 1) × ((n ≡ 1) ↔ (complete_close t ≡ closed))
unfolding new budget
Runs-begins_one_cleanup t calls n run alive =
    ground (arith, Runs-budget run alive, budget_of_closing t)
