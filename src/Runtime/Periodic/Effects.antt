-- ===== src/Runtime/Periodic/Effects.antt =====
-- What automatic reports and periodic taps change.
use swbt_rs.Base.{
  ℕ, ◌+◌, ◌%◌, ◌≤◌, ◌<◌, ◌≡◌, refl, ap, Bool, true, false, Option, none, some, ltb, if◌then◌else◌,
  arith, by_test, Result, ok, err,
}
use swbt_rs.Model.Spec.{ControllerKind}
use swbt_rs.Input.State.{InputState}
use swbt_rs.Protocol.Floats.{F64Ops}
use swbt_rs.Runtime.Periodic.{
  PeriodicPolicy, PeriodicError, not_ready, scheduler_failed, transport_failed, tick_not_due,
  held_off, backpressured, sent, PendingPeriodicTap, holding, Due, commit_and_send_candidate,
  finish, tap_begun, begin_tap,
}
use swbt_rs.Runtime.Scheduler
use swbt_rs.Runtime.Sessions.{commit_input}
use swbt_rs.Runtime.Transport.{TransportResult, TransportPort, Io, send_state, is_rejected}
use swbt_rs.Runtime.Transport.Sends.{timer, Sends, send_state-Sends}

pub held-until :
    (held : Option ℕ) (now until : ℕ)
    → holding held now ≡ some until
    → (held ≡ some until) × (now < until)
held-until none now until h = absurd (ground (arith, h))
held-until (some t) now until h = held_some (ltb now t) refl h
  where
    held_some :
        (before : Bool)
        → ltb now t ≡ before
        → (if before then some t else none) ≡ some until
        → (some t ≡ some until) × (now < until)
    held_some true e h = (h, let same : t ≡ until = ground (arith, h) in ground (arith, e, same))
    held_some false e h = absurd (ground (arith, h))

-- No holdoff is running: there is none, or it has ended.
abbrev pub Free : Option ℕ → ℕ → Type 0
Free none now = Unit {0}
Free (some until) now = until ≤ now

pub Free-holding : (held : Option ℕ) (now : ℕ) → holding held now ≡ none → Free held now
Free-holding none now h = tt
Free-holding (some until) now h =
    by_test (λ (held : Option ℕ). held ≡ none → until ≤ now) (ltb now until)
      (λ _ e. absurd (ground (arith, e))) (λ late _. ground (arith, late)) h

module _ {T : Type 0} (f : F64Ops) (m : ControllerKind) (port : TransportPort T) where
  -- What an automatic report changes, by its answer.
  abbrev pub DueEffect : PeriodicPolicy → Io T → ℕ → Due f m port → Type 0
  DueEffect policy io now (policy', io', ok tick_not_due) = io' ≡ io
  DueEffect policy io now (policy', io', ok (held_off until)) =
      (io' ≡ io) × (policy.reply_holdoff_until ≡ some until) × (now < until)
  DueEffect policy io now (policy', io', ok (backpressured _)) =
      (io' ≡ io) × (port.interrupt_send_capacity_available io.transport ≡ false)
  DueEffect policy io now (policy', io', ok (sent _)) =
      (timer io' ≡ (timer io + 1) % 256)
      × (io'.input ≡ io.input)
      × Free policy.reply_holdoff_until now
  DueEffect policy io now (policy', io', err (transport_failed _ _)) =
      (io'.sender ≡ io.sender) × (io'.input ≡ io.input)
  DueEffect policy io now (policy', io', err not_ready) = io' ≡ io
  DueEffect policy io now (policy', io', err (scheduler_failed _)) = io' ≡ io

  kept_input :
      (io : Io T) (result : Io T × TransportResult (Unit {0}))
      → Sends io result
      → result.0.input ≡ io.input
  kept_input io (io', ok _) (_, same) = same
  kept_input io (io', err _) (_, same) = same

  commit_and_send-committed :
      (io : Io T) (candidate : InputState) (now_ns : ℕ)
      → (commit_and_send_candidate f m port io candidate now_ns).0.input.committed ≡ candidate
  unfolding commit_and_send_candidate commit_input
  commit_and_send-committed io candidate now_ns =
      ap (λ i. i.committed)
        (kept_input (record io { input = commit_input io.input candidate })
          (send_state f m port (record io { input = commit_input io.input candidate }) candidate
            now_ns)
          (send_state-Sends f m port (record io { input = commit_input io.input candidate })
            candidate now_ns))

  finish-committed :
      (tap : PendingPeriodicTap) (io : Io T) (now_ns : ℕ)
      → (finish f m port tap io now_ns).0.input.committed ≡ tap.released
  unfolding finish
  finish-committed tap io now_ns = commit_and_send-committed io tap.released now_ns

  -- What a tap leaves in the store once it has begun and once it has ended.
  abbrev pub TapEffect :
      Bool
      → InputState
      → InputState
      → Io T
      → ℕ
      → Io T × Result PeriodicError PendingPeriodicTap
      → Type 0
  TapEffect ready pressed released io later_ns (io', ok tap) =
      (ready ≡ true)
      × (io'.input.committed ≡ pressed)
      × ((finish f m port tap io' later_ns).0.input.committed ≡ released)
  TapEffect ready pressed released io later_ns (io', err not_ready) = (ready ≡ false) × (io' ≡ io)
  TapEffect ready pressed released io later_ns (io', err (transport_failed _ _)) =
      (ready ≡ true) × (io'.input.committed ≡ pressed)
  TapEffect ready pressed released io later_ns (io', err (scheduler_failed _)) = ⊥

  tap_begun-TapEffect :
      (ready : Bool) (pressed released : InputState) (io : Io T) (later_ns : ℕ)
      (begun : Io T × TransportResult (Unit {0}))
      → ready ≡ true
      → begun.0.input.committed ≡ pressed
      → TapEffect ready pressed released io later_ns (tap_begun f m port released begun)
  tap_begun-TapEffect ready pressed released io later_ns (io', ok _) h e =
      (h, e, finish-committed (record { released = released; first_error = none }) io' later_ns)
  tap_begun-TapEffect ready pressed released io later_ns (io', err error) h e =
      by_test (TapEffect ready pressed released io later_ns) (is_rejected error)
        (λ _. (
          h,
          e,
          finish-committed (record { released = released; first_error = some error }) io' later_ns,
        ))
        λ _. (h, e)

  -- For every transport: a periodic tap that begins has its pressed state in the store, and its end,
  -- at any later time and whether the reports are accepted or refused, has its released state there;
  -- a tap when the mode is not ready changes nothing.
  pub begin_tap-TapEffect :
      (ready : Bool) (pressed released : InputState) (duration : ℕ) (io : Io T)
      (now_ns later_ns : ℕ)
      → TapEffect ready pressed released io later_ns
          (begin_tap f m port ready (pressed, released, duration) io now_ns)
  unfolding begin_tap
  begin_tap-TapEffect ready pressed released duration io now_ns later_ns =
      by_test (TapEffect ready pressed released io later_ns) ready
        (λ h.
          tap_begun-TapEffect ready pressed released io later_ns
            (commit_and_send_candidate f m port io pressed now_ns) h
            (commit_and_send-committed io pressed now_ns))
        λ h. (h, refl)
