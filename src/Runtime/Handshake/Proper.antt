-- ===== src/Runtime/Handshake/Proper.antt =====
-- The flags of a handshake among themselves.
use swbt_rs.Base.{
  first_of_and, negated, ℕ, ◌≡◌, refl, Bool, true, false, not, ◌&&◌, Option, none, some, List, [],
  ◌∷◌, ltb, ◌==◌, Only, arith, by_test, Result, ok, err,
}
use swbt_rs.Model.Spec.{ControllerKind}
use swbt_rs.Protocol.Floats.{F64Ops}
use swbt_rs.Protocol.Session.{protocol_ready}
use swbt_rs.Runtime.Clock.{protocol_timestamp}
use swbt_rs.Runtime.Connection.{ObservedSubcommands}
use swbt_rs.Runtime.Handshake.{
  Handshake, HandshakeCompletionCondition, bootstrap_retry, is_satisfied, with_completion_condition,
  observe_link, opened_channel, observe_channel, topology_ready, stop_bootstrap, recorded,
  record_bootstrap_attempt, Stepped, send_bootstrap, attempted, first_attempt, next_attempt,
  attempt, step,
}
use swbt_rs.Runtime.Scheduler
use swbt_rs.Runtime.Scheduler.{ReportScheduler, SchedulerError, TickDecision, not_due, due}
use swbt_rs.Runtime.Transport.{TransportResult, TransportPort, Io, HidChannel, control, interrupt}

-- The bootstrap has stopped only after a report was accepted, the link and both channels are there.
abbrev pub IsProper : Handshake → Type 0
IsProper h =
    Only h.bootstrap_stopped
      (h.bootstrap_accepted && (h.link_observed && (h.control_observed && h.interrupt_observed)))

with_link :
    (stopped a l c i : Bool)
    → Only stopped (a && (l && (c && i)))
    → Only stopped (a && (true && (c && i)))
with_link false a l c i h = tt
with_link true true true c i h = h
with_link true true false c i h = absurd (ground (arith, h))
with_link true false l c i h = absurd (ground (arith, h))

with_control :
    (stopped a l c i : Bool)
    → Only stopped (a && (l && (c && i)))
    → Only stopped (a && (l && (true && i)))
with_control false a l c i h = tt
with_control true true true true i h = h
with_control true true true false i h = absurd (ground (arith, h))
with_control true true false c i h = absurd (ground (arith, h))
with_control true false l c i h = absurd (ground (arith, h))

with_interrupt :
    (stopped a l c i : Bool)
    → Only stopped (a && (l && (c && i)))
    → Only stopped (a && (l && (c && true)))
with_interrupt false a l c i h = tt
with_interrupt true true true true true h = refl
with_interrupt true true true true false h = absurd (ground (arith, h))
with_interrupt true true true false i h = absurd (ground (arith, h))
with_interrupt true true false c i h = absurd (ground (arith, h))
with_interrupt true false l c i h = absurd (ground (arith, h))

observe_link-IsProper : (h : Handshake) (id : ℕ) → IsProper h → IsProper (observe_link h id)
unfolding observe_link
observe_link-IsProper h id proper =
    by_test IsProper (id == h.session_id)
      (λ _.
        with_link h.bootstrap_stopped h.bootstrap_accepted h.link_observed h.control_observed
          h.interrupt_observed proper)
      λ _. proper

opened_channel-IsProper :
    (h : Handshake) (channel : HidChannel) → IsProper h → IsProper (opened_channel h channel)
opened_channel-IsProper h control proper =
    with_control h.bootstrap_stopped h.bootstrap_accepted h.link_observed h.control_observed
      h.interrupt_observed proper
opened_channel-IsProper h interrupt proper =
    with_interrupt h.bootstrap_stopped h.bootstrap_accepted h.link_observed h.control_observed
      h.interrupt_observed proper

observe_channel-IsProper :
    (h : Handshake) (id : ℕ) (channel : HidChannel)
    → IsProper h
    → IsProper (observe_channel h id channel)
unfolding observe_channel
observe_channel-IsProper h id channel proper =
    by_test IsProper (id == h.session_id) (λ _. opened_channel-IsProper h channel proper)
      λ _. proper

module _ {T : Type 0} (f : F64Ops) (m : ControllerKind) (port : TransportPort T) where
  abbrev Proper : Stepped f m port → Type 0
  Proper (h, _, _) = IsProper h

  -- A handshake that still sends, over a full topology.
  abbrev Sending : Handshake → Type 0
  Sending h = (h.bootstrap_stopped ≡ false) × (topology_ready h ≡ true)

  recorded-IsProper :
      (h : Handshake) (observed : ObservedSubcommands) (is_ready : Bool)
      (result : TransportResult (Unit {0}))
      → Sending h
      → IsProper (recorded h observed is_ready result)
  unfolding stop_bootstrap topology_ready
  recorded-IsProper h observed is_ready (err _) (sends, full) = rw sends tt
  recorded-IsProper h observed is_ready (ok _) (sends, full) =
      by_test IsProper (is_satisfied h.completion_condition observed is_ready) (λ _. full)
        λ _. rw sends tt

  attempted-Proper :
      (h : Handshake) (skipped : ℕ) (sent : Io T × TransportResult (Unit {0}))
      → Sending h
      → Proper (attempted f m port h skipped sent)
  unfolding record_bootstrap_attempt
  attempted-Proper h skipped (io, result) sending =
      recorded-IsProper h io.observed (protocol_ready io.sender.committed.session) result sending

  first_attempt-Proper :
      (h : Handshake) (io : Io T) (now : ℕ) (begun : Result SchedulerError ReportScheduler)
      → Sending h
      → Proper (first_attempt f m port h io now begun)
  unfolding topology_ready
  first_attempt-Proper h io now (err e) (sends, full) = rw sends tt
  first_attempt-Proper h io now (ok s) (sends, full) =
      attempted-Proper (record h { retry = some s }) 0
        (send_bootstrap f m port io (protocol_timestamp now)) (sends, full)

  next_attempt-Proper :
      (h : Handshake) (io : Io T) (now : ℕ)
      (ticked : ReportScheduler × Result SchedulerError TickDecision)
      → Sending h
      → Proper (next_attempt f m port h io now ticked)
  unfolding topology_ready
  next_attempt-Proper h io now (s, err e) (sends, full) = rw sends tt
  next_attempt-Proper h io now (s, ok not_due) (sends, full) = rw sends tt
  next_attempt-Proper h io now (s, ok (due skipped)) (sends, full) =
      attempted-Proper (record h { retry = some s }) skipped
        (send_bootstrap f m port io (protocol_timestamp now)) (sends, full)

  attempt-Proper :
      (h : Handshake) (io : Io T) (now : ℕ) (retry : Option ReportScheduler)
      → Sending h
      → Proper (attempt f m port h io now retry)
  attempt-Proper h io now none sending =
      first_attempt-Proper h io now (Scheduler.start now bootstrap_retry) sending
  attempt-Proper h io now (some s) sending =
      by_test Proper (ltb now s.next_deadline) (λ _. rw sending.0 tt)
        λ _. next_attempt-Proper h io now (Scheduler.step s now) sending

  stopped-IsProper :
      (h : Handshake)
      → h.bootstrap_accepted ≡ true
      → topology_ready h ≡ true
      → IsProper (stop_bootstrap h)
  unfolding stop_bootstrap topology_ready
  stopped-IsProper h accepted full = rw accepted full

  step-Proper :
      (h : Handshake) (session_id now : ℕ) (io : Io T)
      → IsProper h
      → Proper (step f m port h session_id now io)
  unfolding step
  step-Proper h session_id now io proper =
      by_test Proper (not (session_id == h.session_id)) (λ _. proper)
        λ _.
          by_test Proper h.bootstrap_stopped (λ _. proper)
            λ sends.
              by_test Proper (not (topology_ready h)) (λ _. proper)
                λ not_partial.
                  let full : topology_ready h ≡ true = negated (topology_ready h) not_partial in
                  by_test Proper
                    (h.bootstrap_accepted
                      && is_satisfied h.completion_condition io.observed
                          (protocol_ready io.sender.committed.session))
                    (λ both.
                      stopped-IsProper h
                        (first_of_and h.bootstrap_accepted
                          (is_satisfied h.completion_condition io.observed
                            (protocol_ready io.sender.committed.session))
                          both)
                        full)
                    λ _. attempt-Proper h io now h.retry (sends, full)

  -- What happens to a handshake; between two steps the host and the transport act.
  pub data Happens : Type 0 where
    link : ℕ → Happens
    channel : ℕ → HidChannel → Happens
    steps : ℕ → ℕ → Io T → Happens

  abbrev pub after_one : Happens → Handshake → Handshake
  after_one (link id) h = observe_link h id
  after_one (channel id c) h = observe_channel h id c
  after_one (steps id now io) h = (step f m port h id now io).0

  unfoldable pub after_all : List Happens → Handshake → Handshake
  after_all [] h = h
  after_all (event ∷ events) h = after_all events (after_one event h)

  after_one-IsProper : (event : Happens) (h : Handshake) → IsProper h → IsProper (after_one event h)
  after_one-IsProper (link id) h proper = observe_link-IsProper h id proper
  after_one-IsProper (channel id c) h proper = observe_channel-IsProper h id c proper
  after_one-IsProper (steps id now io) h proper = step-Proper h id now io proper

  kept-IsProper :
      (events : List Happens) (h : Handshake) → IsProper h → IsProper (after_all events h)
  unfolding after_all
  kept-IsProper [] h proper = proper
  kept-IsProper (event ∷ events) h proper =
      kept-IsProper events (after_one event h) (after_one-IsProper event h proper)

  pub after_all-IsProper :
      (events : List Happens) (session_id : ℕ) (condition : HandshakeCompletionCondition)
      → IsProper (after_all events (with_completion_condition session_id condition))
  unfolding with_completion_condition
  after_all-IsProper events session_id condition =
      kept-IsProper events (with_completion_condition session_id condition) tt
