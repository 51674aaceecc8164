-- ===== src/Runtime/Handshake/Seen.antt =====
-- What has happened to a session, told by the events.
use swbt_rs.Base.{
  ℕ, ◌≡◌, Bool, true, false, not, ◌&&◌, ◌||◌, Option, none, some, List, [], ◌∷◌, ◌==◌,
  if◌then◌else◌, ok, err,
}
use swbt_rs.Model.Spec.{ControllerKind}
use swbt_rs.Input.State
use swbt_rs.Protocol.Floats.{F64Ops}
use swbt_rs.Protocol.Session.{protocol_ready}
use swbt_rs.Runtime.Clock.{protocol_timestamp}
use swbt_rs.Runtime.Connection.{is_empty}
use swbt_rs.Runtime.Handshake.{
  Handshake, HandshakeResult, HandshakeCompletionCondition, first_subcommand, until_ready,
  bootstrap_attempted, Stepped, step,
}
use swbt_rs.Runtime.Handshake.Proper.{Happens, link, channel, steps, after_one}
use swbt_rs.Runtime.Transport.{
  TransportResult, TransportPort, Io, send_state, HidChannel, control, interrupt,
}

-- What has happened in a session, by the events alone.
pub record Seen : Type 0 where
  pub link_up : Bool
  pub control_up : Bool
  pub interrupt_up : Bool
  -- The transport has accepted a bootstrap report.
  pub sent : Bool
  -- After that the condition held.
  pub met : Bool

abbrev pub nothing_seen : Seen
nothing_seen = record {
  link_up = false;
  control_up = false;
  interrupt_up = false;
  sent = false;
  met = false;
}

-- What a completed handshake stands for.
abbrev pub Completes : ℕ → Seen → Option ℕ → Type 0
Completes session_id seen none = Unit {0}
Completes session_id seen (some id) =
    (id ≡ session_id)
    × (seen.link_up ≡ true)
    × (seen.control_up ≡ true)
    × (seen.interrupt_up ≡ true)
    × (seen.sent ≡ true)
    × (seen.met ≡ true)

abbrev pub is_accepted : TransportResult (Unit {0}) → Bool
is_accepted (ok _) = true
is_accepted (err _) = false

abbrev pub is_attempt : HandshakeResult → Bool
is_attempt (ok (bootstrap_attempted _ _)) = true
is_attempt _ = false

abbrev pub channel_up : HidChannel → Seen → Seen
channel_up control seen = record seen { control_up = true }
channel_up interrupt seen = record seen { interrupt_up = true }

-- The host has sent a subcommand, or the protocol is ready.
abbrev pub holds : {T : Type 0} → HandshakeCompletionCondition → Io T → Bool
holds first_subcommand io = not (is_empty io.observed)
holds until_ready io = protocol_ready io.sender.committed.session

-- A step of this session: whether it sent a report that was accepted, and how it left the rest.
abbrev pub step_seen :
    {T : Type 0} → HandshakeCompletionCondition → Bool → Bool → Io T → Seen → Seen
step_seen condition same accepted io seen =
    let sent = seen.sent || accepted in
    record seen { sent = sent; met = seen.met || (same && (sent && holds condition io)) }

module _ {T : Type 0} (f : F64Ops) (m : ControllerKind) (port : TransportPort T) where
  -- Whether a step at a time sends a report that the transport accepts.
  abbrev pub accepts : ℕ → Io T → HandshakeResult → Bool
  accepts now io r =
      is_attempt r && is_accepted (send_state f m port io State.neutral (protocol_timestamp now)).1

  abbrev pub step_of :
      HandshakeCompletionCondition → Bool → ℕ → Io T → Seen → Stepped f m port → Seen
  step_of condition same now io seen (_, io', r) =
      step_seen condition same (accepts now io r) io' seen

  -- What an event adds, for the handshake that it finds.
  abbrev pub seen_one :
      ℕ → HandshakeCompletionCondition → Happens f m port → Handshake → Seen → Seen
  seen_one session_id condition (link id) h seen =
      if id == session_id then record seen { link_up = true } else seen
  seen_one session_id condition (channel id c) h seen =
      if id == session_id then channel_up c seen else seen
  seen_one session_id condition (steps id now io) h seen =
      step_of condition (id == session_id) now io seen (step f m port h id now io)

  unfoldable pub seen_all :
      ℕ → HandshakeCompletionCondition → List (Happens f m port) → Handshake → Seen → Seen
  seen_all session_id condition [] h seen = seen
  seen_all session_id condition (event ∷ events) h seen =
      seen_all session_id condition events (after_one f m port event h)
        (seen_one session_id condition event h seen)
