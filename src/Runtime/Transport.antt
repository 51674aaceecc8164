-- ===== src/Runtime/Transport.antt =====
-- src/runtime/transport/mod.rs: the events and errors of a transport, and the port that the runtime
-- works on. The source of an error is left out.
pub mod Sends
use swbt_rs.Base.{ℕ, Bool, true, false, List, Option, Result}
use swbt_rs.Protocol.Floats.{F64Ops}
use swbt_rs.Model.Spec.{ControllerKind}
use swbt_rs.Input.State.{InputState}
use swbt_rs.Runtime.Connection.{ObservedSubcommands}
use swbt_rs.Runtime.Sender
use swbt_rs.Runtime.Sender.{ReportSender}
use swbt_rs.Runtime.Sessions.{InputStateStore}

pub data HidChannel : Type 0 where
  control interrupt : HidChannel

pub data TransportEvent : Type 0 where
  link_connected : TransportEvent
  hid_channel_opened : HidChannel → TransportEvent
  hid_output : HidChannel → List ℕ → TransportEvent
  link_disconnected : Option ℕ → TransportEvent

pub data TransportErrorKind : Type 0 where
  open_failed invalid_controller_identity identity_mismatch : TransportErrorKind
  adapter_identity_recovery_required unsupported_controller invalid_key_store : TransportErrorKind
  no_bond transport_closed send_rejected drain_timed_out : TransportErrorKind
  event_queue_overflow source_terminated close_failed : TransportErrorKind

pub record TransportError : Type 0 where
  pub kind : TransportErrorKind

abbrev is_send_rejected : TransportErrorKind → Bool
is_send_rejected send_rejected = true
is_send_rejected _ = false

abbrev is_key_store : TransportErrorKind → Bool
is_key_store invalid_key_store = true
is_key_store _ = false

-- `error.kind() == TransportErrorKind::SendRejected`
unfoldable pub is_rejected : TransportError → Bool
is_rejected e = is_send_rejected e.kind

-- `error.kind() == TransportErrorKind::InvalidKeyStore`
unfoldable pub is_invalid_key_store : TransportError → Bool
is_invalid_key_store e = is_key_store e.kind

abbrev pub TransportResult : Type 0 → Type 0
TransportResult A = Result TransportError A

-- The port: each operation acts on the state of the transport. `poll` and `drain_interrupt` have a
-- timeout; `open`, by which the transport begins its work, is left out. `SendAcceptance` holds
-- nothing.
pub record TransportPort (T : Type 0) : Type 0 where
  pub start_pairing : T → T × TransportResult (Unit {0})
  pub start_reconnect : T → T × TransportResult (Unit {0})
  pub poll : T → ℕ → T × TransportResult (List TransportEvent)
  pub interrupt_send_capacity_available : T → Bool
  pub send_interrupt : T → List ℕ → T × TransportResult (Unit {0})
  pub drain_interrupt : T → ℕ → T × TransportResult (Unit {0})
  pub disconnect : T → T × TransportResult (Unit {0})
  pub close : T → T × TransportResult (Unit {0})

-- What the handlers change together: the input store, the sender, the observed subcommands and the
-- transport.
pub record Io (T : Type 0) : Type 0 where
  pub input : InputStateStore
  pub sender : ReportSender
  pub observed : ObservedSubcommands
  pub transport : T

-- `sender.send_input(protocol, &state, now_ns, transport)`
module _ {T : Type 0} (f : F64Ops) (m : ControllerKind) (port : TransportPort T) where
  abbrev with_sent :
      Io T → ReportSender × T × TransportResult (Unit {0}) → Io T × TransportResult (Unit {0})
  with_sent io (sender, transport, result) =
      (record io { sender = sender; transport = transport }, result)

  unfoldable pub send_state : Io T → InputState → ℕ → Io T × TransportResult (Unit {0})
  send_state io state now_ns =
      with_sent io (Sender.send_input port.send_interrupt f m io.sender io.transport state now_ns)
