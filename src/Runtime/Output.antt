-- ===== src/Runtime/Output.antt =====
-- src/runtime/output.rs: the handling of one output report. The view for diagnostics (`status`) and
-- the call back `observe_output` are left out.
use swbt_rs.Base.{ℕ, List, Result, ok, err}
use swbt_rs.Model.Spec.{ControllerKind}
use swbt_rs.Input.State.{InputState}
use swbt_rs.Protocol.Error.{ProtocolError, ProtocolResult}
use swbt_rs.Protocol.OutputReport.{OutputReport, subcommand, rumble_only, parse_output_report}
use swbt_rs.Protocol.Facade.{SwitchHidProtocol, PreparedOutputAction}
use swbt_rs.Runtime.Connection.{observe}
use swbt_rs.Runtime.Sender.{ReportSender, prepare_reply, send_reply}
use swbt_rs.Runtime.Transport.{TransportError, TransportResult, TransportPort, Io}

pub data OutputHandling : Type 0 where
  rumble_handled reply_accepted : OutputHandling

pub data OutputHandlingError : Type 0 where
  protocol_failed : ProtocolError → OutputHandlingError
  transport_failed : TransportError → OutputHandlingError

abbrev pub OutputResult : Type 0
OutputResult = Result OutputHandlingError OutputHandling

module _ {T : Type 0} (p : SwitchHidProtocol) (m : ControllerKind) (port : TransportPort T) where
  abbrev reply_sent : Io T → ReportSender × T × TransportResult (Unit {0}) → Io T × OutputResult
  reply_sent io (sender, transport, ok _) =
      (record io { sender = sender; transport = transport }, ok reply_accepted)
  reply_sent io (sender, transport, err e) =
      (record io { sender = sender; transport = transport }, err (transport_failed e))

  abbrev send_prepared : Io T → ProtocolResult PreparedOutputAction → Io T × OutputResult
  send_prepared io (err e) = (io, err (protocol_failed e))
  send_prepared io (ok action) =
      reply_sent io (send_reply port.send_interrupt io.sender io.transport action)

  abbrev handle_parsed : Io T → InputState → ProtocolResult OutputReport → Io T × OutputResult
  handle_parsed io current (err e) = (io, err (protocol_failed e))
  handle_parsed io current (ok (rumble_only _ _)) = (io, ok rumble_handled)
  handle_parsed io current (ok (subcommand _ _ request)) =
      let io' = record io { observed = (observe io.observed request.id).0 } in
      send_prepared io' (prepare_reply p m io.sender request current)

  unfoldable pub handle_output : Io T → List ℕ → InputState → Io T × OutputResult
  handle_output io raw current = handle_parsed io current (parse_output_report raw)
