-- ===== src/Runtime/Sender.antt =====
-- src/runtime/sender.rs: the one place that sends reports, and what it commits of them. The view
-- for diagnostics (`status`) is left out.
pub mod Commits
use swbt_rs.Base.{
  ℕ, ◌+◌, ◌==◌, min, Option, none, some, List, [], ◌∷◌, if◌then◌else◌, Result, ok, err,
}
use swbt_rs.Model.Spec.{ControllerKind}
use swbt_rs.Input.State
use swbt_rs.Input.State.{InputState}
use swbt_rs.Protocol.Error.{ProtocolResult}
use swbt_rs.Protocol.Floats.{F64Ops}
use swbt_rs.Protocol.OutputReport.{SubcommandRequest}
use swbt_rs.Protocol.Session
use swbt_rs.Protocol.Session.{ProtocolSession, protocol_ready, with_imu_encoding_state}
use swbt_rs.Protocol.Subcommand.{PreparedSubcommandReply, PreparedSessionReply}
use swbt_rs.Protocol.Facade.{
  PreparedOutputAction, reply, session_reply, SwitchHidProtocol, prepare_input_report,
  prepare_subcommand,
}

pub record SenderCommit : Type 0 where
  pub next_timer : ℕ
  pub session : ProtocolSession

unfoldable pub default_commit : SenderCommit
unfolding Session.default
default_commit = record { next_timer = 0; session = Session.default }

pub record ReportSender : Type 0 where
  pub committed : SenderCommit
  pub input_reports_accepted : ℕ
  pub replies_accepted : ℕ

unfoldable pub new : ReportSender
unfolding default_commit
new = record { committed = default_commit; input_reports_accepted = 0; replies_accepted = 0 }

unfoldable pub reset_for_new_session : ReportSender → ReportSender
unfolding default_commit
reset_for_new_session s = record s { committed = default_commit }

-- The state of the controller is shown only when the protocol is ready.
unfoldable pub prepare_reply :
    SwitchHidProtocol
    → ControllerKind
    → ReportSender
    → SubcommandRequest
    → InputState
    → ProtocolResult PreparedOutputAction
prepare_reply p m s request current =
    if protocol_ready s.committed.session
    then prepare_subcommand p m request current s.committed.next_timer s.committed.session
    else prepare_subcommand p m request State.neutral s.committed.next_timer s.committed.session

-- `u64::saturating_add(1)`
abbrev pub saturating_suc : ℕ → ℕ
saturating_suc n = min (n + 1) 18_446_744_073_709_551_615

abbrev pub first : List ℕ → Option ℕ
first [] = none
first (byte ∷ _) = some byte

abbrev pub count_if : ℕ → Option ℕ → ℕ → ℕ
count_if id none n = n
count_if id (some byte) n = if byte == id then saturating_suc n else n

-- The sender after the transport has accepted the bytes.
unfoldable pub accepted : ReportSender → List ℕ → SenderCommit → ReportSender
accepted s bytes candidate = record {
  committed = candidate;
  input_reports_accepted = count_if 0x30 (first bytes) s.input_reports_accepted;
  replies_accepted = count_if 0x21 (first bytes) s.replies_accepted;
}

-- The transport has a state of its own, and either accepts the bytes or fails.
module _ {T E A : Type 0} (send_interrupt : T → List ℕ → T × Result E A) where
  abbrev pub Sent : Type 0
  Sent = ReportSender × T × Result E A

  abbrev pub commit : ReportSender → List ℕ → SenderCommit → T × Result E A → Sent
  commit s bytes candidate (t, err e) = (s, t, err e)
  commit s bytes candidate (t, ok acceptance) = (accepted s bytes candidate, t, ok acceptance)

  unfoldable pub send_candidate : ReportSender → T → List ℕ → SenderCommit → Sent
  send_candidate s t bytes candidate = commit s bytes candidate (send_interrupt t bytes)

  unfoldable pub send_input : F64Ops → ControllerKind → ReportSender → T → InputState → ℕ → Sent
  unfolding with_imu_encoding_state
  send_input f m s t state now_ns =
      let prepared =
        prepare_input_report f m state s.committed.next_timer s.committed.session now_ns in
      send_candidate s t prepared.report.bytes (record {
        next_timer = prepared.report.next_timer;
        session = with_imu_encoding_state s.committed.session prepared.next_imu_encoding_state;
      })

  unfoldable pub send_plain_reply : ReportSender → T → PreparedSubcommandReply → Sent
  send_plain_reply s t prepared =
      send_candidate s t prepared.bytes
        (record { next_timer = prepared.next_timer; session = s.committed.session })

  unfoldable pub send_session_reply : ReportSender → T → PreparedSessionReply → Sent
  send_session_reply s t prepared =
      send_candidate s t prepared.reply.bytes
        (record { next_timer = prepared.reply.next_timer; session = prepared.next_session })

  unfoldable pub send_reply : ReportSender → T → PreparedOutputAction → Sent
  unfolding send_plain_reply send_session_reply
  send_reply s t (reply prepared) = send_plain_reply s t prepared
  send_reply s t (session_reply prepared) = send_session_reply s t prepared
