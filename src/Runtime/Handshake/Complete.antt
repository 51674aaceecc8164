-- ===== src/Runtime/Handshake/Complete.antt =====
-- A handshake is complete only after what it waits for has happened.
use swbt_rs.Base.{ℕ}
use swbt_rs.Model.Spec.{ControllerKind}
use swbt_rs.Protocol.Floats.{F64Ops}
use swbt_rs.Runtime.Handshake.{Handshake, HandshakeCompletionCondition}
use swbt_rs.Runtime.Transport.{TransportPort}
use swbt_rs.Runtime.Handshake.Seen.{Seen}
use swbt_rs.Runtime.Handshake.Follows.{Follows}

module _ {T : Type 0} (f : F64Ops) (m : ControllerKind) (port : TransportPort T) (session_id : ℕ)
    (condition : HandshakeCompletionCondition) where
  abbrev Same : Handshake → Seen → Type 0
  Same = Follows session_id condition
