-- ===== src/Runtime/Direct/Commits.antt =====
-- Direct input is committed when it is accepted.
use swbt_rs.Base.{ℕ, ◌+◌, ◌%◌, ◌≡◌, refl, ok, err}
use swbt_rs.Model.Spec.{ControllerKind}
use swbt_rs.Input.State.{InputState}
use swbt_rs.Protocol.Facade.{SwitchHidProtocol}
use swbt_rs.Protocol.Floats.{F64Ops}
use swbt_rs.Runtime.Direct.{committed, send_candidate}
use swbt_rs.Runtime.Sessions.{commit_input}
use swbt_rs.Runtime.Transport.{TransportResult, TransportPort, Io, send_state}
use swbt_rs.Runtime.Transport.Sends.{timer, Sends, send_state-Sends}

-- Both the store and the sender change, or neither.
abbrev pub CommitsBoth :
    {T : Type 0} → Io T → InputState → Io T × TransportResult (Unit {0}) → Type 0
CommitsBoth io candidate (io', err e) = (io'.sender ≡ io.sender) × (io'.input ≡ io.input)
CommitsBoth io candidate (io', ok _) =
    (timer io' ≡ (timer io + 1) % 256) × (io'.input.committed ≡ candidate)

module _ {T : Type 0} (f : F64Ops) (p : SwitchHidProtocol) (m : ControllerKind)
    (port : TransportPort T) where
  committed-CommitsBoth :
      (io : Io T) (candidate : InputState) (sent : Io T × TransportResult (Unit {0}))
      → Sends io sent
      → CommitsBoth io candidate (committed f p m port candidate sent)
  unfolding commit_input
  committed-CommitsBoth io candidate (io', err e) same = same
  committed-CommitsBoth io candidate (io', ok _) (next, _) = (next, refl)

  -- For every transport: a direct input that the transport accepts becomes the committed state and
  -- advances the timer by one modulo 256; one that it refuses leaves the committed state and the
  -- sender as they were.
  pub send_candidate-CommitsBoth :
      (io : Io T) (candidate : InputState) (now_ns : ℕ)
      → CommitsBoth io candidate (send_candidate f p m port io candidate now_ns)
  unfolding send_candidate
  send_candidate-CommitsBoth io candidate now_ns =
      committed-CommitsBoth io candidate (send_state f m port io candidate now_ns)
        (send_state-Sends f m port io candidate now_ns)
