-- ===== src/Protocol/Facade/Outcome/Sessions.antt =====
-- What a stateful subcommand may answer.
use swbt_rs.Base.{
  ℕ, zero, suc, ◌≤◌, ◌<◌, ◌≡◌, ◌⊎◌, inl, inr, refl, ap, Bool, true, false, by_test, Option, none,
  some, [], ◌∷◌, arith, ◌==◌, ok, err, ◌>>=◌,
}
use swbt_rs.Model.Spec.{ControllerKind, protocol}
use swbt_rs.Input.State.{InputState}
use swbt_rs.Protocol.Error.{
  ProtocolResult, missing_subcommand_argument, invalid_vibration_value, unsupported_imu_mode,
}
use swbt_rs.Protocol.OutputReport.{SubcommandRequest}
use swbt_rs.Protocol.Session.{
  ProtocolSession, from_requested, with_report_mode, with_player_lights, with_imu_mode,
  with_vibration_enabled,
}
use swbt_rs.Protocol.Subcommand.{
  PreparedSessionReply, prepare_0x21, accepted_mode, try_prepare_stateful_reply, next_session_of,
  is_stateful,
}
use swbt_rs.Protocol.Subcommand.Layout.{IsReply}
use swbt_rs.Protocol.Facade.Outcome.Expected.{
  StartsWith, changes_session, mode_at, NextSession, report_mode, player_lights, imu, vibration,
}
use swbt_rs.Protocol.Facade.Outcome.Replies.{short_answer, first_cases}

-- The sessions that a request of one byte can ask for.
abbrev Next : ℕ → ℕ → ProtocolSession → ProtocolResult ProtocolSession → Type 0
Next id v s (ok next) = NextSession id v s next
Next id v s (err (unsupported_imu_mode w accepted)) =
    (id ≡ 0x40) × (5 < v) × (w ≡ v) × (accepted ≡ 0 ∷ 1 ∷ 2 ∷ 3 ∷ 4 ∷ 5 ∷ [])
Next id v s (err (invalid_vibration_value w)) = (id ≡ 0x48) × (1 < v) × (w ≡ v)
Next id v s (err _) = ⊥

modes_of : (m : ControllerKind) → (protocol m).accepted_imu_modes ≡ 0 ∷ 1 ∷ 2 ∷ 3 ∷ 4 ∷ 5 ∷ []
unfolding protocol
modes_of ControllerKind.pro = refl
modes_of ControllerKind.joycon_l = refl
modes_of ControllerKind.joycon_r = refl

accepted_cases :
    (m : ControllerKind) (v : ℕ)
    → ((v ≤ 5) × (accepted_mode m v ≡ ok (mode_at v)))
      ⊎ ((5 < v) × (accepted_mode m v ≡ err (unsupported_imu_mode v (0 ∷ 1 ∷ 2 ∷ 3 ∷ 4 ∷ 5 ∷ []))))
unfolding accepted_mode
accepted_cases m zero = inl (omega arith, rw (modes_of m))
accepted_cases m (suc zero) = inl (omega arith, rw (modes_of m))
accepted_cases m (suc (suc zero)) = inl (omega arith, rw (modes_of m))
accepted_cases m (suc (suc (suc zero))) = inl (omega arith, rw (modes_of m))
accepted_cases m (suc (suc (suc (suc zero)))) = inl (omega arith, rw (modes_of m))
accepted_cases m (suc (suc (suc (suc (suc zero))))) = inl (omega arith, rw (modes_of m))
accepted_cases m (suc (suc (suc (suc (suc (suc v)))))) =
    inr (omega arith, rw (modes_of m) (ground arith))

imu_session :
    (m : ControllerKind) (id v : ℕ) (s : ProtocolSession)
    → id ≡ 0x40
    → Next id v s (accepted_mode m v >>= λ mode. ok (with_imu_mode s mode))
unfolding with_imu_mode
imu_session m id v s h = elim (accepted_cases m v) [
  | inl (small, e) ↦ rw e (imu h small refl)
  | inr (big, e) ↦ rw e (h, big, refl, refl)
]

mode_next : (id v : ℕ) (s : ProtocolSession) → id ≡ 0x03 → NextSession id v s (with_report_mode s v)
unfolding with_report_mode from_requested
mode_next id v s h = report_mode h refl

lights_next :
    (id v : ℕ) (s : ProtocolSession) → id ≡ 0x30 → NextSession id v s (with_player_lights s v)
unfolding with_player_lights
lights_next id v s h = player_lights h refl

vibration_next :
    (id v : ℕ) (s : ProtocolSession) (enabled : Bool)
    → id ≡ 0x48
    → v ≤ 1
    → enabled ≡ (v == 1)
    → NextSession id v s (with_vibration_enabled s enabled)
unfolding with_vibration_enabled
vibration_next id v s enabled h small e =
    vibration h small (ap (λ (b : Bool). record s { vibration_enabled = b }) e)

next_session_lem :
    (m : ControllerKind) (id v : ℕ) (s : ProtocolSession)
    → changes_session id ≡ true
    → Next id v s (next_session_of m id v s)
unfolding next_session_of
next_session_lem m id v s h =
    by_test (Next id v s) (id == 0x03) (λ e. mode_next id v s (ground (arith, e)))
      λ n1.
        by_test (Next id v s) (id == 0x30) (λ e. lights_next id v s (ground (arith, e)))
          λ n2.
            by_test (Next id v s) (id == 0x40) (λ e. imu_session m id v s (ground (arith, e)))
              λ n3.
                let last : id ≡ 0x48 = ground (arith, h, n1, n2, n3) in
                by_test (Next id v s) (v == 0x00)
                  (λ e. vibration_next id v s false last (ground (arith, e)) (ground (arith, e)))
                  λ n4.
                    by_test (Next id v s) (v == 0x01)
                      (λ e. vibration_next id v s true last (ground (arith, e)) (ground (arith, e)))
                      λ n5. (last, ground (arith, n4, n5), refl)

module _ (m : ControllerKind) (q : SubcommandRequest) (state : InputState) (timer : ℕ)
    (s : ProtocolSession) where
  -- A reply without data, and the session that the first byte asks for.
  abbrev pub RepliedWith : PreparedSessionReply → Type 0
  RepliedWith r =
      IsReply m q.id 0x80 [] state timer r.reply
      × ((v : ℕ) × StartsWith q.payload v × NextSession q.id v s r.next_session)

  abbrev pub Stateful : ProtocolResult (Option PreparedSessionReply) → Type 0
  Stateful (ok none) = changes_session q.id ≡ false
  Stateful (ok (some r)) = RepliedWith r
  Stateful (err (missing_subcommand_argument id)) =
      (changes_session q.id ≡ true) × (id ≡ q.id) × (q.payload ≡ [])
  Stateful (err (unsupported_imu_mode v accepted)) =
      (q.id ≡ 0x40) × (5 < v) × StartsWith q.payload v × (accepted ≡ 0 ∷ 1 ∷ 2 ∷ 3 ∷ 4 ∷ 5 ∷ [])
  Stateful (err (invalid_vibration_value v)) = (q.id ≡ 0x48) × (1 < v) × StartsWith q.payload v
  Stateful (err _) = ⊥

  reply_with_session :
      (v : ℕ) (next : ProtocolResult ProtocolSession)
      → StartsWith q.payload v
      → Next q.id v s next
      → Stateful (
          next >>= λ next. prepare_0x21 m q.id 0x80 [] state timer >>= λ reply.
          ok (some (record { reply = reply; next_session = next })))
  reply_with_session v (ok next) start n =
      let (r, e, shape) = short_answer m q.id 0x80 [] state timer (omega arith) in
      rw e (shape, (v, start, n))
  reply_with_session v (err (unsupported_imu_mode w accepted)) start (id, big, e, modes) =
      (id, rw e big, rw e start, modes)
  reply_with_session v (err (invalid_vibration_value w)) start (id, big, e) =
      (id, rw e big, rw e start)
  reply_with_session v (err _) start n = absurd n

  pub stateful_lem : Stateful (try_prepare_stateful_reply m q state timer s)
  unfolding try_prepare_stateful_reply is_stateful
  stateful_lem =
      by_test Stateful (is_stateful q.id)
        (λ h. elim (first_cases q.id q.payload) [
          | inl (empty, e) ↦ rw e (h, refl, empty)
          | inr (v, start, e) ↦ rw e (
              reply_with_session v (next_session_of m q.id v s) start
                (next_session_lem m q.id v s h))
        ])
        (λ h. h)
