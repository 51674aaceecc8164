-- ===== src/Runtime/Sessions.antt =====
-- src/runtime/session.rs and src/runtime/state.rs: the identifiers of connection sessions, and the
-- committed input state. The view for diagnostics (`status`) and the reset of periodic reporting are
-- left out.
use swbt_rs.Base.{
  ℕ, ◌+◌, ◌%◌, ◌<◌, ◌≡◌, ◌⊎◌, inl, inr, refl, sym, ap, ◌∙◌, eq_refl, Bool, true, false, Option,
  none, some, ◌==◌, if◌then◌else◌, arith,
}
use swbt_rs.Input.State
use swbt_rs.Input.State.{InputState}
use swbt_rs.Runtime.Connection.{ObservedSubcommands, reset}
use swbt_rs.Runtime.Sender.{ReportSender, reset_for_new_session}

pub record InputStateStore : Type 0 where
  pub committed : InputState

unfoldable pub commit_input : InputStateStore → InputState → InputStateStore
commit_input store next = record { committed = next }

unfoldable pub reset_to_neutral : InputStateStore → InputStateStore
reset_to_neutral store = record { committed = State.neutral }

-- A session identifier is a `NonZeroU64`.
pub record ConnectionSessions : Type 0 where
  pub last_issued : ℕ
  pub current : Option ℕ

pub record SessionEvent (Event : Type 0) : Type 0 where
  pub session_id : ℕ
  pub event : Event

unfoldable pub no_sessions : ConnectionSessions
no_sessions = record { last_issued = 0; current = none }

-- `wrapping_add(1)`, and 1 in place of 0.
unfoldable pub prepare_next : ConnectionSessions → ℕ
prepare_next s =
    let next = (s.last_issued + 1) % 18_446_744_073_709_551_616 in if next == 0 then 1 else next

-- What `begin_direct` is given and leaves behind, with the identifier that it issues.
pub record Parts : Type 0 where
  pub sessions : ConnectionSessions
  pub sender : ReportSender
  pub observed : ObservedSubcommands
  pub input : InputStateStore

unfoldable pub commit_session : ℕ → Parts → Parts
commit_session next parts = record {
  sessions = record { last_issued = next; current = some next };
  sender = reset_for_new_session parts.sender;
  observed = reset parts.observed;
  input = reset_to_neutral parts.input;
}

unfoldable pub begin_direct : Parts → Parts × ℕ
begin_direct parts = let next = prepare_next parts.sessions in (commit_session next parts, next)

unfoldable pub is_current : Option ℕ → ℕ → Bool
is_current none id = false
is_current (some current) id = current == id

unfoldable pub end_current : ConnectionSessions → ℕ → ConnectionSessions × Bool
end_current s id =
    if is_current s.current id
    then (record { last_issued = s.last_issued; current = none }, true)
    else (s, false)

module _ {Event : Type 0} where
  abbrev tagged : Option ℕ → Event → Option (SessionEvent Event)
  tagged none event = none
  tagged (some id) event = some (record { session_id = id; event = event })

  unfoldable pub tag_current : ConnectionSessions → Event → Option (SessionEvent Event)
  tag_current s event = tagged s.current event

  unfoldable pub take_current : ConnectionSessions → SessionEvent Event → Option Event
  unfolding is_current
  take_current s event = if is_current s.current event.session_id then some event.event else none

-- The current session, where there is one, is the last one issued, which fits 64 bits.
abbrev pub IsConsistent : ConnectionSessions → Type 0
IsConsistent s =
    (s.last_issued < 18_446_744_073_709_551_616)
    × ((s.current ≡ none) ⊎ (s.current ≡ some s.last_issued))

next_is_new :
    (s : ConnectionSessions)
    → s.last_issued < 18_446_744_073_709_551_616
    → (0 < prepare_next s)
      × (prepare_next s < 18_446_744_073_709_551_616)
      × ((prepare_next s == s.last_issued) ≡ false)
unfolding prepare_next
next_is_new s fits = ground arith

some_or_none : (o : Option ℕ) (id : ℕ) → o ≡ none → o ≡ some id → ⊥
some_or_none o id e e' = ground arith

option_value : (d : ℕ) {a b : ℕ} → some a ≡ some b → a ≡ b
option_value d {a} {b} e = ap (λ (o : Option ℕ). elim o [ none ↦ d | some x ↦ x ]) e

other_id : (next last id : ℕ) → (next == last) ≡ false → last ≡ id → (next == id) ≡ false
other_id next last id fresh same = ground arith

-- For every consistent state of the sessions and every event that was tagged in it with a session,
-- the state itself gives the event back, and the state after the begin of a direct session is
-- consistent, has a non-zero session, and gives it no more.
pub take_current-tag_current :
    {Event : Type 0} (parts : Parts) (id : ℕ) (event : Event)
    → IsConsistent parts.sessions
    → parts.sessions.current ≡ some id
    → let tag : SessionEvent Event = record { session_id = id; event = event } in
      let after = (begin_direct parts).0.sessions in
      (tag_current parts.sessions event ≡ some tag)
      × (take_current parts.sessions tag ≡ some event)
      × IsConsistent after
      × (0 < (begin_direct parts).1)
      × (take_current after tag ≡ none)
unfolding tag_current take_current begin_direct commit_session is_current
take_current-tag_current parts id event (fits, inl nothing) now =
    absurd (some_or_none parts.sessions.current id nothing now)
take_current-tag_current parts id event (fits, inr same) now =
    let (positive, small, fresh) = next_is_new parts.sessions fits in
    let stale =
      other_id (prepare_next parts.sessions) parts.sessions.last_issued id fresh
        (option_value 0 (sym same ∙ now)) in
    (rw now, rw (now, eq_refl id) (refl), (small, inr refl), positive, rw stale (refl))
