-- ===== src/Controller/Input.antt =====
-- src/controller/input.rs: press, release and tap, computed as candidate states.
-- A `Duration` is its total number of nanoseconds.
pub mod Laws
use swbt_rs.Base.{ℕ, ◌*◌, Bool, not, List, filterb, leb, if◌then◌else◌, Result, ok, err, ◌>>=◌}
use swbt_rs.Error.{Error, ErrorKind}
use swbt_rs.Model.Button.{ButtonKind}
use swbt_rs.Model.Spec.{ControllerKind}
use swbt_rs.Input.ButtonSet.{ButtonSet, contains, insert_all, from_iter, iter, is_empty}
use swbt_rs.Input.State.{InputState, with_buttons, pressed}

-- 24 hours.
abbrev pub max_tap_duration : ℕ
max_tap_duration = 24 * 60 * 60 * 1_000_000_000

unfoldable pub validated_buttons : List ButtonKind → Result Error ButtonSet
validated_buttons buttons =
    let set = from_iter buttons in
    if is_empty set then err (Error.new ErrorKind.invalid_input) else ok set

unfoldable pub validated_tap_duration : ℕ → Result Error ℕ
validated_tap_duration duration =
    if leb duration max_tap_duration then ok duration else err (Error.new ErrorKind.invalid_input)

unfoldable pub press_validated : ControllerKind → InputState → ButtonSet → InputState
press_validated m current buttons =
    let set = insert_all (from_iter (pressed m current)) (iter m buttons) in
    with_buttons current (iter m set)

unfoldable pub release_validated : ControllerKind → InputState → ButtonSet → InputState
release_validated m current buttons =
    let retained =
      from_iter (filterb (λ button. not (contains buttons button)) (pressed m current)) in
    with_buttons current (iter m retained)

unfoldable pub press_candidate :
    ControllerKind → InputState → List ButtonKind → Result Error InputState
press_candidate m current buttons = do
  set ← validated_buttons buttons
  ok (press_validated m current set)

unfoldable pub release_candidate :
    ControllerKind → InputState → List ButtonKind → Result Error InputState
release_candidate m current buttons = do
  set ← validated_buttons buttons
  ok (release_validated m current set)

-- The pressed state, the released state and the duration.
unfoldable pub tap_plan :
    ControllerKind → InputState → List ButtonKind → ℕ → Result Error (InputState × InputState × ℕ)
tap_plan m current buttons duration = do
  set ← validated_buttons buttons
  time ← validated_tap_duration duration
  let down = press_validated m current set
  ok (down, release_validated m down set, time)
