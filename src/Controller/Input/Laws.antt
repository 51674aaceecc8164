-- ===== src/Controller/Input/Laws.antt =====
-- What the candidate states of a press, a release and a tap hold.
use swbt_rs.Base.{
  Bool-cases, inl, inr, ◌⊎◌, ltb, ltb→lt, ℕ, ◌≤◌, ◌<◌, ◌≡◌, refl, ◌∙◌, true, not, ◌&&◌, ◌||◌, List,
  [], ◌∷◌, any, arith, filterb, Result, ok, err, if◌then◌else◌,
}
use swbt_rs.Error.{Error, ErrorKind}
use swbt_rs.Model.Button.{ButtonKind, kind_eq}
use swbt_rs.Model.Spec.{ControllerKind}
use swbt_rs.Model.Wire.{supports_button}
use swbt_rs.Input.ButtonSet.{ButtonSet, contains, insert_all, from_iter, iter}
use swbt_rs.Input.ButtonSet.Laws.{
  contains-insert_all, contains-from_iter, any-iter, any-filter, contains_same, is_nil,
  is_empty-from_iter,
}
use swbt_rs.Input.State.{InputState, with_buttons, pressed}
use swbt_rs.Controller.Input.{
  max_tap_duration, validated_buttons, validated_tap_duration, press_validated, release_validated,
  press_candidate, release_candidate, tap_plan,
}

-- The state of a press: the buttons are those of the state and the new ones, as far as the model
-- has them, and nothing else changes.
abbrev pub IsPressed : ControllerKind → InputState → List ButtonKind → InputState → Type 0
IsPressed m s buttons s' =
    ((k : ButtonKind)
      → contains s'.buttons k
        ≡ (supports_button m k && (contains s.buttons k || any (kind_eq k) buttons)))
    × (s'.left_stick ≡ s.left_stick)
    × (s'.right_stick ≡ s.right_stick)
    × (s'.imu_frames ≡ s.imu_frames)

-- The state of a release: the given buttons are gone.
abbrev pub IsReleased : ControllerKind → InputState → List ButtonKind → InputState → Type 0
IsReleased m s buttons s' =
    ((k : ButtonKind)
      → contains s'.buttons k
        ≡ (supports_button m k && (contains s.buttons k && not (any (kind_eq k) buttons))))
    × (s'.left_stick ≡ s.left_stick)
    × (s'.right_stick ≡ s.right_stick)
    × (s'.imu_frames ≡ s.imu_frames)

contains-press :
    (m : ControllerKind) (s : InputState) (buttons : List ButtonKind) (k : ButtonKind)
    → contains (press_validated m s (from_iter buttons)).buttons k
      ≡ (supports_button m k && (contains s.buttons k || any (kind_eq k) buttons))
unfolding press_validated with_buttons pressed
contains-press m s buttons k = ground (
  arith,
  contains-from_iter
      (iter m (insert_all (from_iter (iter m s.buttons)) (iter m (from_iter buttons)))) k,
  any-iter m (insert_all (from_iter (iter m s.buttons)) (iter m (from_iter buttons))) k,
  contains-insert_all (from_iter (iter m s.buttons)) (iter m (from_iter buttons)) k,
  contains-from_iter (iter m s.buttons) k,
  any-iter m s.buttons k,
  any-iter m (from_iter buttons) k,
  contains-from_iter buttons k,
)

pub press-IsPressed :
    (m : ControllerKind) (s : InputState) (buttons : List ButtonKind)
    → IsPressed m s buttons (press_validated m s (from_iter buttons))
press-IsPressed m s buttons = (
  contains-press m s buttons,
  unfold press_validated with_buttons in refl,
  unfold press_validated with_buttons in refl,
  unfold press_validated with_buttons in refl,
)

absent_same :
    (u : ButtonSet) (j k : ButtonKind)
    → kind_eq j k ≡ true
    → not (contains u k) ≡ not (contains u j)
absent_same u j k h = rw (contains_same u j k h)

contains-release :
    (m : ControllerKind) (s : InputState) (buttons : List ButtonKind) (k : ButtonKind)
    → contains (release_validated m s (from_iter buttons)).buttons k
      ≡ (supports_button m k && (contains s.buttons k && not (any (kind_eq k) buttons)))
unfolding release_validated with_buttons pressed
contains-release m s buttons k =
    let keep = λ (b : ButtonKind). not (contains (from_iter buttons) b) in
    ground (
      arith,
      contains-from_iter (iter m (from_iter (filterb keep (iter m s.buttons)))) k,
      any-iter m (from_iter (filterb keep (iter m s.buttons))) k,
      contains-from_iter (filterb keep (iter m s.buttons)) k,
      any-filter keep (absent_same (from_iter buttons)) (iter m s.buttons) k,
      any-iter m s.buttons k,
      contains-from_iter buttons k,
    )

pub release-IsReleased :
    (m : ControllerKind) (s : InputState) (buttons : List ButtonKind)
    → IsReleased m s buttons (release_validated m s (from_iter buttons))
release-IsReleased m s buttons = (
  contains-release m s buttons,
  unfold release_validated with_buttons in refl,
  unfold release_validated with_buttons in refl,
  unfold release_validated with_buttons in refl,
)

abbrev pub IsInvalid {ℓ} : {A : Type ℓ} → Result Error A → Type 0
IsInvalid (ok a) = ⊥
IsInvalid (err e) = e ≡ Error.new ErrorKind.invalid_input

abbrev pub Succeeds {ℓ} : {A : Type ℓ} → (A → Type 0) → Result Error A → Type 0
Succeeds P (ok a) = P a
Succeeds P (err e) = ⊥

-- What an operation on buttons promises: without buttons it fails as invalid input, and with
-- some it succeeds with a result that has the property.
abbrev pub Answers {ℓ} : {A : Type ℓ} → (A → Type 0) → List ButtonKind → Result Error A → Type 0
Answers P [] r = IsInvalid r
Answers P (k ∷ ks) r = Succeeds P r

validated_lem :
    (buttons : List ButtonKind)
    → validated_buttons buttons
      ≡ (if is_nil buttons then err (Error.new ErrorKind.invalid_input) else ok (from_iter buttons))
unfolding validated_buttons
validated_lem buttons = rw (is_empty-from_iter buttons)

in_time : (d : ℕ) → d ≤ max_tap_duration → validated_tap_duration d ≡ ok d
unfolding validated_tap_duration
in_time d h = ground arith

too_long :
    (d : ℕ)
    → max_tap_duration < d
    → validated_tap_duration d ≡ err (Error.new ErrorKind.invalid_input)
unfolding validated_tap_duration
too_long d h = ground arith

-- Pressing no button at all is refused as invalid input; pressing some buttons gives the state
-- whose buttons are those the model has among the old and the new ones, with both sticks and the
-- IMU frames unchanged.
pub press_candidate-Answers :
    (m : ControllerKind) (s : InputState) (buttons : List ButtonKind)
    → Answers (IsPressed m s buttons) buttons (press_candidate m s buttons)
press_candidate-Answers m s [] = unfold press_candidate in rw (validated_lem []) refl
press_candidate-Answers m s (k ∷ ks) =
    unfold press_candidate in rw (validated_lem (k ∷ ks)) (press-IsPressed m s (k ∷ ks))

-- Releasing no button at all is refused as invalid input; releasing some buttons gives the state
-- whose buttons are those the model has among the old ones without the released ones, with both
-- sticks and the IMU frames unchanged.
pub release_candidate-Answers :
    (m : ControllerKind) (s : InputState) (buttons : List ButtonKind)
    → Answers (IsReleased m s buttons) buttons (release_candidate m s buttons)
release_candidate-Answers m s [] = unfold release_candidate in rw (validated_lem []) refl
release_candidate-Answers m s (k ∷ ks) =
    unfold release_candidate in rw (validated_lem (k ∷ ks)) (release-IsReleased m s (k ∷ ks))

-- The plan of a tap: the pressed state, and a released state without any tapped button, also one
-- that was held before the tap.
abbrev pub IsTap :
    ControllerKind → InputState → List ButtonKind → ℕ → InputState × InputState × ℕ → Type 0
IsTap m s buttons duration (down, up, time) =
    IsPressed m s buttons down × IsReleased m s buttons up × (time ≡ duration)

tap-IsReleased :
    (m : ControllerKind) (s : InputState) (buttons : List ButtonKind)
    → IsReleased m s buttons
        (release_validated m (press_validated m s (from_iter buttons)) (from_iter buttons))
tap-IsReleased m s buttons =
    let down = press_validated m s (from_iter buttons) in
    let (held, left, right, frames) = press-IsPressed m s buttons in
    let (kept, left', right', frames') = release-IsReleased m down buttons in
    (λ k. ground (arith, held k, kept k), left' ∙ left, right' ∙ right, frames' ∙ frames)

tap_plan_cases :
    (m : ControllerKind) (s : InputState) (buttons : List ButtonKind) (duration : ℕ)
    → (duration ≤ max_tap_duration
        → Answers (IsTap m s buttons duration) buttons (tap_plan m s buttons duration))
      × (max_tap_duration < duration → IsInvalid (tap_plan m s buttons duration))
tap_plan_cases m s buttons duration = (short buttons, long buttons)
  where
    short :
        (bs : List ButtonKind)
        → duration ≤ max_tap_duration
        → Answers (IsTap m s bs duration) bs (tap_plan m s bs duration)
    short [] h = unfold tap_plan in rw (validated_lem []) refl
    short (k ∷ ks) h =
        unfold tap_plan in
        rw (validated_lem (k ∷ ks), in_time duration h)
          (press-IsPressed m s (k ∷ ks), tap-IsReleased m s (k ∷ ks), refl)

    long :
        (bs : List ButtonKind) → max_tap_duration < duration → IsInvalid (tap_plan m s bs duration)
    long [] h = unfold tap_plan in rw (validated_lem []) refl
    long (k ∷ ks) h = unfold tap_plan in rw (validated_lem (k ∷ ks), too_long duration h) refl

-- A tap of some buttons for at most 24 hours gives the pressed state, the released state and the
-- duration; the released state has the model's buttons that were held before and are not tapped,
-- and both states leave the sticks and the IMU frames unchanged. A tap without buttons, and one
-- that lasts longer, is refused as invalid input.
pub tap_plan-Answers :
    (m : ControllerKind) (s : InputState) (buttons : List ButtonKind) (duration : ℕ)
    → ((duration ≤ max_tap_duration)
        × Answers (IsTap m s buttons duration) buttons (tap_plan m s buttons duration))
      ⊎ ((max_tap_duration < duration) × IsInvalid (tap_plan m s buttons duration))
tap_plan-Answers m s buttons duration = elim (Bool-cases (ltb max_tap_duration duration)) [
  | inl e ↦
      let h = ltb→lt max_tap_duration duration e in
      inr (h, (tap_plan_cases m s buttons duration).1 h)
  | inr e ↦
      let h : duration ≤ max_tap_duration = ground arith in
      inl (h, (tap_plan_cases m s buttons duration).0 h)
]
