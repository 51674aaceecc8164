-- ===== src/Model/Wire.antt =====
-- crates/swbt-core/src/model/mod.rs: which buttons a model has, and their places in a report.
pub mod Halves
use swbt_rs.Base.{
  ◌≡◌, refl, Bool, true, false, Option, none, some, List, [], ◌∷◌, any, if◌then◌else◌,
}
use swbt_rs.Model.Button.{ButtonKind, kind_eq}
use swbt_rs.Model.Spec.{ControllerKind, ButtonWirePosition, button_table}

abbrev pub kinds_of : List (ButtonKind × ButtonWirePosition) → List ButtonKind
kinds_of [] = []
kinds_of ((kind, position) ∷ rest) = kind ∷ kinds_of rest

unfoldable pub supported_buttons : ControllerKind → List ButtonKind
unfolding button_table
supported_buttons m = kinds_of (button_table m)

-- `iter().find_map(|(kind, position)| (*kind == button).then_some(*position))`
unfoldable pub find_position :
    List (ButtonKind × ButtonWirePosition) → ButtonKind → Option ButtonWirePosition
unfolding kind_eq
find_position [] button = none
find_position ((kind, position) ∷ rest) button =
    if kind_eq kind button then some position else find_position rest button

unfoldable pub button_wire_position : ControllerKind → ButtonKind → Option ButtonWirePosition
unfolding find_position button_table
button_wire_position m button = find_position (button_table m) button

abbrev pub is_some {ℓ} : {A : Type ℓ} → Option A → Bool
is_some none = false
is_some (some _) = true

unfoldable pub supports_button : ControllerKind → ButtonKind → Bool
unfolding button_wire_position
supports_button m button = is_some (button_wire_position m button)

-- For every model and button, the button is valid for the model exactly if it stands in the
-- model's list of supported buttons.
pub supports_button-any :
    (m : ControllerKind) (k : ButtonKind)
    → supports_button m k ≡ any (kind_eq k) (supported_buttons m)
unfolding supports_button supported_buttons kind_eq
supports_button-any ControllerKind.pro ButtonKind.a = refl
supports_button-any ControllerKind.joycon_l ButtonKind.a = refl
supports_button-any ControllerKind.joycon_r ButtonKind.a = refl
supports_button-any _ _ = refl
