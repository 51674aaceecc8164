-- ===== src/Model/Wire/Halves.antt =====
-- The Pro Controller against the two Joy-Cons, which are its halves.
use swbt_rs.Base.{◌≡◌, refl, Bool, true, false, not, ◌&&◌, ◌||◌, Option, some}
use swbt_rs.Model.Button.{ButtonKind}
use swbt_rs.Model.Spec.{ControllerKind, ButtonWirePosition}
use swbt_rs.Model.Wire.{button_wire_position, supports_button}

-- SL and SR, on the rail of a Joy-Con.
abbrev pub on_rail : ButtonKind → Bool
on_rail ButtonKind.sl = true
on_rail ButtonKind.sr = true
on_rail _ = false

abbrev pub SamePlace : Option ButtonWirePosition → Option ButtonWirePosition → Type 0
SamePlace (some p) (some q) = p ≡ q
SamePlace _ _ = Unit {0}

-- For every button: the Pro Controller has it exactly if a Joy-Con has it and it is not on the rail;
-- both Joy-Cons have it exactly if it is on the rail; and each Joy-Con reports a button that the Pro
-- Controller has too at the Pro Controller's byte and mask.
pub button_wire_position-SamePlace :
    (k : ButtonKind)
    → (supports_button ControllerKind.pro k
        ≡ (supports_button ControllerKind.joycon_l k || supports_button ControllerKind.joycon_r k)
          && not (on_rail k))
      × (supports_button ControllerKind.joycon_l k && supports_button ControllerKind.joycon_r k
          ≡ on_rail k)
      × SamePlace
          (button_wire_position ControllerKind.joycon_l k)
          (button_wire_position ControllerKind.pro k)
      × SamePlace
          (button_wire_position ControllerKind.joycon_r k)
          (button_wire_position ControllerKind.pro k)
unfolding supports_button
button_wire_position-SamePlace ButtonKind.a = (refl, refl, tt, refl)
button_wire_position-SamePlace ButtonKind.b = (refl, refl, tt, refl)
button_wire_position-SamePlace ButtonKind.x = (refl, refl, tt, refl)
button_wire_position-SamePlace ButtonKind.y = (refl, refl, tt, refl)
button_wire_position-SamePlace ButtonKind.l = (refl, refl, refl, tt)
button_wire_position-SamePlace ButtonKind.r = (refl, refl, tt, refl)
button_wire_position-SamePlace ButtonKind.zl = (refl, refl, refl, tt)
button_wire_position-SamePlace ButtonKind.zr = (refl, refl, tt, refl)
button_wire_position-SamePlace ButtonKind.plus = (refl, refl, tt, refl)
button_wire_position-SamePlace ButtonKind.minus = (refl, refl, refl, tt)
button_wire_position-SamePlace ButtonKind.home = (refl, refl, tt, refl)
button_wire_position-SamePlace ButtonKind.capture = (refl, refl, refl, tt)
button_wire_position-SamePlace ButtonKind.left_stick = (refl, refl, refl, tt)
button_wire_position-SamePlace ButtonKind.right_stick = (refl, refl, tt, refl)
button_wire_position-SamePlace ButtonKind.dpad_up = (refl, refl, refl, tt)
button_wire_position-SamePlace ButtonKind.dpad_down = (refl, refl, refl, tt)
button_wire_position-SamePlace ButtonKind.dpad_left = (refl, refl, refl, tt)
button_wire_position-SamePlace ButtonKind.dpad_right = (refl, refl, refl, tt)
button_wire_position-SamePlace ButtonKind.sl = (refl, refl, tt, tt)
button_wire_position-SamePlace ButtonKind.sr = (refl, refl, tt, tt)
