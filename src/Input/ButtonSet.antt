-- ===== src/Input/ButtonSet.antt =====
-- crates/swbt-core/src/input/button.rs: the duplicate-free button set, one bit for each code.
-- `Button<M>` is a kind that the model supports; the model is an argument where it is used.
pub mod Laws
use swbt_rs.Base.{
  ℕ, zero, suc, ◌+◌, ◌^◌, Bool, true, false, not, List, [], ◌∷◌, ◌==◌, if◌then◌else◌, filterb,
  bit_and, bit_or, bit_at, Result, ok, err,
}
use swbt_rs.Error.{Error, ErrorKind}
use swbt_rs.Model.Button.{ButtonKind, code}
use swbt_rs.Model.Spec.{ControllerKind}
use swbt_rs.Model.Wire.{supported_buttons, supports_button}

-- `Button::<M>::try_from`; a button is its kind.
unfoldable pub try_from : ControllerKind → ButtonKind → Result Error ButtonKind
try_from m kind =
    if supports_button m kind then ok kind else err (Error.new ErrorKind.unsupported_input)

-- The `u32` of the set.
pub record ButtonSet : Type 0 where
  pub bits : ℕ

unfoldable pub empty : ButtonSet
empty = record { bits = 0 }

-- `1_u32 << kind as u8`; the codes are below 20, so no bit is shifted out.
unfoldable pub button_bit : ButtonKind → ℕ
button_bit kind = 2 ^ code kind

-- The ones among the lowest digits.
unfoldable pub count_ones : ℕ → ℕ → ℕ
count_ones zero bits = 0
count_ones (suc n) bits = count_ones n bits + bit_at n bits

-- `count_ones` of a `u32`.
unfoldable pub len : ButtonSet → ℕ
len s = count_ones 32 s.bits

unfoldable pub is_empty : ButtonSet → Bool
is_empty s = s.bits == 0

unfoldable pub contains : ButtonSet → ButtonKind → Bool
unfolding button_bit
contains s button = not (bit_and s.bits (button_bit button) == 0)

-- The new set, and whether the button was absent.
unfoldable pub insert : ButtonSet → ButtonKind → ButtonSet × Bool
unfolding button_bit
insert s button =
    (record { bits = bit_or s.bits (button_bit button) }, bit_and s.bits (button_bit button) == 0)

unfoldable pub iter : ControllerKind → ButtonSet → List ButtonKind
unfolding supported_buttons contains
iter m s = filterb (contains s) (supported_buttons m)

-- The loop of `from_iter` over the buttons that are left.
unfoldable pub insert_all : ButtonSet → List ButtonKind → ButtonSet
unfolding insert
insert_all s [] = s
insert_all s (button ∷ rest) = insert_all (insert s button).0 rest

unfoldable pub from_iter : List ButtonKind → ButtonSet
unfolding insert_all empty
from_iter buttons = insert_all empty buttons
