-- ===== src/Model/Button.antt =====
-- crates/swbt-core/src/model/mod.rs: the logical buttons and their stable codes.
use swbt_rs.Base.{
  ℕ, ◌<◌, ◌≡◌, refl, sym, ap, ◌∙◌, List, [], ◌∷◌, Bool, true, arith, ◌==◌, ==_iff, get_or,
}

pub data ButtonKind : Type 0 where
  a b x y l r zl zr plus minus home capture left_stick right_stick sl sr : ButtonKind
  dpad_up dpad_down dpad_left dpad_right : ButtonKind

-- `kind as u8`
unfoldable pub code : ButtonKind → ℕ
code a = 0x00
code b = 0x01
code x = 0x02
code y = 0x03
code l = 0x04
code r = 0x05
code zl = 0x06
code zr = 0x07
code plus = 0x08
code minus = 0x09
code home = 0x0A
code capture = 0x0B
code left_stick = 0x0C
code right_stick = 0x0D
code sl = 0x0E
code sr = 0x0F
code dpad_up = 0x10
code dpad_down = 0x11
code dpad_left = 0x12
code dpad_right = 0x13

-- The derived equality compares the codes.
unfoldable pub kind_eq : ButtonKind → ButtonKind → Bool
unfolding code
kind_eq j k = code j == code k

-- `ButtonKind::ALL`
unfoldable pub all : List ButtonKind
all =
    a ∷ b ∷ x ∷ y ∷ l ∷ r ∷ zl ∷ zr ∷ plus ∷ minus ∷ home ∷ capture ∷ left_stick ∷ right_stick ∷ sl
    ∷ sr ∷ dpad_up ∷ dpad_down ∷ dpad_left ∷ dpad_right ∷ []

pub code-lt : (k : ButtonKind) → code k < 20
unfolding code
code-lt a = omega arith
code-lt _ = omega arith

-- The list of all buttons has each at the place of its code.
pub all_by_code : (k : ButtonKind) → get_or all (code k) a ≡ k
unfolding all code
all_by_code a = refl
all_by_code _ = refl

pub eq_of_kind_eq : (j k : ButtonKind) → kind_eq j k ≡ true → j ≡ k
unfolding kind_eq
eq_of_kind_eq j k h =
    sym (all_by_code j)
    ∙ ap (λ (n : ℕ). get_or all n a) ((==_iff (code j) (code k)).0 h)
    ∙ all_by_code k
