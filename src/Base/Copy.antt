-- ===== src/Base/Copy.antt =====
-- `dst[i..i + src.len()].copy_from_slice(src)` on a list.
use Prim.Native.Nat.{ℕ, zero, suc, ◌+◌, ◌-◌, ◌≤◌}
use mathlib.Core.Path.{◌≡◌, refl, ap}
use mathlib.Core.Bool.{true, ◌&&◌}
use mathlib.Core.List.{List, [], ◌∷◌}
use native.Mathlib.Omega.{arith}
use swbt_rs.Base.Tests.{ltb, leb, if◌then◌else◌}
use swbt_rs.Base.Lists.{length, get_or}

leb-suc : (a b : ℕ) → leb (suc a) (suc b) ≡ leb a b
leb-suc a b = ground arith

ltb-suc-add : (a b n : ℕ) → ltb (suc a) (suc b + n) ≡ ltb a (b + n)
ltb-suc-add a b n = ground arith

sub-suc : (a b : ℕ) → suc a - suc b ≡ a - b
sub-suc a b = omega arith

zero-leb : (a : ℕ) → leb 0 a ≡ true
zero-leb a = ground arith

ltb-suc-suc : (a n : ℕ) → ltb (suc a) (0 + suc n) ≡ ltb a (0 + n)
ltb-suc-suc a n = ground arith

sub-zero : (a : ℕ) → a - 0 ≡ a
sub-zero a = omega arith

module _ {ℓ} {A : Type ℓ} where
  abbrev pub copy_at : ℕ → List A → List A → List A
  copy_at i src [] = []
  copy_at zero [] (d ∷ dst) = d ∷ dst
  copy_at zero (s ∷ src) (d ∷ dst) = s ∷ copy_at zero src dst
  copy_at (suc i) src (d ∷ dst) = d ∷ copy_at i src dst

  pub length-copy_at : (i : ℕ) (src dst : List A) → length (copy_at i src dst) ≡ length dst
  length-copy_at i src [] = refl
  length-copy_at zero [] (d ∷ dst) = refl
  length-copy_at zero (s ∷ src) (d ∷ dst) = ap suc (length-copy_at zero src dst)
  length-copy_at (suc i) src (d ∷ dst) = ap suc (length-copy_at i src dst)

  -- A copy that fits shows `src` in its range and `dst` outside of it.
  pub get_or-copy_at :
      (i : ℕ) (src dst : List A) (j : ℕ) (d : A)
      → i + length src ≤ length dst
      → get_or (copy_at i src dst) j d
        ≡ (if leb i j && ltb j (i + length src) then get_or src (j - i) d else get_or dst j d)
  get_or-copy_at zero [] [] j d h = ground arith
  get_or-copy_at zero (s ∷ src) [] j d h = absurd (omega arith)
  get_or-copy_at (suc i) src [] j d h = absurd (omega arith)
  get_or-copy_at zero [] (x ∷ dst) j d h = ground arith
  get_or-copy_at zero (s ∷ src) (x ∷ dst) zero d h = ground arith
  get_or-copy_at zero (s ∷ src) (x ∷ dst) (suc j) d h =
      rw (zero-leb (suc j), ltb-suc-suc j (length src), sub-zero (suc j))
        (rw (zero-leb j, sub-zero j) at (get_or-copy_at zero src dst j d (omega arith)))
  get_or-copy_at (suc i) src (x ∷ dst) zero d h = ground arith
  get_or-copy_at (suc i) src (x ∷ dst) (suc j) d h =
      rw (leb-suc i j, ltb-suc-add j i (length src), sub-suc j i)
        (get_or-copy_at i src dst j d (omega arith))
