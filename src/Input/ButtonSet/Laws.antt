-- ===== src/Input/ButtonSet/Laws.antt =====
-- A button set read through `contains`.
use swbt_rs.Base.{
  ℕ, zero, suc, ◌+◌, ◌-◌, ◌^◌, ltb, Bool-cases, inl, inr, ◌≡◌, refl, ◌∙◌, Bool, true, false, not,
  ◌||◌, ◌&&◌, List, [], ◌∷◌, arith, ◌==◌, eq_refl, if◌then◌else◌, any, bit_or, bit_at, bit_at-lt,
  bit_at-bit_or, bit_at-pow, bit_and_test, bit_at-zero, filterb,
}
use swbt_rs.Model.Button.{ButtonKind, code, code-lt, kind_eq}
use swbt_rs.Model.Spec.{ControllerKind}
use swbt_rs.Model.Wire.{supported_buttons, supports_button, supports_button-any}
use swbt_rs.Input.ButtonSet.{
  ButtonSet, empty, button_bit, count_ones, len, is_empty, contains, insert, insert_all, from_iter,
  iter,
}

pub contains-bit_at :
    (s : ButtonSet) (k : ButtonKind) → contains s k ≡ (bit_at (code k) s.bits == 1)
unfolding contains
contains-bit_at s k = bit_and_test (code k) s.bits

-- For every set and every two buttons, the set after the insertion of the first button contains the
-- second exactly if the second equals the first or the set contained it before.
pub contains-insert :
    (s : ButtonSet) (k j : ButtonKind) → contains (insert s k).0 j ≡ (kind_eq j k || contains s j)
unfolding insert kind_eq
contains-insert s k j =
    rw (contains-bit_at, contains-bit_at)
      (ground (
        arith,
        bit_at-bit_or (code j) s.bits (2 ^ code k),
        bit_at-pow (code j) (code k),
        bit_at-lt (code j) s.bits,
      ))

-- The flag of `insert` says that the button was absent.
pub insert_flag : (s : ButtonSet) (k : ButtonKind) → (insert s k).1 ≡ not (contains s k)
unfolding insert contains
insert_flag s k = ground arith

pub contains-empty : (k : ButtonKind) → contains empty k ≡ false
unfolding empty
contains-empty k = rw (contains-bit_at, bit_at-zero) (refl)

or_left : (p q r : Bool) → ((p || q) || r) ≡ (q || (p || r))
or_left true true r = refl
or_left true false r = refl
or_left false true r = refl
or_left false false r = refl

any_cons {ℓ} :
    {A : Type ℓ} (p : A → Bool) (x : A) (xs : List A) → any p (x ∷ xs) ≡ (p x || any p xs)
any_cons p x xs = elim (Bool-cases (p x)) [ inl e ↦ rw e | inr e ↦ rw e ]

pub contains-insert_all :
    (s : ButtonSet) (l : List ButtonKind) (k : ButtonKind)
    → contains (insert_all s l) k ≡ (contains s k || any (kind_eq k) l)
unfolding insert_all
contains-insert_all s [] k = ground arith
contains-insert_all s (j ∷ rest) k =
    contains-insert_all (insert s j).0 rest k
    ∙ rw (contains-insert s j k, any_cons (kind_eq k) j rest)
        (or_left (kind_eq k j) (contains s k) (any (kind_eq k) rest))

pub contains-from_iter :
    (l : List ButtonKind) (k : ButtonKind) → contains (from_iter l) k ≡ any (kind_eq k) l
unfolding from_iter
contains-from_iter l k = contains-insert_all empty l k ∙ rw contains-empty

kind_eq_refl : (k : ButtonKind) → kind_eq k k ≡ true
unfolding kind_eq
kind_eq_refl k = eq_refl (code k)

pub code_of_kind_eq : (j k : ButtonKind) → kind_eq j k ≡ true → code j ≡ code k
unfolding kind_eq
code_of_kind_eq j k h = ground arith

pub contains_same :
    (s : ButtonSet) (j k : ButtonKind) → kind_eq j k ≡ true → contains s k ≡ contains s j
contains_same s j k h = rw (contains-bit_at s k, contains-bit_at s j, code_of_kind_eq j k h)

-- A filter by a test that does not tell equal kinds apart.
pub any-filter :
    (p : ButtonKind → Bool)
    → ((j k : ButtonKind) → kind_eq j k ≡ true → p k ≡ p j)
    → (l : List ButtonKind) (k : ButtonKind)
    → any (kind_eq k) (filterb p l) ≡ (p k && any (kind_eq k) l)
any-filter p same [] k = ground arith
any-filter p same (j ∷ rest) k = ground (arith, any-filter p same rest k, same k j)

-- For every model, set and button, `iter` yields the button exactly if the set contains it and the
-- model supports it.
pub any-iter :
    (m : ControllerKind) (s : ButtonSet) (k : ButtonKind)
    → any (kind_eq k) (iter m s) ≡ (contains s k && supports_button m k)
unfolding iter
any-iter m s k =
    any-filter (contains s) (contains_same s) (supported_buttons m) k ∙ rw (supports_button-any m k)

count_ones-insert :
    (n c bits : ℕ)
    → count_ones n (bit_or bits (2 ^ c))
      ≡ count_ones n bits + (if ltb c n then 1 - bit_at c bits else 0)
unfolding count_ones
count_ones-insert zero c bits = ground arith
count_ones-insert (suc n) c bits = ground (
  arith,
  count_ones-insert n c bits,
  bit_at-bit_or n bits (2 ^ c),
  bit_at-pow n c,
  bit_at-lt n bits,
  bit_at-lt c bits,
)

-- For every set and button, an insertion adds one to the length where the set does not contain the
-- button, and nothing where it does.
pub len-insert :
    (s : ButtonSet) (k : ButtonKind) → len (insert s k).0 ≡ len s + (if contains s k then 0 else 1)
unfolding len insert button_bit
len-insert s k = ground (
  arith,
  count_ones-insert 32 (code k) s.bits,
  code-lt k,
  contains-bit_at s k,
  bit_at-lt (code k) s.bits,
)

not-contains_of_is_empty :
    (s : ButtonSet) (k : ButtonKind) → is_empty s ≡ true → contains s k ≡ false
unfolding is_empty
not-contains_of_is_empty s k h =
    let none_set : s.bits ≡ 0 = ground arith in rw (contains-bit_at s k, none_set, bit_at-zero)

abbrev pub is_nil {ℓ} : {A : Type ℓ} → List A → Bool
is_nil [] = true
is_nil (x ∷ xs) = false

-- For every list of buttons, the set of the list is empty exactly if the list is.
pub is_empty-from_iter : (l : List ButtonKind) → is_empty (from_iter l) ≡ is_nil l
is_empty-from_iter [] = unfold from_iter is_empty in refl
is_empty-from_iter (j ∷ rest) = elim (Bool-cases (is_empty (from_iter (j ∷ rest)))) [
  | inl e ↦ cc (
    not-contains_of_is_empty (from_iter (j ∷ rest)) j e,
    contains-from_iter (j ∷ rest) j,
    any_cons (kind_eq j) j rest,
    kind_eq_refl j,
  )
  | inr e ↦ e
]
