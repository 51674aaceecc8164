-- ===== src/Runtime/Connection/Laws.antt =====
-- The observed subcommands read one identifier at a time.
use swbt_rs.Base.{
  ℕ, zero, suc, ◌/◌, ◌%◌, ◌^◌, ◌<◌, ◌≡◌, ◌≢◌, ◌∙◌, refl, ap, Bool, true, false, not, ◌||◌, List, [],
  ◌∷◌, All, length, length-set, ◌==◌, get_or, get_or-set, get_or-replicate, any, bit_or, bit_at,
  bit_at-bit_or, eq_refl, bit_at-pow, bit_at-lt, bit_at-zero, bit_and_test, Bool-cases, inl, inr,
  arith,
}
use swbt_rs.Runtime.Connection.{
  ObservedSubcommands, default, bit_slot, observe, observe_all, is_empty, reset,
}

-- The digit of an identifier.
unfoldable pub has : ObservedSubcommands → ℕ → Bool
has seen id = bit_at (id % 64) (get_or seen.words (id / 64) 0) == 1

observe_flag : (seen : ObservedSubcommands) (id : ℕ) → (observe seen id).1 ≡ not (has seen id)
unfolding observe bit_slot has
observe_flag seen id = ground (arith, bit_and_test (id % 64) (get_or seen.words (id / 64) 0))

has-observe :
    (seen : ObservedSubcommands) (i j : ℕ)
    → length seen.words ≡ 4
    → i < 256
    → has (observe seen i).0 j ≡ (j == i || has seen j)
unfolding observe bit_slot has
has-observe seen i j size fits =
    let word = get_or seen.words (i / 64) 0 in
    ground (
      arith,
      get_or-set seen.words (i / 64) (j / 64) (bit_or word (2 ^ (i % 64))) 0,
      bit_at-bit_or (j % 64) word (2 ^ (i % 64)),
      bit_at-pow (j % 64) (i % 64),
      bit_at-lt (j % 64) word,
    )

length-observe :
    (seen : ObservedSubcommands) (id : ℕ) → length (observe seen id).0.words ≡ length seen.words
unfolding observe bit_slot
length-observe seen id =
    length-set seen.words (id / 64) (bit_or (get_or seen.words (id / 64) 0) (2 ^ (id % 64)))

any_cons_or :
    (p : ℕ → Bool) (x : ℕ) (xs : List ℕ) (r : Bool)
    → (any p xs || (p x || r)) ≡ (any p (x ∷ xs) || r)
any_cons_or p x xs r = elim (Bool-cases (p x)) [
  | inl e ↦ rw e (or_true (any p xs))
  | inr e ↦ rw e (refl)
]
  where
    or_true : (b : Bool) → (b || true) ≡ true
    or_true true = refl
    or_true false = refl

has-observe_all :
    (seen : ObservedSubcommands) (ids : List ℕ) (j : ℕ)
    → length seen.words ≡ 4
    → All (λ id. id < 256) ids
    → has (observe_all seen ids) j ≡ (any (λ id. j == id) ids || has seen j)
unfolding observe_all
has-observe_all seen [] j size fits = refl
has-observe_all seen (id ∷ ids) j size (here, later) =
    rw
      (
        has-observe_all (observe seen id).0 ids j (length-observe seen id ∙ size) later,
        has-observe seen id j size here,
      )
      (any_cons_or (λ k. j == k) id ids (has seen j))

size : length default.words ≡ 4
unfolding default
size = refl

has-default : (j : ℕ) → has default j ≡ false
unfolding has default
has-default j = rw (get_or-replicate 4 (j / 64) zero, bit_at-zero (j % 64)) (refl)

any_word :
    (words : List ℕ) (i : ℕ) → get_or words i 0 ≢ 0 → any (λ word. not (word == 0)) words ≡ true
any_word [] i h = absurd (h refl)
any_word (word ∷ words) zero h = ground arith
any_word (word ∷ words) (suc i) h = ground (arith, any_word words i h)

any_of_has : (seen : ObservedSubcommands) (id : ℕ) → has seen id ≡ true → is_empty seen ≡ false
unfolding has is_empty
any_of_has seen id h =
    rw (any_word seen.words (id / 64) (λ z. ground (arith, z, bit_at-zero (id % 64)))) (refl)

empty_default : is_empty (observe_all default []) ≡ true
unfolding is_empty observe_all default
empty_default = refl

or_false : (b : Bool) → (b || false) ≡ b
or_false true = refl
or_false false = refl

unfoldable pub is_nil : List ℕ → Bool
is_nil [] = true
is_nil (_ ∷ _) = false

is_empty-observe_all :
    (ids : List ℕ) → All (λ id. id < 256) ids → is_empty (observe_all default ids) ≡ is_nil ids
unfolding is_nil
is_empty-observe_all [] fits = empty_default
is_empty-observe_all (id ∷ ids) fits = any_of_has (observe_all default (id ∷ ids)) id (
    has-observe_all default (id ∷ ids) id size fits
    ∙ rw (has-default id) (or_false (any (λ k. id == k) (id ∷ ids)) ∙ rw (eq_refl id) (refl)))

-- For every earlier state, every list of subcommands observed in order after a reset, and every
-- further subcommand, all below 256, the observation of the further one answers whether it is not
-- in the list, and the observations after the reset are empty exactly where the list is.
pub observe-observe_all :
    (seen : ObservedSubcommands) (ids : List ℕ) (id : ℕ)
    → All (λ id. id < 256) ids
    → ((observe (observe_all (reset seen) ids) id).1 ≡ not (any (λ k. id == k) ids))
      × (is_empty (observe_all (reset seen) ids) ≡ is_nil ids)
unfolding reset
observe-observe_all seen ids id fits = (
  observe_flag (observe_all default ids) id
      ∙ ap not (
          has-observe_all default ids id size fits
          ∙ rw (has-default id) (or_false (any (λ k. id == k) ids))),
  is_empty-observe_all ids fits,
)
