-- ===== src/Runtime/Connection.antt =====
-- src/runtime/connection.rs: the subcommands seen since the connection started.
pub mod Laws
use swbt_rs.Base.{
  ℕ, zero, suc, ◌+◌, ◌*◌, ◌/◌, ◌%◌, ◌^◌, ◌<◌, ◌≡◌, ◌↔◌, refl, sym, Bool, true, false, not, ◌||◌,
  Option, none, some, List, [], ◌∷◌, ◌==◌, get_or, set, replicate, any, bit_and, bit_or, bit_at,
  arith,
}

-- `u64::BITS` and `256 / BITS_PER_WORD`.
abbrev pub bits_per_word : ℕ
bits_per_word = 64

abbrev pub word_count : ℕ
word_count = 4

pub record ObservedSubcommands : Type 0 where
  pub words : List ℕ
  pub last : Option ℕ

unfoldable pub default : ObservedSubcommands
default = record { words = replicate word_count 0; last = none }

unfoldable pub bit_slot : ℕ → ℕ × ℕ
bit_slot id = (id / bits_per_word, 2 ^ (id % bits_per_word))

-- The state after, and whether this is the first observation of the subcommand.
unfoldable pub observe : ObservedSubcommands → ℕ → ObservedSubcommands × Bool
unfolding bit_slot
observe seen id =
    let slot = bit_slot id in
    let word = get_or seen.words slot.0 0 in
    (
      record { words = set seen.words slot.0 (bit_or word slot.1); last = some id },
      bit_and word slot.1 == 0,
    )

unfoldable pub is_empty : ObservedSubcommands → Bool
is_empty seen = not (any (λ word. not (word == 0)) seen.words)

unfoldable pub reset : ObservedSubcommands → ObservedSubcommands
unfolding default
reset _ = default

-- The subcommands, one after another.
unfoldable pub observe_all : ObservedSubcommands → List ℕ → ObservedSubcommands
observe_all seen [] = seen
observe_all seen (id ∷ ids) = observe_all (observe seen id).0 ids
