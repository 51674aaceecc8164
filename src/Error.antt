-- ===== src/Error.antt =====
-- crates/swbt-core/src/error.rs: error categories and the chain of related failures.
-- The message, the `source` and the formatting are left out: a caller recovers by the category.
use swbt_rs.Base.{◌≡◌, refl, ap, Option, none, some, List, [], ◌∷◌, ◌++◌}

pub data ErrorKind : Type 0 where
  adapter_discovery transport_open profile_path_required profile_not_found : ErrorKind
  profile_already_exists invalid_profile profile_controller_mismatch invalid_key_store : ErrorKind
  no_bond transport_closed connection_timeout connection_failed protocol invalid_input : ErrorKind
  unsupported_input unsupported_capability adapter_identity_recovery_required : ErrorKind
  worker_failed shutdown internal : ErrorKind

-- `related` is `None` for `new`, and a boxed error for `linked`.
pub data Error : Type 0 where
  new : ErrorKind → Error
  linked : ErrorKind → Error → Error

unfoldable pub kind : Error → ErrorKind
kind (new k) = k
kind (linked k _) = k

-- The loop walks to the last `related` and stores there.
unfoldable pub with_related : Error → Error → Error
with_related (new k) related = linked k related
with_related (linked k rest) related = linked k (with_related rest related)

unfoldable pub related_error : Error → Option Error
related_error (new _) = none
related_error (linked _ related) = some related

-- The categories in occurrence order, which a caller gets by `kind` and `related_error`.
unfoldable pub chain : Error → List ErrorKind
chain (new k) = k ∷ []
chain (linked k rest) = k ∷ chain rest

chain-with_related_append : (e r : Error) → chain (with_related e r) ≡ chain e ++ chain r
unfolding chain with_related
chain-with_related_append (new k) r = refl
chain-with_related_append (linked k rest) r = ap (λ ks. k ∷ ks) (chain-with_related_append rest r)

kind-with_related : (e r : Error) → kind (with_related e r) ≡ kind e
unfolding kind with_related
kind-with_related (new k) r = refl
kind-with_related (linked k rest) r = refl

abbrev pub chain_of : Option Error → List ErrorKind
chain_of none = []
chain_of (some e) = chain e

chain-related_error : (e : Error) → chain e ≡ kind e ∷ chain_of (related_error e)
unfolding chain kind related_error
chain-related_error (new k) = refl
chain-related_error (linked k related) = refl

-- For every two errors, `with_related` keeps the category of the first as the category of the
-- result, and the chain of the result is the chain of the first followed by the chain of the
-- second. The chain of an error is its category followed by the chain of its related error, if it
-- has one.
pub chain-with_related :
    (e r : Error)
    → (kind (with_related e r) ≡ kind e)
      × (chain (with_related e r) ≡ chain e ++ chain r)
      × (chain e ≡ kind e ∷ chain_of (related_error e))
chain-with_related e r =
    (kind-with_related e r, chain-with_related_append e r, chain-related_error e)
