-- ===== src/Authn/Challenge.antt =====
-- One-time challenges: src/authn/src/authentication/challenge.rs over the trait `ICache` of
-- src/common/src/cache/mod.rs.
use authguard.Base.{
  ℕ, Bool, true, false, Option, none, some, ◌∷◌, ◌++◌, Text, codes, Result, ok, err,
}
use authguard.Access.Signer.{Bytes}
use authguard.Cache.Memory
use authguard.Cache.Memory.{MemoryAuthorizationCache}
use authguard.Authn.Failure.{ChallengeError, backend, invalid_state}

pub record ICache (Store : Type 0) : Type 0 where
  pub put_if_absent : Text → Bytes → ℕ → Store → Result Text Bool × Store
  pub take : Text → Store → Result Text (Option Bytes) × Store

-- The cache in memory, at the time that its clock gives.
abbrev pub memory_cache : ℕ → ICache MemoryAuthorizationCache
memory_cache now = record {
  put_if_absent = λ key value ttl cache.
      let (done, after) = Memory.put_if_absent now now key value ttl cache in (ok done, after);
  take = λ key cache. let (found, after) = Memory.take now key cache in (ok found, after);
}

-- `serde_json` for the type of a payload
pub record Codec (T : Type 0) : Type 0 where
  pub to_vec : T → Option Bytes
  pub from_slice : Bytes → Option T

-- `digest` is the SHA-256 of a text in hexadecimal digits.
unfoldable pub challenge_key : (Text → Text) → Text → Text → Text
challenge_key digest purpose challenge_id =
    codes "authn-challenge:v1:" ++ digest (purpose ++ (0 ∷ challenge_id))

abbrev pub put_outcome :
    {Store : Type 0} → Result Text Bool × Store → Result ChallengeError (Unit {0}) × Store
put_outcome (err _, store) = (err backend, store)
put_outcome (ok false, store) = (err backend, store)
put_outcome (ok true, store) = (ok tt, store)

module _ {Store T : Type 0} (digest : Text → Text) (cache : ICache Store) (codec : Codec T) where
  abbrev pub put_payload :
      Text → Text → ℕ → Store → Option Bytes → Result ChallengeError (Unit {0}) × Store
  put_payload purpose challenge_id ttl store none = (err invalid_state, store)
  put_payload purpose challenge_id ttl store (some payload) =
      put_outcome
        (cache.put_if_absent (challenge_key digest purpose challenge_id) payload ttl store)

  unfoldable pub put_json : Text → Text → T → ℕ → Store → Result ChallengeError (Unit {0}) × Store
  unfolding challenge_key
  put_json purpose challenge_id payload ttl store =
      put_payload purpose challenge_id ttl store (codec.to_vec payload)

  abbrev pub read_payload : Option T → Result ChallengeError (Option T)
  read_payload none = err invalid_state
  read_payload (some value) = ok (some value)

  abbrev pub taken_outcome :
      Result Text (Option Bytes) × Store → Result ChallengeError (Option T) × Store
  taken_outcome (err _, store) = (err backend, store)
  taken_outcome (ok none, store) = (ok none, store)
  taken_outcome (ok (some payload), store) = (read_payload (codec.from_slice payload), store)

  unfoldable pub consume_json : Text → Text → Store → Result ChallengeError (Option T) × Store
  unfolding challenge_key
  consume_json purpose challenge_id store =
      taken_outcome (cache.take (challenge_key digest purpose challenge_id) store)
