-- ===== src/Authn/OneTime.antt =====
-- Challenges in the memory cache: each is answered once, and by the flow that it was made for.
use authguard.Base.{
  ℕ, ◌≤◌, Bool-cases, eq_iff, codes, [], ◌∷◌, ◌++◌, ◌==◌, ◌<◌, ◌≡◌, refl, sym, ap, subst, ◌∙◌, inl,
  inr, Bool, true, false, Option, none, some, Option-cases, Text, List, eq_refl, All, Result,
  Result-cases, ok, err, ok_inj,
}
use authguard.Cache.Memory
use authguard.Cache.Memory.{MemoryAuthorizationCache, expires_at}
use authguard.Cache.Use.{Use, takes, step, run}
use authguard.Cache.Kept.{Spares, Holds, step-Holds, run-Holds, put_if_absent-Holds, take-Holds}
use authguard.Cache.Once.{Leaves, take_once}
use authguard.Access.Signer.{Bytes, Crypto}
use authguard.Identity.Json.{Serde}
use authguard.Identity.Headers.{HttpTypes, HeaderMap}
use authguard.Jwt.Signing.{Rsa}
use authguard.Authn.Linking.{IdentityBindingRepository}
use authguard.Authn.Failure.{ApiError, ChallengeError}
use authguard.Authn.Challenge.{
  Codec, memory_cache, challenge_key, put_outcome, put_json, taken_outcome, consume_json,
}
use authguard.Authn.Application.{Urls}
use authguard.Authn.Provider.{ProviderAuthorization}
use authguard.Authn.Login.{Response}
use authguard.Authn.Oauth2.{
  OAuthChallenge, OAuth2Handler, Moment, CallbackQuery, oauth_challenge_purpose, random_id,
  prepared, invalid_oauth_state, authorization_of, with_flow, prepare_authorization, callback,
}

cancel : (p s t : Text) → p ++ s ≡ p ++ t → s ≡ t
cancel [] s t h = h
cancel (c ∷ p) s t h = cancel p s t (ap tail h)
  where
    tail : Text → Text
    tail [] = []
    tail (d ∷ rest) = rest

true_ne_false : true ≡ false → ⊥
true_ne_false h = cc

module _ {T : Type 0} (digest : Text → Text) (codec : Codec T) where
  -- What `serde_json` documents: what was written is read back.
  pub record ReadsBack : Type 0 where
    pub reads :
        (value : T) (payload : Bytes)
        → codec.to_vec value ≡ some payload
        → codec.from_slice payload ≡ some value

  consume_json-cache :
      (now : ℕ) (purpose challenge_id : Text) (cache : MemoryAuthorizationCache)
      → (consume_json digest (memory_cache now) codec purpose challenge_id cache).1
        ≡ (Memory.take now (challenge_key digest purpose challenge_id) cache).1
  unfolding consume_json
  consume_json-cache now purpose challenge_id cache =
      kept (Memory.take now (challenge_key digest purpose challenge_id) cache)
    where
      kept :
          (taken : Option Bytes × MemoryAuthorizationCache)
          → (taken_outcome digest (memory_cache now) codec (ok taken.0, taken.1)).1 ≡ taken.1
      kept (none, after) = refl
      kept (some payload, after) = refl

  consume_json-none :
      (now : ℕ) (purpose challenge_id : Text) (cache : MemoryAuthorizationCache)
      → (Memory.take now (challenge_key digest purpose challenge_id) cache).0 ≡ none
      → (consume_json digest (memory_cache now) codec purpose challenge_id cache).0 ≡ ok none
  unfolding consume_json
  consume_json-none now purpose challenge_id cache missing = rw missing refl

  consume_json-some :
      (now : ℕ) (purpose challenge_id : Text) (cache : MemoryAuthorizationCache) (value : T)
      (payload : Bytes)
      → (Memory.take now (challenge_key digest purpose challenge_id) cache).0 ≡ some payload
      → codec.from_slice payload ≡ some value
      → (consume_json digest (memory_cache now) codec purpose challenge_id cache).0
        ≡ ok (some value)
  unfolding consume_json
  consume_json-some now purpose challenge_id cache value payload found read = rw (found, read) refl

  put_outcome-eq-ok :
      (outcome : Bool × MemoryAuthorizationCache) (after : MemoryAuthorizationCache)
      → put_outcome (ok outcome.0, outcome.1) ≡ (ok tt, after)
      → (outcome.0 ≡ true) × (outcome.1 ≡ after)
  put_outcome-eq-ok (true, cache) after h = (refl, ap (λ r. r.1) h)
  put_outcome-eq-ok (false, cache) after h = cc

  put_json-Holds :
      (now later ttl : ℕ) (purpose challenge_id : Text) (value : T)
      (cache after : MemoryAuthorizationCache)
      → put_json digest (memory_cache now) codec purpose challenge_id value ttl cache
        ≡ (ok tt, after)
      → later < expires_at cache now ttl
      → (payload : Bytes) × (codec.to_vec value ≡ some payload)
        × Holds (challenge_key digest purpose challenge_id) later payload after
  unfolding put_json
  put_json-Holds now later ttl purpose challenge_id value cache after h fresh =
      elim (Option-cases (codec.to_vec value)) [
        | inl unwritten ↦ cc (rw unwritten at h)
        | inr (payload, written) ↦
            let put_key = challenge_key digest purpose challenge_id in
            let (is_put, kept) =
              put_outcome-eq-ok (Memory.put_if_absent now now put_key payload ttl cache) after
                (rw written at h) in
            (
              payload,
              written,
              subst (Holds put_key later payload) kept
                  (put_if_absent-Holds now now later ttl put_key payload cache is_put fresh),
            )
      ]

  -- Challenges whose digests differ have different keys.
  challenge_key-differs :
      (purpose challenge_id other : Text)
      → (digest (purpose ++ (0 ∷ other)) == digest (purpose ++ (0 ∷ challenge_id))) ≡ false
      → (challenge_key digest purpose other == challenge_key digest purpose challenge_id) ≡ false
  unfolding challenge_key
  challenge_key-differs purpose challenge_id other differs =
      elim (Bool-cases
        (challenge_key digest purpose other == challenge_key digest purpose challenge_id)) [
          | inr other_key ↦ other_key
          | inl same ↦
              let e =
                cancel (codes "authn-challenge:v1:") (digest (purpose ++ (0 ∷ other)))
                  (digest (purpose ++ (0 ∷ challenge_id)))
                  ((eq_iff (challenge_key digest purpose other)
                      (challenge_key digest purpose challenge_id)).0
                    same) in
              absurd (
                true_ne_false (
                  sym (
                    (eq_iff (digest (purpose ++ (0 ∷ other)))
                        (digest (purpose ++ (0 ∷ challenge_id)))).1
                      e)
                  ∙ differs))
        ]

module _ {Key Public Db Url : Type 0} (rsa : Rsa Key Public) (crypto : Crypto)
    (decode_padded : Text → Option Bytes) (serde : Serde) (http : HttpTypes) (urls : Urls Url)
    (digest : Text → Text) (codec : Codec OAuthChallenge)
    (repository : IdentityBindingRepository Db) (handler : OAuth2Handler Key) where
  abbrev pub state_key : Text → Text
  state_key state = challenge_key digest oauth_challenge_purpose state

  -- A callback at a time, with the cache in memory.
  abbrev pub callback_at :
      ℕ
      → Text
      → CallbackQuery
      → Moment
      → Db
      → MemoryAuthorizationCache
      → Result ApiError Response × (Db × MemoryAuthorizationCache)
  callback_at now =
      callback rsa crypto decode_padded serde http urls digest codec repository handler
        (memory_cache now)

  callback-cache :
      (now : ℕ) (provider : Text) (query : CallbackQuery) (moment : Moment) (db : Db)
      (cache : MemoryAuthorizationCache)
      → (callback_at now provider query moment db cache).1.1
        ≡ (Memory.take now (state_key query.state) cache).1
  unfolding callback
  callback-cache now provider query moment db cache =
      consume_json-cache digest codec now oauth_challenge_purpose query.state cache

  -- The state of a callback is used up, whatever its outcome: another callback with it, after other uses
  -- of the cache that put no value under its key again, is refused and changes nothing in the database.
  pub callback_once :
      (now later : ℕ) (provider other_provider : Text) (query again : CallbackQuery)
      (moment other_moment : Moment) (db after_db other_db : Db)
      (cache after : MemoryAuthorizationCache) (answer : Result ApiError Response) (uses : List Use)
      → again.state ≡ query.state
      → All (Leaves (state_key query.state)) uses
      → callback_at now provider query moment db cache ≡ (answer, (after_db, after))
      → let second =
          callback_at later other_provider again other_moment other_db (run uses after) in
        (second.0 ≡ err invalid_oauth_state) × (second.1.0 ≡ other_db)
  unfolding callback
  callback_once now later provider other_provider query again moment other_moment db after_db
        other_db cache after answer uses same_state leaves h =
      let key = state_key query.state in
      let kept : (Memory.take now key cache).1 ≡ after =
        sym (callback-cache now provider query moment db cache) ∙ ap (λ r. r.1.1) h in
      let gone : (Memory.take later (state_key again.state) (run uses after)).0 ≡ none =
        subst (λ state. (Memory.take later (state_key state) (run uses after)).0 ≡ none)
          (sym same_state)
          (subst (λ c. (Memory.take later key (run uses c)).0 ≡ none) kept
            (take_once key now later cache uses leaves)) in
      let missing =
        consume_json-none digest codec later oauth_challenge_purpose again.state (run uses after)
          gone in
      (rw missing refl, rw missing refl)

  prepared-eq-ok :
      (url answer : Text) (stored : Result ChallengeError (Unit {0}) × MemoryAuthorizationCache)
      (after : MemoryAuthorizationCache)
      → prepared answer stored ≡ (ok url, after)
      → (stored ≡ (ok tt, after)) × (answer ≡ url)
  prepared-eq-ok url answer (err e, store) after h = cc
  prepared-eq-ok url answer (ok tt, store) after h =
      (λ i. (ok tt, (h i).1), ok_inj (ap (λ r. r.0) h))

  -- A callback that answers a prepared authorization before its challenge expires goes on with the
  -- challenge that was made for it: its provider, destination, nonce and verifier, and the principal to
  -- link. In between the cache may be used under other keys, and another callback, whose state has
  -- another digest, may be answered.
  pub callback-prepare_authorization :
      (reads_back : ReadsBack digest codec) (now later : ℕ) (provider : Text) (headers : HeaderMap)
      (return_uri : Text) (redirect_after_login : Bool) (link_principal_id : Option Text)
      (random : Bytes) (code url : Text) (moment : Moment) (db : Db)
      (cache after : MemoryAuthorizationCache) (uses : List Use) (mid : ℕ) (other_provider : Text)
      (other : CallbackQuery) (other_moment : Moment) (other_db : Db)
      → prepare_authorization rsa crypto decode_padded serde http urls digest codec repository
          handler
          (memory_cache now)
          provider
          headers
          return_uri
          redirect_after_login
          link_principal_id
          random
          cache
        ≡ (ok url, after)
      → later < expires_at cache now handler.challenge_ttl
      → All (Spares (state_key (random_id crypto random)) later) uses
      → mid ≤ later
      → (digest (oauth_challenge_purpose ++ (0 ∷ other.state))
          == digest (oauth_challenge_purpose ++ (0 ∷ random_id crypto random)))
        ≡ false
      → (destination : Text) × (authorization : ProviderAuthorization) × (authorization.url ≡ url)
        × (authorization_of rsa crypto decode_padded serde http urls digest codec repository handler
              provider headers return_uri redirect_after_login
              (random_id crypto random)
            ≡ ok (destination, authorization))
        × (let called =
              callback_at later provider
                (record { code = code; state = random_id crypto random })
                moment
                db
                (callback_at mid other_provider other other_moment other_db (run uses after)).1.1 in
            (called.0, called.1.0)
            ≡ with_flow rsa crypto decode_padded serde http urls digest codec repository handler
                provider code moment db
                (ok (record {
                  provider = provider;
                  return_uri = destination;
                  redirect_after_login = redirect_after_login;
                  nonce = authorization.nonce;
                  pkce_verifier = authorization.pkce_verifier;
                  link_principal_id = link_principal_id;
                })))
  unfolding callback prepare_authorization step
  callback-prepare_authorization reads_back now later provider headers return_uri
        redirect_after_login link_principal_id random code url moment db cache after uses mid
        other_provider other other_moment other_db h fresh spares early differs =
      elim (Result-cases (
        authorization_of rsa crypto decode_padded serde http urls digest codec repository handler
          provider headers return_uri redirect_after_login (random_id crypto random))) [
            | inr (e, a) ↦ cc (rw a at h)
            | inl ((destination, authorization), a) ↦
                let (stored, same_url) = prepared-eq-ok url authorization.url _ after (rw a at h) in
                let key = state_key (random_id crypto random) in
                let (payload, written, holds) =
                  put_json-Holds digest codec now later handler.challenge_ttl
                    oauth_challenge_purpose (random_id crypto random) _ cache after stored fresh in
                let differs_key =
                  challenge_key-differs digest codec oauth_challenge_purpose
                    (random_id crypto random) other.state differs in
                let still =
                  step-Holds key later payload (takes mid (state_key other.state)) (run uses after)
                    (early, differs_key) (run-Holds key later payload uses after spares holds) in
                let interrupted =
                  (callback_at mid other_provider other other_moment other_db
                    (run uses after)).1.1 in
                let kept : Holds key later payload interrupted =
                  subst (Holds key later payload)
                    (sym (
                      callback-cache mid other_provider other other_moment other_db
                        (run uses after)))
                    still in
                let found =
                  consume_json-some digest codec later oauth_challenge_purpose
                    (random_id crypto random) interrupted _ payload
                    (take-Holds key later payload interrupted kept)
                    (reads_back.reads _ payload written) in
                (destination, authorization, same_url, a, rw (found, eq_refl provider) refl)
          ]
