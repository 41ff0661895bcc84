-- ===== src/Cache/Once.antt =====
-- Values of the memory cache (src/common/src/cache/memory.rs): a key is set once, and taken once.
use authguard.Base.{
  ℕ, ◌<◌, ◌≡◌, refl, sym, subst, true, false, not, arith, inl, inr, Bool, List, [], ◌∷◌, Text, ◌==◌,
  eq_refl, retain, All, some, none, ltb, lookup, remove, put, contains_key, Bool-cases,
}
use authguard.Cache.Use.{Use, puts, takes, stores, loads, step, run}
use authguard.Cache.Memory.{
  MemoryValue, MemoryAuthorizationCache, store_scope, load_scope, put_if_absent, take, expires_at,
  live_value, with_values,
}

module _ {V : Type 0} where
  retain-missing :
      (p : Text × V → Bool) (k : Text) (m : List (Text × V))
      → contains_key k m ≡ false
      → contains_key k (retain p m) ≡ false
  retain-missing p k [] h = refl
  retain-missing p k (entry ∷ m) h = ground (arith, retain-missing p k m)

  remove-missing : (k : Text) (m : List (Text × V)) → contains_key k (remove k m) ≡ false
  remove-missing k [] = refl
  remove-missing k (entry ∷ m) = ground (arith, remove-missing k m)

  missing-lookup : (k : Text) (m : List (Text × V)) → contains_key k m ≡ false → lookup k m ≡ none
  unfolding lookup
  missing-lookup k [] h = refl
  missing-lookup k (entry ∷ m) h = ground (arith, missing-lookup k m)

-- The use does not put a value under the key.
abbrev pub Leaves : Text → Use → Type 0
Leaves key (puts now written other value ttl) = (other == key) ≡ false
Leaves key _ = Unit

step-missing :
    (key : Text) (u : Use) (cache : MemoryAuthorizationCache)
    → Leaves key u
    → contains_key key cache.values ≡ false
    → contains_key key (step u cache).values ≡ false
unfolding step put_if_absent take store_scope load_scope
step-missing key (puts now written other value ttl) cache l h =
    let live = retain (live_value now) cache.values in
    let missing = retain-missing (live_value now) key cache.values h in
    elim (Bool-cases (contains_key other live)) [
      | inl present ↦ rw (present, step, put_if_absent) missing
      | inr absent ↦
          rw (absent, step, put_if_absent)
            (rw l
              (retain-missing (λ (x : Text × MemoryValue). not (x.0 == other)) key live missing))
    ]
step-missing key (takes now other) cache l h =
    let missing = retain-missing (live_value now) key cache.values h in
    retain-missing (λ (x : Text × MemoryValue). not (x.0 == other)) key
      (retain (live_value now) cache.values) missing
step-missing key (stores now written token context ttl) cache l h = h
step-missing key (loads now token) cache l h = h

run-missing :
    (key : Text) (uses : List Use) (cache : MemoryAuthorizationCache)
    → All (Leaves key) uses
    → contains_key key cache.values ≡ false
    → contains_key key (run uses cache).values ≡ false
unfolding run
run-missing key [] cache l h = h
run-missing key (u ∷ uses) cache (l, ls) h =
    run-missing key uses (step u cache) ls (step-missing key u cache l h)

-- A key that was taken is not taken again, whatever other uses follow, unless a value is put under it
-- again: of several requests that answer with one stored value, one at most gets it.
pub take_once :
    (key : Text) (now later : ℕ) (cache : MemoryAuthorizationCache) (uses : List Use)
    → All (Leaves key) uses
    → (take later key (run uses (take now key cache).1)).0 ≡ none
unfolding take
take_once key now later cache uses l =
    let after = (take now key cache).1 in
    let missing =
      run-missing key uses after l (remove-missing key (retain (live_value now) cache.values)) in
    let none_left =
      missing-lookup key (retain (live_value later) (run uses after).values)
        (retain-missing (live_value later) key (run uses after).values missing) in
    rw (none_left, take) refl

-- A value that was put is taken back while it is not expired; it is put only when no value of the key is
-- there, and then not put again until it expires.
pub put_if_absent-take :
    (now written later ttl : ℕ) (key : Text) (value other : List ℕ)
    (cache : MemoryAuthorizationCache)
    → (put_if_absent now written key value ttl cache).0 ≡ true
    → later < expires_at cache written ttl
    → let after = (put_if_absent now written key value ttl cache).1 in
      ((take later key after).0 ≡ some value)
      × ((put_if_absent later written key other ttl after).0 ≡ false)
unfolding put_if_absent take lookup
put_if_absent-take now written later ttl key value other cache is_put fresh =
    let live = retain (live_value now) cache.values in
    let alive : ltb later (expires_at cache written ttl) ≡ true = ground arith in
    elim (Bool-cases (contains_key key live)) [
      | inl present ↦ cc (rw (present, put_if_absent) at is_put)
      | inr absent ↦
          let written_value : MemoryValue = record {
            value = value;
            expires_at_epoch_seconds = expires_at cache written ttl;
          } in
          let e : (put_if_absent now written key value ttl cache).1
              ≡ with_values cache (put key written_value live) =
            rw (absent, put_if_absent) refl in
          subst
            (λ (c : MemoryAuthorizationCache).
              ((take later key c).0 ≡ some value)
              × ((put_if_absent later written key other ttl c).0 ≡ false))
            (sym e)
            (
              rw (alive, take, eq_refl key, lookup) refl,
              rw (alive, put_if_absent, eq_refl key) refl,
            )
    ]
