-- ===== src/Cache/Kept.antt =====
-- Values of the memory cache (src/common/src/cache/memory.rs) that others do not touch.
use authguard.Base.{
  ℕ, ◌≤◌, ◌<◌, ◌≡◌, refl, sym, subst, ap, ◌∙◌, true, false, arith, inl, inr, List, [], ◌∷◌, Text,
  ◌==◌, eq_iff, eq_refl, retain, All, some, some_inj, ltb, lookup, remove, contains_key, Bool-cases,
}
use authguard.Cache.Use.{Use, puts, takes, stores, loads, step, run}
use authguard.Cache.Memory.{
  MemoryValue, MemoryAuthorizationCache, store_scope, load_scope, put_if_absent, take, expires_at,
  live_value,
}

-- The use is not later than `later`, and is of another key.
abbrev pub Spares : Text → ℕ → Use → Type 0
Spares key later (puts now written other value ttl) = (now ≤ later) × ((other == key) ≡ false)
Spares key later (takes now other) = (now ≤ later) × ((other == key) ≡ false)
Spares key later _ = Unit

-- The cache has the value under the key, and it does not expire before `later`.
pub record Holds (key : Text) (later : ℕ) (value : List ℕ) (cache : MemoryAuthorizationCache)
    : Type 0 where
  pub held : MemoryValue
  pub is_value : held.value ≡ value
  pub fresh : later < held.expires_at_epoch_seconds
  pub found : lookup key cache.values ≡ some held

lookup-retain :
    (now : ℕ) (key : Text) (m : List (Text × MemoryValue)) (held : MemoryValue)
    → now < held.expires_at_epoch_seconds
    → lookup key m ≡ some held
    → lookup key (retain (live_value now) m) ≡ some held
unfolding lookup
lookup-retain now key [] held fresh h = h
lookup-retain now key ((other, value) ∷ m) held fresh h = elim (Bool-cases (other == key)) [
  | inl same ↦
      let e : value ≡ held = some_inj (rw same at h) in
      let live : ltb now value.expires_at_epoch_seconds ≡ true =
        subst (λ (v : MemoryValue). ltb now v.expires_at_epoch_seconds ≡ true) (sym e)
          (ground arith) in
      rw (live, lookup, same) (ap some e)
  | inr differs ↦
      let later = lookup-retain now key m held fresh (rw differs at h) in
      elim (Bool-cases (ltb now value.expires_at_epoch_seconds)) [
        | inl live ↦ rw (live, lookup, differs) later
        | inr dead ↦ rw dead later
      ]
]

lookup-remove_other :
    (key other : Text) (m : List (Text × MemoryValue))
    → (other == key) ≡ false
    → lookup key (remove other m) ≡ lookup key m
unfolding lookup
lookup-remove_other key other [] differs = refl
lookup-remove_other key other ((k, value) ∷ m) differs =
    ground (arith, lookup-remove_other key other m, eq_iff k other, eq_iff k key, eq_iff other key)

pub step-Holds :
    (key : Text) (later : ℕ) (value : List ℕ) (u : Use) (cache : MemoryAuthorizationCache)
    → Spares key later u
    → Holds key later value cache
    → Holds key later value (step u cache)
unfolding step put_if_absent take store_scope load_scope lookup
step-Holds key later value (puts now written other put_value ttl) cache (early, differs) h =
    let live = retain (live_value now) cache.values in
    let kept = lookup-retain now key cache.values h.held (omega (arith, early, h.fresh)) h.found in
    elim (Bool-cases (contains_key other live)) [
      | inl present ↦
          rw (present, step, put_if_absent)
            (record { held = h.held; is_value = h.is_value; fresh = h.fresh; found = kept })
      | inr absent ↦
          rw (absent, step, put_if_absent)
            (record {
              held = h.held;
              is_value = h.is_value;
              fresh = h.fresh;
              found = rw differs (lookup-remove_other key other live differs ∙ kept);
            })
    ]
step-Holds key later value (takes now other) cache (early, differs) h =
    let live = retain (live_value now) cache.values in
    let kept = lookup-retain now key cache.values h.held (omega (arith, early, h.fresh)) h.found in
    record {
      held = h.held;
      is_value = h.is_value;
      fresh = h.fresh;
      found = lookup-remove_other key other live differs ∙ kept;
    }
step-Holds key later value (stores now written token context ttl) cache l h = record {
  held = h.held;
  is_value = h.is_value;
  fresh = h.fresh;
  found = h.found;
}
step-Holds key later value (loads now token) cache l h = record {
  held = h.held;
  is_value = h.is_value;
  fresh = h.fresh;
  found = h.found;
}

pub run-Holds :
    (key : Text) (later : ℕ) (value : List ℕ) (uses : List Use) (cache : MemoryAuthorizationCache)
    → All (Spares key later) uses
    → Holds key later value cache
    → Holds key later value (run uses cache)
unfolding run
run-Holds key later value [] cache l h = h
run-Holds key later value (u ∷ uses) cache (l, ls) h =
    run-Holds key later value uses (step u cache) ls (step-Holds key later value u cache l h)

pub put_if_absent-Holds :
    (now written later ttl : ℕ) (key : Text) (value : List ℕ) (cache : MemoryAuthorizationCache)
    → (put_if_absent now written key value ttl cache).0 ≡ true
    → later < expires_at cache written ttl
    → Holds key later value (put_if_absent now written key value ttl cache).1
unfolding put_if_absent lookup
put_if_absent-Holds now written later ttl key value cache is_put fresh =
    elim (Bool-cases (contains_key key (retain (live_value now) cache.values))) [
      | inl present ↦ cc (rw (present, put_if_absent) at is_put)
      | inr absent ↦
          rw (absent, put_if_absent)
            (record {
              held = record {
                value = value;
                expires_at_epoch_seconds = expires_at cache written ttl;
              };
              is_value = refl;
              fresh = fresh;
              found = rw (eq_refl key) refl;
            })
    ]

pub take-Holds :
    (key : Text) (later : ℕ) (value : List ℕ) (cache : MemoryAuthorizationCache)
    → Holds key later value cache
    → (take later key cache).0 ≡ some value
unfolding take
take-Holds key later value cache h =
    rw (lookup-retain later key cache.values h.held h.fresh h.found, take) (ap some h.is_value)
