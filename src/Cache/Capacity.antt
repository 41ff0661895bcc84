-- ===== src/Cache/Capacity.antt =====
-- The bound on the entries of the memory cache (src/common/src/cache/memory.rs).
use authguard.Base.{
  ℕ, ◌≤◌, ◌<◌, ◌≡◌, refl, true, not, arith, ◌⊎◌, inl, inr, List, [], ◌∷◌, Text, ◌==◌, eq_iff,
  length, retain, length-retain-le, max, some, leb, lookup, remove, contains_key, Bool-cases,
  Option-cases,
}
use authguard.Cache.Use.{Use, puts, takes, stores, loads, run, step}
use authguard.Cache.Memory.{
  MemoryScope, MemoryAuthorizationCache, live_scope, least_recently_used, make_room, store_scope,
  load_scope, touch, new_cache, put_if_absent, take, saturating_add, live_value,
}

module _ {V : Type 0} where
  pub length-remove :
      (k : Text) (m : List (Text × V)) → contains_key k m ≡ true → length (remove k m) < length m
  length-remove k [] h = cc
  length-remove k ((j, v) ∷ m) h = elim (Bool-cases (j == k)) [
    | inl same ↦ ground (arith, length-retain-le (λ (entry : Text × V). not (entry.0 == k)) m)
    | inr other ↦ ground (arith, length-remove k m (ground arith))
  ]

  contains_key-lookup :
      (k : Text) (v : V) (m : List (Text × V)) → lookup k m ≡ some v → contains_key k m ≡ true
  unfolding lookup
  contains_key-lookup k v [] h = cc
  contains_key-lookup k v ((j, w) ∷ m) h = ground (arith, contains_key-lookup k v m)

-- The entry that is given up is one of the cache.
pub least_recently_used-cases :
    (entries : List (Text × MemoryScope))
    → (entries ≡ [])
      ⊎ ((least : Text × MemoryScope) × (least_recently_used entries ≡ some least)
          × (contains_key least.0 entries ≡ true))
unfolding least_recently_used
least_recently_used-cases [] = inl refl
least_recently_used-cases (entry ∷ entries) = inr (elim (least_recently_used-cases entries) [
  | inl empty ↦
      (entry, (rw (empty, least_recently_used) refl), ground (arith, eq_iff entry.0 entry.0))
  | inr (other, e, listed) ↦
      elim (Bool-cases (leb entry.1.last_access_sequence other.1.last_access_sequence)) [
        | inl older ↦ (entry, rw (e, older) refl, ground (arith, eq_iff entry.0 entry.0))
        | inr newer ↦ (other, rw (e, newer) refl, ground (arith))
      ]
])

make_room-length :
    (max_capacity : ℕ) (token : Text) (entries : List (Text × MemoryScope))
    → length entries ≤ max max_capacity 1
    → length (remove token (make_room max_capacity token entries)) < max max_capacity 1
unfolding make_room
make_room-length max_capacity token entries h =
    let shorter = length-retain-le (λ (entry : Text × MemoryScope). not (entry.0 == token)) in
    elim (Bool-cases (contains_key token entries)) [
      | inl known ↦ rw known (omega (arith, h, length-remove token entries known))
      | inr new ↦ elim (Bool-cases (leb max_capacity (length entries))) [
        | inr room ↦ rw (new, room) (ground (arith, shorter entries))
        | inl full ↦ elim (least_recently_used-cases entries) [
          | inl empty ↦ rw empty (ground arith)
          | inr (least, e, listed) ↦
              rw (new, full, e)
                (omega (
                  arith,
                  h,
                  length-remove least.0 entries listed,
                  shorter (remove least.0 entries),
                ))
        ]
      ]
    ]

store_scope-length :
    (now written : ℕ) (token encoded_context : Text) (ttl : ℕ) (cache : MemoryAuthorizationCache)
    → length cache.scopes.entries ≤ max cache.max_capacity 1
    → length (store_scope now written token encoded_context ttl cache).scopes.entries
      ≤ max cache.max_capacity 1
unfolding store_scope
store_scope-length now written token encoded_context ttl cache h =
    let live = retain (live_scope now) cache.scopes.entries in
    omega (
      arith,
      make_room-length cache.max_capacity token live
          (omega (arith, h, length-retain-le (live_scope now) cache.scopes.entries)),
    )

touch-length :
    (sequence : ℕ) (token : Text) (entries : List (Text × MemoryScope))
    → length (touch sequence token entries (lookup token entries)).1 ≤ length entries
touch-length sequence token entries = elim (Option-cases (lookup token entries)) [
  | inl missing ↦ rw missing (omega arith)
  | inr (scope, found) ↦
      rw found
        (omega (arith, length-remove token entries (contains_key-lookup token scope entries found)))
]

step-length :
    (u : Use) (cache : MemoryAuthorizationCache)
    → length cache.scopes.entries ≤ max cache.max_capacity 1
    → (length (step u cache).scopes.entries ≤ max (step u cache).max_capacity 1)
      × ((step u cache).max_capacity ≡ cache.max_capacity)
unfolding step put_if_absent take store_scope load_scope
step-length (puts now written key value ttl) cache h =
    elim (Bool-cases (contains_key key (retain (live_value now) cache.values))) [
      | inl present ↦ rw (present, step, put_if_absent) (h, refl)
      | inr absent ↦ rw (absent, step, put_if_absent) (h, refl)
    ]
step-length (takes now key) cache h = (h, refl)
step-length (stores now written token context ttl) cache h =
    (store_scope-length now written token context ttl cache h, refl)
step-length (loads now token) cache h = (
  omega (
    arith,
    h,
    length-retain-le (live_scope now) cache.scopes.entries,
    touch-length (saturating_add cache.scopes.next_access_sequence 1) token
        (retain (live_scope now) cache.scopes.entries),
  ),
  refl,
)

run-length-from :
    (uses : List Use) (cache : MemoryAuthorizationCache)
    → length cache.scopes.entries ≤ max cache.max_capacity 1
    → length (run uses cache).scopes.entries ≤ max cache.max_capacity 1
unfolding run
run-length-from [] cache h = h
run-length-from (u ∷ uses) cache h =
    let (small, same) = step-length u cache h in
    omega (arith, same, run-length-from uses (step u cache) small)

-- Whatever uses of a new cache follow each other, it holds at most `max_capacity` scopes, and at most
-- one when the capacity is 0.
pub run-length :
    (max_capacity ttl : ℕ) (uses : List Use)
    → length (run uses (new_cache max_capacity ttl)).scopes.entries ≤ max max_capacity 1
unfolding new_cache
run-length max_capacity ttl uses = run-length-from uses (new_cache max_capacity ttl) (omega arith)
