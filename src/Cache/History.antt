-- ===== src/Cache/History.antt =====
-- What the memory cache (src/common/src/cache/memory.rs) promises: it may forget a scope, and never
-- makes one up.
use authguard.Base.{
  some_inj, ℕ, ◌<◌, ◌≡◌, refl, subst, false, not, arith, inl, inr, Bool, List, [], ◌∷◌, Text, ◌==◌,
  eq_iff, eq_refl, retain, All, some, leb, lookup, remove, contains_key, length, ◌&&◌, Bool-cases,
  Option-cases,
}
use authguard.Cache.Use.{Use, puts, takes, stores, loads, step, run}
use authguard.Cache.Memory.{
  MemoryScope, MemoryAuthorizationCache, live_scope, least_recently_used, make_room, store_scope,
  load_scope, touch, put_if_absent, take, expires_at, saturating_add, new_cache, live_value,
}

-- What was stored under a token, the last first: the context and the expiry.
pub record Stored : Type 0 where
  pub context : Text
  pub expiry : ℕ

abbrev pub History : Type 0
History = List (Text × Stored)

abbrev pub recorded : Use → MemoryAuthorizationCache → History → History
recorded (stores now written token context ttl) cache history =
    (token, record { context = context; expiry = expires_at cache written ttl }) ∷ history
recorded _ cache history = history

-- The history of a run.
abbrev pub history_of : List Use → MemoryAuthorizationCache → History → History
history_of [] cache history = history
history_of (u ∷ uses) cache history = history_of uses (step u cache) (recorded u cache history)

-- The entry is what was last stored under its token.
abbrev pub IsLatest : History → Text × MemoryScope → Type 0
IsLatest history entry =
    lookup entry.0 history
    ≡ some (record { context = entry.1.encoded_context; expiry = entry.1.expires_at_epoch_seconds })

module _ {ℓ κ} {A : Type ℓ} (P : A → Type κ) where
  All-retain : (p : A → Bool) (xs : List A) → All P xs → All P (retain p xs)
  All-retain p [] h = tt
  All-retain p (x ∷ xs) (h, hs) = elim (Bool-cases (p x)) [
    | inl keep ↦ rw keep (h, All-retain p xs hs)
    | inr skip ↦ rw skip (All-retain p xs hs)
  ]

All-lookup :
    {V : Type 0} (P : Text × V → Type 0) (k : Text) (m : List (Text × V)) (v : V)
    → All P m
    → lookup k m ≡ some v
    → P (k, v)
unfolding lookup
All-lookup P k [] v h e = cc
All-lookup P k ((j, w) ∷ m) v (h, hs) e = elim (Bool-cases (j == k)) [
  | inl same ↦ subst P (λ i. ((eq_iff j k).0 same i, some_inj (rw same at e) i)) h
  | inr other ↦ All-lookup P k m v hs (rw other at e)
]

-- Another token's entry is the latest still.
All-put :
    (token : Text) (stored : Stored) (history : History) (entries : List (Text × MemoryScope))
    → All (IsLatest history) entries
    → All (IsLatest ((token, stored) ∷ history)) (remove token entries)
unfolding lookup
All-put token stored history [] h = tt
All-put token stored history (entry ∷ entries) (h, hs) = elim (Bool-cases (entry.0 == token)) [
  | inl same ↦ rw same (All-put token stored history entries hs)
  | inr other ↦
      let apart : (token == entry.0) ≡ false =
        ground (arith, eq_iff token entry.0, eq_iff entry.0 token) in
      rw other (rw apart h, All-put token stored history entries hs)
]

make_room-IsLatest :
    (history : History) (max_capacity : ℕ) (token : Text) (entries : List (Text × MemoryScope))
    → All (IsLatest history) entries
    → All (IsLatest history) (make_room max_capacity token entries)
unfolding make_room
make_room-IsLatest history max_capacity token entries h =
    elim (Bool-cases (not (contains_key token entries) && leb max_capacity (length entries))) [
      | inr room ↦ rw room h
      | inl full ↦ elim (Option-cases (least_recently_used entries)) [
        | inl nothing ↦ rw (full, nothing) h
        | inr (least, e) ↦
            rw (full, e)
              (All-retain (IsLatest history) (λ (x : Text × MemoryScope). not (x.0 == least.0))
                entries h)
      ]
    ]

touch-IsLatest :
    (history : History) (sequence : ℕ) (token : Text) (entries : List (Text × MemoryScope))
    → All (IsLatest history) entries
    → All (IsLatest history) (touch sequence token entries (lookup token entries)).1
touch-IsLatest history sequence token entries h = elim (Option-cases (lookup token entries)) [
  | inl missing ↦ rw missing h
  | inr (scope, found) ↦ rw found (
    All-lookup (IsLatest history) token entries scope h found,
    All-retain (IsLatest history) (λ (x : Text × MemoryScope). not (x.0 == token)) entries h,
  )
]

step-IsLatest :
    (u : Use) (cache : MemoryAuthorizationCache) (history : History)
    → All (IsLatest history) cache.scopes.entries
    → All (IsLatest (recorded u cache history)) (step u cache).scopes.entries
unfolding step put_if_absent take store_scope load_scope lookup
step-IsLatest (puts now written key value ttl) cache history h =
    elim (Bool-cases (contains_key key (retain (live_value now) cache.values))) [
      | inl present ↦ rw (present, step, put_if_absent) h
      | inr absent ↦ rw (absent, step, put_if_absent) h
    ]
step-IsLatest (takes now key) cache history h = h
step-IsLatest (stores now written token context ttl) cache history h =
    let live = retain (live_scope now) cache.scopes.entries in
    let kept =
      make_room-IsLatest history cache.max_capacity token live
        (All-retain (IsLatest history) (live_scope now) cache.scopes.entries h) in
    (
      rw (eq_refl token) refl,
      All-put token _ history (make_room cache.max_capacity token live) kept,
    )
step-IsLatest (loads now token) cache history h =
    touch-IsLatest history (saturating_add cache.scopes.next_access_sequence 1) token
      (retain (live_scope now) cache.scopes.entries)
      (All-retain (IsLatest history) (live_scope now) cache.scopes.entries h)

run-IsLatest :
    (uses : List Use) (cache : MemoryAuthorizationCache) (history : History)
    → All (IsLatest history) cache.scopes.entries
    → All (IsLatest (history_of uses cache history)) (run uses cache).scopes.entries
unfolding run
run-IsLatest [] cache history h = h
run-IsLatest (u ∷ uses) cache history h =
    run-IsLatest uses (step u cache) (recorded u cache history) (step-IsLatest u cache history h)

lookup-retain :
    (now : ℕ) (token : Text) (entries : List (Text × MemoryScope)) (scope : MemoryScope)
    → lookup token (retain (live_scope now) entries) ≡ some scope
    → now < scope.expires_at_epoch_seconds
unfolding lookup
lookup-retain now token [] scope e = cc
lookup-retain now token (entry ∷ entries) scope e = elim (Bool-cases (live_scope now entry)) [
  | inr dead ↦ lookup-retain now token entries scope (rw dead at e)
  | inl live ↦ elim (Bool-cases (entry.0 == token)) [
    | inl same ↦
        subst (λ (s : MemoryScope). now < s.expires_at_epoch_seconds)
          (some_inj (rw same at (rw (live, lookup) at e))) (ground arith)
    | inr other ↦ lookup-retain now token entries scope (rw other at (rw (live, lookup) at e))
  ]
]

-- Whatever uses of a new cache follow each other, a context that it then gives for a token is the one
-- last stored under this token, and its expiry is later than the time of the request.
pub load_scope_latest :
    (max_capacity ttl : ℕ) (uses : List Use) (now : ℕ) (token context : Text)
    → (load_scope now token (run uses (new_cache max_capacity ttl))).0 ≡ some context
    → (expiry : ℕ) × (lookup token (history_of uses (new_cache max_capacity ttl) [])
        ≡ some (record { context = context; expiry = expiry }))
      × (now < expiry)
unfolding load_scope new_cache
load_scope_latest max_capacity ttl uses now token context e =
    let cache = run uses (new_cache max_capacity ttl) in
    let history = history_of uses (new_cache max_capacity ttl) [] in
    let live = retain (live_scope now) cache.scopes.entries in
    elim (Option-cases (lookup token live)) [
      | inl missing ↦ cc (rw (missing, load_scope) at e)
      | inr (scope, found) ↦
          let latest =
            All-lookup (IsLatest history) token live scope
              (All-retain (IsLatest history) (live_scope now) cache.scopes.entries
                (run-IsLatest uses (new_cache max_capacity ttl) [] tt))
              found in
          (
            scope.expires_at_epoch_seconds,
            subst
                (λ c.
                  lookup token history
                  ≡ some (record { context = c; expiry = scope.expires_at_epoch_seconds }))
                (some_inj (rw (found, load_scope) at e)) latest,
            lookup-retain now token cache.scopes.entries scope found,
          )
    ]
