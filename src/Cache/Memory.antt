-- ===== src/Cache/Memory.antt =====
-- `MemoryAuthorizationCache` of src/common/src/cache/memory.rs. Times are seconds since the epoch, as
-- `epoch_seconds` gives them: `now` is what an operation reads first, and `written` what it reads when it
-- computes an expiry. A `Duration` is counted in nanoseconds.
use authguard.Base.{
  ℕ, ◌+◌, ◌/◌, ◌^◌, ◌-◌, min, max, Bool, true, false, not, ◌&&◌, Option, none, some, List, [], ◌∷◌,
  Text, ltb, leb, length, retain, lookup, remove, put, contains_key, if◌then◌else◌,
}

pub record MemoryScope : Type 0 where
  pub encoded_context : Text
  pub expires_at_epoch_seconds : ℕ
  pub last_access_sequence : ℕ

pub record MemoryScopes : Type 0 where
  pub entries : List (Text × MemoryScope)
  pub next_access_sequence : ℕ

-- The bytes of a value are numbers.
pub record MemoryValue : Type 0 where
  pub value : List ℕ
  pub expires_at_epoch_seconds : ℕ

pub record MemoryAuthorizationCache : Type 0 where
  pub scopes : MemoryScopes
  pub values : List (Text × MemoryValue)
  pub max_capacity : ℕ
  pub default_ttl : ℕ

-- `MemoryAuthorizationCache::new`
unfoldable pub new_cache : ℕ → ℕ → MemoryAuthorizationCache
new_cache max_capacity ttl = record {
  scopes = record { entries = []; next_access_sequence = 0 };
  values = [];
  max_capacity = max_capacity;
  default_ttl = ttl;
}

-- The greatest u64, and `u64::saturating_add`
abbrev pub u64_max : ℕ
u64_max = 2 ^ 64 - 1

unfoldable pub saturating_add : ℕ → ℕ → ℕ
saturating_add a b = min (a + b) u64_max

-- `Duration::as_secs`
unfoldable pub as_secs : ℕ → ℕ
as_secs duration = duration / 1000000000

unfoldable pub expires_at : MemoryAuthorizationCache → ℕ → ℕ → ℕ
unfolding saturating_add as_secs
expires_at cache written ttl = saturating_add written (max (as_secs (min ttl cache.default_ttl)) 1)

abbrev pub live_value : ℕ → Text × MemoryValue → Bool
live_value now entry = ltb now entry.1.expires_at_epoch_seconds

abbrev pub live_scope : ℕ → Text × MemoryScope → Bool
live_scope now entry = ltb now entry.1.expires_at_epoch_seconds

abbrev pub with_values :
    MemoryAuthorizationCache → List (Text × MemoryValue) → MemoryAuthorizationCache
with_values cache values = record cache { values = values }

abbrev pub with_scopes :
    MemoryAuthorizationCache → List (Text × MemoryScope) → ℕ → MemoryAuthorizationCache
with_scopes cache entries sequence = record cache {
  scopes = record { entries = entries; next_access_sequence = sequence };
}

unfoldable pub put_if_absent :
    ℕ → ℕ → Text → List ℕ → ℕ → MemoryAuthorizationCache → Bool × MemoryAuthorizationCache
unfolding expires_at
put_if_absent now written key value ttl cache =
    let values = retain (live_value now) cache.values in
    if contains_key key values then (false, with_values cache values) else (
      true,
      with_values cache (
          put key
            (record { value = value; expires_at_epoch_seconds = expires_at cache written ttl })
            values),
    )

unfoldable pub take :
    ℕ → Text → MemoryAuthorizationCache → Option (List ℕ) × MemoryAuthorizationCache
unfolding lookup
take now key cache =
    let values = retain (live_value now) cache.values in
    (
      elim (lookup key values) [ none ↦ none | some found ↦ some found.value ],
      with_values cache (remove key values),
    )

-- `iter().min_by_key(…)`: of equal keys the first. The order of the map is not specified; the access
-- sequences of two entries differ until the counter saturates.
unfoldable pub least_recently_used : List (Text × MemoryScope) → Option (Text × MemoryScope)
least_recently_used [] = none
least_recently_used (entry ∷ entries) = elim (least_recently_used entries) [
  | none ↦ some entry
  | some other ↦
      if leb entry.1.last_access_sequence other.1.last_access_sequence
      then some entry
      else some other
]

-- One entry is given up when the scope is new and the cache is full.
unfoldable pub make_room : ℕ → Text → List (Text × MemoryScope) → List (Text × MemoryScope)
unfolding least_recently_used
make_room max_capacity token entries =
    if not (contains_key token entries) && leb max_capacity (length entries)
    then (elim (least_recently_used entries) [
      | none ↦ entries
      | some least ↦ remove least.0 entries
    ])
    else entries

unfoldable pub store_scope :
    ℕ → ℕ → Text → Text → ℕ → MemoryAuthorizationCache → MemoryAuthorizationCache
unfolding make_room expires_at saturating_add
store_scope now written token encoded_context ttl cache =
    let live = retain (live_scope now) cache.scopes.entries in
    let entries = make_room cache.max_capacity token live in
    let sequence = saturating_add cache.scopes.next_access_sequence 1 in
    with_scopes cache
      (put token
        (record {
          encoded_context = encoded_context;
          expires_at_epoch_seconds = expires_at cache written ttl;
          last_access_sequence = sequence;
        })
        entries)
      sequence

-- `get_mut(token).map(…)`, the new entries beside what is answered
abbrev pub touch :
    ℕ
    → Text
    → List (Text × MemoryScope)
    → Option MemoryScope
    → Option Text × List (Text × MemoryScope)
touch sequence token entries none = (none, entries)
touch sequence token entries (some scope) = (
  some scope.encoded_context,
  put token (record scope { last_access_sequence = sequence }) entries,
)

unfoldable pub load_scope :
    ℕ → Text → MemoryAuthorizationCache → Option Text × MemoryAuthorizationCache
unfolding lookup saturating_add
load_scope now token cache =
    let live = retain (live_scope now) cache.scopes.entries in
    let sequence = saturating_add cache.scopes.next_access_sequence 1 in
    let (answer, entries) = touch sequence token live (lookup token live) in
    (answer, with_scopes cache entries sequence)
