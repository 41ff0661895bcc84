-- ===== src/Delivery/CacheLaws.antt =====
-- The cache in memory (src/common/src/cache/memory.rs) behind the delivery of scopes.
use authguard.Base.{
  ℕ, ◌<◌, ◌≡◌, refl, sym, ap, ◌∙◌, arith, true, some, List, Text, eq_refl, lookup, put, retain, ok,
}
use authguard.Cache.Memory
use authguard.Cache.Memory.{
  MemoryAuthorizationCache, MemoryScope, live_scope, expires_at, make_room, saturating_add,
}
use authguard.Delivery.Check.{ScopeCache}
use authguard.Delivery.ScopeTokens.{KeepsScopes}

-- The cache at a time, which both of its clocks give.
abbrev pub memory_scopes : ℕ → ScopeCache MemoryAuthorizationCache
memory_scopes now = record {
  store_scope =
      λ text context ttl state. (ok tt, Memory.store_scope now now text context ttl state);
  load_scope =
      λ text state. let (answer, after) = Memory.load_scope now text state in (ok answer, after);
}

lookup-retain-put :
    (now : ℕ) (token : Text) (scope : MemoryScope) (entries : List (Text × MemoryScope))
    → live_scope now (token, scope) ≡ true
    → lookup token (retain (live_scope now) (put token scope entries)) ≡ some scope
unfolding lookup
lookup-retain-put now token scope entries live = rw (live, eq_refl token) refl

load-store :
    (now later ttl : ℕ) (token context : Text) (cache : MemoryAuthorizationCache)
    → later < expires_at cache now ttl
    → (Memory.load_scope later token (Memory.store_scope now now token context ttl cache)).0
      ≡ some context
unfolding Memory.load_scope Memory.store_scope
load-store now later ttl token context cache fresh =
    let entry : MemoryScope = record {
      encoded_context = context;
      expires_at_epoch_seconds = expires_at cache now ttl;
      last_access_sequence = saturating_add cache.scopes.next_access_sequence 1;
    } in
    let kept =
      lookup-retain-put later token entry
        (make_room cache.max_capacity token (retain (live_scope now) cache.scopes.entries))
        (ground arith) in
    rw (kept, Memory.store_scope, Memory.load_scope) refl

-- What is stored is loaded before the earlier of the two expiries, however full the cache was.
pub memory-KeepsScopes :
    (now later ttl : ℕ) (state : MemoryAuthorizationCache)
    → later < expires_at state now ttl
    → KeepsScopes (memory_scopes now) (memory_scopes later) ttl state
memory-KeepsScopes now later ttl state fresh = record {
  kept = λ text context after e. (
    (Memory.load_scope later text after).1,
    λ i. (
      ok (
          (ap (λ c. (Memory.load_scope later text c).0) (sym (ap (λ p. p.1) e))
              ∙ load-store now later ttl text context state fresh)
            i),
      (Memory.load_scope later text after).1,
    ),
  );
}
