-- ===== src/Cache/Use.antt =====
-- Uses of the memory cache (src/common/src/cache/memory.rs), one after another: its locks make each of
-- them one step.
use authguard.Base.{ℕ, List, [], ◌∷◌, Text}
use authguard.Cache.Memory.{MemoryAuthorizationCache, put_if_absent, take, store_scope, load_scope}

-- The times that a use reads, and its arguments.
pub data Use : Type 0 where
  puts : ℕ → ℕ → Text → List ℕ → ℕ → Use
  takes : ℕ → Text → Use
  stores : ℕ → ℕ → Text → Text → ℕ → Use
  loads : ℕ → Text → Use

unfoldable pub step : Use → MemoryAuthorizationCache → MemoryAuthorizationCache
unfolding put_if_absent take store_scope load_scope
step (puts now written key value ttl) cache = (put_if_absent now written key value ttl cache).1
step (takes now key) cache = (take now key cache).1
step (stores now written token context ttl) cache = store_scope now written token context ttl cache
step (loads now token) cache = (load_scope now token cache).1

unfoldable pub run : List Use → MemoryAuthorizationCache → MemoryAuthorizationCache
unfolding step
run [] cache = cache
run (u ∷ uses) cache = run uses (step u cache)
