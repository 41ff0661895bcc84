-- ===== src/Cache/Examples.antt =====
-- Tests of the memory cache, and its theorems at small caches.
use authguard.Base.{
  ℕ, ◌<◌, ◌≤◌, ◌≡◌, refl, arith, max, true, false, none, some, List, [], ◌∷◌, codes, length, lookup,
  ◌==◌,
}
use authguard.Cache.Use.{Use, puts, stores, loads, run}
use authguard.Cache.Memory.{new_cache, put_if_absent, take, load_scope, expires_at}
use authguard.Cache.Capacity.{run-length}
use authguard.Cache.History.{history_of, load_scope_latest}
use authguard.Cache.Once.{take_once}

-- Ten seconds, in nanoseconds.
abbrev ten : ℕ
ten = 10000000000

-- Three scopes in a cache of two; the second one was used last.
abbrev busy : List Use
busy =
    stores 5 5 (codes "a") (codes "A") ten
    ∷ stores 6 6 (codes "b") (codes "B") ten
    ∷ loads 7 (codes "a")
    ∷ stores 8 8 (codes "c") (codes "C") ten
    ∷ []

keeps_recent : (load_scope 9 (codes "a") (run busy (new_cache 2 ten))).0 ≡ some (codes "A")
unfolding load_scope run new_cache lookup ◌==◌
keeps_recent = refl

drops_oldest : (load_scope 9 (codes "b") (run busy (new_cache 2 ten))).0 ≡ none
unfolding load_scope run new_cache lookup ◌==◌
drops_oldest = refl

expires : (load_scope 15 (codes "a") (run busy (new_cache 2 ten))).0 ≡ none
unfolding load_scope run new_cache lookup ◌==◌
expires = refl

run-length_example : length (run busy (new_cache 2 ten)).scopes.entries ≤ max 2 1
run-length_example = run-length 2 ten busy

load_scope_latest_example :
    (expiry : ℕ) × (lookup (codes "a") (history_of busy (new_cache 2 ten) [])
      ≡ some (record { context = codes "A"; expiry = expiry }))
    × (9 < expiry)
load_scope_latest_example = load_scope_latest 2 ten busy 9 (codes "a") (codes "A") keeps_recent

other_key : (codes "j" == codes "k") ≡ false
unfolding ◌==◌
other_key = refl

is_put : (put_if_absent 5 5 (codes "k") (2 ∷ []) ten (new_cache 2 ten)).0 ≡ true
unfolding put_if_absent new_cache ◌==◌
is_put = refl

not_expired : 14 < expires_at (new_cache 2 ten) 5 ten
unfolding expires_at new_cache
not_expired = omega arith

take_once_example :
    (take 7 (codes "k") (
      run
        (puts 6 6 (codes "j") (1 ∷ []) ten ∷ [])
        (take 6 (codes "k") (run (puts 5 5 (codes "k") (2 ∷ []) ten ∷ []) (new_cache 2 ten))).1)).0
    ≡ none
take_once_example =
    take_once (codes "k") 6 7 (run (puts 5 5 (codes "k") (2 ∷ []) ten ∷ []) (new_cache 2 ten))
      (puts 6 6 (codes "j") (1 ∷ []) ten ∷ []) (other_key, tt)
