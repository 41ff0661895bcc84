-- ===== src/Delivery/Examples.antt =====
-- Tests of the delivery, and its theorems at small settings.
use authguard.Access.Examples.{toy, minute, serde}
use authguard.Base.{
  ℕ, zero, suc, ◌≤◌, ◌<◌, ◌≡◌, refl, arith, false, none, some, Option, List, [], ◌∷◌, Text, codes,
  any, All, len, lookup, ◌==◌, ok, eq_ignore_ascii_case,
}
use authguard.Model.{user}
use authguard.Access.Signer.{Bytes}
use authguard.Access.Context.{new_context, encode}
use authguard.Access.Lifetime.{IsCurrent}
use authguard.Delivery.Check.{
  direct, token, ScopeCache, ScopeDeliveryProperties, new_scope_token, input_of, token_delivery,
}
use authguard.Delivery.Response.{allowed_http_response, access_context_header, scope_token_header}
use authguard.Delivery.ResponseLaws.{removes, Guarded, guarded_headers, never_both, All-Guarded}
use authguard.Identity.Claims.{AuthenticatedPrincipalContext}
use authguard.Delivery.Resign.{Claims, resign_token}
use authguard.Delivery.ResignLaws.{NamesPrincipal, resign_token_bounds}
use authguard.Cache.Memory
use authguard.Cache.Memory.{
  MemoryAuthorizationCache, new_cache, expires_at, saturating_add, as_secs,
}
use authguard.Delivery.ScopeTokens.{KeepsScopes, IsTokenText}
use authguard.Delivery.CacheLaws.{memory_scopes, memory-KeepsScopes}

other_context : eq_ignore_ascii_case (codes "X-Id-Token") access_context_header ≡ false
unfolding ◌==◌
other_context = refl

other_token : eq_ignore_ascii_case (codes "X-Id-Token") scope_token_header ≡ false
unfolding ◌==◌
other_token = refl

never_both_example :
    let response =
      allowed_http_response (codes "X-Id-Token") (direct (codes "c")) (some (codes "t")) in
    any (λ header. removes response header.key) response.headers ≡ false
never_both_example =
    never_both (codes "X-Id-Token") (direct (codes "c")) (some (codes "t")) other_context
      other_token

All-Guarded_example :
    All
      (Guarded (allowed_http_response (codes "Authorization") (token (codes "t")) none))
      (guarded_headers (codes "Authorization"))
All-Guarded_example = All-Guarded (codes "Authorization") (token (codes "t")) none

abbrev somebody : AuthenticatedPrincipalContext
somebody = record {
  principal_id = codes "p";
  kind = user;
  stable_group_ids = [];
  trusted_claims = (codes "iss", codes "me") ∷ [];
  acr = none;
  amr = [];
}

abbrev pub signs_all : Claims → Option Text
signs_all claims = some (codes "signed")

-- The source token has 20 seconds left, and a new one may have 60.
resigns :
    resign_token signs_all (some 60000000000) somebody (codes "p") (some 120) 100
    ≡ ok (some (codes "signed"))
unfolding resign_token
resigns = refl

resign_token_bounds_example :
    (expires : ℕ) × (claims : Claims) × (expiry : ℕ) × ◌≡◌ {A = Option ℕ} (some 120) (some expires)
    × (100 < expires)
    × (signs_all claims ≡ some (codes "signed"))
    × NamesPrincipal claims (codes "p") expiry
    × (expiry ≤ expires)
resign_token_bounds_example =
    resign_token_bounds signs_all 60000000000 somebody (codes "p") (some 120) 100 (codes "signed")
      resigns

pub later-IsCurrent : IsCurrent minute 110
later-IsCurrent = record {
  version = refl;
  lifetime = omega arith;
  issued = omega arith;
  live = omega arith;
}

-- A cache that is a list.
abbrev pub list_cache : ScopeCache (List (Text × Text))
list_cache = record {
  store_scope = λ text context ttl state. (ok tt, (text, context) ∷ state);
  load_scope = λ text state. (ok (lookup text state), state);
}

abbrev pub settings : ScopeDeliveryProperties
settings = record {
  direct_urn_limit = 0;
  max_direct_header_bytes = 0;
  direct_context_hmac_key = [];
  context_ttl = 60000000000;
  scope_token_ttl = 60000000000;
}

abbrev pub many : ℕ → Bytes
many zero = []
many (suc n) = 50 ∷ many n

pub drawn-IsTokenText : IsTokenText toy (many 43)
unfolding len
drawn-IsTokenText = record { length_of = refl; alphabet = refl }

pub made_minute :
    new_context (input_of toy serde (memory_scopes 100) minute) 100 60000000000 ≡ minute
unfolding new_context
made_minute = refl

abbrev pub cache_before : MemoryAuthorizationCache
cache_before = new_cache 16 300000000000

abbrev pub cache_after : MemoryAuthorizationCache
cache_after =
    Memory.store_scope 100 100 (new_scope_token toy (many 43)) (codes "ab") 60000000000 cache_before

pub memory-keeps_minute :
    KeepsScopes (memory_scopes 100) (memory_scopes 110) 60000000000 cache_before
unfolding expires_at saturating_add as_secs new_cache
memory-keeps_minute = memory-KeepsScopes 100 110 60000000000 cache_before (omega arith)

pub delivers :
    token_delivery toy serde (memory_scopes 100) settings minute 100 (many 43) cache_before
    ≡ (ok (token (new_scope_token toy (many 43))), cache_after)
unfolding token_delivery encode
delivers = refl
