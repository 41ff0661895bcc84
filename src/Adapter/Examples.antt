-- ===== src/Adapter/Examples.antt =====
-- A service behind the gateway, by the header and by the token.
use authguard.Base.{◌≡◌, refl, sym, subst, none, some, Option, Text, codes, ◌==◌, ok, if◌then◌else◌}
use authguard.Access.Examples.{
  toy, toy-IsUrlSafe, signer, minute, minute-IsCurrent, serde, reads, writes, signs,
}
use authguard.Access.Lifetime.{IsCurrent, ReadsBack}
use authguard.Delivery.Check.{token, new_scope_token, resolve_scope}
use authguard.Delivery.Response.{access_context_header, scope_token_header}
use authguard.Delivery.Examples.{
  memory-keeps_minute, cache_before, cache_after, settings, many, drawn-IsTokenText, made_minute,
  delivers, later-IsCurrent,
}
use authguard.Delivery.CacheLaws.{memory_scopes}
use authguard.Adapter.Access.{header_resolve, grpc_resolve, client_resolve_scope}
use authguard.Adapter.AccessLaws.{
  seen_from, header_resolve-sign_encoded, grpc_resolve-token_delivery,
}

abbrev headers : Text → Option Text
headers name = if name == access_context_header then some (codes "agctx1.ab.801") else none

sent : headers access_context_header ≡ some (codes "agctx1.ab.801")
unfolding ◌==◌
sent = refl

header_resolve-sign_encoded_example :
    header_resolve toy serde 80 signer headers ≡ ok (some (seen_from minute))
header_resolve-sign_encoded_example =
    header_resolve-sign_encoded toy serde signer minute (codes "ab") (codes "agctx1.ab.801") 80
      headers toy-IsUrlSafe reads writes signs refl minute-IsCurrent sent

abbrev token_headers : Text → Option Text
token_headers name =
    if name == scope_token_header then some (new_scope_token toy (many 43)) else none

sent_token : token_headers scope_token_header ≡ some (new_scope_token toy (many 43))
unfolding ◌==◌
sent_token = refl

grpc_resolve-token_delivery_example :
    grpc_resolve toy serde 110
      (λ shown.
        client_resolve_scope
          (λ status. codes "refused")
          (resolve_scope toy serde (memory_scopes 110) 110 shown cache_after).0)
      token_headers
    ≡ ok (some (seen_from minute))
grpc_resolve-token_delivery_example =
    grpc_resolve-token_delivery toy serde (memory_scopes 100) (memory_scopes 110)
      (λ status. codes "refused") settings minute 100 110 (many 43) cache_before cache_after
      (token (new_scope_token toy (many 43))) token_headers toy-IsUrlSafe memory-keeps_minute
      drawn-IsTokenText (subst (ReadsBack toy serde) (sym made_minute) reads)
      (subst (λ c. IsCurrent c 110) (sym made_minute) later-IsCurrent) delivers sent_token
