-- ===== src/Delivery/ResponseLaws.antt =====
-- The headers of an allowed request (`allowed_http_response` of src/authz/src/handler/authorization.rs).
use authguard.Base.{
  ◌≡◌, refl, ◌∙◌, arith, inl, inr, Bool, true, false, not, ◌||◌, ◌&&◌, Option, none, some, List, [],
  ◌∷◌, ◌++◌, Text, codes, ◌==◌, eq_comm, eq_refl, to_ascii_lowercase, any, All,
  eq_ignore_ascii_case, Bool-cases,
}
use authguard.Delivery.Check.{AccessDelivery, direct, token}
use authguard.Delivery.Response.{
  OkHttpResponse, access_context_header, scope_token_header, authorization_header,
  legacy_access_headers, untrusted_identity_headers, when, alternate_header, delivery_header,
  bearer, allowed_http_response, HeaderAppendAction, append_if_exists_or_add, add_if_absent,
  overwrite_if_exists_or_add, overwrite_if_exists, HeaderValueOption,
}

abbrev pub removes : OkHttpResponse → Text → Bool
removes response name = any (eq_ignore_ascii_case name) response.headers_to_remove

-- The action leaves the value that is added as the only one, whether there is one before or not.
abbrev pub replaces : HeaderAppendAction → Bool
replaces overwrite_if_exists_or_add = true
replaces overwrite_if_exists = false
replaces append_if_exists_or_add = false
replaces add_if_absent = false

abbrev pub sets : OkHttpResponse → Text → Bool
sets response name =
    any (λ header. replaces header.append_action && eq_ignore_ascii_case name header.key)
      response.headers

eq_sym : (s t : Text) → eq_ignore_ascii_case s t ≡ eq_ignore_ascii_case t s
eq_sym s t = eq_comm (to_ascii_lowercase s) (to_ascii_lowercase t)

-- No header is both set and removed, as long as the configured token header is none of the two headers
-- that carry the delivery.
pub never_both :
    (token_header : Text) (delivery : AccessDelivery) (resign_token : Option Text)
    → eq_ignore_ascii_case token_header access_context_header ≡ false
    → eq_ignore_ascii_case token_header scope_token_header ≡ false
    → let response = allowed_http_response token_header delivery resign_token in
      any (λ header. removes response header.key) response.headers ≡ false
unfolding allowed_http_response ◌==◌
never_both token_header (direct encoded) none a b =
    rw (eq_sym access_context_header token_header ∙ a) refl
never_both token_header (direct encoded) (some t) a b =
    elim (Bool-cases (eq_ignore_ascii_case token_header authorization_header)) [
      | inl same ↦ rw same refl
      | inr other ↦
          rw
            (
              other,
              eq_sym access_context_header token_header ∙ a,
              eq_sym authorization_header token_header ∙ other,
            )
            refl
    ]
never_both token_header (token text) none a b = rw (eq_sym scope_token_header token_header ∙ b) refl
never_both token_header (token text) (some t) a b =
    elim (Bool-cases (eq_ignore_ascii_case token_header authorization_header)) [
      | inl same ↦ rw same refl
      | inr other ↦
          rw
            (
              other,
              eq_sym scope_token_header token_header ∙ b,
              eq_sym authorization_header token_header ∙ other,
            )
            refl
    ]

-- The headers that a client must not set for the service: the credential, the older access headers, the
-- identity headers, the configured token header, and the two delivery headers.
abbrev pub guarded_headers : Text → List Text
guarded_headers token_header =
    authorization_header
    ∷ access_context_header
    ∷ scope_token_header
    ∷ token_header
    ∷ (legacy_access_headers ++ untrusted_identity_headers)

any-before : (p : Text → Bool) (xs ys : List Text) → any p xs ≡ true → any p (xs ++ ys) ≡ true
any-before p [] ys h = cc
any-before p (x ∷ xs) ys h = ground (arith, any-before p xs ys)

any-after : (p : Text → Bool) (xs ys : List Text) → any p ys ≡ true → any p (xs ++ ys) ≡ true
any-after p [] ys h = h
any-after p (x ∷ xs) ys h = ground (arith, any-after p xs ys)

-- The header is removed or set.
abbrev pub Guarded : OkHttpResponse → Text → Type 0
Guarded response name = (removes response name || sets response name) ≡ true

or_left : (a b : Bool) → a ≡ true → (a || b) ≡ true
or_left a b h = ground arith

module _ (before after : List Text) (headers : List HeaderValueOption) where
  abbrev fixed_response : OkHttpResponse
  fixed_response = record {
    headers_to_remove = before ++ (legacy_access_headers ++ (untrusted_identity_headers ++ after));
    headers = headers;
  }

  legacy-Guarded :
      (name : Text)
      → any (eq_ignore_ascii_case name) legacy_access_headers ≡ true
      → Guarded fixed_response name
  legacy-Guarded name h = or_left _ _ (
      any-after (eq_ignore_ascii_case name) before
        (legacy_access_headers ++ (untrusted_identity_headers ++ after))
        (any-before (eq_ignore_ascii_case name) legacy_access_headers
          (untrusted_identity_headers ++ after) h))

  untrusted-Guarded :
      (name : Text)
      → any (eq_ignore_ascii_case name) untrusted_identity_headers ≡ true
      → Guarded fixed_response name
  untrusted-Guarded name h = or_left _ _ (
      any-after (eq_ignore_ascii_case name) before
        (legacy_access_headers ++ (untrusted_identity_headers ++ after))
        (any-after (eq_ignore_ascii_case name) legacy_access_headers
          (untrusted_identity_headers ++ after)
          (any-before (eq_ignore_ascii_case name) untrusted_identity_headers after h)))

  fixed-Guarded : All (Guarded fixed_response) (legacy_access_headers ++ untrusted_identity_headers)
  unfolding ◌==◌
  fixed-Guarded = (
    legacy-Guarded (codes "x-authguard-subject-id") refl,
    (
      legacy-Guarded (codes "x-authguard-action") refl,
      (
        legacy-Guarded (codes "x-authguard-resource-urn") refl,
        (
          untrusted-Guarded (codes "x-authguard-id-token") refl,
          (
            untrusted-Guarded (codes "x-authguard-issuer") refl,
            (
              untrusted-Guarded (codes "x-authguard-external-id") refl,
              (
                untrusted-Guarded (codes "x-authguard-groups") refl,
                (untrusted-Guarded (codes "x-authguard-claim-tenant-id") refl, tt),
              ),
            ),
          ),
        ),
      ),
    ),
  )

-- The four other headers, without a token that is signed anew.
none-Guarded :
    (token_header : Text) (delivery : AccessDelivery)
    → let response = allowed_http_response token_header delivery none in
      Guarded response authorization_header
      × Guarded response access_context_header
      × Guarded response scope_token_header
      × Guarded response token_header
unfolding allowed_http_response ◌==◌
none-Guarded token_header (direct encoded) = (
  ground arith,
  ground arith,
  ground arith,
  ground (arith, eq_refl (to_ascii_lowercase token_header)),
)
none-Guarded token_header (token text) = (
  ground arith,
  ground arith,
  ground arith,
  ground (arith, eq_refl (to_ascii_lowercase token_header)),
)

some-Guarded :
    (token_header : Text) (delivery : AccessDelivery) (t : Text)
    → let response = allowed_http_response token_header delivery (some t) in
      Guarded response authorization_header
      × Guarded response access_context_header
      × Guarded response scope_token_header
      × Guarded response token_header
unfolding allowed_http_response ◌==◌
some-Guarded token_header (direct encoded) t =
    elim (Bool-cases (eq_ignore_ascii_case token_header authorization_header)) [
      | inl same ↦ rw same (ground arith, ground arith, ground arith, ground (arith, same))
      | inr other ↦ rw other (
        ground arith,
        ground arith,
        ground arith,
        ground (arith, eq_refl (to_ascii_lowercase token_header)),
      )
    ]
some-Guarded token_header (token text) t =
    elim (Bool-cases (eq_ignore_ascii_case token_header authorization_header)) [
      | inl same ↦ rw same (ground arith, ground arith, ground arith, ground (arith, same))
      | inr other ↦ rw other (
        ground arith,
        ground arith,
        ground arith,
        ground (arith, eq_refl (to_ascii_lowercase token_header)),
      )
    ]

-- Nothing that a client sends under these headers reaches the service: each is removed, or is added
-- under the action that overwrites what was there, and adds it where nothing was.
pub All-Guarded :
    (token_header : Text) (delivery : AccessDelivery) (resign_token : Option Text)
    → All
        (Guarded (allowed_http_response token_header delivery resign_token))
        (guarded_headers token_header)
unfolding allowed_http_response
All-Guarded token_header delivery none =
    let (a, b, c, d) = none-Guarded token_header delivery in
    (
      a,
      (
        b,
        (
          c,
          (
            d,
            fixed-Guarded (authorization_header ∷ [])
                (token_header ∷ alternate_header delivery ∷ []) (delivery_header delivery ∷ []),
          ),
        ),
      ),
    )
All-Guarded token_header delivery (some t) =
    let (a, b, c, d) = some-Guarded token_header delivery t in
    (
      a,
      (
        b,
        (
          c,
          (
            d,
            fixed-Guarded []
                (when (not (eq_ignore_ascii_case token_header authorization_header)) token_header
                  ++ (alternate_header delivery ∷ []))
                (delivery_header delivery ∷ bearer (some t)),
          ),
        ),
      ),
    )
