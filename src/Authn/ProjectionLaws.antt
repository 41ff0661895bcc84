-- ===== src/Authn/ProjectionLaws.antt =====
-- What crosses from the authentication to the token: bounded groups and claims, and nothing private.
use authguard.Base.{
  sym, subst, some_inj, ◌⊎◌, contains, any-dedup-sort, ◌≤◌, ◌≡◌, refl, ◌∙◌, arith, inl, inr, true,
  not, ◌||◌, Bool-cases, Option, none, some, List, [], ◌∷◌, Text, codes, ◌==◌, eq_iff, len, lookup,
  insert, lookup-insert, ltb,
}
use authguard.Cache.Memory.{saturating_add}
use authguard.Identity.Json.{Value, Object, Serde}
use authguard.Identity.Headers.{and_then}
use authguard.Identity.Claims.{
  AuthenticatedPrincipalContext, max_group_bytes, total_len, scalar_claim,
}
use authguard.Identity.ClaimsLaws.{AreGroups}
use authguard.Identity.External.{AuthenticationResult}
use authguard.Authn.Projection.{
  max_context_bytes, group_values, is_private_or_reserved_claim, is_canonical, groups_fit,
  projected_groups, Context, take_claim, project_claim, project_claims,
  project_authorization_context, no_context,
}
use authguard.Authn.ProjectionBounds.{
  claims_len, project_claims-IsBounded, projected_groups-AreGroups, empty-IsBounded,
}

and_then-eq-some :
    (o : Option Value) (f : Value → Option (List Text)) (given : List Text)
    → and_then o f ≡ some given
    → (value : Value) × (o ≡ some value) × (f value ≡ some given)
and_then-eq-some none f given h = cc
and_then-eq-some (some value) f given h = (value, refl, h)

-- The names that must not cross.
abbrev pub withheld : List Text
withheld =
    codes "username"
    ∷ codes "email"
    ∷ codes "display_name"
    ∷ codes "iss"
    ∷ codes "sub"
    ∷ codes "aud"
    ∷ codes "iat"
    ∷ codes "exp"
    ∷ codes "nbf"
    ∷ codes "jti"
    ∷ codes "provider"
    ∷ codes "access_token"
    ∷ codes "refresh_token"
    ∷ codes "authorization_code"
    ∷ codes "principal_id"
    ∷ codes "principal_kind"
    ∷ codes "authguard_group_ids"
    ∷ codes "acr"
    ∷ codes "amr"
    ∷ codes "authguardOrigin"
    ∷ []

module _ (serde : Serde) where
  -- One of the claims has this name and this scalar text.
  abbrev pub Claimed : Object → Text → Text → Type 0
  Claimed [] name text = ⊥
  Claimed ((held, value) ∷ claims) name text =
      ((held ≡ name) × (scalar_claim serde value ≡ some text)) ⊎ Claimed claims name text

  -- What is projected of the claims of an identity.
  pub record IsProjected (claims : Object) (principal : AuthenticatedPrincipalContext)
      : Type 0 where
    pub groups_of :
        (group : Text)
        → contains group principal.stable_group_ids ≡ true
        → (value : Value) × (given : List Text) × (lookup (codes "authguard_group_ids") claims
            ≡ some value)
          × (group_values value ≡ some given)
          × (contains group given ≡ true)
    pub claims_of :
        (name text : Text)
        → lookup name principal.trusted_claims ≡ some text
        → Claimed claims name text
    pub groups : AreGroups principal.stable_group_ids
    pub groups_short : total_len principal.stable_group_ids ≤ max_group_bytes
    pub claims_short : claims_len principal.trusted_claims ≤ max_context_bytes
    pub nothing_private :
        (name : Text) → contains name withheld ≡ true → lookup name principal.trusted_claims ≡ none

  -- What was taken so far is claimed.
  abbrev Sourced : Object → Context → Type 0
  Sourced claims context =
      (name text : Text) → lookup name context.claims ≡ some text → Claimed claims name text

  inserted-Sourced :
      (claims : Object) (name text : Text) (context : Context)
      → Claimed claims name text
      → Sourced claims context
      → (other found : Text) → lookup other (insert name text context.claims) ≡ some found
      → Claimed claims other found
  inserted-Sourced claims name text context claimed held other found h =
      let h₁ = sym (lookup-insert name other text context.claims) ∙ h in
      elim (Bool-cases (name == other)) [
        | inl same ↦
            let e : text ≡ found = some_inj (rw same at h₁) in
            subst (Claimed claims other) e
              (subst (λ n. Claimed claims n text) ((eq_iff name other).0 same) claimed)
        | inr differs ↦ held other found (rw differs at h₁)
      ]

  take_claim-Sourced :
      (claims : Object) (name : Text) (scalar : Option Text) (context : Context)
      → ((text : Text) → scalar ≡ some text → Claimed claims name text)
      → Sourced claims context
      → Sourced claims (take_claim name scalar context)
  take_claim-Sourced claims name none context claimed held = held
  take_claim-Sourced claims name (some text) context claimed held =
      elim (Bool-cases (
        not (is_canonical (codes "trusted_claim") name)
        || ltb max_context_bytes
            (saturating_add context.bytes (saturating_add (len name) (len text))))) [
              | inl skipped ↦ rw skipped held
              | inr taken ↦
                  rw taken (inserted-Sourced claims name text context (claimed text refl) held)
            ]

  project_claims-Sourced :
      (claims : Object) (context : Context) (rest : Object)
      → ((name text : Text) → Claimed rest name text → Claimed claims name text)
      → Sourced claims context
      → Sourced claims (project_claims serde context rest)
  unfolding project_claims
  project_claims-Sourced claims context [] within held = held
  project_claims-Sourced claims context ((name, value) ∷ rest) within held =
      project_claims-Sourced claims (project_claim serde context (name, value)) rest
        (λ other text later. within other text (inr later))
        (elim (Bool-cases (is_private_or_reserved_claim name)) [
          | inl private ↦ rw private held
          | inr public ↦ rw public (
              take_claim-Sourced claims name (scalar_claim serde value) context
                (λ text e. within name text (inl (refl, e))) held)
        ])

  groups_given :
      (claims : Object) (asserted : Option (List Text))
      → and_then (lookup (codes "authguard_group_ids") claims) group_values ≡ asserted
      → (group : Text) → contains group (projected_groups asserted) ≡ true
      → (value : Value) × (given : List Text) × (lookup (codes "authguard_group_ids") claims
          ≡ some value)
        × (group_values value ≡ some given)
        × (contains group given ≡ true)
  groups_given claims none e group h = cc
  groups_given claims (some groups) e group h =
      let (value, found, given) =
        and_then-eq-some (lookup (codes "authguard_group_ids") claims) group_values groups e in
      elim (Bool-cases (groups_fit groups)) [
        | inr large ↦ cc (rw large at h)
        | inl fit ↦
            (value, groups, found, given, sym (any-dedup-sort (◌==◌ group) groups) ∙ (rw fit at h))
      ]

  empty-Sourced : (claims : Object) → Sourced claims (no_context serde)
  unfolding lookup
  empty-Sourced claims name text h = cc

  -- Of the claims of an external identity only groups and scalar claims go into the token: a group is one
  -- that the identity's claim of groups lists, and a claim has the name and the text of a scalar claim of
  -- the identity. The groups are canonical, in strictly increasing order, at most 128 and of at most 16 KiB, the names and values
  -- of the claims have at most 64 KiB, and none of the twenty names that are withheld is among them.
  pub project-IsProjected :
      (principal : AuthenticatedPrincipalContext) (authentication : AuthenticationResult)
      → IsProjected authentication.external_identity.claims
          (project_authorization_context serde principal authentication)
  unfolding project_authorization_context is_private_or_reserved_claim
  project-IsProjected principal authentication =
      let claims = authentication.external_identity.claims in
      let held = project_claims-IsBounded serde (no_context serde) claims (empty-IsBounded serde) in
      let (groups, short) =
        projected_groups-AreGroups serde
          (and_then (lookup (codes "authguard_group_ids") claims) group_values) in
      record {
        groups_of =
            groups_given claims
              (and_then (lookup (codes "authguard_group_ids") claims) group_values) refl;
        claims_of = λ name text h.
            project_claims-Sourced claims (no_context serde) claims (λ n t c. c)
              (empty-Sourced claims) name text h;
        groups = groups;
        groups_short = short;
        claims_short = omega (arith, held.counted, held.bounded);
        nothing_private = held.nothing_private;
      }
