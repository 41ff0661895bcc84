-- ===== src/Policy/Scope.antt =====
-- The delivered scope agrees with the decision (`authorize` and `authorization_scope` of
-- src/authz/src/handler/policy/mod.rs).
use authguard.Base.{
  ◌≡◌, refl, Bool, true, false, not, ◌&&◌, List, [], ◌∷◌, Text, arith, any, All, any-dedup-sort, ok,
  err, if◌then◌else◌, contains,
}
use authguard.Urn.{ResourceUrn}
use authguard.Urn.Pattern.{from_str, to_string, matches_any}
use authguard.Urn.PatternTrip.{IsPattern, from_str-to_string}
use authguard.Model.{AuthorizationRequest, AuthorizationScope}
use authguard.Model.Condition.{Net, matches}
use authguard.Policy.Evaluator.{
  CompiledRoleBinding, principal_matches, applies, authorize, in_scope, targets,
  authorization_scope,
}
use authguard.Policy.Decision.{authorize_allowed, allows, denies}

-- How a service reads one entry of a scope: it parses the pattern and matches the resources.
abbrev pub grants : List ResourceUrn → Text → Bool
grants urns entry = elim (from_str entry) [ ok pattern ↦ matches_any pattern urns | err _ ↦ false ]

-- A scope admits a resource by an allowed pattern, unless a denied pattern holds.
abbrev pub admits : AuthorizationScope → List ResourceUrn → Bool
admits scope urns =
    any (grants urns) scope.allow_resource_urns && not (any (grants urns) scope.deny_resource_urns)

-- The patterns of the bindings have a print that reads back.
abbrev pub HavePatterns : {Cidr : Type 0} → List (CompiledRoleBinding Cidr) → Type 0
HavePatterns = All (λ b. IsPattern b.resource_urn)

and_shuffle : (a b c d : Bool) → (a && b && c && d) ≡ ((a && c && d) && b)
and_shuffle a b c d = ground arith

module _ {Addr Cidr : Type 0} (net : Net Addr Cidr) (request : AuthorizationRequest Addr) where
  abbrev urns : List ResourceUrn
  urns = request.resource_urn ∷ request.parent_urns

  abbrev counts : CompiledRoleBinding Cidr → Bool
  counts =
      in_scope net request.principal_id request.group_principal_ids request.action request.context

  applies_split :
      (b : CompiledRoleBinding Cidr)
      → applies net request b ≡ (counts b && matches_any b.resource_urn urns)
  unfolding applies in_scope
  applies_split b =
      and_shuffle (principal_matches b request.principal_id request.group_principal_ids)
        (matches_any b.resource_urn urns) (contains request.action b.action_ids)
        (matches net b.conditions request.context)

  grants_entry :
      (b : CompiledRoleBinding Cidr)
      → IsPattern b.resource_urn
      → grants urns (to_string b.resource_urn) ≡ matches_any b.resource_urn urns
  grants_entry b h = rw (from_str-to_string b.resource_urn h, grants)

  any-targets :
      (denied : Bool) (bs : List (CompiledRoleBinding Cidr))
      → HavePatterns bs
      → any (grants urns) (targets net counts denied bs)
        ≡ any (if denied then denies net request else allows net request) bs
  unfolding targets
  any-targets true [] h = refl
  any-targets false [] h = refl
  any-targets true (b ∷ bs) (h, hs) =
      ground (arith, grants_entry b h, applies_split b, any-targets true bs hs)
  any-targets false (b ∷ bs) (h, hs) =
      ground (arith, grants_entry b h, applies_split b, any-targets false bs hs)

  -- Over bindings whose patterns print to a text that reads back, the scope that is delivered admits
  -- the requested resource, by itself or by a parent, exactly when the request is allowed.
  pub authorization_scope-admits :
      (bs : List (CompiledRoleBinding Cidr))
      → HavePatterns bs
      → admits
          (authorization_scope net bs request.principal_id request.group_principal_ids
            request.action request.context)
          (request.resource_urn ∷ request.parent_urns)
        ≡ (authorize net bs request).allowed
  unfolding authorization_scope
  authorization_scope-admits bs h = ground (
    arith,
    authorize_allowed net request bs,
    any-targets true bs h,
    any-targets false bs h,
    any-dedup-sort (grants urns) (targets net counts true bs),
    any-dedup-sort (grants urns) (targets net counts false bs),
  )
