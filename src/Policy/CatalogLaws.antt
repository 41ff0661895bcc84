-- ===== src/Policy/CatalogLaws.antt =====
-- What a compiled catalog is (`CompiledPolicy::compile` of src/authz/src/handler/policy/mod.rs).
use mathlib.Core.List.{Memᴰ}
use authguard.Base.{
  ℕ, ◌≡◌, refl, ap, sym, ◌∙◌, subst, true, false, some, List, [], ◌∷◌, map, Text, ◌==◌, eq_iff,
  contains, is_blank, All, arith, ok, ok_inj, map_err, ok_or, try_map, bind-eq-ok, map_err-eq-ok,
  ok_or-eq-ok, Bool-cases, inl, inr, ◌⊎◌, lookup, insert, lookup-insert, from_pairs,
}
use authguard.Urn.{error_to_string}
use authguard.Urn.Pattern
use authguard.Urn.PatternTrip.{from_str-eq-ok}
use authguard.Model.{IamRoleInfo, IamRoleBindingInfo, IamPolicyInfo, AuthorizationRequest}
use authguard.Model.Condition
use authguard.Model.Condition.{Net}
use authguard.Policy.Evaluator.{CompiledRoleBinding}
use authguard.Policy.Catalog.{
  CompiledPolicy, check_role, check_roles, validate, validate_unique, compile_role_binding, compile,
  role_map, with_revision, action_ids_of, role_ids_of, binding_ids_of, matcher_ids_of, authorize,
  authorization_scope, compile_routes, duplicate_action, duplicate_role, duplicate_role_binding,
  duplicate_route_matcher, unknown_role, invalid_binding_urn, invalid_binding_condition,
}
use authguard.Policy.Unique.{IsUnique, validate_unique-IsUnique}
use authguard.Policy.Scope.{HavePatterns, admits, authorization_scope-admits}

-- Identifiers are unique and not blank, and roles name known actions.
pub record IsConsistent (policy : IamPolicyInfo) : Type 0 where
  pub actions : IsUnique (action_ids_of policy)
  pub roles : IsUnique (role_ids_of policy)
  pub role_bindings : IsUnique (binding_ids_of policy)
  pub matchers : IsUnique (matcher_ids_of policy)
  pub known_actions :
      All
        (λ (role : IamRoleInfo).
          All (λ id. contains id (action_ids_of policy) ≡ true) role.action_ids)
        policy.roles

check_role-eq-ok :
    (known : List Text) (role_id : Text) (ids : List Text)
    → check_role known role_id ids ≡ ok tt
    → All (λ id. contains id known ≡ true) ids
unfolding check_role
check_role-eq-ok known role_id [] h = tt
check_role-eq-ok known role_id (id ∷ ids) h =
    (ground arith, check_role-eq-ok known role_id ids (ground arith))

check_roles-eq-ok :
    (known : List Text) (roles : List IamRoleInfo)
    → check_roles known roles ≡ ok tt
    → All (λ (role : IamRoleInfo). All (λ id. contains id known ≡ true) role.action_ids) roles
unfolding check_roles
check_roles-eq-ok known [] h = tt
check_roles-eq-ok known (role ∷ roles) h =
    let (u, e, h₁) = bind-eq-ok (check_role known role.id role.action_ids) _ h in
    (check_role-eq-ok known role.id role.action_ids e, check_roles-eq-ok known roles h₁)

pub validate-IsConsistent : (policy : IamPolicyInfo) → validate policy ≡ ok tt → IsConsistent policy
unfolding validate
validate-IsConsistent policy h =
    let (u₁, e₁, h₁) = bind-eq-ok (validate_unique duplicate_action (action_ids_of policy)) _ h in
    let (u₂, e₂, h₂) = bind-eq-ok (validate_unique duplicate_role (role_ids_of policy)) _ h₁ in
    let (u₃, e₃, h₃) =
      bind-eq-ok (validate_unique duplicate_role_binding (binding_ids_of policy)) _ h₂ in
    let (u₄, e₄, h₄) =
      bind-eq-ok (validate_unique duplicate_route_matcher (matcher_ids_of policy)) _ h₃ in
    record {
      actions = validate_unique-IsUnique duplicate_action _ e₁;
      roles = validate_unique-IsUnique duplicate_role _ e₂;
      role_bindings = validate_unique-IsUnique duplicate_role_binding _ e₃;
      matchers = validate_unique-IsUnique duplicate_route_matcher _ e₄;
      known_actions = check_roles-eq-ok (action_ids_of policy) policy.roles h₄;
    }

-- A role that the map finds is one of the catalog's, under its own id.
from_pairs-eq-some :
    (k : Text) (m : List (Text × IamRoleInfo)) (roles : List IamRoleInfo) (role : IamRoleInfo)
    → lookup k (from_pairs m (map (λ (r : IamRoleInfo). (r.id, r)) roles)) ≡ some role
    → (lookup k m ≡ some role) ⊎ ((role.id ≡ k) × Memᴰ role roles)
unfolding from_pairs
from_pairs-eq-some k m [] role h = inl h
from_pairs-eq-some k m (r ∷ roles) role h =
    elim (from_pairs-eq-some k (insert r.id r m) roles role h) [
      | inr (e, listed) ↦ inr (e, Memᴰ.tail listed)
      | inl found ↦ elim (Bool-cases (r.id == k)) [
        | inl same ↦
            let e : r ≡ role = ground (arith, lookup-insert r.id k r m) in
            inr (ap (λ (x : IamRoleInfo). x.id) (sym e) ∙ (eq_iff r.id k).0 same, Memᴰ.head (sym e))
        | inr other ↦ inl (ground (arith, lookup-insert r.id k r m))
      ]
    ]

role_map-eq-some :
    (k : Text) (roles : List IamRoleInfo) (role : IamRoleInfo)
    → lookup k (role_map roles) ≡ some role
    → (role.id ≡ k) × Memᴰ role roles
unfolding role_map lookup
role_map-eq-some k roles role h = elim (from_pairs-eq-some k [] roles role h) [
  | inl nothing ↦ cc
  | inr found ↦ found
]

module _ {Addr Cidr : Type 0} (net : Net Addr Cidr) (roles : List IamRoleInfo) where
  -- A compiled binding says what its source says, with the actions of its role.
  pub record Compiles (binding : IamRoleBindingInfo) (b : CompiledRoleBinding Cidr) : Type 0 where
    pub role : IamRoleInfo
    pub listed : Memᴰ role roles
    pub role_id : role.id ≡ binding.role_id
    pub action_ids : b.action_ids ≡ role.action_ids
    pub id : b.id ≡ binding.id
    pub principal_id : b.principal_id ≡ binding.principal_id
    pub principal_filled : is_blank binding.principal_id ≡ false
    pub effect : b.effect ≡ binding.effect
    pub resource_urn : Pattern.from_str binding.resource_urn ≡ ok b.resource_urn
    pub conditions : Condition.compile net binding.conditions ≡ ok b.conditions

  compile_role_binding-Compiles :
      (binding : IamRoleBindingInfo) (b : CompiledRoleBinding Cidr)
      → compile_role_binding net (role_map roles) binding ≡ ok b
      → Compiles binding b
  unfolding compile_role_binding
  compile_role_binding-Compiles binding b h = elim (Bool-cases (is_blank binding.principal_id)) [
    | inl blank ↦ cc (rw blank at h)
    | inr filled ↦
        let h₀ = rw filled at h in
        let (role, e₁, h₁) =
          bind-eq-ok
            (ok_or (unknown_role binding.id binding.role_id)
              (lookup binding.role_id (role_map roles)))
            _ h₀ in
        let (pattern, e₂, h₂) =
          bind-eq-ok
            (map_err (λ error. invalid_binding_urn binding.id (error_to_string error))
              (Pattern.from_str binding.resource_urn))
            _ h₁ in
        let (conditions, e₃, h₃) =
          bind-eq-ok
            (map_err (invalid_binding_condition binding.id)
              (Condition.compile net binding.conditions))
            _ h₂ in
        let (same, listed) = role_map-eq-some binding.role_id roles role (ok_or-eq-ok _ _ e₁) in
        subst (Compiles binding) (ok_inj h₃) (record {
          role = role;
          listed = listed;
          role_id = same;
          action_ids = refl;
          id = refl;
          principal_id = refl;
          principal_filled = filled;
          effect = refl;
          resource_urn = map_err-eq-ok _ _ e₂;
          conditions = map_err-eq-ok _ _ e₃;
        })
  ]

  -- The compiled bindings, each beside its source.
  abbrev pub AllCompile : List IamRoleBindingInfo → List (CompiledRoleBinding Cidr) → Type 0
  AllCompile [] [] = Unit
  AllCompile (binding ∷ bindings) (b ∷ bs) = Compiles binding b × AllCompile bindings bs
  AllCompile _ _ = ⊥

  all_compile :
      (bindings : List IamRoleBindingInfo) (bs : List (CompiledRoleBinding Cidr))
      → try_map (compile_role_binding net (role_map roles)) bindings ≡ ok bs
      → AllCompile bindings bs
  unfolding try_map
  all_compile [] bs h = subst (AllCompile []) (ok_inj h) tt
  all_compile (binding ∷ bindings) bs h =
      let (b, e, h₁) = bind-eq-ok (compile_role_binding net (role_map roles) binding) _ h in
      let (rest, e₁, h₂) =
        bind-eq-ok (try_map (compile_role_binding net (role_map roles)) bindings) _ h₁ in
      subst (AllCompile (binding ∷ bindings)) (ok_inj h₂)
        (compile_role_binding-Compiles binding b e, all_compile bindings rest e₁)

  AllCompile-HavePatterns :
      (bindings : List IamRoleBindingInfo) (bs : List (CompiledRoleBinding Cidr))
      → AllCompile bindings bs
      → HavePatterns bs
  AllCompile-HavePatterns [] [] h = tt
  AllCompile-HavePatterns [] (b ∷ bs) h = absurd h
  AllCompile-HavePatterns (binding ∷ bindings) [] h = absurd h
  AllCompile-HavePatterns (binding ∷ bindings) (b ∷ bs) (c, cs) =
      ((from_str-eq-ok _ _ c.resource_urn).1, AllCompile-HavePatterns bindings bs cs)

module _ {Addr Cidr : Type 0} (net : Net Addr Cidr) where
  -- The catalog is its policy under the new revision, which is consistent, and its bindings are the
  -- policy's, compiled.
  pub record IsCompiled (policy : IamPolicyInfo) (revision : ℕ) (catalog : CompiledPolicy Cidr)
      : Type 0 where
    pub held : catalog.policy ≡ with_revision policy revision
    pub consistent : IsConsistent policy
    pub bindings : AllCompile net policy.roles policy.role_bindings catalog.role_bindings

  -- A policy that compiles has unique and non-blank identifiers of actions, roles, bindings and
  -- route matchers, its roles name its own actions, and every binding is compiled in its place: with
  -- its own id, principal, effect, pattern and conditions, and with the actions of a listed role of
  -- the binding's role id. The catalog holds the policy under the given revision.
  pub compile-IsCompiled :
      (policy : IamPolicyInfo) (revision : ℕ) (catalog : CompiledPolicy Cidr)
      → compile net policy revision ≡ ok catalog
      → IsCompiled policy revision catalog
  unfolding compile
  compile-IsCompiled policy revision catalog h =
      let (u, e₁, h₁) = bind-eq-ok (validate policy) _ h in
      let (bs, e₂, h₂) =
        bind-eq-ok (try_map (compile_role_binding net (role_map policy.roles)) policy.role_bindings)
          _ h₁ in
      let (routes, e₃, h₃) = bind-eq-ok (compile_routes policy.actions) _ h₂ in
      subst (IsCompiled policy revision) (ok_inj h₃) (record {
        held = refl;
        consistent = validate-IsConsistent policy e₁;
        bindings = all_compile net policy.roles policy.role_bindings bs e₂;
      })

  -- In every compiled catalog, the scope that is delivered for a request admits the requested
  -- resource, by itself or by a parent, exactly when the request is allowed.
  pub catalog_scope :
      (policy : IamPolicyInfo) (revision : ℕ) (catalog : CompiledPolicy Cidr)
      (request : AuthorizationRequest Addr)
      → compile net policy revision ≡ ok catalog
      → admits
          (authorization_scope net catalog request.principal_id request.group_principal_ids
            request.action request.context)
          (request.resource_urn ∷ request.parent_urns)
        ≡ (authorize net catalog request).allowed
  unfolding authorize authorization_scope
  catalog_scope policy revision catalog request h =
      let c = compile-IsCompiled policy revision catalog h in
      authorization_scope-admits net request catalog.role_bindings (
        AllCompile-HavePatterns net policy.roles policy.role_bindings catalog.role_bindings
          c.bindings)
