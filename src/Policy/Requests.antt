-- ===== src/Policy/Requests.antt =====
-- `authorize_request` of src/authz/src/handler/policy/policy.rs.
use authguard.Base.{
  ◌≡◌, refl, sym, subst, arith, true, false, ◌||◌, some, none, List, Option, is_blank, ok, map_err,
  try_map, bind-eq-ok, ok_inj, map_err-eq-ok, Bool-cases, inl, inr,
}
use authguard.Urn.{ResourceUrn, error_to_string}
use authguard.Urn.Exact
use authguard.Model.{
  IamPrincipalInfo, active, disabled, is_active, AuthorizationRequest, AuthorizationDecision,
}
use authguard.Model.Condition.{Net}
use authguard.Policy.Catalog
use authguard.Policy.Mutation.{invalid_request, storage}
use authguard.Policy.Handler.{
  PolicyRepository, PrincipalRepository, PolicyHandler, AuthorizeRequest, authorize_request,
  is_active_principal,
}

module _ {Addr Cidr Db Json : Type 0} (net : Net Addr Cidr) (repository : PolicyRepository Db)
    (principals : PrincipalRepository Db Json) where
  abbrev parsed : AuthorizeRequest Addr → ResourceUrn → List ResourceUrn → AuthorizationRequest Addr
  parsed request urn parents = record {
    principal_id = request.principal_id;
    group_principal_ids = request.group_principal_ids;
    action = request.action;
    resource_urn = urn;
    parent_urns = parents;
    context = request.context;
  }

  -- What a decision rests on.
  pub record Decided (request : AuthorizeRequest Addr) (handler : PolicyHandler Db Cidr)
      (decision : AuthorizationDecision) : Type 0 where
    pub principal : IamPrincipalInfo Json
    pub found : principals request.principal_id handler.db ≡ ok (some principal)
    pub active_principal : principal.status ≡ active
    pub principal_filled : is_blank request.principal_id ≡ false
    pub action_filled : is_blank request.action ≡ false
    pub urn : ResourceUrn
    pub parents : List ResourceUrn
    pub resource : Exact.from_str request.resource_urn ≡ ok urn
    pub parent_resources : try_map Exact.from_str request.parent_urns ≡ ok parents
    pub decided : decision ≡ Catalog.authorize net handler.runtime (parsed request urn parents)

  is_active_principal-eq-true :
      (found : Option (IamPrincipalInfo Json))
      → is_active_principal net repository principals found ≡ true
      → (p : IamPrincipalInfo Json) × (found ≡ some p) × (p.status ≡ active)
  is_active_principal-eq-true none h = cc
  is_active_principal-eq-true (some p) h = (
    p,
    refl,
    elim p.status as (λ s. is_active s ≡ true → s ≡ active) [
      | active ↦ λ _. refl
      | disabled ↦ λ e. cc
    ]
        h,
  )

  -- A decision is given only to a principal that is stored and active, on a request whose principal
  -- and action are not blank and whose URNs are all exact URNs; and it is the decision of the installed
  -- catalog on them.
  pub authorize_request-Decided :
      (request : AuthorizeRequest Addr) (handler : PolicyHandler Db Cidr)
      (decision : AuthorizationDecision)
      → authorize_request net repository principals request handler ≡ ok decision
      → Decided request handler decision
  unfolding authorize_request
  authorize_request-Decided request handler decision h =
      elim (Bool-cases (
        is_blank request.principal_id
        || is_blank request.action
        || is_blank request.resource_urn)) [
          | inl blank ↦ cc (rw blank at h)
          | inr filled ↦
              let (urn, e₁, h₁) =
                bind-eq-ok
                  (map_err (λ error. invalid_request (error_to_string error))
                    (Exact.from_str request.resource_urn))
                  _ (rw filled at h) in
              let (parents, e₂, h₂) =
                bind-eq-ok
                  (map_err (λ error. invalid_request (error_to_string error))
                    (try_map Exact.from_str request.parent_urns))
                  _ h₁ in
              let (found, e₃, h₃) =
                bind-eq-ok (map_err storage (principals request.principal_id handler.db)) _ h₂ in
              elim (Bool-cases (is_active_principal net repository principals found)) [
                | inr inactive ↦ cc (rw inactive at h₃)
                | inl is ↦
                    let (principal, e₄, status) = is_active_principal-eq-true found is in
                    record {
                      principal = principal;
                      found =
                          subst (λ f. principals request.principal_id handler.db ≡ ok f) e₄
                            (map_err-eq-ok _ _ e₃);
                      active_principal = status;
                      principal_filled = ground arith;
                      action_filled = ground arith;
                      urn = urn;
                      parents = parents;
                      resource = map_err-eq-ok _ _ e₁;
                      parent_resources = map_err-eq-ok _ _ e₂;
                      decided = sym (ok_inj (rw is at h₃));
                    }
              ]
        ]
