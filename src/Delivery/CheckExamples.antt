-- ===== src/Delivery/CheckExamples.antt =====
-- A whole check at a small catalog: its run, and the theorems about it.
use authguard.Base.{
  ℕ, ◌≡◌, refl, sym, ap, subst, ◌∙◌, arith, inl, inr, false, Bool-cases, none, some, List, [], ◌∷◌,
  Text, codes, ◌==◌, eq_iff, contains, lookup, insert, from_pairs, split, trim, sort, dedup, len,
  ok, ok_inj, some_inj, if◌then◌else◌,
}
use authguard.Urn.Exact
use authguard.Urn.Pattern
use authguard.Model.{active, user}
use authguard.Model.Condition
use authguard.Access.Examples.{toy, serde}
use authguard.Http.Examples.{route}
use authguard.Policy.Examples.{toy_net, reader, policy}
use authguard.Policy.Catalog
use authguard.Policy.Catalog.{CompiledPolicy}
use authguard.Policy.Evaluator
use authguard.Identity.Json.{Serde, string, object, fields_of}
use authguard.Identity.Headers.{HttpTypes}
use authguard.Identity.Canonical.{validate_canonical}
use authguard.Identity.Claims.{
  parse_principal_kind, is_boundary_claim, AuthenticatedPrincipalContext,
  from_verified_jwt_with_claims,
}
use authguard.Identity.ClaimsLaws.{IsTrusted, from_verified_jwt-IsTrusted}
use authguard.Principals.Store.{Principal, PrincipalRepository}
use authguard.Principals.Resolve.{by_id, resolve_request, ResolvedRequestPrincipal}
use authguard.Principals.ResolveLaws.{FindsStored, Resolved, resolve_request-Resolved}
use authguard.Cache.Memory.{saturating_add}
use authguard.Delivery.Examples.{list_cache, settings, signs_all}
use authguard.Delivery.Response.{CheckResponse}
use authguard.Delivery.Request.{CheckRequest}
use authguard.Delivery.Evaluate.{DefaultAuthorizationHandler}
use authguard.Delivery.Authorize.{Surroundings, check}
use authguard.Delivery.Granted.{Granted}

abbrev somebody : Principal
somebody = record {
  id = codes "p";
  kind = user;
  display_name = codes "P";
  status = active;
  authorization_state = [];
}

abbrev found : List Text → List Principal
found ids = if contains (codes "p") ids then somebody ∷ [] else []

-- A database with one principal.
abbrev pub one_principal : PrincipalRepository (Unit {0})
one_principal = record {
  upsert = λ principal db. (ok principal, db);
  upsert_with_identity = λ principal identity db. (ok principal, db);
  get = λ id db. ok (if codes "p" == id then some somebody else none);
  find_by_identity = λ identity db. ok none;
  get_identity = λ id provider db. ok none;
  find_by_ids = λ ids db. ok (found ids);
  list = λ query after limit db. ok (somebody ∷ []);
  update_status = λ id status db. (ok none, db);
  delete = λ id db. (ok false, db);
}

found_lookup :
    (ids : List Text) (id : Text)
    → lookup id (by_id (found ids))
      ≡ (if contains id ids then (if codes "p" == id then some somebody else none) else none)
unfolding by_id from_pairs insert lookup
found_lookup ids id = elim (Bool-cases (codes "p" == id)) [
  | inl same ↦
      let e : contains (codes "p") ids ≡ contains id ids =
        ap (λ wanted. contains wanted ids) ((eq_iff (codes "p") id).0 same) in
      ground (arith, e, same)
  | inr other ↦ ground (arith, other)
]

held_id :
    (id : Text) (p : Principal)
    → (if codes "p" == id then some somebody else none) ≡ some p
    → p.id ≡ id
held_id id p h = elim (Bool-cases (codes "p" == id)) [
  | inr other ↦ cc (rw other at h)
  | inl same ↦ ap (λ q. q.id) (sym (some_inj (rw same at h))) ∙ (eq_iff (codes "p") id).0 same
]

finds : FindsStored one_principal
finds = record {
  stored = λ id db. if codes "p" == id then some somebody else none;
  keyed = λ id db p h. held_id id p h;
  found = λ ids db ps h id.
      subst
        (λ list.
          lookup id (by_id list)
          ≡ (if contains id ids then (if codes "p" == id then some somebody else none) else none))
        (ok_inj h) (found_lookup ids id);
}

abbrev pub all_headers : HttpTypes
all_headers = record {
  header_name = λ name. some name;
  header_value = λ value. some value;
  to_str = λ value. some value;
}

abbrev token_claims : Serde
token_claims = record {
  from_slice = λ payload. some (
      object (
        fields_of (
          (codes "principal_id", string (codes "p"))
          ∷ (codes "principal_kind", string (codes "USER"))
          ∷ (codes "tenant_id", string (codes "acme"))
          ∷ [])));
  to_vec = λ value. some (50 ∷ []);
  u64_to_string = λ n. [];
}

abbrev handler : DefaultAuthorizationHandler
handler = record {
  identity = record {
    token_header = codes "authorization";
    principal_id_claim = codes "principal_id";
    principal_kind_claim = codes "principal_kind";
    groups_claim = codes "authguard_group_ids";
  };
  scope_delivery = settings;
  direct_context_signer = record { key = 1 ∷ 2 ∷ [] };
  resign = none;
}

abbrev catalog : CompiledPolicy ℕ
catalog = record { policy = policy; role_bindings = reader ∷ []; routes = route ∷ [] }

abbrev job_request : CheckRequest
job_request = record {
  attributes = some (record {
    source = none;
    http = some (record {
      method = codes "GET";
      host = codes "api.example.com";
      path = codes "/jobs/7?verbose=1";
      scheme = codes "https";
      headers = (codes "authorization", codes "Bearer a.b.c") ∷ [];
    });
  });
}

abbrev surroundings : Surroundings
surroundings = record { now = 100; resign_now = 100; drawn = 50 ∷ [] }

abbrev answer : CheckResponse × List (Text × Text)
answer =
    check toy serde list_cache signs_all handler toy_net (λ text. none) all_headers (λ text. none)
      token_claims one_principal catalog tt job_request surroundings []

abbrev somebody_context : AuthenticatedPrincipalContext
somebody_context = record {
  principal_id = codes "p";
  kind = user;
  stable_group_ids = [];
  trusted_claims = (codes "tenant_id", codes "acme") ∷ (codes "mfa", codes "false") ∷ [];
  acr = none;
  amr = [];
}

reads_token :
    from_verified_jwt_with_claims token_claims toy
      (λ text. none)
      (codes "a.b.c")
      (codes "principal_id")
      (codes "principal_kind")
      (codes "authguard_group_ids")
    ≡ ok somebody_context
unfolding from_verified_jwt_with_claims split lookup ◌==◌ validate_canonical trim len
    parse_principal_kind is_boundary_claim insert from_pairs saturating_add
reads_token = refl

from_verified_jwt-IsTrusted_example : IsTrusted somebody_context
from_verified_jwt-IsTrusted_example =
    from_verified_jwt-IsTrusted token_claims toy (λ text. none) (codes "a.b.c")
      (codes "principal_id") (codes "principal_kind") (codes "authguard_group_ids") somebody_context
      reads_token

abbrev one_id : ResolvedRequestPrincipal
one_id = record { principal_id = codes "p"; group_principal_ids = [] }

resolves : resolve_request one_principal somebody_context tt ≡ ok one_id
unfolding resolve_request lookup from_pairs ◌==◌ dedup sort
resolves = refl

resolve_request-Resolved_example : Resolved one_principal finds somebody_context tt one_id
resolve_request-Resolved_example =
    resolve_request-Resolved one_principal finds somebody_context tt one_id resolves
