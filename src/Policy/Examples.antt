-- ===== src/Policy/Examples.antt =====
-- Tests of the policy code, and its theorems at a concrete catalog.
use authguard.Base.{
  ℕ, ◌≡◌, refl, ◌==◌, eqb, ◌/◌, true, false, not, ◌&&◌, none, List, [], ◌∷◌, Text, codes, any,
  is_blank, length, ok, split, splitn, trim, trim_matches, lookup, from_pairs, insert, try_map,
}
use authguard.Urn.{SegmentPattern, PathPattern, UrnPattern, split_urn, split_path}
use authguard.Urn.Pattern
use authguard.Model.{allow, deny, IamPolicyInfo, AuthorizationRequest}
use authguard.Model.Condition
use authguard.Model.Condition.{
  Net, AuthorizationConditionSpec, AuthorizationConditions, EvaluationContext,
}
use authguard.Policy.Evaluator.{CompiledRoleBinding, authorize}
use authguard.Policy.Catalog
use authguard.Policy.Catalog.{
  CompiledPolicy, PolicyError, duplicate_action, validate_unique, compile,
}
use authguard.Policy.Decision.{allows, denies, specified, authorize_allowed, authorize-specified}
use authguard.Policy.Scope.{admits}
use authguard.Policy.CatalogLaws.{IsCompiled, compile-IsCompiled, catalog_scope}

-- Addresses are numbers, and a network holds 256 of them.
abbrev pub toy_net : Net ℕ ℕ
toy_net = record { parse = λ s. ok (length s); contains = λ cidr addr. eqb (addr / 256) cidr }

abbrev no_conditions : AuthorizationConditionSpec
no_conditions = record {
  source_ip = none;
  request = record { methods = []; secure_transport = none };
  subject = record { mfa = none; claims = [] };
}

abbrev pub always : AuthorizationConditions ℕ
always = record {
  source_ip = none;
  request = record { methods = []; secure_transport = none };
  subject = record { mfa = none; claims = [] };
}

abbrev pub job_pattern : List PathPattern → UrnPattern
job_pattern path = record {
  partition = SegmentPattern.exact (codes "prod");
  service = SegmentPattern.exact (codes "growth");
  region = SegmentPattern.any;
  tenant = SegmentPattern.any;
  path = PathPattern.exact (codes "job") ∷ path;
}

abbrev pub reader : CompiledRoleBinding ℕ
reader = record {
  id = codes "b1";
  principal_id = codes "p";
  action_ids = codes "job.read" ∷ [];
  effect = allow;
  resource_urn = job_pattern (PathPattern.glob_star ∷ []);
  conditions = always;
}

abbrev blocked : CompiledRoleBinding ℕ
blocked = record {
  id = codes "b2";
  principal_id = codes "g";
  action_ids = codes "job.read" ∷ [];
  effect = deny;
  resource_urn = job_pattern (PathPattern.exact (codes "9") ∷ []);
  conditions = always;
}

abbrev request : Text → AuthorizationRequest ℕ
request job = record {
  principal_id = codes "p";
  group_principal_ids = codes "g" ∷ [];
  action = codes "job.read";
  resource_urn = record {
    partition = codes "prod";
    service = codes "growth";
    region = codes "global";
    tenant = codes "acme";
    path = codes "job" ∷ job ∷ [];
  };
  parent_urns = [];
  context = record {
    source_ip = none;
    request_method = none;
    secure_transport = none;
    claims = [];
  };
}

denied_overrides :
    ((authorize toy_net (reader ∷ blocked ∷ []) (request (codes "9"))).allowed ≡ false)
    × ((authorize toy_net (reader ∷ blocked ∷ []) (request (codes "1"))).allowed ≡ true)
unfolding authorize Pattern.matches_any Condition.matches ◌==◌ lookup
denied_overrides = (refl, refl)

authorize_allowed_example :
    (authorize toy_net (reader ∷ blocked ∷ []) (request (codes "9"))).allowed ≡ (
      any (allows toy_net (request (codes "9"))) (reader ∷ blocked ∷ [])
      && not (any (denies toy_net (request (codes "9"))) (reader ∷ blocked ∷ [])))
authorize_allowed_example = authorize_allowed toy_net (request (codes "9")) (reader ∷ blocked ∷ [])

authorize-specified_example :
    authorize toy_net (reader ∷ blocked ∷ []) (request (codes "9"))
    ≡ specified toy_net (request (codes "9")) (reader ∷ blocked ∷ []) none
authorize-specified_example =
    authorize-specified toy_net (request (codes "9")) (reader ∷ blocked ∷ [])

abbrev pub policy : IamPolicyInfo
policy = record {
  revision = 4;
  actions = record { identifier = codes "job.read"; description = []; route_matchers = [] } ∷ [];
  roles =
      record {
        id = codes "reader";
        name = [];
        description = [];
        action_ids = codes "job.read" ∷ [];
      }
      ∷ [];
  role_bindings =
      record {
        id = codes "b1";
        principal_id = codes "p";
        role_id = codes "reader";
        effect = allow;
        resource_urn = codes "urn:iam:prod:growth:*:*:job/**";
        conditions = no_conditions;
      }
      ∷ [];
}

abbrev catalog : CompiledPolicy ℕ
catalog = record {
  policy = record policy { revision = 5 };
  role_bindings = reader ∷ [];
  routes = [];
}

compiles : compile toy_net policy 5 ≡ ok catalog
unfolding compile try_map lookup from_pairs insert is_blank trim trim_matches ◌==◌ Pattern.from_str
    split_urn split_path splitn split Condition.compile
compiles = refl

compile-IsCompiled_example : IsCompiled toy_net policy 5 catalog
compile-IsCompiled_example = compile-IsCompiled toy_net policy 5 catalog compiles

catalog_scope_example :
    admits
      (Catalog.authorization_scope toy_net catalog
        (codes "p")
        (codes "g" ∷ [])
        (codes "job.read")
        (request (codes "1")).context)
      ((request (codes "1")).resource_urn ∷ [])
    ≡ (Catalog.authorize toy_net catalog (request (codes "1"))).allowed
catalog_scope_example = catalog_scope toy_net policy 5 catalog (request (codes "1")) compiles
