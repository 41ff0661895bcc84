-- ===== src/Policy/HandlerExamples.antt =====
-- Tests of the policy handler, and its theorems at a small database.
use mathlib.Core.List.Perm
use authguard.Base.{
  ℕ, false, ◌≡◌, refl, sym, ap, ◌⊎◌, arith, none, some, [], ◌∷◌, codes, ok, is_blank, trim,
  trim_matches, try_map, splitn, split, ◌==◌,
}
use authguard.Urn.{split_urn, split_path}
use authguard.Urn.Exact
use authguard.Model.{IamActionInfo, IamPolicyInfo, user, active, AuthorizationDecision}
use authguard.Policy.Evaluator
use authguard.Policy.Catalog
use authguard.Policy.Catalog.{CompiledPolicy, compile}
use authguard.Policy.Mutation.{push_action}
use authguard.Policy.Handler.{
  PolicyRepository, PrincipalRepository, PolicyHandler, AuthorizeRequest, open_handler, mutate,
  authorize_request,
}
use authguard.Policy.Change.{perform, create_action_of, delete_action_of, reset_of}
use authguard.Policy.Published.{Rejected}
use authguard.Policy.Refinement.{Accepted, perform_refines}
use authguard.Policy.Runs.{KeepsPolicies, IsSound, changes, done}
use authguard.Policy.Opened.{opened_Run-IsSound}
use authguard.Policy.Stale.{Stays, perform_stale, no_lost_update, mutate_succeeds}
use authguard.Policy.Requests.{Decided, authorize_request-Decided}
use authguard.Policy.Examples.{toy_net}

-- The database is the policy, and every principal is active.
abbrev toy_repository : PolicyRepository IamPolicyInfo
toy_repository = record {
  load = λ db. ok db;
  replace = λ policy db. (ok tt, record policy { revision = 1 });
}

abbrev everybody : PrincipalRepository IamPolicyInfo (Unit {0})
everybody = λ id db. ok (
    some (record {
      id = id;
      kind = user;
      display_name = id;
      status = active;
      authorization_state = tt;
    }))

toy_keeps : KeepsPolicies toy_repository
toy_keeps = record {
  kept = λ p db after e. (
    record p { revision = 1 },
    ap (λ w. ok w.1) (sym e),
    record { actions = Perm.refl _; roles = Perm.refl _; role_bindings = Perm.refl _ },
  );
  untouched = λ p db after e failed. let clash = ap (λ w. w.0) failed in cc;
}

abbrev no_policy : ℕ → IamPolicyInfo
no_policy revision = record { revision = revision; actions = []; roles = []; role_bindings = [] }

abbrev read_action : IamActionInfo
read_action = record { identifier = codes "r"; description = []; route_matchers = [] }

abbrev one_action : ℕ → IamPolicyInfo
one_action revision = record (no_policy revision) { actions = read_action ∷ [] }

abbrev compiled_of : IamPolicyInfo → CompiledPolicy ℕ
compiled_of policy = record { policy = policy; role_bindings = []; routes = [] }

abbrev handler_of : IamPolicyInfo → PolicyHandler IamPolicyInfo ℕ
handler_of policy = record { runtime = compiled_of policy; db = record policy { revision = 1 } }

opens :
    open_handler toy_net toy_repository everybody none (no_policy 1)
    ≡ (ok (handler_of (no_policy 1)), no_policy 1)
unfolding open_handler try_map
opens = refl

creates :
    perform toy_net toy_repository everybody
      (create_action_of read_action)
      1
      (handler_of (no_policy 1))
    ≡ (ok 2, handler_of (one_action 2))
unfolding perform try_map is_blank trim trim_matches ◌==◌
creates = refl

perform_refines_example :
    Rejected toy_net toy_repository everybody (handler_of (no_policy 1)) (
      perform toy_net toy_repository everybody
        (create_action_of read_action)
        1
        (handler_of (no_policy 1)))
    ⊎ Accepted toy_net toy_repository everybody
        (handler_of (no_policy 1))
        (create_action_of read_action)
        1
        (perform toy_net toy_repository everybody
          (create_action_of read_action)
          1
          (handler_of (no_policy 1)))
perform_refines_example =
    perform_refines toy_net toy_repository everybody (handler_of (no_policy 1))
      (create_action_of read_action) 1

-- An action is created, and then deleted.
abbrev after_both : PolicyHandler IamPolicyInfo ℕ
after_both =
    (perform toy_net toy_repository everybody (delete_action_of (codes "r")) 2
      (perform toy_net toy_repository everybody (create_action_of read_action) 1
        (handler_of (no_policy 1))).1).1

opened_Run-IsSound_example : IsSound toy_net toy_repository everybody after_both
opened_Run-IsSound_example =
    opened_Run-IsSound toy_net toy_repository everybody toy_keeps none (no_policy 1) (no_policy 1)
      (handler_of (no_policy 1)) after_both opens
      (changes (create_action_of read_action) 1 (changes (delete_action_of (codes "r")) 2 done))

perform_stale_example :
    Stays
      (handler_of (no_policy 3))
      (perform toy_net toy_repository everybody reset_of 2 (handler_of (no_policy 3)))
perform_stale_example =
    perform_stale toy_net toy_repository everybody 2 (handler_of (no_policy 3))
      (λ e. omega (arith, e)) reset_of

abbrev created : PolicyHandler IamPolicyInfo ℕ
created =
    (perform toy_net toy_repository everybody (create_action_of read_action) 1
      (handler_of (no_policy 1))).1

no_lost_update_example : Stays created (perform toy_net toy_repository everybody reset_of 1 created)
no_lost_update_example =
    no_lost_update toy_net toy_repository everybody (create_action_of read_action) reset_of 1 2
      (handler_of (no_policy 1)) created (ap (λ w. w.0) creates) done

pushes : push_action read_action (no_policy 1) ≡ ok (one_action 1)
unfolding push_action ◌==◌
pushes = refl

compiles : compile toy_net (one_action 1) 2 ≡ ok (compiled_of (one_action 2))
unfolding compile try_map is_blank trim trim_matches ◌==◌
compiles = refl

mutate_succeeds_example :
    mutate toy_net toy_repository everybody 1 (push_action read_action) (handler_of (no_policy 1))
    ≡ (ok (one_action 2), handler_of (one_action 2))
mutate_succeeds_example =
    mutate_succeeds toy_net toy_repository everybody (push_action read_action) 1
      (handler_of (no_policy 1)) (one_action 1) (compiled_of (one_action 2)) (one_action 1) refl
      (omega arith) pushes compiles refl

abbrev asks : AuthorizeRequest ℕ
asks = record {
  principal_id = codes "p";
  group_principal_ids = [];
  action = codes "r";
  resource_urn = codes "urn:iam:prod:growth:global:acme:job/1";
  parent_urns = [];
  context = record {
    source_ip = none;
    request_method = none;
    secure_transport = none;
    claims = [];
  };
}

abbrev default_deny : AuthorizationDecision
default_deny = record { allowed = false; reason = codes "default deny"; role_binding_id = none }

answers :
    authorize_request toy_net toy_repository everybody asks (handler_of (one_action 2))
    ≡ ok default_deny
unfolding authorize_request try_map is_blank trim trim_matches ◌==◌ Exact.from_str split_urn
    split_path splitn split Catalog.authorize Evaluator.authorize
answers = refl

authorize_request-Decided_example :
    Decided toy_net toy_repository everybody asks (handler_of (one_action 2)) default_deny
authorize_request-Decided_example =
    authorize_request-Decided toy_net toy_repository everybody asks (handler_of (one_action 2))
      default_deny answers
