-- ===== src/Authn/PipelineExamples.antt =====
-- A whole login at a small store and toy keys, and the theorems about the pipeline there.
use authguard.Base.{
  ◌≤◌, ◌≡◌, ◌↔◌, refl, sym, ap, subst, arith, true, false, none, some, [], ◌∷◌, codes, ◌==◌,
  is_blank, is_empty, some_inj, len, trim, insert, lookup, from_pairs, ok, err,
}
use authguard.Model.{user}
use authguard.Cache.Memory.{saturating_add, as_secs}
use authguard.Access.Examples.{toy, toy-IsUrlSafe}
use authguard.Identity.Canonical.{validate_canonical, validate_canonical-eq-ok}
use authguard.Identity.Headers.{find_map}
use authguard.Identity.Json.{Serde, Object, object, fields_of}
use authguard.Identity.Claims.{
  AuthenticatedPrincipalContext, max_scalar_claim_bytes, scalar_bytes, scalar_claims,
  is_boundary_claim,
}
use authguard.Identity.External.{key}
use authguard.Jwt.Signing.{Rsa, sign, verify}
use authguard.Jwt.SigningLaws.{IsKeyPair, IsJwt, IsJwt-verify_iff}
use authguard.Authn.Linking.{resolve_login}
use authguard.Authn.LinkingLaws.{IsBound}
use authguard.Authn.Projection.{project_authorization_context}
use authguard.Authn.ProjectionLaws.{IsProjected, project-IsProjected}
use authguard.Authn.Token.{token_claims, issue, authenticate}
use authguard.Authn.TokenTrip.{ReadsBack, IsIssuable}
use authguard.Authn.Pipeline.{
  AuthenticationPipeline, IssuedAuthentication, login, complete_step_up, resolve_step_up,
  step_up_principal_mismatch,
}
use authguard.Authn.PipelineLaws.{
  login-authenticate, complete_step_up-authenticate, step_up_refused,
}
use authguard.Authn.Examples.{
  bindings, on_first_login, by_password, made, after_login, key_of, logged_in, keeps, identity_of,
  find,
}

-- One key, whose signature of every text is the byte 2.
abbrev pub toy_rsa : Rsa (Unit {0}) (Unit {0})
toy_rsa = record {
  from_pkcs8_pem = λ pem. some tt;
  bits = λ k. 2048;
  is_valid = λ k. true;
  to_pkcs1_pem = λ k. some (codes "public");
  from_pkcs1_pem = λ pem. some tt;
  sign = λ k text. 2 ∷ [];
  is_signature = λ bytes. true;
  verify = λ k text signature. true;
}

toy_pair : IsKeyPair toy_rsa toy tt (codes "public")
toy_pair = record {
  public = tt;
  public_read = refl;
  formed = λ text. refl;
  accepts = λ text. refl;
  decoded = toy-IsUrlSafe.decoded;
  no_dot = toy-IsUrlSafe.no_dot;
  mark_filled = λ text. refl;
}

abbrev pub pipeline : AuthenticationPipeline (Unit {0})
pipeline = record {
  policy = on_first_login;
  tokens = record {
    config = record { issuer = codes "ag"; audience = codes "api"; ttl = 60000000000 };
    signing_key = some tt;
    public_key = some (codes "public");
  };
}

abbrev projected : AuthenticatedPrincipalContext
projected = record logged_in { trusted_claims = (codes "tenant_id", codes "acme") ∷ [] }

abbrev claims : Object
claims = token_claims pipeline.tokens.config projected (by_password (codes "corp")) 90 100

-- A library that knows one object, which it writes as the byte 1.
abbrev pub one_object : Serde
one_object = record {
  from_slice = λ payload. some (object (fields_of claims));
  to_vec = λ value. some (1 ∷ []);
  u64_to_string = λ n. codes "100";
}

reads_back : ReadsBack toy one_object claims
reads_back = record {
  reads = λ payload written. refl;
  written_filled = λ payload written.
      subst (λ bytes. is_empty (toy.encode bytes) ≡ false) (some_inj written) refl;
}

abbrev issued : IssuedAuthentication
issued = record {
  access_token = sign toy_rsa toy tt (1 ∷ []);
  expires_in = 60;
  principal = projected;
}

logs_in_with_token :
    login toy_rsa toy
      (λ text. none)
      one_object
      bindings
      pipeline
      (2 ∷ [])
      100
      (by_password (codes "corp"))
      user
      []
    ≡ (ok issued, after_login)
unfolding login resolve_login validate_canonical ◌==◌ trim lookup key len find_map is_blank
    project_authorization_context insert
logs_in_with_token = refl

canonical_id : validate_canonical (codes "P_1") (codes "principal_id") ≡ ok tt
unfolding validate_canonical ◌==◌ trim len
canonical_id = refl

scalar_size : scalar_bytes 0 (scalar_claims one_object claims) ≡ 25
unfolding scalar_claims ◌==◌ token_claims insert from_pairs len scalar_bytes is_boundary_claim
scalar_size = refl

small : scalar_bytes 0 (scalar_claims one_object claims) ≤ max_scalar_claim_bytes
small = subst (λ n. n ≤ max_scalar_claim_bytes) (sym scalar_size) (omega arith)

issuable : IsIssuable pipeline.tokens.config projected (by_password (codes "corp")) 90 100
unfolding lookup ◌==◌
issuable = record {
  canonical = validate_canonical-eq-ok (codes "P_1") (codes "principal_id") canonical_id;
  groups = record { canonical = tt; increasing = tt; few = omega arith };
  short = omega arith;
  no_acr = refl;
}

issues :
    issue toy_rsa toy
      (λ text. none)
      one_object
      pipeline.tokens
      projected
      (by_password (codes "corp"))
      100
    ≡ ok issued.access_token
unfolding issue
issues = refl

steps_up :
    complete_step_up toy_rsa toy
      (λ text. none)
      one_object
      bindings
      pipeline
      (2 ∷ [])
      100
      (codes "P_1")
      (by_password (codes "corp"))
      user
      after_login
    ≡ (ok issued, after_login)
unfolding complete_step_up resolve_step_up resolve_login validate_canonical ◌==◌ trim lookup key len
    project_authorization_context insert
steps_up = refl

corp_key : key (identity_of (codes "corp")) ≡ ok (key_of (codes "corp"))
unfolding key validate_canonical ◌==◌ trim len
corp_key = refl

finds_made : find (key_of (codes "corp")) after_login ≡ some made
unfolding ◌==◌
finds_made = refl

IsBound-corp :
    IsBound bindings on_first_login (identity_of (codes "corp")) after_login (codes "P_1")
IsBound-corp = record {
  identity_key = key_of (codes "corp");
  has_key = corp_key;
  principal = made;
  found = ap ok finds_made;
  active_principal = refl;
  same_id = refl;
}

login-authenticate_example :
    IsBound bindings on_first_login (identity_of (codes "corp")) after_login (codes "P_1")
    × (found : AuthenticatedPrincipalContext) × (authenticate toy_rsa toy
          (λ text. none)
          one_object
          pipeline.tokens
          issued.access_token
          130
        ≡ ok found)
    × (found.principal_id ≡ codes "P_1")
    × (found.kind ≡ user)
    × (found.stable_group_ids ≡ [])
unfolding saturating_add as_secs
login-authenticate_example =
    login-authenticate toy_rsa toy (λ text. none) one_object bindings pipeline
      (keeps on_first_login) tt (codes "public") toy_pair (2 ∷ []) 100 130 90
      (by_password (codes "corp")) user [] after_login issued refl refl refl reads_back
      issuable.canonical small (omega arith) logs_in_with_token

complete_step_up-authenticate_example :
    IsBound bindings on_first_login (identity_of (codes "corp")) after_login (codes "P_1")
    × (found : AuthenticatedPrincipalContext) × (authenticate toy_rsa toy
          (λ text. none)
          one_object
          pipeline.tokens
          issued.access_token
          130
        ≡ ok found)
    × (found.principal_id ≡ codes "P_1")
    × (found.kind ≡ user)
    × (found.stable_group_ids ≡ [])
unfolding saturating_add as_secs
complete_step_up-authenticate_example =
    complete_step_up-authenticate toy_rsa toy (λ text. none) one_object bindings pipeline
      (keeps on_first_login) tt (codes "public") toy_pair (2 ∷ []) 100 130 90 (codes "P_1")
      (by_password (codes "corp")) user after_login after_login issued refl refl refl reads_back
      issuable.canonical small (omega arith) steps_up

differs : (codes "P_1" == codes "P_2") ≡ false
unfolding ◌==◌
differs = refl

step_up_refused_example :
    resolve_step_up toy_rsa toy
      (λ text. none)
      one_object
      bindings
      pipeline
      (2 ∷ [])
      (codes "P_2")
      (by_password (codes "corp"))
      user
      after_login
    ≡ (err step_up_principal_mismatch, after_login)
step_up_refused_example =
    step_up_refused toy_rsa toy (λ text. none) one_object bindings pipeline (2 ∷ []) (codes "P_2")
      (codes "P_1") (by_password (codes "corp")) user after_login IsBound-corp differs

project-IsProjected_example :
    IsProjected one_object
      (by_password (codes "corp")).external_identity.claims
      (project_authorization_context one_object logged_in (by_password (codes "corp")))
project-IsProjected_example = project-IsProjected one_object logged_in (by_password (codes "corp"))

IsJwt-verify_iff_example :
    (verify toy_rsa toy (codes "public") issued.access_token ≡ ok (1 ∷ []))
    ↔ IsJwt toy_rsa toy (codes "public") (1 ∷ []) issued.access_token
IsJwt-verify_iff_example =
    IsJwt-verify_iff toy_rsa toy (codes "public") issued.access_token (1 ∷ [])
