-- ===== src/Authn/Examples.antt =====
-- Tests of account linking, tokens and the pipeline, and their theorems at small stores.
use authguard.Base.{
  ◌≡◌, refl, sym, ap, subst, ◌∙◌, inl, inr, Bool, true, false, ◌&&◌, Bool-cases, Option, none, some,
  some_inj, is_blank, List, [], ◌∷◌, Text, codes, ◌==◌, eq_iff, eq_refl, contains, len, trim,
  lookup, Result, ok, err, ok_inj, if◌then◌else◌,
}
use authguard.Model.{user, active}
use authguard.Access.Examples.{toy}
use authguard.Identity.Canonical.{validate_canonical}
use authguard.Identity.Json.{string}
use authguard.Identity.Claims.{AuthenticatedPrincipalContext}
use authguard.Identity.External.{
  ExternalIdentity, ExternalIdentityKey, IdentityModelError, AuthenticationResult, key,
}
use authguard.Identity.Headers.{find_map}
use authguard.Principals.Store.{Principal}
use authguard.Authn.Linking.{
  IdentityBindingRepository, IdentityRepositoryError, backend, AccountLinkingProperties, explicit,
  first_login, resolve_login, link_identity, authoritative_login_required,
}
use authguard.Authn.LinkingLaws.{KeepsBindings, login_again, login_refused}
use authguard.Authn.LinkLaws.{Permits, link-login}

-- The bindings, the newest first.
abbrev pub Bindings : Type 0
Bindings = List (ExternalIdentityKey × Principal)

abbrev same_key : ExternalIdentityKey → ExternalIdentityKey → Bool
same_key a b = a.provider == b.provider && (a.issuer == b.issuer && a.subject == b.subject)

same_key_refl : (k : ExternalIdentityKey) → same_key k k ≡ true
same_key_refl k = rw (eq_refl k.provider, eq_refl k.issuer, eq_refl k.subject) refl

abbrev pub find : ExternalIdentityKey → Bindings → Option Principal
find wanted [] = none
find wanted ((held, principal) ∷ db) =
    if same_key held wanted then some principal else find wanted db

abbrev by_id : Text → Bindings → Option Principal
by_id id [] = none
by_id id ((held, principal) ∷ db) = if principal.id == id then some principal else by_id id db

abbrev has_provider : Text → Text → Bindings → Bool
has_provider id provider [] = false
has_provider id provider ((held, principal) ∷ db) =
    if principal.id == id && held.provider == provider then true else has_provider id provider db

abbrev put :
    Result IdentityModelError ExternalIdentityKey
    → Option Principal
    → Bindings
    → Result IdentityRepositoryError Principal × Bindings
put (ok k) (some principal) db = (ok principal, (k, principal) ∷ db)
put (ok k) none db = (err (backend (codes "no principal")), db)
put (err e) principal db = (err (backend (codes "no key")), db)

abbrev pub bindings : IdentityBindingRepository Bindings
bindings = record {
  find_principal_by_identity = λ k db. ok (find k db);
  create_principal_and_bind = λ principal identity db. put (key identity) (some principal) db;
  bind_identity = λ id identity db. put (key identity) (by_id id db) db;
  principal_has_provider = λ id provider db. ok (has_provider id provider db);
  rollback_identity_binding = λ id k db. (ok tt, db);
}

by_id-id : (id : Text) (db : Bindings) (p : Principal) → by_id id db ≡ some p → p.id ≡ id
by_id-id id [] p h = cc
by_id-id id ((held, principal) ∷ db) p h = elim (Bool-cases (principal.id == id)) [
  | inl same ↦ ap (λ q. q.id) (sym (some_inj (rw same at h))) ∙ (eq_iff principal.id id).0 same
  | inr other ↦ by_id-id id db p (rw other at h)
]

put-finds :
    (k : ExternalIdentityKey) (made : Result IdentityModelError ExternalIdentityKey)
    (chosen : Option Principal) (stored : Principal) (db after : Bindings)
    → made ≡ ok k
    → put made chosen db ≡ (ok stored, after)
    → (chosen ≡ some stored) × (find k after ≡ some stored)
put-finds k (err e) chosen stored db after m h = cc
put-finds k (ok held) none stored db after m h = cc
put-finds k (ok held) (some principal) stored db after m h =
    let same : principal ≡ stored = ok_inj (ap (λ r. r.0) h) in
    (
      ap some same,
      subst (λ d. find k d ≡ some stored) (ap (λ r. r.1) h)
          (subst (λ x. find k ((x, principal) ∷ db) ≡ some stored) (sym (ok_inj m))
            (rw (same_key_refl k) (ap some same))),
    )

pub keeps : (policy : AccountLinkingProperties) → KeepsBindings bindings policy
keeps policy = record {
  created = λ principal stored identity k db after has_key w.
      ap ok (put-finds k (key identity) (some principal) stored db after has_key w).1;
  bound = λ id stored identity k db after has_key w.
      let (chosen, finds) = put-finds k (key identity) (by_id id db) stored db after has_key w in
      (by_id-id id db stored chosen, ap ok finds);
}

abbrev pub on_first_login : AccountLinkingProperties
on_first_login = record {
  strategy = first_login;
  authoritative_providers = [];
  allow_link = (codes "corp", codes "git" ∷ []) ∷ [];
}

abbrev on_request : AccountLinkingProperties
on_request = record {
  strategy = explicit;
  authoritative_providers = codes "corp" ∷ [];
  allow_link = [];
}

abbrev pub identity_of : Text → ExternalIdentity
identity_of provider = record {
  provider = provider;
  issuer = codes "i";
  subject = codes "s";
  claims = (codes "tenant_id", string (codes "acme")) ∷ (codes "email", string (codes "m")) ∷ [];
}

abbrev pub by_password : Text → AuthenticationResult
by_password provider = record {
  external_identity = identity_of provider;
  amr = codes "pwd" ∷ [];
  acr = none;
  authenticated_at = some 90;
}

abbrev pub with_code : Text → AuthenticationResult
with_code provider = record (by_password provider) { amr = codes "otp" ∷ [] }

abbrev pub key_of : Text → ExternalIdentityKey
key_of provider = record { provider = provider; issuer = codes "i"; subject = codes "s" }

abbrev pub made : Principal
made = record {
  id = codes "P_1";
  kind = user;
  display_name = codes "m";
  status = active;
  authorization_state = [];
}

abbrev pub logged_in : AuthenticatedPrincipalContext
logged_in = record {
  principal_id = codes "P_1";
  kind = user;
  stable_group_ids = [];
  trusted_claims = [];
  acr = none;
  amr = codes "pwd" ∷ [];
}

abbrev pub after_login : Bindings
after_login = (key_of (codes "corp"), made) ∷ []

logs_in :
    resolve_login bindings on_first_login toy (2 ∷ []) (by_password (codes "corp")) user []
    ≡ (ok logged_in, after_login)
unfolding resolve_login validate_canonical ◌==◌ trim lookup key len find_map is_blank
logs_in = refl

login_again_example :
    (later : AuthenticatedPrincipalContext) × (resolve_login bindings on_first_login toy
        (3 ∷ [])
        (with_code (codes "corp"))
        user
        after_login
      ≡ (ok later, after_login))
    × (later.principal_id ≡ codes "P_1")
login_again_example =
    login_again bindings on_first_login toy (keeps on_first_login) (2 ∷ []) (3 ∷ [])
      (by_password (codes "corp")) (with_code (codes "corp")) user user [] after_login logged_in
      refl logs_in

git_key : key (identity_of (codes "git")) ≡ ok (key_of (codes "git"))
unfolding key validate_canonical ◌==◌ trim len
git_key = refl

other_provider : contains (codes "git") on_request.authoritative_providers ≡ false
unfolding ◌==◌
other_provider = refl

login_refused_example :
    resolve_login bindings on_request toy (2 ∷ []) (by_password (codes "git")) user []
    ≡ (err (authoritative_login_required (codes "git")), [])
login_refused_example =
    login_refused bindings on_request toy (2 ∷ []) (by_password (codes "git")) user
      (key_of (codes "git")) [] git_key refl refl other_provider

abbrev after_link : Bindings
after_link = (key_of (codes "git"), made) ∷ after_login

links :
    link_identity bindings on_first_login (codes "P_1") (by_password (codes "git")) after_login
    ≡ (ok logged_in, after_link)
unfolding link_identity validate_canonical ◌==◌ trim key len
links = refl

link-login_example :
    Permits bindings on_first_login
      (codes "P_1")
      (codes "git")
      after_login
      on_first_login.allow_link
    × (logged_in.principal_id ≡ codes "P_1")
    × (login : AuthenticatedPrincipalContext) × (resolve_login bindings on_first_login toy
          (3 ∷ [])
          (with_code (codes "git"))
          user
          after_link
        ≡ (ok login, after_link))
    × (login.principal_id ≡ codes "P_1")
link-login_example =
    link-login bindings on_first_login toy (keeps on_first_login) (codes "P_1") (3 ∷ [])
      (by_password (codes "git")) (with_code (codes "git")) user after_login after_link logged_in
      refl links
