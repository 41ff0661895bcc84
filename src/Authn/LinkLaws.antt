-- ===== src/Authn/LinkLaws.antt =====
-- When an identity is linked to a principal, and what a link does.
use authguard.Base.{
  ◌≡◌, ◌⊎◌, refl, ap, subst, ◌∙◌, inl, inr, Bool, true, false, Text, List, [], ◌∷◌, contains,
  Result, ok, err, Result-cases, Bool-cases, bind-eq-ok, if◌then◌else◌,
}
use authguard.Model.{PrincipalKind}
use authguard.Access.Signer.{Bytes, Crypto}
use authguard.Identity.Claims.{AuthenticatedPrincipalContext}
use authguard.Identity.External.{ExternalIdentity, ExternalIdentityKey, AuthenticationResult, key}
use authguard.Principals.Store.{Principal}
use authguard.Authn.Linking.{
  IdentityBindingRepository, IdentityRepositoryError, AccountLinkingProperties, written,
  resolve_login, permitted, link_permitted, link_identity,
}
use authguard.Authn.LinkingLaws.{
  IsBound-key, context-eq-ok, KeepsBindings, IsBound, written-IsBound, resolve_login_of_IsBound,
}

module _ {Db : Type 0} (repository : IdentityBindingRepository Db)
    (policy : AccountLinkingProperties) where
  -- An entry of `allow_link` whose authoritative provider the principal has, and whose secondary
  -- providers have this one.
  abbrev pub Permits : Text → Text → Db → List (Text × List Text) → Type 0
  Permits principal_id provider db [] = ⊥
  Permits principal_id provider db ((authoritative, secondary) ∷ rest) =
      ((contains provider secondary ≡ true)
        × (repository.principal_has_provider principal_id authoritative db ≡ ok true))
      ⊎ Permits principal_id provider db rest

  permitted_entry :
      (principal_id provider authoritative : Text) (secondary : List Text) (db : Db)
      (rest : List (Text × List Text)) (has : Bool)
      → contains provider secondary ≡ true
      → repository.principal_has_provider principal_id authoritative db ≡ ok has
      → (permitted repository policy principal_id provider db rest ≡ ok true
          → Permits principal_id provider db rest)
      → (if has then ok true else permitted repository policy principal_id provider db rest)
        ≡ ok true
      → Permits principal_id provider db ((authoritative, secondary) ∷ rest)
  permitted_entry principal_id provider authoritative secondary db rest true listed e later h =
      inl (listed, e)
  permitted_entry principal_id provider authoritative secondary db rest false listed e later h =
      inr (later h)

  permitted-Permits :
      (principal_id provider : Text) (db : Db) (links : List (Text × List Text))
      → permitted repository policy principal_id provider db links ≡ ok true
      → Permits principal_id provider db links
  unfolding permitted
  permitted-Permits principal_id provider db [] h = cc
  permitted-Permits principal_id provider db ((authoritative, secondary) ∷ rest) h =
      elim (Bool-cases (contains provider secondary)) [
        | inr other ↦ inr (permitted-Permits principal_id provider db rest (rw other at h))
        | inl listed ↦
            let (has, e, h₁) =
              bind-eq-ok (repository.principal_has_provider principal_id authoritative db) _
                (rw listed at h) in
            permitted_entry principal_id provider authoritative secondary db rest has listed e
              (permitted-Permits principal_id provider db rest) h₁
      ]

  written-stored :
      (authentication : AuthenticationResult) (after : Db)
      (write : Result IdentityRepositoryError Principal × Db)
      (context_found : AuthenticatedPrincipalContext)
      → written repository policy authentication write ≡ (ok context_found, after)
      → (stored : Principal) × (write ≡ (ok stored, after))
        × (context_found.principal_id ≡ stored.id)
  written-stored authentication after (err e, now) context_found h = cc
  written-stored authentication after (ok stored, now) context_found h =
      let (alive, same, kind) =
        context-eq-ok stored authentication context_found (ap (λ r. r.0) h) in
      (stored, λ i. (ok stored, (h i).1), same)

  -- What an explicit link did.
  pub record IsLinked (principal_id : Text) (identity : ExternalIdentity) (db after : Db)
      (context_found : AuthenticatedPrincipalContext) : Type 0 where
    pub permits : Permits principal_id identity.provider db policy.allow_link
    pub bound : IsBound repository policy identity after principal_id
    pub same_principal : context_found.principal_id ≡ principal_id

  link_permitted-IsLinked :
      (laws : KeepsBindings repository policy) (principal_id : Text)
      (authentication : AuthenticationResult) (identity_key : ExternalIdentityKey) (db after : Db)
      (may : Result IdentityRepositoryError Bool) (found : AuthenticatedPrincipalContext)
      → key authentication.external_identity ≡ ok identity_key
      → permitted repository policy principal_id authentication.external_identity.provider db
          policy.allow_link
        ≡ may
      → link_permitted repository policy principal_id authentication db may ≡ (ok found, after)
      → IsLinked principal_id authentication.external_identity db after found
  link_permitted-IsLinked laws principal_id authentication identity_key db after (err e) found k m
        h =
      cc
  link_permitted-IsLinked laws principal_id authentication identity_key db after (ok false) found k
        m h =
      cc
  link_permitted-IsLinked laws principal_id authentication identity_key db after (ok true) found k m
        h =
      let (stored, w, same) = written-stored authentication after _ found h in
      let (same_stored, finds) =
        laws.bound principal_id stored authentication.external_identity identity_key db after k w in
      let same_principal = same ∙ same_stored in
      record {
        permits = permitted-Permits principal_id _ db policy.allow_link m;
        bound =
            subst (IsBound repository policy authentication.external_identity after) same_principal
              (written-IsBound repository policy authentication identity_key after _ found k
                (λ other now v. (laws.bound principal_id other _ identity_key db now k v).1) h);
        same_principal = same_principal;
      }

  -- A link that ends well is permitted, and binds the identity to the principal.
  pub link_identity-IsLinked :
      (laws : KeepsBindings repository policy) (principal_id : Text)
      (authentication : AuthenticationResult) (db after : Db)
      (found : AuthenticatedPrincipalContext)
      → link_identity repository policy principal_id authentication db ≡ (ok found, after)
      → IsLinked principal_id authentication.external_identity db after found
  unfolding link_identity
  link_identity-IsLinked laws principal_id authentication db after found h =
      elim (Result-cases (key authentication.external_identity)) [
        | inl (identity_key, k) ↦
            link_permitted-IsLinked laws principal_id authentication identity_key db after _ found k
              refl (rw k at h)
        | inr (e, k) ↦ cc (rw k at h)
      ]

  -- An identity is linked to a principal only when the policy has an authoritative provider of the
  -- principal under which it lists the identity's provider. Then the link gives that principal,
  -- and a login under the same key, on the database that the link left, gives it too and leaves the
  -- database as it is.
  pub link-login :
      (crypto : Crypto) (laws : KeepsBindings repository policy) (principal_id : Text)
      (random : Bytes) (authentication later : AuthenticationResult) (kind : PrincipalKind)
      (db after : Db) (found : AuthenticatedPrincipalContext)
      → key authentication.external_identity ≡ key later.external_identity
      → link_identity repository policy principal_id authentication db ≡ (ok found, after)
      → Permits principal_id authentication.external_identity.provider db policy.allow_link
        × (found.principal_id ≡ principal_id)
        × (login : AuthenticatedPrincipalContext) × (resolve_login repository policy crypto random
              later kind after
            ≡ (ok login, after))
        × (login.principal_id ≡ principal_id)
  link-login crypto laws principal_id random authentication later kind db after found same h =
      let linked = link_identity-IsLinked laws principal_id authentication db after found h in
      let (login, e, same_id) =
        resolve_login_of_IsBound repository policy crypto random later kind after principal_id (
          IsBound-key repository policy authentication.external_identity later.external_identity
            after principal_id same linked.bound) in
      (linked.permits, linked.same_principal, login, e, same_id)
