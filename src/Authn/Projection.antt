-- ===== src/Authn/Projection.antt =====
-- `project_authorization_context` of src/authn/src/handler/authentication.rs.
use authguard.Base.{
  ℕ, ◌+◌, ◌*◌, Bool, true, false, not, ◌||◌, ◌&&◌, Option, none, some, List, [], ◌∷◌, Text, codes,
  contains, all, len, length, leb, ltb, sort, dedup, insert, lookup, Result, ok, err, if◌then◌else◌,
}
use authguard.Cache.Memory.{saturating_add}
use authguard.Identity.Json.{
  Value, null, boolean, number, string, array, object, Object, Serde, elements, as_str,
}
use authguard.Identity.Canonical.{validate_canonical}
use authguard.Identity.Headers.{and_then}
use authguard.Identity.Claims.{
  AuthenticatedPrincipalContext, max_groups, max_group_bytes, total_len, boundary_claims,
  scalar_claim,
}
use authguard.Identity.External.{AuthenticationResult}

abbrev pub max_context_bytes : ℕ
max_context_bytes = 64 * 1024

abbrev pub add_text : Option Text → Option (List Text) → Option (List Text)
add_text (some text) (some texts) = some (text ∷ texts)
add_text _ _ = none

-- `collect::<Option<Vec<_>>>()` of the texts
unfoldable pub all_texts : List Value → Option (List Text)
all_texts [] = some []
all_texts (value ∷ values) = add_text (as_str value) (all_texts values)

unfoldable pub group_values : Value → Option (List Text)
unfolding all_texts
group_values (string value) = some (value ∷ [])
group_values (array values) = all_texts (elements values)
group_values null = none
group_values (boolean _) = none
group_values (number _) = none
group_values (object _) = none

abbrev pub private_claims : List Text
private_claims = codes "username" ∷ codes "email" ∷ codes "display_name" ∷ boundary_claims

unfoldable pub is_private_or_reserved_claim : Text → Bool
is_private_or_reserved_claim name = contains name private_claims

abbrev pub is_ok : {E A : Type 0} → Result E A → Bool
is_ok (ok _) = true
is_ok (err _) = false

abbrev pub is_canonical : Text → Text → Bool
is_canonical field value = is_ok (validate_canonical value field)

-- The filter of the groups
abbrev pub groups_fit : List Text → Bool
groups_fit groups =
    leb (length groups) max_groups
    && leb (total_len groups) max_group_bytes
    && all (is_canonical (codes "authguard_group_ids")) groups

-- `filter`, `map` and `unwrap_or_default`
abbrev pub projected_groups : Option (List Text) → List Text
projected_groups none = []
projected_groups (some groups) = if groups_fit groups then dedup (sort groups) else []

-- The claims that were taken, and their bytes.
pub record Context : Type 0 where
  pub claims : List (Text × Text)
  pub bytes : ℕ

abbrev pub take_claim : Text → Option Text → Context → Context
take_claim name none context = context
take_claim name (some value) context =
    let size = saturating_add (len name) (len value) in
    if not (is_canonical (codes "trusted_claim") name)
      || ltb max_context_bytes (saturating_add context.bytes size)
    then context
    else record { claims = insert name value context.claims; bytes = context.bytes + size }

module _ (serde : Serde) where
  abbrev pub project_claim : Context → Text × Value → Context
  project_claim context (name, value) =
      if is_private_or_reserved_claim name
      then context
      else take_claim name (scalar_claim serde value) context

  -- The loop over the claims.
  unfoldable pub project_claims : Context → Object → Context
  unfolding is_private_or_reserved_claim saturating_add scalar_claim
  project_claims context [] = context
  project_claims context (claim ∷ claims) = project_claims (project_claim context claim) claims

  abbrev pub no_context : Context
  no_context = record { claims = []; bytes = 0 }

  unfoldable pub project_authorization_context :
      AuthenticatedPrincipalContext → AuthenticationResult → AuthenticatedPrincipalContext
  unfolding group_values project_claims
  project_authorization_context principal authentication =
      let claims = authentication.external_identity.claims in
      record principal {
        stable_group_ids =
            projected_groups (and_then (lookup (codes "authguard_group_ids") claims) group_values);
        trusted_claims = (project_claims no_context claims).claims;
      }
