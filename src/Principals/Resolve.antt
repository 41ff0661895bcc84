-- ===== src/Principals/Resolve.antt =====
-- `resolve_request` of src/authz/src/handler/principal.rs.
use authguard.Base.{
  Bool, false, not, ◌&&◌, Option, none, some, List, [], ◌∷◌, map, Text, lookup, remove, from_pairs,
  sort, dedup, Result, ok, err, ◌>>=◌, map_err, ok_or, if◌then◌else◌,
}
use authguard.Model.{group, same_kind, is_active}
use authguard.Identity.Claims.{AuthenticatedPrincipalContext}
use authguard.Principals.Store.{
  Principal, PrincipalRepository, PrincipalHandlerError, not_found, disabled_principal,
  kind_mismatch, storage,
}

pub record ResolvedRequestPrincipal : Type 0 where
  pub principal_id : Text
  pub group_principal_ids : List Text

-- Principals by their id.
abbrev pub Table : Type 0
Table = List (Text × Principal)

abbrev pub entry : Principal → Text × Principal
entry principal = (principal.id, principal)

unfoldable pub by_id : List Principal → Table
by_id principals = from_pairs [] (map entry principals)

abbrev pub is_active_group : Option Principal → Bool
is_active_group none = false
is_active_group (some principal) = is_active principal.status && same_kind principal.kind group

abbrev pub add_group : Option Principal → List Text → List Text
add_group none rest = rest
add_group (some principal) rest =
    if is_active_group (some principal) then principal.id ∷ rest else rest

-- The loop over the groups of the identity.
unfoldable pub collect_groups : List Text → Table → List Text
collect_groups [] projected = []
collect_groups (group_id ∷ group_ids) projected =
    add_group (lookup group_id projected) (collect_groups group_ids (remove group_id projected))

-- The checks of the primary principal, and its groups.
unfoldable pub resolve_from :
    AuthenticatedPrincipalContext
    → Table
    → Principal
    → Result PrincipalHandlerError ResolvedRequestPrincipal
unfolding collect_groups
resolve_from identity projected primary =
    if not (is_active primary.status)
    then err (disabled_principal primary.id)
    else if not (same_kind primary.kind identity.kind)
    then err (kind_mismatch primary.id)
    else ok (record {
      principal_id = primary.id;
      group_principal_ids = dedup (sort (collect_groups identity.stable_group_ids projected));
    })

module _ {Db : Type 0} (repository : PrincipalRepository Db) where
  unfoldable pub resolve_request :
      AuthenticatedPrincipalContext → Db → Result PrincipalHandlerError ResolvedRequestPrincipal
  unfolding by_id resolve_from
  resolve_request identity db = do
    found ←
        map_err storage
          (repository.find_by_ids (identity.principal_id ∷ identity.stable_group_ids) db)
    primary ← ok_or (not_found identity.principal_id) (lookup identity.principal_id (by_id found))
    resolve_from identity (remove identity.principal_id (by_id found)) primary
