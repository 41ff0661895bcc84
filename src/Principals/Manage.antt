-- ===== src/Principals/Manage.antt =====
-- The other operations of `PrincipalHandler`, src/authz/src/handler/principal.rs.
use authguard.Base.{
  ℕ, min, max, Bool, true, false, ◌&&◌, Option, none, some, List, [], ◌∷◌, ◌++◌, Text, codes, ◌==◌,
  eqb, any, length, is_empty, text_le, from_pairs, retain, try_map, Result, ok, err, ◌>>=◌, map_err,
  ok_or, if◌then◌else◌,
}
use authguard.Model.{PrincipalStatus, active, disabled}
use authguard.Identity.Json.{object, fields_of}
use authguard.Principals.Store.{
  Principal, PrincipalRepository, StorageError, PrincipalDiscoveryError, invalid_configuration,
  unknown_provider, PrincipalHandlerError, not_found, provider_unavailable, discovery, storage,
  map_storage_error,
}
use authguard.Principals.Discovery.{
  PrincipalProjection, PrincipalMaterializationRequest, PrincipalSearchQuery, PrincipalSearchPage,
  SearchProvider, validate_search_query,
}

pub record PrincipalPage : Type 0 where
  pub total : ℕ
  pub items : List Principal
  pub next_cursor : Option Text

abbrev pub has_id : Text → SearchProvider → Bool
has_id provider_id provider = provider.provider_id == provider_id

-- The provider of an id: there must be one, and no second one.
abbrev pub only : Text → List SearchProvider → Result PrincipalDiscoveryError SearchProvider
only provider_id [] = err (unknown_provider provider_id)
only provider_id (selected ∷ []) = ok selected
only provider_id (selected ∷ second ∷ rest) =
    err (invalid_configuration (codes "duplicate search provider id `" ++ provider_id ++ codes "`"))

unfoldable pub selected_search_providers :
    List SearchProvider → List Text → Result PrincipalDiscoveryError (List SearchProvider)
unfolding try_map
selected_search_providers providers filter =
    if is_empty filter
    then ok providers
    else try_map (λ provider_id. only provider_id (retain (has_id provider_id) providers)) filter

-- The key `(issuer, external_id)`
abbrev pub has_key : Text × Text → PrincipalProjection → Bool
has_key key principal =
    key.0 == principal.reference.issuer && key.1 == principal.reference.external_id

abbrev pub key_le : PrincipalProjection → PrincipalProjection → Bool
key_le p q =
    if p.reference.issuer == q.reference.issuer
    then text_le p.reference.external_id q.reference.external_id
    else text_le p.reference.issuer q.reference.issuer

-- The values of the `BTreeMap`, in the order of their keys.
unfoldable pub insert_by_key :
    PrincipalProjection → List PrincipalProjection → List PrincipalProjection
insert_by_key p [] = p ∷ []
insert_by_key p (q ∷ qs) = if key_le p q then p ∷ q ∷ qs else q ∷ insert_by_key p qs

-- `entry(key).or_insert(principal)`
unfoldable pub or_insert : PrincipalProjection → List PrincipalProjection → List PrincipalProjection
unfolding insert_by_key
or_insert p unique =
    if any (has_key (p.reference.issuer, p.reference.external_id)) unique
    then unique
    else insert_by_key p unique

unfoldable pub deduplicate_from :
    List PrincipalProjection → List PrincipalProjection → List PrincipalProjection
unfolding or_insert
deduplicate_from unique [] = unique
deduplicate_from unique (p ∷ principals) = deduplicate_from (or_insert p unique) principals

abbrev pub deduplicate_principals : List PrincipalProjection → List PrincipalProjection
deduplicate_principals principals = deduplicate_from [] principals

-- Pages by the id of their provider, in the order of the ids.
abbrev pub Pages : Type 0
Pages = List (Text × PrincipalSearchPage)

-- `BTreeMap::insert`
unfoldable pub insert_page : Text → PrincipalSearchPage → Pages → Pages
insert_page id page [] = (id, page) ∷ []
insert_page id page ((held, old) ∷ pages) =
    if held == id
    then (id, page) ∷ pages
    else if text_le id held
    then (id, page) ∷ (held, old) ∷ pages
    else (held, old) ∷ insert_page id page pages

-- The tasks as they end; the first failure ends the search.
unfoldable pub collect_pages :
    PrincipalSearchQuery → Pages → List SearchProvider → Result PrincipalDiscoveryError Pages
unfolding insert_page
collect_pages query pages [] = ok pages
collect_pages query pages (provider ∷ providers) = do
  page ← provider.discover query
  collect_pages query (insert_page provider.provider_id page pages) providers

unfoldable pub all_principals : Pages → List PrincipalProjection
all_principals [] = []
all_principals ((id, page) ∷ pages) = page.principals ++ all_principals pages

unfoldable pub all_cursors : List (Text × Text) → Pages → List (Text × Text)
all_cursors cursors [] = cursors
all_cursors cursors ((id, page) ∷ pages) = all_cursors (from_pairs cursors page.next_cursors) pages

abbrev pub aggregate : Pages → PrincipalSearchPage
aggregate pages = record {
  principals = deduplicate_principals (all_principals pages);
  next_cursors = all_cursors [] pages;
}

-- `finish` is the order in which the tasks end.
unfoldable pub search :
    (List SearchProvider → List SearchProvider)
    → List SearchProvider
    → PrincipalSearchQuery
    → Result PrincipalHandlerError PrincipalSearchPage
unfolding validate_search_query selected_search_providers collect_pages deduplicate_from
    all_principals all_cursors
search finish federated query = do
  _ ← map_err discovery (validate_search_query query)
  if is_empty federated then err provider_unavailable else (do
    selected ← map_err discovery (selected_search_providers federated query.provider_ids)
    pages ← map_err discovery (collect_pages query [] (finish selected))
    ok (aggregate pages))

-- `iter().find(…)`
unfoldable pub find_provider : Text → List SearchProvider → Option SearchProvider
find_provider id [] = none
find_provider id (provider ∷ providers) =
    if has_id id provider then some provider else find_provider id providers

abbrev pub status_of : Bool → PrincipalStatus
status_of true = active
status_of false = disabled

abbrev pub last_id : List Principal → Option Text
last_id [] = none
last_id (p ∷ []) = some p.id
last_id (p ∷ q ∷ ps) = last_id (q ∷ ps)

abbrev pub page_of : ℕ → List Principal → PrincipalPage
page_of limit items = record {
  total = length items;
  items = items;
  next_cursor = if eqb (length items) limit then last_id items else none;
}

module _ {Db : Type 0} (repository : PrincipalRepository Db) where
  abbrev pub Done : Type 0 → Type 0
  Done A = Result PrincipalHandlerError A × Db

  abbrev pub stored_or_conflict : {A : Type 0} → Result StorageError A × Db → Done A
  stored_or_conflict (outcome, db) = (map_err map_storage_error outcome, db)

  unfoldable pub upsert_external : Text → PrincipalProjection → Db → Done Principal
  upsert_external principal_id external db = stored_or_conflict (
      repository.upsert_with_identity
        (record {
          id = principal_id;
          kind = external.kind;
          display_name = external.display_name;
          status = status_of external.enabled;
          authorization_state = [];
        })
        (record {
          principal_id = principal_id;
          provider = external.reference.provider_id;
          issuer = external.reference.issuer;
          subject = external.reference.external_id;
          claims = object (fields_of external.attributes);
        })
        db)

  -- The candidate as its provider answers it again.
  abbrev pub resolved_again :
      List SearchProvider
      → PrincipalMaterializationRequest
      → Result PrincipalHandlerError PrincipalProjection
  resolved_again federated request = do
    provider ←
        ok_or (discovery (unknown_provider request.reference.provider_id))
          (find_provider request.reference.provider_id federated)
    found ← map_err discovery (provider.resolve_principal request.reference)
    ok_or (not_found request.reference.external_id) found

  abbrev pub materialized :
      Text → Db → Result PrincipalHandlerError PrincipalProjection → Done Principal
  materialized principal_id db (err e) = (err e, db)
  materialized principal_id db (ok external) = upsert_external principal_id external db

  unfoldable pub materialize :
      List SearchProvider → PrincipalMaterializationRequest → Db → Done Principal
  unfolding find_provider upsert_external
  materialize federated request db =
      materialized request.principal_id db (resolved_again federated request)

  unfoldable pub get : Text → Db → Result PrincipalHandlerError (Option Principal)
  get id db = map_err storage (repository.get id db)

  unfoldable pub list_page :
      Text → Option Text → ℕ → Db → Result PrincipalHandlerError PrincipalPage
  list_page query after_id limit db = do
    let bound = min (max limit 1) 100
    items ← map_err storage (repository.list query after_id bound db)
    ok (page_of bound items)

  abbrev pub updated : Text → Result StorageError (Option Principal) × Db → Done Principal
  updated id (outcome, db) = (map_err storage outcome >>= ok_or (not_found id), db)

  unfoldable pub update_status : Text → PrincipalStatus → Db → Done Principal
  update_status id status db = updated id (repository.update_status id status db)

  abbrev pub deleted : Text → Result StorageError Bool × Db → Done (Unit {0})
  deleted id (err e, db) = (err (map_storage_error e), db)
  deleted id (ok false, db) = (err (not_found id), db)
  deleted id (ok true, db) = (ok tt, db)

  unfoldable pub delete : Text → Db → Done (Unit {0})
  delete id db = deleted id (repository.delete id db)
