-- ===== src/Principals/ResolveLaws.antt =====
-- What a principal and its groups resolve to.
use authguard.Base.{
  ◌≡◌, refl, ap, ◌∙◌, arith, inl, inr, true, not, ◌&&◌, ◌||◌, Option, none, some, List, [], ◌∷◌,
  Text, ◌==◌, eq_iff, eq_refl, eq_comm, lookup, remove, contains, sort, dedup, any-dedup-sort,
  if◌then◌else◌, ok, map_err, ok_or, bind-eq-ok, map_err-eq-ok, ok_or-eq-ok, Bool-cases,
}
use authguard.Model.{is_active, same_kind}
use authguard.Identity.Claims.{AuthenticatedPrincipalContext}
use authguard.Principals.Store.{Principal, PrincipalRepository, storage, not_found}
use authguard.Principals.Resolve.{
  ResolvedRequestPrincipal, Table, by_id, is_active_group, add_group, collect_groups, resolve_from,
  resolve_request,
}

lookup-remove :
    (removed wanted : Text) (table : Table)
    → lookup wanted (remove removed table)
      ≡ (if removed == wanted then none else lookup wanted table)
unfolding lookup
lookup-remove removed wanted [] = ground arith
lookup-remove removed wanted ((held, principal) ∷ table) =
    let later = lookup-remove removed wanted table in
    ground (arith, later, eq_iff held removed, eq_iff held wanted, eq_iff removed wanted)

-- Every principal stands under its own id.
abbrev IsKeyed : Table → Type 0
IsKeyed table = (id : Text) (p : Principal) → lookup id table ≡ some p → p.id ≡ id

remove-IsKeyed : (removed : Text) (table : Table) → IsKeyed table → IsKeyed (remove removed table)
remove-IsKeyed removed table keyed id p found = elim (Bool-cases (removed == id)) [
  | inl gone ↦ cc (rw (lookup-remove removed id table, gone) at found)
  | inr kept ↦ keyed id p (rw (lookup-remove removed id table, kept) at found)
]

add_group-contains :
    (wanted group_id : Text) (found : Option Principal) (rest : List Text)
    → ((p : Principal) → found ≡ some p → p.id ≡ group_id)
    → contains wanted (add_group found rest)
      ≡ ((wanted == group_id && is_active_group found) || contains wanted rest)
add_group-contains wanted group_id none rest keyed = ground arith
add_group-contains wanted group_id (some p) rest keyed = ground (arith, keyed p refl)

collect_groups-contains :
    (wanted : Text) (group_ids : List Text) (table : Table)
    → IsKeyed table
    → contains wanted (collect_groups group_ids table)
      ≡ (contains wanted group_ids && is_active_group (lookup wanted table))
unfolding collect_groups
collect_groups-contains wanted [] table keyed = refl
collect_groups-contains wanted (group_id ∷ group_ids) table keyed =
    let rest = collect_groups group_ids (remove group_id table) in
    let later =
      collect_groups-contains wanted group_ids (remove group_id table)
        (remove-IsKeyed group_id table keyed) in
    add_group-contains wanted group_id (lookup group_id table) rest (keyed group_id)
    ∙ ground (
      arith,
      later,
      lookup-remove group_id wanted table,
      eq_iff wanted group_id,
      eq_iff group_id wanted,
    )

module _ {Db : Type 0} (repository : PrincipalRepository Db) where
  -- What the database holds, and that `find_by_ids` finds it.
  pub record FindsStored : Type 0 where
    pub stored : Text → Db → Option Principal
    pub keyed : (id : Text) (db : Db) (p : Principal) → stored id db ≡ some p → p.id ≡ id
    pub found :
        (ids : List Text) (db : Db) (ps : List Principal)
        → repository.find_by_ids ids db ≡ ok ps
        → (id : Text) → lookup id (by_id ps) ≡ (if contains id ids then stored id db else none)

  -- What a request resolves to.
  pub record Resolved (laws : FindsStored) (identity : AuthenticatedPrincipalContext) (db : Db)
      (resolved : ResolvedRequestPrincipal) : Type 0 where
    pub primary : Principal
    pub same_id : resolved.principal_id ≡ identity.principal_id
    pub primary_stored : laws.stored identity.principal_id db ≡ some primary
    pub primary_active : is_active primary.status ≡ true
    pub primary_kind : same_kind primary.kind identity.kind ≡ true
    pub groups :
        (id : Text)
        → contains id resolved.group_principal_ids ≡ (
            contains id identity.stable_group_ids
            && not (id == identity.principal_id)
            && is_active_group (laws.stored id db))

  abbrev Found : FindsStored → List Text → Db → List Principal → Type 0
  Found laws ids db ps =
      (id : Text) → lookup id (by_id ps) ≡ (if contains id ids then laws.stored id db else none)

  stored_primary :
      (laws : FindsStored) (identity : AuthenticatedPrincipalContext) (db : Db)
      (ps : List Principal) (primary : Principal)
      → Found laws (identity.principal_id ∷ identity.stable_group_ids) db ps
      → lookup identity.principal_id (by_id ps) ≡ some primary
      → laws.stored identity.principal_id db ≡ some primary
  stored_primary laws identity db ps primary found h =
      ground (arith, found identity.principal_id, eq_refl identity.principal_id)

  Found-IsKeyed :
      (laws : FindsStored) (ids : List Text) (db : Db) (ps : List Principal)
      → Found laws ids db ps
      → IsKeyed (by_id ps)
  Found-IsKeyed laws ids db ps found id p h = elim (Bool-cases (contains id ids)) [
    | inl asked ↦ laws.keyed id db p (rw (found id, asked) at h)
    | inr other ↦ cc (rw (found id, other) at h)
  ]

  group_test :
      (laws : FindsStored) (identity : AuthenticatedPrincipalContext) (db : Db)
      (ps : List Principal)
      → Found laws (identity.principal_id ∷ identity.stable_group_ids) db ps
      → (id : Text)
      → (contains id identity.stable_group_ids
          && is_active_group (lookup id (remove identity.principal_id (by_id ps))))
        ≡ (contains id identity.stable_group_ids
            && not (id == identity.principal_id)
            && is_active_group (laws.stored id db))
  group_test laws identity db ps found id = ground (
    arith,
    found id,
    lookup-remove identity.principal_id id (by_id ps),
    eq_comm id identity.principal_id,
  )

  resolve_from-eq-ok :
      (identity : AuthenticatedPrincipalContext) (table : Table) (primary : Principal)
      (resolved : ResolvedRequestPrincipal)
      → resolve_from identity table primary ≡ ok resolved
      → (is_active primary.status ≡ true)
        × (same_kind primary.kind identity.kind ≡ true)
        × (resolved.principal_id ≡ primary.id)
        × (resolved.group_principal_ids
            ≡ dedup (sort (collect_groups identity.stable_group_ids table)))
  unfolding resolve_from
  resolve_from-eq-ok identity table primary resolved h = ground arith

  -- A request resolves to the stored, active principal that the identity names, of the same kind, and to
  -- exactly those groups of the identity, other than the principal itself, that are stored as active
  -- groups.
  pub resolve_request-Resolved :
      (laws : FindsStored) (identity : AuthenticatedPrincipalContext) (db : Db)
      (resolved : ResolvedRequestPrincipal)
      → resolve_request repository identity db ≡ ok resolved
      → Resolved laws identity db resolved
  unfolding resolve_request
  resolve_request-Resolved laws identity db resolved h =
      let ids = identity.principal_id ∷ identity.stable_group_ids in
      let (ps, e₁, h₁) = bind-eq-ok (map_err storage (repository.find_by_ids ids db)) _ h in
      let found = laws.found ids db ps (map_err-eq-ok _ _ e₁) in
      let (primary, e₂, h₂) =
        bind-eq-ok
          (ok_or (not_found identity.principal_id) (lookup identity.principal_id (by_id ps))) _
          h₁ in
      let (alive, kind, same, groups) =
        resolve_from-eq-ok identity (remove identity.principal_id (by_id ps)) primary resolved h₂ in
      let primary_found = ok_or-eq-ok _ _ e₂ in
      let primary_stored = stored_primary laws identity db ps primary found primary_found in
      let keyed = Found-IsKeyed laws ids db ps found in
      record {
        primary = primary;
        same_id = same ∙ laws.keyed _ db primary primary_stored;
        primary_stored = primary_stored;
        primary_active = alive;
        primary_kind = kind;
        groups = λ id.
            ap (contains id) groups
            ∙ any-dedup-sort (◌==◌ id) _
            ∙ collect_groups-contains id identity.stable_group_ids
                (remove identity.principal_id (by_id ps))
                (remove-IsKeyed identity.principal_id (by_id ps) keyed)
            ∙ group_test laws identity db ps found id;
      }
