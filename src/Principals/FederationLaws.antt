-- ===== src/Principals/FederationLaws.antt =====
-- Which providers a federated search asks, and where its results come from.
use authguard.Base.{
  map, if◌then◌else◌, ◌≤◌, ◌≡◌, refl, sym, subst, arith, inl, inr, true, ◌||◌, Bool-cases, List, [],
  ◌∷◌, Text, ◌==◌, eq_iff, eq_refl, contains, text_le, All, is_empty, try_map, retain, ok, ok_inj,
  bind-eq-ok, unless-eq-ok, map_err, map_err-eq-ok,
}
use authguard.Principals.Store.{provider_unavailable, discovery}
use authguard.Principals.Discovery.{
  PrincipalProjection, PrincipalSearchQuery, PrincipalSearchPage, SearchProvider,
  validate_search_query,
}
use authguard.Principals.Manage.{
  only, has_id, Pages, insert_page, collect_pages, all_principals, selected_search_providers,
  search, deduplicate_principals,
}
use authguard.Principals.SearchLaws.{find_key, count_key, deduplicate_principals-find}
use authguard.Principals.PagesLaws.{on_pages, all_principals_lem, has_page, collect_pages-has_page}

members :
    (xs ys : List Text)
    → ((x : Text) → contains x xs ≡ true → contains x ys ≡ true)
    → All (λ x. contains x ys ≡ true) xs
members [] ys h = tt
members (x ∷ xs) ys h =
    (h x (rw (eq_refl x) refl), members xs ys (λ y held. h y (ground (arith, held))))

module _ (Q : SearchProvider → Type 0) where
  retain-has_id :
      (id : Text) (providers : List SearchProvider)
      → All Q providers
      → All (λ s. Q s × (s.provider_id ≡ id)) (retain (has_id id) providers)
  retain-has_id id [] qs = tt
  retain-has_id id (s ∷ providers) (q, qs) = elim (Bool-cases (has_id id s)) [
    | inl here ↦ rw here ((q, (eq_iff s.provider_id id).0 here), retain-has_id id providers qs)
    | inr other ↦ rw other (retain-has_id id providers qs)
  ]

  only-eq-ok :
      (id : Text) (found : List SearchProvider) (s : SearchProvider)
      → All (λ s. Q s × (s.provider_id ≡ id)) found
      → only id found ≡ ok s
      → Q s × (s.provider_id ≡ id)
  only-eq-ok id [] s qs h = cc
  only-eq-ok id (t ∷ []) s (q, qs) h = subst (λ s. Q s × (s.provider_id ≡ id)) (ok_inj h) q
  only-eq-ok id (t ∷ u ∷ found) s qs h = cc

  selected_ids :
      (R : Text → Type 0) (providers : List SearchProvider) (filter : List Text)
      (selected : List SearchProvider)
      → All Q providers
      → All R filter
      → try_map (λ id. only id (retain (has_id id) providers)) filter ≡ ok selected
      → All (λ s. Q s × R s.provider_id) selected
  unfolding try_map
  selected_ids R providers [] selected qs rs h =
      subst (All (λ s. Q s × R s.provider_id)) (ok_inj h) tt
  selected_ids R providers (id ∷ filter) selected qs (r, rs) h =
      let (s, e₁, h₁) = bind-eq-ok (only id (retain (has_id id) providers)) _ h in
      let (rest, e₂, h₂) =
        bind-eq-ok (try_map (λ id. only id (retain (has_id id) providers)) filter) _ h₁ in
      let (q, same) = only-eq-ok id _ s (retain-has_id id providers qs) e₁ in
      subst (All (λ s. Q s × R s.provider_id)) (ok_inj h₂)
        ((q, subst R (sym same) r), selected_ids R providers filter rest qs rs e₂)

  -- The provider was asked for, if any was.
  abbrev pub Asked : List Text → Text → Type 0
  Asked filter id = (is_empty filter || contains id filter) ≡ true

  Asked-All :
      (providers : List SearchProvider) (filter : List Text)
      → is_empty filter ≡ true
      → All Q providers
      → All (λ s. Q s × Asked filter s.provider_id) providers
  Asked-All [] filter e qs = tt
  Asked-All (s ∷ providers) filter e (q, qs) = ((q, rw e refl), Asked-All providers filter e qs)

  listed-Asked :
      (filter ids : List Text) → All (λ id. contains id filter ≡ true) ids → All (Asked filter) ids
  listed-Asked filter [] hs = tt
  listed-Asked filter (id ∷ ids) (h, hs) = (ground (arith, h), listed-Asked filter ids hs)

  selected-Asked :
      (providers : List SearchProvider) (filter : List Text) (selected : List SearchProvider)
      → All Q providers
      → selected_search_providers providers filter ≡ ok selected
      → All (λ s. Q s × Asked filter s.provider_id) selected
  unfolding selected_search_providers
  selected-Asked providers filter selected qs h = elim (Bool-cases (is_empty filter)) [
    | inl none_asked ↦
        subst (All (λ s. Q s × Asked filter s.provider_id)) (ok_inj (rw none_asked at h))
          (Asked-All providers filter none_asked qs)
    | inr some_asked ↦
        selected_ids (Asked filter) providers filter selected qs
          (listed-Asked filter filter (members filter filter (λ x held. held))) (rw some_asked at h)
  ]

  -- A page that a provider answered.
  abbrev pub Answer : PrincipalSearchQuery → Text × PrincipalSearchPage → Type 0
  Answer query (id, page) =
      (s : SearchProvider) × Q s
      × (s.provider_id ≡ id)
      × (s.discover query ≡ ok page)
      × Asked query.provider_ids id

  insert_page-All :
      (query : PrincipalSearchQuery) (id : Text) (page : PrincipalSearchPage) (pages : Pages)
      → Answer query (id, page)
      → All (Answer query) pages
      → All (Answer query) (insert_page id page pages)
  unfolding insert_page
  insert_page-All query id page [] a rest = (a, tt)
  insert_page-All query id page ((held, old) ∷ pages) a (b, rest) = elim (Bool-cases (held == id)) [
    | inl same ↦ rw same (a, rest)
    | inr other ↦ elim (Bool-cases (text_le id held)) [
      | inl before ↦ rw (other, before) (a, (b, rest))
      | inr after ↦ rw (other, after) (b, insert_page-All query id page pages a rest)
    ]
  ]

  collect_pages-All :
      (query : PrincipalSearchQuery) (providers : List SearchProvider) (pages collected : Pages)
      → All (λ s. Q s × Asked query.provider_ids s.provider_id) providers
      → All (Answer query) pages
      → collect_pages query pages providers ≡ ok collected
      → All (Answer query) collected
  unfolding collect_pages
  collect_pages-All query [] pages collected qs old h = subst (All (Answer query)) (ok_inj h) old
  collect_pages-All query (s ∷ providers) pages collected ((q, asked), qs) old h =
      let (page, e, h₁) = bind-eq-ok (s.discover query) _ h in
      collect_pages-All query providers (insert_page s.provider_id page pages) collected qs
        (insert_page-All query s.provider_id page pages (s, q, refl, e, asked) old) h₁

  only-provider_id :
      (id : Text) (providers : List SearchProvider) (s : SearchProvider)
      → All Q providers
      → only id (retain (has_id id) providers) ≡ ok s
      → s.provider_id ≡ id
  only-provider_id id providers s qs h =
      (only-eq-ok id (retain (has_id id) providers) s (retain-has_id id providers qs) h).1

  selected-covers :
      (P : Text → Type 0) (providers : List SearchProvider) (filter : List Text)
      (selected : List SearchProvider)
      → All Q providers
      → try_map (λ id. only id (retain (has_id id) providers)) filter ≡ ok selected
      → All (λ s. P s.provider_id) selected
      → All P filter
  unfolding try_map
  selected-covers P providers [] selected qs h ps = tt
  selected-covers P providers (id ∷ filter) selected qs h ps =
      let (s, e₁, h₁) = bind-eq-ok (only id (retain (has_id id) providers)) _ h in
      let (rest, e₂, h₂) =
        bind-eq-ok (try_map (λ id. only id (retain (has_id id) providers)) filter) _ h₁ in
      let (p, ps₁) = subst (All (λ s. P s.provider_id)) (sym (ok_inj h₂)) ps in
      (
        subst P (only-provider_id id providers s qs e₁) p,
        selected-covers P providers filter rest qs e₂ ps₁,
      )

  All-provider_ids :
      (P : Text → Type 0) (providers : List SearchProvider)
      → All (λ s. P s.provider_id) providers
      → All P (map (λ s. s.provider_id) providers)
  All-provider_ids P [] ps = tt
  All-provider_ids P (s ∷ providers) (p, ps) = (p, All-provider_ids P providers ps)

  -- The providers that are to answer: those that are asked for, or all.
  abbrev pub to_ask : List SearchProvider → List Text → List Text
  to_ask federated filter =
      if is_empty filter then map (λ (s : SearchProvider). s.provider_id) federated else filter

  to_ask-covered :
      (P : Text → Type 0) (federated : List SearchProvider) (filter : List Text)
      (selected : List SearchProvider)
      → All Q federated
      → selected_search_providers federated filter ≡ ok selected
      → All (λ s. P s.provider_id) selected
      → All P (to_ask federated filter)
  unfolding selected_search_providers
  to_ask-covered P federated filter selected qs h ps = elim (Bool-cases (is_empty filter)) [
    | inl none_asked ↦ rw none_asked (
        All-provider_ids P federated
          (subst (All (λ s. P s.provider_id)) (sym (ok_inj (rw none_asked at h))) ps))
    | inr some_asked ↦
        rw some_asked (selected-covers P federated filter selected qs (rw some_asked at h) ps)
  ]

  -- What a search found.
  pub record Found (federated : List SearchProvider) (query : PrincipalSearchQuery)
      (result : PrincipalSearchPage) : Type 0 where
    pub valid : validate_search_query query ≡ ok tt
    pub pages : Pages
    pub answers : All (Answer query) pages
    pub complete : All (λ id. has_page pages id ≡ true) (to_ask federated query.provider_ids)
    pub first_of_key :
        (key : Text × Text)
        → (find_key key result.principals ≡ find_key key (on_pages pages))
          × (count_key key result.principals ≤ 1)

  -- A search that ends well had a valid query. What it gives comes from pages that configured providers
  -- answered to it: each provider that was asked for has its page and no other provider has one, or,
  -- where none was asked for, each configured one has its page. Of all the principals on these pages the
  -- result has each identity key once, as its first projection in them.
  pub search-Found :
      (finish : List SearchProvider → List SearchProvider)
      (keeps : (P : SearchProvider → Type 0) (xs : List SearchProvider)
        → All P xs
        → All P (finish xs))
      (reaches : (P : SearchProvider → Type 0) (xs : List SearchProvider)
        → All P (finish xs)
        → All P xs)
      (federated : List SearchProvider) (query : PrincipalSearchQuery)
      (result : PrincipalSearchPage)
      → All Q federated
      → search finish federated query ≡ ok result
      → Found federated query result
  unfolding search
  search-Found finish keeps reaches federated query result qs h =
      let (valid, e₁, h₁) = bind-eq-ok (map_err discovery (validate_search_query query)) _ h in
      let (configured, h₂) = unless-eq-ok (is_empty federated) provider_unavailable _ h₁ in
      let (selected, e₃, h₃) =
        bind-eq-ok (map_err discovery (selected_search_providers federated query.provider_ids)) _
          h₂ in
      let (pages, e₄, h₄) =
        bind-eq-ok (map_err discovery (collect_pages query [] (finish selected))) _ h₃ in
      let asked = selected-Asked federated query.provider_ids selected qs (map_err-eq-ok _ _ e₃) in
      record {
        valid = map_err-eq-ok _ _ e₁;
        pages = pages;
        answers =
            collect_pages-All query (finish selected) [] pages (keeps _ selected asked) tt
              (map_err-eq-ok _ _ e₄);
        complete =
            to_ask-covered (λ id. has_page pages id ≡ true) federated query.provider_ids selected qs
              (map_err-eq-ok _ _ e₃)
              (reaches (λ s. has_page pages s.provider_id ≡ true) selected
                (collect_pages-has_page query (finish selected) [] pages (map_err-eq-ok _ _ e₄)));
        first_of_key = λ key.
            subst
              (λ (r : PrincipalSearchPage).
                (find_key key r.principals ≡ find_key key (on_pages pages))
                × (count_key key r.principals ≤ 1))
              (ok_inj h₄)
              (subst
                (λ (ps : List PrincipalProjection).
                  (find_key key (deduplicate_principals (all_principals pages)) ≡ find_key key ps)
                  × (count_key key (deduplicate_principals (all_principals pages)) ≤ 1))
                (all_principals_lem pages)
                (deduplicate_principals-find key (all_principals pages)));
      }
