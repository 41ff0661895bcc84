-- ===== src/Principals/PagesLaws.antt =====
-- The pages that a federated search collects (src/authz/src/handler/principal.rs).
use authguard.Base.{
  Bool, any, ap, ◌++◌, ◌≡◌, refl, subst, arith, true, ◌||◌, List, [], ◌∷◌, Text, ◌==◌, eq_iff,
  eq_refl, All, ok, ok_inj, bind-eq-ok,
}
use authguard.Principals.Discovery.{
  PrincipalProjection, PrincipalSearchQuery, PrincipalSearchPage, SearchProvider,
}
use authguard.Principals.Manage.{Pages, insert_page, collect_pages, all_principals}

-- The principals of all pages, page by page.
abbrev pub on_pages : Pages → List PrincipalProjection
on_pages [] = []
on_pages ((id, page) ∷ pages) = page.principals ++ on_pages pages

pub all_principals_lem : (pages : Pages) → all_principals pages ≡ on_pages pages
unfolding all_principals
all_principals_lem [] = refl
all_principals_lem ((id, page) ∷ pages) = ap (◌++◌ page.principals) (all_principals_lem pages)

-- One of the pages is of the provider.
abbrev pub has_page : Pages → Text → Bool
has_page pages id = any (λ entry. entry.0 == id) pages

insert_page-has_page :
    (id other : Text) (page : PrincipalSearchPage) (pages : Pages)
    → has_page (insert_page id page pages) other ≡ ((id == other) || has_page pages other)
unfolding insert_page
insert_page-has_page id other page [] = refl
insert_page-has_page id other page ((held, old) ∷ pages) =
    ground (arith, insert_page-has_page id other page pages, eq_iff held id)

collect_pages-keeps :
    (query : PrincipalSearchQuery) (providers : List SearchProvider) (pages collected : Pages)
    (id : Text)
    → has_page pages id ≡ true
    → collect_pages query pages providers ≡ ok collected
    → has_page collected id ≡ true
unfolding collect_pages
collect_pages-keeps query [] pages collected id held h =
    subst (λ p. has_page p id ≡ true) (ok_inj h) held
collect_pages-keeps query (s ∷ providers) pages collected id held h =
    let (page, e, h₁) = bind-eq-ok (s.discover query) _ h in
    collect_pages-keeps query providers (insert_page s.provider_id page pages) collected id
      (ground (arith, insert_page-has_page s.provider_id id page pages, held)) h₁

pub collect_pages-has_page :
    (query : PrincipalSearchQuery) (providers : List SearchProvider) (pages collected : Pages)
    → collect_pages query pages providers ≡ ok collected
    → All (λ s. has_page collected s.provider_id ≡ true) providers
unfolding collect_pages
collect_pages-has_page query [] pages collected h = tt
collect_pages-has_page query (s ∷ providers) pages collected h =
    let (page, e, h₁) = bind-eq-ok (s.discover query) _ h in
    let next = insert_page s.provider_id page pages in
    (
      collect_pages-keeps query providers next collected s.provider_id
          (ground (
            arith,
            insert_page-has_page s.provider_id s.provider_id page pages,
            eq_refl s.provider_id,
          ))
          h₁,
      collect_pages-has_page query providers next collected h₁,
    )
