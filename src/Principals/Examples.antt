-- ===== src/Principals/Examples.antt =====
-- A federated search over two directories that know one person both.
use authguard.Base.{
  ◌≡◌, refl, true, none, List, [], ◌∷◌, Text, codes, ◌==◌, ok, is_blank, len, text_le, from_pairs,
}
use authguard.Model.{user}
use authguard.Principals.Discovery.{
  PrincipalProjection, PrincipalSearchQuery, PrincipalSearchPage, SearchProvider,
}
use authguard.Principals.Manage.{search}
use authguard.Principals.FederationLaws.{Found, search-Found}

abbrev person : Text → Text → PrincipalProjection
person provider_id name = record {
  reference = record { provider_id = provider_id; issuer = codes "i"; external_id = name };
  kind = user;
  display_name = name;
  username = none;
  email = none;
  enabled = true;
  attributes = [];
}

abbrev directory : Text → List PrincipalProjection → SearchProvider
directory provider_id people = record {
  provider = codes "FED_LDAP";
  provider_id = provider_id;
  discover = λ query. ok (record { principals = people; next_cursors = [] });
  resolve_principal = λ reference. ok none;
}

abbrev federated : List SearchProvider
federated =
    directory (codes "b") (person (codes "b") (codes "x") ∷ person (codes "b") (codes "y") ∷ [])
    ∷ directory (codes "a") (person (codes "a") (codes "y") ∷ [])
    ∷ directory (codes "c") (person (codes "c") (codes "z") ∷ [])
    ∷ []

abbrev query : PrincipalSearchQuery
query = record {
  text = codes "m";
  kinds = [];
  provider_ids = codes "a" ∷ codes "b" ∷ [];
  per_provider_limit = 20;
  cursors = [];
}

abbrev result : PrincipalSearchPage
result = record {
  principals = person (codes "b") (codes "x") ∷ person (codes "a") (codes "y") ∷ [];
  next_cursors = [];
}

finds : search (λ asked. asked) federated query ≡ ok result
unfolding search is_blank ◌==◌ len text_le from_pairs
finds = refl

-- Each of the three is an LDAP directory.
abbrev IsLdap : SearchProvider → Type 0
IsLdap s = s.provider ≡ codes "FED_LDAP"

search-Found_example : Found IsLdap federated query result
search-Found_example =
    search-Found IsLdap (λ asked. asked) (λ P xs ps. ps) (λ P xs ps. ps) federated query result
      (refl, (refl, (refl, tt))) finds
