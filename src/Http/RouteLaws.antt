-- ===== src/Http/RouteLaws.antt =====
-- When a request resolves, and to what (`resolve_route` of src/common/src/utils/http_matcher.rs).
use authguard.Base.{
  ◌≡◌, refl, ap, ◌∙◌, ◌↔◌, none, some, List, [], ◌∷◌, ◌++◌, Text, All, arith, ok, map_err, ok_inj,
  Result-cases, bind-eq-ok, Option-cases, Bool-cases, inl, inr, try_map,
}
use authguard.Urn.{ResourceUrn}
use authguard.Urn.Exact.{from_str}
use authguard.Urn.ExactTrip.{IsExact, from_str-eq-ok}
use authguard.Http.{ResolvedHttpRoute, CompiledHttpRoute, Values}
use authguard.Http.Template.{expand_template}
use authguard.Http.Route.{
  match_path, request_values, admits_request, expand_urn, instantiate, resolve, resolve_from,
  resolve_route,
}

module _ (method host path : Text) (claims : Values) where
  abbrev pub Passes : CompiledHttpRoute → Type 0
  Passes route = resolve route method host path claims ≡ ok none

  -- The one route that answers, and those around it that do not.
  pub record IsOnly (routes : List CompiledHttpRoute) (r : ResolvedHttpRoute) : Type 0 where
    pub before : List CompiledHttpRoute
    pub route : CompiledHttpRoute
    pub after : List CompiledHttpRoute
    pub listed : routes ≡ before ++ (route ∷ after)
    pub answers : resolve route method host path claims ≡ ok (some r)
    pub passed_before : All Passes before
    pub passed_after : All Passes after

  resolve_rest :
      (r : ResolvedHttpRoute) (routes : List CompiledHttpRoute) (out : ResolvedHttpRoute)
      → resolve_from (some r) routes method host path claims ≡ ok out
      → (out ≡ r) × All Passes routes
  unfolding resolve_from
  resolve_rest r [] out h = (cc, tt)
  resolve_rest r (route ∷ routes) out h =
      elim (Result-cases (resolve route method host path claims)) [
        | inl (none, missed) ↦
            let (e, all) = resolve_rest r routes out (rw (missed, resolve_from) at h) in
            (e, (missed, all))
        | inl (some c, hit) ↦ cc (rw (hit, resolve_from) at h)
        | inr (e, failed) ↦ cc (rw (failed, resolve_from) at h)
      ]

  resolve_first :
      (routes : List CompiledHttpRoute) (out : ResolvedHttpRoute)
      → resolve_from none routes method host path claims ≡ ok out
      → IsOnly routes out
  unfolding resolve_from
  resolve_first [] out h = cc
  resolve_first (route ∷ routes) out h =
      elim (Result-cases (resolve route method host path claims)) [
        | inl (none, missed) ↦
            let o = resolve_first routes out (rw (missed, resolve_from) at h) in
            record {
              before = route ∷ o.before;
              route = o.route;
              after = o.after;
              listed = ap (◌∷◌ route) o.listed;
              answers = o.answers;
              passed_before = (missed, o.passed_before);
              passed_after = o.passed_after;
            }
        | inl (some c, hit) ↦
            let (e, all) = resolve_rest c routes out (rw (hit, resolve_from) at h) in
            record {
              before = [];
              route = route;
              after = routes;
              listed = refl;
              answers = rw e hit;
              passed_before = tt;
              passed_after = all;
            }
        | inr (e, failed) ↦ cc (rw (failed, resolve_from) at h)
      ]

  rest-Passes :
      (r : ResolvedHttpRoute) (routes : List CompiledHttpRoute)
      → All Passes routes
      → resolve_from (some r) routes method host path claims ≡ ok r
  unfolding resolve_from
  rest-Passes r [] h = refl
  rest-Passes r (route ∷ routes) (h, hs) = rw (h, resolve_from) (rest-Passes r routes hs)

  only_resolves :
      (before : List CompiledHttpRoute) (route : CompiledHttpRoute) (after : List CompiledHttpRoute)
      (r : ResolvedHttpRoute)
      → All Passes before
      → resolve route method host path claims ≡ ok (some r)
      → All Passes after
      → resolve_from none (before ++ (route ∷ after)) method host path claims ≡ ok r
  unfolding resolve_from
  only_resolves [] route after r b a c = rw (a, resolve_from) (rest-Passes r after c)
  only_resolves (p ∷ before) route after r (b, bs) a c =
      rw (b, resolve_from) (only_resolves before route after r bs a c)

  -- A request resolves to a route exactly when one route of the list answers it so and every other
  -- one, before and after it, passes without an error: two answers are never resolved.
  pub resolve_route_iff :
      (routes : List CompiledHttpRoute) (r : ResolvedHttpRoute)
      → (resolve_route routes method host path claims ≡ ok r) ↔ IsOnly routes r
  unfolding resolve_route
  resolve_route_iff routes r = (
    resolve_first routes r,
    λ o.
        rw o.listed
          (only_resolves o.before o.route o.after r o.passed_before o.answers o.passed_after),
  )

-- Every resource of the result is exact.
abbrev pub AreExact : ResolvedHttpRoute → Type 0
AreExact r = IsExact r.resource_urn × All IsExact r.parent_urns

expand_urn-IsExact :
    (values : Values) (template : Text) (u : ResourceUrn)
    → expand_urn values template ≡ ok u
    → IsExact u
unfolding expand_urn
expand_urn-IsExact values template u h =
    let (raw, e, h₁) = bind-eq-ok (expand_template template values) _ h in
    elim (Result-cases (from_str raw)) [
      | inl (v, read) ↦ (from_str-eq-ok raw u (read ∙ ap ok (ok_inj (rw (read, map_err) at h₁)))).1
      | inr (e', failed) ↦ cc (rw (failed, map_err) at h₁)
    ]

expand-All-IsExact :
    (values : Values) (templates : List Text) (us : List ResourceUrn)
    → try_map (expand_urn values) templates ≡ ok us
    → All IsExact us
unfolding try_map
expand-All-IsExact values [] us h = let e : [] ≡ us = ok_inj h in rw (← e) tt
expand-All-IsExact values (t ∷ templates) us h =
    let (u, e, h₁) = bind-eq-ok (expand_urn values t) _ h in
    let (rest, e₁, h₂) = bind-eq-ok (try_map (expand_urn values) templates) _ h₁ in
    let same : u ∷ rest ≡ us = ok_inj h₂ in
    rw (← same) (expand_urn-IsExact values t u e, expand-All-IsExact values templates rest e₁)

instantiate-AreExact :
    (route : CompiledHttpRoute) (values : Values) (r : ResolvedHttpRoute)
    → instantiate route values ≡ ok r
    → AreExact r
unfolding instantiate
instantiate-AreExact route values r h =
    let (u, e, h₁) = bind-eq-ok (expand_urn values route.rule.resource_urn) _ h in
    let (us, e₁, h₂) = bind-eq-ok (try_map (expand_urn values) route.rule.parent_urns) _ h₁ in
    rw (← ok_inj h₂) (
      expand_urn-IsExact values route.rule.resource_urn u e,
      expand-All-IsExact values route.rule.parent_urns us e₁,
    )

resolve-AreExact :
    (route : CompiledHttpRoute) (method host path : Text) (claims : Values) (r : ResolvedHttpRoute)
    → resolve route method host path claims ≡ ok (some r)
    → AreExact r
unfolding resolve
resolve-AreExact route method host path claims r h =
    elim (Bool-cases (admits_request route method host)) [
      | inr refused ↦ cc (rw refused at h)
      | inl admitted ↦
          elim (Option-cases (match_path route.path path (request_values method host claims))) [
            | inl missed ↦ cc (rw (admitted, missed) at h)
            | inr (values, matched) ↦
                let (x, e, h₁) =
                  bind-eq-ok (instantiate route values) _ (rw (admitted, matched) at h) in
                let same : x ≡ r = ground arith in
                instantiate-AreExact route values r (e ∙ ap ok same)
          ]
    ]

-- Whatever the request and the claims, a resolved route names exact resources only: in its own URN
-- and in its parents' the four names are not empty and hold no colon and no star, and the path is a
-- non-empty list of segments that are not empty, hold no slash and no colon, and are neither `*` nor
-- `**`.
pub resolve_route-AreExact :
    (routes : List CompiledHttpRoute) (method host path : Text) (claims : Values)
    (r : ResolvedHttpRoute)
    → resolve_route routes method host path claims ≡ ok r
    → AreExact r
resolve_route-AreExact routes method host path claims r h =
    let o = (resolve_route_iff method host path claims routes r).0 h in
    resolve-AreExact o.route method host path claims r o.answers
