-- ===== src/Planner/Nodes/Route/Outcomes.antt =====
-- nodes/route.py: what the engines' answers make of the plan.
use py_bike_router.Base.{
  Bool-cases, inl, inr, suc, ◌+◌, ◌≡◌, refl, ap, ◌∙◌, Option, some, List, [], ◌∷◌, Bool, true,
  false, arith, is_empty, length, if◌then◌else◌, Result, ok, err, >>=-eq-ok, ok-injective, subst,
  any, all,
}
use py_bike_router.Base.Json.{Json}
use py_bike_router.Errors.{ProviderError, ErrorEntry, Kind, is_no_route}
use py_bike_router.Planner.State.{PlanStatus, Candidate, status_of}
use py_bike_router.Planner.Services.{RoutingRequest, RoutingProvider, RouteFailure}
use py_bike_router.Planner.Nodes.Route.{
  Outcome, failure_for, collect_one, collect, conclude_route, failure,
}

abbrev pub succeeded : Result RouteFailure Candidate → Bool
succeeded (ok c) = true
succeeded (err e) = false

-- ProviderNoRouteError: the engine says that there is no path.
abbrev pub says_no_route : Result RouteFailure Candidate → Bool
says_no_route (err (RouteFailure.provider_failed e)) = is_no_route e.kind
says_no_route _ = false

abbrev pub routes_of : List (Result RouteFailure Candidate) → List Candidate
routes_of [] = []
routes_of (ok c ∷ rs) = c ∷ routes_of rs
routes_of (err e ∷ rs) = routes_of rs

abbrev pub answers : RoutingRequest → List RoutingProvider → List (Result RouteFailure Candidate)
answers request [] = []
answers request (p ∷ ps) = p.route 0 request ∷ answers request ps

-- The status that the answers call for.
abbrev pub status_for : List (Result RouteFailure Candidate) → PlanStatus
status_for rs =
    if any succeeded rs
    then PlanStatus.in_progress
    else if all says_no_route rs
    then PlanStatus.no_route
    else PlanStatus.provider_failure

record Collected (rs : List (Result RouteFailure Candidate)) (o : Outcome) : Type 0 where
  routes : o.candidates ≡ routes_of rs
  counted : length o.candidates + length o.errors ≡ length rs
  some_route : is_empty o.candidates ≡ true → any succeeded rs ≡ false
  a_route : is_empty o.candidates ≡ false → any succeeded rs ≡ true
  only_no_route : any succeeded rs ≡ false → o.no_route_only ≡ all says_no_route rs

module _ (coverage_detail : ProviderError → ErrorEntry) (request : RoutingRequest) where
  failed_once :
      (x : ProviderError) (e : ErrorEntry) (keeps : Bool)
      (rs : List (Result RouteFailure Candidate)) (o : Outcome)
      → is_no_route x.kind ≡ keeps
      → Collected rs o
      → Collected (err (RouteFailure.provider_failed x) ∷ rs) (failure e keeps o)
  failed_once x e keeps rs o is h = record {
    routes = h.routes;
    counted = omega (arith, h.counted);
    some_route = h.some_route;
    a_route = h.a_route;
    only_no_route = λ none_has. rw (is, h.only_no_route none_has);
  }

  failure-Collected :
      (x : ProviderError) (k : Kind) (rs : List (Result RouteFailure Candidate)) (o : Outcome)
      → x.kind ≡ k
      → Collected rs o
      → Collected (err (RouteFailure.provider_failed x) ∷ rs) (failure_for coverage_detail x k o)
  failure-Collected x Kind.coverage rs o e h = failed_once x _ false rs o (ap is_no_route e) h
  failure-Collected x Kind.no_route rs o e h = failed_once x _ true rs o (ap is_no_route e) h
  failure-Collected x _ rs o e h = failed_once x _ false rs o (ap is_no_route e) h

  collect_one-Collected :
      (p : RoutingProvider) (a : Result RouteFailure Candidate) (add : Outcome → Outcome)
      (rs : List (Result RouteFailure Candidate)) (o : Outcome)
      → collect_one coverage_detail p a ≡ ok add
      → Collected rs o
      → Collected (a ∷ rs) (add o)
  unfolding collect_one
  collect_one-Collected p (ok c) add rs o e h =
      subst (λ k. Collected (ok c ∷ rs) (k o)) (ok-injective _ add e)
        (record {
          routes = ap (λ l. c ∷ l) h.routes;
          counted = omega (arith, h.counted);
          some_route = λ x. cc;
          a_route = λ x. refl;
          only_no_route = λ x. cc;
        })
  collect_one-Collected p (err (RouteFailure.provider_failed x)) add rs o e h =
      subst (λ k. Collected (err (RouteFailure.provider_failed x) ∷ rs) (k o))
        (ok-injective _ add e) (failure-Collected x x.kind rs o refl h)
  collect_one-Collected p (err (RouteFailure.unexpected t m)) add rs o e h =
      subst (λ k. Collected (err (RouteFailure.unexpected t m) ∷ rs) (k o)) (ok-injective _ add e)
        (record {
          routes = h.routes;
          counted = omega (arith, h.counted);
          some_route = h.some_route;
          a_route = h.a_route;
          only_no_route = λ x. refl;
        })
  collect_one-Collected p (err (RouteFailure.cancelled m)) add rs o e h = cc

  collect-Collected :
      (ps : List RoutingProvider) (o : Outcome)
      → collect coverage_detail request ps ≡ ok o
      → Collected (answers request ps) o
  unfolding collect
  collect-Collected [] o e = subst (Collected []) (ok-injective _ o e) (record {
    routes = refl;
    counted = refl;
    some_route = λ x. refl;
    a_route = λ x. cc;
    only_no_route = λ x. refl;
  })
  collect-Collected (p ∷ ps) o e =
      let (add, first, e') = >>=-eq-ok (collect_one coverage_detail p (p.route 0 request)) _ e in
      let (o', others, e'') = >>=-eq-ok (collect coverage_detail request ps) _ e' in
      subst (Collected (answers request (p ∷ ps))) (ok-injective (add o') o e'') (
        collect_one-Collected p (p.route 0 request) add (answers request ps) o' first
          (collect-Collected ps o' others))

  length-answers : (ps : List RoutingProvider) → length (answers request ps) ≡ length ps
  length-answers [] = refl
  length-answers (p ∷ ps) = ap suc (length-answers ps)

  conclude_route-status :
      (rs : List (Result RouteFailure Candidate)) (o : Outcome) (plan : Option Json)
      (extras : List Candidate)
      → Collected rs o
      → status_of (conclude_route plan extras o) ≡ some (status_for rs)
  unfolding conclude_route
  conclude_route-status rs o plan extras c = elim (Bool-cases (is_empty o.candidates)) [
    | inl b ↦ ground (arith, c.some_route b, c.only_no_route (c.some_route b))
    | inr b ↦ ground (arith, c.a_route b)
  ]

  -- The status follows from the engines' answers: the plan goes on exactly when an engine has a route,
  -- it ends with `no_route` when every engine says that there is no path, and with `provider_failure`
  -- otherwise. The collected candidates are the engines' routes in their order, and each engine gives
  -- either a route or an error.
  pub collect-status :
      (ps : List RoutingProvider) (o : Outcome) (plan : Option Json) (extras : List Candidate)
      → collect coverage_detail request ps ≡ ok o
      → (status_of (conclude_route plan extras o) ≡ some (status_for (answers request ps)))
        × (o.candidates ≡ routes_of (answers request ps))
        × (length o.candidates + length o.errors ≡ length ps)
  collect-status ps o plan extras e =
      let c = collect-Collected ps o e in
      (conclude_route-status _ o plan extras c, c.routes, c.counted ∙ length-answers ps)
