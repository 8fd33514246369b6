-- ===== src/Planner/Nodes/Geocode/Settled.antt =====
-- nodes/geocode.py never chooses a place for the rider: what a plan goes on with is settled.
use mathlib.Core.Path.{ap₂}
use py_bike_router.Base.{
  ℕ, ◌+◌, ◌&&◌, leb, ◌≡◌, refl, sym, ◌∙◌, String, Option, none, some, List, [], ◌∷◌, Bool, true,
  false, arith, map, if◌then◌else◌, Result, ok, err, >>=-eq-ok, ok-injective, subst,
}
use py_bike_router.Base.Json.{Json}
use py_bike_router.Errors.{ErrorEntry}
use py_bike_router.Planner.State.{
  PlaceInput, GeocodeCandidate, Clarification, State, Update, coordinate, query, merge, status_of,
}
use py_bike_router.Planner.State.PlanStatus.{in_progress}
use py_bike_router.Planner.Services.{GeocodeFailure, Services}
use py_bike_router.Planner.Nodes.Geocode.{
  Thresholds, Resolved, candidate_limit, is_ambiguous, answered, resolve, resolve_all, present,
  or_origin, wants_loop, conclude, geocode_locations,
}

-- The first answer leads the second by the margin at least; alone it leads by 1.0.
abbrev pub is_ahead : ℕ → GeocodeCandidate → List GeocodeCandidate → Bool
is_ahead margin first [] = leb margin 1_000_000
is_ahead margin first (second ∷ _) = leb (second.confidence + margin) first.confidence

-- The only position that an input may stand for: the given one, or the first answer of the geocoder
-- where that is confident enough and far enough ahead of the second.
abbrev pub unambiguous : Thresholds → Result GeocodeFailure (List GeocodeCandidate) → Option Json
unambiguous th (ok (first ∷ others)) =
    if leb th.min_confidence first.confidence && is_ahead th.ambiguity_margin first others
    then some first.position
    else none
unambiguous th _ = none

abbrev pub meant : Services → Thresholds → PlaceInput → Option Json
meant sv th (coordinate c) = some c
meant sv th (query q) = unambiguous th (sv.geocode q candidate_limit)

-- A place that was not given has no position, and any other has the one that is meant.
abbrev pub Settles : Services → Thresholds → Option PlaceInput → Option Json → Type 0
Settles sv th none o = o ≡ none
Settles sv th (some p) o = (x : Json) × (o ≡ some x) × (meant sv th p ≡ some x)

-- Where the plan goes: a loop with no destination of its own comes back to the origin.
abbrev pub ArrivesAt :
    Services → Thresholds → (loop : Bool) → Option PlaceInput → (origin dest : Option Json) → Type 0
ArrivesAt sv th true none origin dest = dest ≡ origin
ArrivesAt sv th loop p origin dest = Settles sv th p dest

present_nil :
    {B : Type 0} (f : Resolved → Option B) (r : Resolved) (rs : List Resolved)
    → present f (r ∷ rs) ≡ []
    → (f r ≡ none) × (present f rs ≡ [])
present_nil f r rs h = ground arith

module _ (sv : Services) (th : Thresholds) where
  answered-meant :
      (q : String) (a : Result GeocodeFailure (List GeocodeCandidate)) (r : Resolved)
      → answered th q a ≡ ok r
      → r.clarify ≡ none
      → r.error ≡ none
      → (x : Json) × (r.position ≡ some x) × (unambiguous th a ≡ some x)
  unfolding is_ambiguous
  answered-meant q (ok []) r e c f = cc
  answered-meant q (ok (first ∷ [])) r e c f = (first.position, ground arith, ground arith)
  answered-meant q (ok (first ∷ second ∷ _)) r e c f = (first.position, ground arith, ground arith)
  answered-meant q (err GeocodeFailure.not_found) r e c f = cc
  answered-meant q (err (GeocodeFailure.provider_failed x)) r e c f = cc
  answered-meant q (err (GeocodeFailure.uncaught x)) r e c f = cc

  resolve-Settles :
      (p : Option PlaceInput) (r : Resolved)
      → resolve sv th p ≡ ok r
      → r.clarify ≡ none
      → r.error ≡ none
      → Settles sv th p r.position
  unfolding resolve
  resolve-Settles none r e c f = ground arith
  resolve-Settles (some (coordinate x)) r e c f = (x, ground arith, refl)
  resolve-Settles (some (query q)) r e c f = answered-meant q (sv.geocode q candidate_limit) r e c f

  with_first :
      (p : PlaceInput) (ps : List PlaceInput) (r : Resolved) (rs : List Resolved)
      → resolve sv th (some p) ≡ ok r
      → present (λ x. x.clarify) (r ∷ rs) ≡ []
      → present (λ x. x.error) (r ∷ rs) ≡ []
      → (present (λ x. x.clarify) rs ≡ []
          → present (λ x. x.error) rs ≡ []
          → map (meant sv th) ps ≡ map some (present (λ x. x.position) rs))
      → map (meant sv th) (p ∷ ps) ≡ map some (present (λ x. x.position) (r ∷ rs))
  with_first p ps r rs first c f rest =
      let (c', cs) = present_nil (λ x. x.clarify) r rs c in
      let (f', fs) = present_nil (λ x. x.error) r rs f in
      let (x, here, is) = resolve-Settles (some p) r first c' f' in rw (here, is, rest cs fs)

  -- The via points, in their order, none left out.
  resolve_all-meant :
      (ps : List PlaceInput) (rs : List Resolved)
      → resolve_all sv th ps ≡ ok rs
      → present (λ r. r.clarify) rs ≡ []
      → present (λ r. r.error) rs ≡ []
      → map (meant sv th) ps ≡ map some (present (λ r. r.position) rs)
  unfolding resolve_all
  resolve_all-meant [] rs e c f = rw (← ok-injective [] rs e)
  resolve_all-meant (p ∷ ps) rs e c f =
      let (r, first, e') = >>=-eq-ok (resolve sv th (some p)) _ e in
      let (rs', others, e'') = >>=-eq-ok (resolve_all sv th ps) _ e' in
      let shape : r ∷ rs' ≡ rs = ok-injective (r ∷ rs') rs e'' in
      subst (λ l. map (meant sv th) (p ∷ ps) ≡ map some (present (λ x. x.position) l)) shape
        (with_first p ps r rs' first (rw (← shape) at c) (rw (← shape) at f)
          (resolve_all-meant ps rs' others))

  only_in_progress :
      (constraints : Json) (origin dest : Resolved) (vias : List Resolved) (cs : List Clarification)
      (es : List ErrorEntry)
      → status_of (conclude constraints origin dest vias cs es) ≡ some in_progress
      → (cs ≡ []) × (es ≡ [])
  only_in_progress constraints origin dest vias (c ∷ cs) es h = cc
  only_in_progress constraints origin dest vias [] (e ∷ es) h = cc
  only_in_progress constraints origin dest vias [] [] h = (refl, refl)

  or_origin-ArrivesAt :
      (loop : Bool) (p : Option PlaceInput) (dest origin : Option Json)
      → Settles sv th p dest
      → ArrivesAt sv th loop p origin (or_origin loop dest origin)
  or_origin-ArrivesAt true none dest origin e = rw e
  or_origin-ArrivesAt true (some p) dest origin (x, here, is) = rw (here, or_origin) (x, refl, is)
  or_origin-ArrivesAt false none dest origin e = e
  or_origin-ArrivesAt false (some p) dest origin h = h

  settled :
      (s : State) (origin dest : Resolved) (vias : List Resolved)
      → resolve sv th s.origin_input ≡ ok origin
      → resolve sv th s.destination_input ≡ ok dest
      → resolve_all sv th s.via_inputs ≡ ok vias
      → (u : Update)
      → u
        ≡ conclude s.constraints origin dest vias
            (present (λ r. r.clarify) (origin ∷ dest ∷ vias))
            (present (λ r. r.error) (origin ∷ dest ∷ vias))
      → status_of u ≡ some in_progress
      → Settles sv th s.origin_input (merge s u).resolved_origin
        × ArrivesAt sv th
            (wants_loop s.constraints)
            s.destination_input
            (merge s u).resolved_origin
            (merge s u).resolved_destination
        × (map (meant sv th) s.via_inputs ≡ map some (merge s u).resolved_via)
  settled s origin dest vias eo ed ev u shape now =
      let (cs, es) =
        only_in_progress s.constraints origin dest vias _ _
          (subst (λ v. status_of v ≡ some in_progress) shape now) in
      let (c0, cs1) = present_nil (λ r. r.clarify) origin (dest ∷ vias) cs in
      let (c1, cs2) = present_nil (λ r. r.clarify) dest vias cs1 in
      let (f0, es1) = present_nil (λ r. r.error) origin (dest ∷ vias) es in
      let (f1, es2) = present_nil (λ r. r.error) dest vias es1 in
      let shape' : u ≡ conclude s.constraints origin dest vias [] [] =
        shape ∙ ap₂ (conclude s.constraints origin dest vias) cs es in
      rw shape' (
        resolve-Settles s.origin_input origin eo c0 f0,
        or_origin-ArrivesAt (wants_loop s.constraints) s.destination_input dest.position
            origin.position (resolve-Settles s.destination_input dest ed c1 f1),
        resolve_all-meant s.via_inputs vias ev cs2 es2,
      )

  -- Where the node leaves the plan in progress, every place is settled: the origin and the destination
  -- that were given have the position that they mean without ambiguity, a missing destination of a loop
  -- is the origin, and the via points are the meant positions of all via inputs in their order.
  pub geocode_locations-settled :
      (s : State) (u : Update)
      → geocode_locations sv th s ≡ ok u
      → status_of u ≡ some in_progress
      → Settles sv th s.origin_input (merge s u).resolved_origin
        × ArrivesAt sv th
            (wants_loop s.constraints)
            s.destination_input
            (merge s u).resolved_origin
            (merge s u).resolved_destination
        × (map (meant sv th) s.via_inputs ≡ map some (merge s u).resolved_via)
  unfolding geocode_locations
  geocode_locations-settled s u e now =
      let (origin, eo, e1) = >>=-eq-ok (resolve sv th s.origin_input) _ e in
      let (dest, ed, e2) = >>=-eq-ok (resolve sv th s.destination_input) _ e1 in
      let (vias, ev, e3) = >>=-eq-ok (resolve_all sv th s.via_inputs) _ e2 in
      settled s origin dest vias eo ed ev u (sym (ok-injective _ u e3)) now
