-- ===== src/Planner/Graph/Statuses.antt =====
-- The status that each node of graph.py leaves the plan in.
use py_bike_router.Base.{
  ◌≡◌, refl, ◌≢◌, Option, none, some, [], ◌∷◌, Bool, true, false, Result, ok, err, ◌>>=◌,
  if◌then◌else◌,
}
use py_bike_router.Planner.Services.{Raised}
use py_bike_router.Planner.State.{PlanStatus, State, Change, Update, merge, status_of, write}

-- The status after an update, from the one before it.
abbrev pub last_status : Update → Option PlanStatus → Option PlanStatus
last_status [] o = o
last_status (Change.status x ∷ cs) o = last_status cs (some x)
last_status (_ ∷ cs) o = last_status cs o

pub status-merge : (u : Update) (s : State) → (merge s u).status ≡ last_status u s.status
status-merge [] s = refl
status-merge (Change.status x ∷ cs) s = status-merge cs (write s (Change.status x))
status-merge (c ∷ cs) s = status-merge cs (write s c)

pub trace-merge : (u : Update) (s : State) → (merge s u).trace ≡ s.trace
trace-merge [] s = refl
trace-merge (Change.status x ∷ cs) s = trace-merge cs (write s (Change.status x))
trace-merge (c ∷ cs) s = trace-merge cs (write s c)

-- No update takes the selected candidate away.
pub selected-merge :
    (u : Update) (s : State) → s.selected_candidate ≢ none → (merge s u).selected_candidate ≢ none
selected-merge [] s h = h
selected-merge (Change.selected_candidate x ∷ cs) s h =
    selected-merge cs (write s (Change.selected_candidate x)) (λ e. cc)
selected-merge (Change.status x ∷ cs) s h = selected-merge cs (write s (Change.status x)) h
selected-merge (c ∷ cs) s h = selected-merge cs (write s c) h

-- An update reports one status, or none.
abbrev pub or_before : Option PlanStatus → Option PlanStatus → Option PlanStatus
or_before none o = o
or_before (some x) o = some x

pub record Reports (u : Update) (st : Option PlanStatus) : Type 0 where
  pub reported : status_of u ≡ st
  pub after : (o : Option PlanStatus) → last_status u o ≡ or_before st o

-- What a node returns reports a status that `P` allows, or the node raises.
abbrev pub Yields : (Option PlanStatus → Bool) → Result Raised Update → Type 0
Yields P (err e) = Unit
Yields P (ok u) = (st : Option PlanStatus) × (P st ≡ true) × Reports u st

abbrev pub is_quiet : Option PlanStatus → Bool
is_quiet none = true
is_quiet (some st) = false

module _ {A : Type 0} (P : Option PlanStatus → Bool) where
  pub Yields-bind :
      (r : Result Raised A) (f : A → Result Raised Update)
      → ((a : A) → Yields P (f a))
      → Yields P (r >>= f)
  Yields-bind (ok a) f h = h a
  Yields-bind (err e) f h = tt

module _ (P : Option PlanStatus → Bool) where
  pub Yields-if :
      (b : Bool) (r r' : Result Raised Update)
      → (b ≡ true → Yields P r)
      → (b ≡ false → Yields P r')
      → Yields P (if b then r else r')
  Yields-if true r r' h h' = h refl
  Yields-if false r r' h h' = h' refl

  pub Yields-if_ok :
      (b : Bool) (u u' : Update)
      → Yields P (ok u)
      → Yields P (ok u')
      → Yields P (ok (if b then u else u'))
  Yields-if_ok true u u' h h' = h
  Yields-if_ok false u u' h h' = h'

-- An update that reports the status `st`.
pub reporting :
    {P : Option PlanStatus → Bool} {u : Update} (st : PlanStatus)
    → P (some st) ≡ true
    → status_of u ≡ some st
    → ((o : Option PlanStatus) → last_status u o ≡ some st)
    → Yields P (ok u)
reporting st allowed reported after =
    (some st, allowed, record { reported = reported; after = after })

pub quietly :
    {u : Update}
    → status_of u ≡ none
    → ((o : Option PlanStatus) → last_status u o ≡ o)
    → Yields is_quiet (ok u)
quietly reported after = (none, refl, record { reported = reported; after = after })
