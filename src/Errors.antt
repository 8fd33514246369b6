-- ===== src/Errors.antt =====
-- errors.py: the exceptions that adapters raise and graph nodes catch. The classes are the values of
-- `Kind`; a subclass differs from its base class by its `code` alone.
use py_bike_router.Base.{String, Bool, true, false}
use py_bike_router.Base.Json.{Json}

pub data Kind : Type 0 where
  provider_error timeout rate_limit unavailable bad_response no_route coverage : Kind

pub record ProviderError : Type 0 where
  pub kind : Kind
  pub message : String
  pub provider : String
  pub detail : Json

unfoldable pub code : Kind → String
code provider_error = "provider_error"
code timeout = "provider_timeout"
code rate_limit = "provider_rate_limited"
code unavailable = "provider_unavailable"
code bad_response = "provider_bad_response"
code no_route = "no_route"
code coverage = "routing_area_not_covered"

-- An entry of the state's `errors`: the keys that an entry lacks are null or empty. The key `loc` of the
-- validation's entries is not modelled.
pub record ErrorEntry : Type 0 where
  pub code : String
  pub provider : String
  pub message : String
  pub detail : Json

unfoldable pub to_dict : ProviderError → ErrorEntry
unfolding code
to_dict e = record {
  code = code e.kind;
  provider = e.provider;
  message = e.message;
  detail = e.detail;
}

-- An entry that the graph's own nodes write: a code and a message.
abbrev pub entry : String → String → ErrorEntry
entry c m = record { code = c; provider = ""; message = m; detail = Json.null }

abbrev pub is_no_route : Kind → Bool
is_no_route no_route = true
is_no_route _ = false
