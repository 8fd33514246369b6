-- ===== src/Providers/OrsClient.antt =====
-- providers/ors_client.py: the transport of OpenRouteService requests, with retries, and the mapping of
-- answers to errors. The numbers in messages are not modelled; the details of the errors have them.
pub mod Retries
mod Tests
use py_bike_router.Base.{
  ℕ, zero, suc, ◌+◌, String, Option, none, some, List, [], ◌∷◌, Bool, true, false, ◌&&◌, ◌||◌, any,
  leb, ◌==◌, str_eq, if◌then◌else◌, Result, ok, err, ◌>>=◌,
}
use py_bike_router.Base.Int.{ℤ, pos}
use py_bike_router.Base.Json.{Json, Fields, integer, float, object, end, field, get_or_null}
use py_bike_router.Errors.{Kind, ProviderError}

-- `json` is response.json(): `none` where the text is no JSON.
pub record Response : Type 0 where
  pub status_code : ℕ
  pub retry_after : Json
  pub body : String
  pub json : Option Json

-- What the HTTP client does with one request: a TimeoutException, another HTTPError, or a response.
pub data Answer : Type 0 where
  timed_out : Answer
  http_error : String → Answer
  responded : Response → Answer

abbrev pub ors_error : Kind → String → Json → ProviderError
ors_error kind message detail = record {
  kind = kind;
  message = message;
  provider = "ors";
  detail = detail;
}

abbrev pub number : String → ℕ → Json
number key n = object (field key (integer (pos n)) end)

-- How many requests were made, and the response or the error.
abbrev pub Sent : Type 0
Sent = ℕ × Result ProviderError Response

-- `answer i` is what comes back for the request with the attempt number i.
module _ (answer : ℕ → Answer) (raise_on_5xx : Bool) where
  abbrev pub is_server_error : Response → Bool
  is_server_error r = leb 500 r.status_code

  -- The answers that the loop tries again after, while it has attempts left.
  abbrev pub is_retryable : Answer → Bool
  is_retryable Answer.timed_out = true
  is_retryable (Answer.http_error e) = false
  is_retryable (Answer.responded r) = is_server_error r && raise_on_5xx

  -- What the loop ends with, where it does not try again.
  abbrev pub outcome : (attempt : ℕ) → Answer → Result ProviderError Response
  outcome attempt Answer.timed_out =
      err (ors_error Kind.timeout "ORS request timed out" (number "attempts" (attempt + 1)))
  outcome attempt (Answer.http_error e) =
      err
        (ors_error Kind.unavailable "ORS request failed" (object (field "error" (Json.text e) end)))
  outcome attempt (Answer.responded r) =
      if is_server_error r && raise_on_5xx
      then err (ors_error Kind.unavailable "ORS returned HTTP" (number "status_code" r.status_code))
      else ok r

  -- `left` is max_retries - attempt.
  unfoldable pub send_from : (left attempt : ℕ) → Sent
  send_from zero attempt = (attempt + 1, outcome attempt (answer attempt))
  send_from (suc left) attempt =
      let retry = send_from left (suc attempt) in
      if is_retryable (answer attempt)
      then retry
      else (attempt + 1, outcome attempt (answer attempt))

  unfoldable pub send : (max_retries : ℕ) → Sent
  unfolding send_from
  send max_retries = send_from max_retries 0

abbrev pub no_route_codes : List ℕ
no_route_codes = 2009 ∷ 2010 ∷ []

abbrev pub is_no_route_code : Json → Bool
is_no_route_code (integer (pos n)) = any (λ c. c == n) no_route_codes
is_no_route_code (float s) = str_eq s "2009.0" || str_eq s "2010.0"
is_no_route_code _ = false

abbrev pub code_in : Json → Json
code_in (object fs) = get_or_null "code" fs
code_in _ = Json.null

abbrev pub error_code : Option Json → Json
error_code (some (object fs)) = code_in (get_or_null "error" fs)
error_code _ = Json.null

abbrev pub decoded : Option Json → Json
decoded none = object end
decoded (some v) = v

-- `_raise_for_client_error`
unfoldable pub client_error : Response → ProviderError
client_error r =
    if is_no_route_code (error_code r.json)
    then ors_error Kind.no_route "ORS could not find a route between the given points" (
        object (
          field "status_code" (integer (pos r.status_code))
            (field "ors_code" (error_code r.json) end)))
    else ors_error Kind.bad_response "ORS rejected the request" (
        object
          (field "status_code" (integer (pos r.status_code)) (field "body" (decoded r.json) end)))

pub data ParseMode : Type 0 where
  text json : ParseMode

abbrev pub parsed : ParseMode → Response → Result ProviderError Json
parsed ParseMode.text r = ok (Json.text r.body)
parsed ParseMode.json r = elim r.json [
  | some v ↦ ok v
  | none ↦ err (ors_error Kind.bad_response "ORS returned invalid JSON" (object end))
]

-- The status codes of a response that `_send` returned.
unfoldable pub checked : ParseMode → Response → Result ProviderError Json
unfolding client_error
checked mode r =
    if r.status_code == 429
    then err (
        ors_error Kind.rate_limit "ORS rate limit exceeded"
          (object (field "retry_after" r.retry_after end)))
    else if leb 400 r.status_code
    then err (client_error r)
    else parsed mode r

unfoldable pub request :
    (answer : ℕ → Answer) → (max_retries : ℕ) → ParseMode → Result ProviderError Json
unfolding send checked
request answer max_retries mode = do r ← (send answer true max_retries).1; checked mode r

-- `_request_json`
unfoldable pub request_json :
    (answer : ℕ → Answer) → (max_retries : ℕ) → Result ProviderError Fields
unfolding request
request_json answer max_retries = elim (request answer max_retries ParseMode.json) [
  | err e ↦ err e
  | ok (object fs) ↦ ok fs
  | ok _ ↦ err (ors_error Kind.bad_response "ORS endpoint returned a non-JSON payload" (object end))
]
