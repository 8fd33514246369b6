-- ===== src/Providers/OrsClient/Tests.antt =====
-- The theorems on retries at a service that times out once, fails once, and then answers.
use py_bike_router.Base.{
  ℕ, ◌+◌, ◌≤◌, ◌<◌, ◌≡◌, ◌⊎◌, refl, some, true, false, ◌==◌, if◌then◌else◌, ok,
}
use py_bike_router.Base.Json.{Json}
use py_bike_router.Providers.OrsClient.{
  Response, Answer, ParseMode, is_retryable, outcome, send, parsed, request,
}
use py_bike_router.Providers.OrsClient.Retries.{retried, send-bounded, request-answered}

abbrev reply : ℕ → Response
reply status = record {
  status_code = status;
  retry_after = Json.null;
  body = "{}";
  json = some Json.null;
}

abbrev service : ℕ → Answer
service n =
    if n == 0
    then Answer.timed_out
    else if n == 1
    then Answer.responded (reply 503)
    else Answer.responded (reply 200)

send-bounded_example :
    (last : ℕ) × (last ≤ 2)
    × ((send service true 2).0 ≡ last + 1)
    × ((send service true 2).1 ≡ outcome service true last (service last))
    × (retried service true 0 last ≡ true)
    × ((is_retryable service true (service last) ≡ false) ⊎ (last ≡ 2))
send-bounded_example = send-bounded service true 2

request-service : request service 2 ParseMode.json ≡ ok Json.null
unfolding request
request-service = refl

request-answered_example :
    (i : ℕ) × (r : Response) × (i ≤ 2)
    × (retried service true 0 i ≡ true)
    × (service i ≡ Answer.responded r)
    × (r.status_code < 400)
    × (parsed ParseMode.json r ≡ ok Json.null)
request-answered_example = request-answered service 2 ParseMode.json Json.null request-service
