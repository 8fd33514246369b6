-- ===== src/Providers/OrsClient/Retries.antt =====
-- providers/ors_client.py: how often a request is sent, and what its result says of the last answer.
use py_bike_router.Base.{
  ℕ, zero, suc, ◌+◌, ◌≤◌, ◌<◌, ◌≡◌, refl, sym, ◌∙◌, ap, ◌⊎◌, inl, inr, Bool-cases, Bool, true,
  false, ◌&&◌, arith, ok, >>=-eq-ok, ok-injective, subst,
}
use py_bike_router.Base.Json.{Json}
use py_bike_router.Providers.OrsClient.{
  Response, Answer, Sent, ParseMode, is_server_error, is_retryable, outcome, send_from, send,
  parsed, checked, request,
}

module _ (answer : ℕ → Answer) (raise_on_5xx : Bool) where
  -- `count` attempts in a row, the first of them `attempt`, were of the kind that is tried again.
  abbrev pub retried : (attempt count : ℕ) → Bool
  retried attempt zero = true
  retried attempt (suc count) =
      let rest = retried (suc attempt) count in
      is_retryable answer raise_on_5xx (answer attempt) && rest

  -- What the loop did from an attempt on, with `left` retries left.
  record Sends (left attempt : ℕ) (s : Sent) : Type 0 where
    last : ℕ
    more : ℕ
    reached : last ≡ attempt + more
    within : more ≤ left
    counted : s.0 ≡ last + 1
    result : s.1 ≡ outcome answer raise_on_5xx last (answer last)
    earlier : retried attempt more ≡ true
    stopped : (is_retryable answer raise_on_5xx (answer last) ≡ false) ⊎ (more ≡ left)

  send_from-Sends :
      (left attempt : ℕ) → Sends left attempt (send_from answer raise_on_5xx left attempt)
  unfolding send_from
  send_from-Sends zero attempt = record {
    last = attempt;
    more = 0;
    reached = omega arith;
    within = omega arith;
    counted = refl;
    result = refl;
    earlier = refl;
    stopped = inr refl;
  }
  send_from-Sends (suc left) attempt =
      elim (Bool-cases (is_retryable answer raise_on_5xx (answer attempt))) [
        | inr e ↦
            rw (e, send_from)
              (record {
                last = attempt;
                more = 0;
                reached = omega arith;
                within = omega arith;
                counted = refl;
                result = refl;
                earlier = refl;
                stopped = inl e;
              })
        | inl e ↦
            let r = send_from-Sends left (suc attempt) in
            rw (e, send_from)
              (record {
                last = r.last;
                more = suc r.more;
                reached = omega (arith, r.reached);
                within = omega (arith, r.within);
                counted = r.counted;
                result = r.result;
                earlier = rw e r.earlier;
                stopped = elim r.stopped [ inl done ↦ inl done | inr all ↦ inr (ap suc all) ];
              })
      ]

  -- `send` makes between one and `max_retries` + 1 requests. All but the last were timeouts, or server
  -- errors where these are raised; its result is what the last answer comes to; and it stops only
  -- when the last answer is of another kind or all attempts are used up.
  pub send-bounded :
      (max_retries : ℕ)
      → (last : ℕ) × (last ≤ max_retries)
        × ((send answer raise_on_5xx max_retries).0 ≡ last + 1)
        × ((send answer raise_on_5xx max_retries).1
            ≡ outcome answer raise_on_5xx last (answer last))
        × (retried 0 last ≡ true)
        × ((is_retryable answer raise_on_5xx (answer last) ≡ false) ⊎ (last ≡ max_retries))
  unfolding send
  send-bounded max_retries =
      let r = send_from-Sends max_retries 0 in
      let same : r.last ≡ r.more = omega (arith, r.reached) in
      (
        r.last,
        omega (arith, same, r.within),
        r.counted,
        r.result,
        rw same r.earlier,
        elim r.stopped [ inl done ↦ inl done | inr all ↦ inr (same ∙ all) ],
      )

  outcome-ok :
      (i : ℕ) (a : Answer) (r : Response)
      → outcome answer raise_on_5xx i a ≡ ok r
      → (a ≡ Answer.responded r) × ((is_server_error answer raise_on_5xx r && raise_on_5xx) ≡ false)
  outcome-ok i Answer.timed_out r h = cc
  outcome-ok i (Answer.http_error e) r h = cc
  outcome-ok i (Answer.responded q) r h =
      elim (Bool-cases (is_server_error answer raise_on_5xx q && raise_on_5xx)) [
        | inl e ↦ ground (arith, e, h)
        | inr e ↦
            let same : q ≡ r = ok-injective q r (sym (rw e refl) ∙ h) in
            (
              ap Answer.responded same,
              subst (λ x. (is_server_error answer raise_on_5xx x && raise_on_5xx) ≡ false) same e,
            )
      ]

module _ (answer : ℕ → Answer) where
  checked-ok :
      (mode : ParseMode) (r : Response) (v : Json)
      → checked mode r ≡ ok v
      → (r.status_code < 400) × (parsed mode r ≡ ok v)
  unfolding checked
  checked-ok mode r v h = ground arith

  -- A request that returns a value was answered with a status below 400, after at most `max_retries`
  -- retries that each followed a timeout or a server error, and the value is what this answer holds.
  pub request-answered :
      (max_retries : ℕ) (mode : ParseMode) (v : Json)
      → request answer max_retries mode ≡ ok v
      → (i : ℕ) × (r : Response) × (i ≤ max_retries)
        × (retried answer true 0 i ≡ true)
        × (answer i ≡ Answer.responded r)
        × (r.status_code < 400)
        × (parsed mode r ≡ ok v)
  unfolding request
  request-answered max_retries mode v h =
      let (r, s, c) = >>=-eq-ok ((send answer true max_retries).1) _ h in
      let (i, within, counted, result, earlier, stopped) = send-bounded answer true max_retries in
      let (is_answer, no_error) = outcome-ok answer true i (answer i) r (sym result ∙ s) in
      let (success, holds) = checked-ok mode r v c in
      (i, r, within, earlier, is_answer, success, holds)
