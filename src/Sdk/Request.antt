-- ===== src/Sdk/Request.antt =====
-- `#request` with its helpers `decode`, `apiError` and `retryDelay`, sdk/typescript/src/client.ts.
-- What `fetch` answers in each attempt, and what the caller's signal does, are given by rounds.
-- The timer of an attempt shows as a failed `fetch`.
pub mod Bounds
mod Tests
use farfield.Base.{
  ℕ, zero, suc, ◌+◌, ◌-◌, ◌*◌, ◌^◌, Bool, true, false, not, ◌&&◌, ◌||◌, List, [], ◌∷◌, ◌++◌, Option,
  none, some, Text, text, is_truthy, is_present, get_or, trim, decimal, leb, ltb, ◌==◌,
  if◌then◌else◌, or_else,
}
use farfield.Base.Map.{put, spread}
use farfield.Sdk.Client.{Result, ok, fault, Fault, transport_error, api_error, raised}

-- `value.error` of a parsed error body.
pub record ErrorInfo : Type 0 where
  pub code : Option Text
  pub message : Option Text
  pub retryable : Bool

-- What the runtime supplies: `JSON.parse`, with `none` for what it throws on; the `error` property
-- of its result, with `none` where there is none or reading it throws; and how a `Retry-After`
-- header is read, as a number of milliseconds that `Number(value)` seconds are, or as a date.
pub record Reader (J : Type 0) : Type 0 where
  pub parse : Text → Option J
  pub error_of : J → Option ErrorInfo
  pub seconds : Text → Option ℕ
  pub date : Text → Option ℕ
  pub now : ℕ

pub record Settings : Type 0 where
  pub endpoint : Text
  pub token : Option Text
  pub max_retries : ℕ
  pub retry_delay : ℕ
  pub headers : List (Text × Text)

-- `fetch` and `response.text()` give a response, or one of them throws.
pub data Answer : Type 0 where
  replied : (status : ℕ) (body : Text) (retry_after : Option Text) → Answer
  broken : Text → Answer

-- An attempt: the answer, whether the signal is aborted when the loop tests it, and the reason if
-- it aborts the wait behind the attempt.
pub record Round : Type 0 where
  pub answer : Answer
  pub aborted : Bool
  pub interrupted : Option Text

-- `RETRYABLE`
abbrev pub is_retryable : ℕ → Bool
is_retryable s = s == 408 || s == 425 || s == 429 || s == 500 || s == 502 || s == 503 || s == 504

-- `response.ok`
abbrev pub is_success : ℕ → Bool
is_success s = leb 200 s && leb s 299

-- What is sent in an attempt.
pub record Sent : Type 0 where
  pub method : Text
  pub url : Text
  pub headers : List (Text × Text)
  pub body : Option Text

abbrev with_type : Option Text → List (Text × Text) → List (Text × Text)
with_type none h = h
with_type (some _) h = put (text "Content-Type") (text "application/json") h

abbrev with_token : Option Text → List (Text × Text) → List (Text × Text)
with_token none h = h
with_token (some []) h = h
with_token (some (c ∷ token)) h = put (text "Authorization") (text "Bearer " ++ c ∷ token) h

unfoldable pub request_headers : Settings → Option Text → List (Text × Text)
request_headers s body =
    let base =
      (text "Accept", text "application/json")
      ∷ (text "User-Agent", text "farfield-typescript/0.1.0-alpha.1")
      ∷ [] in
    with_token s.token (with_type body (spread base s.headers))

-- What an attempt comes to: the end of the call, or another attempt after a wait.
pub data Decision (J : Type 0) : Type 0 where
  finish : Result (Option J) → Decision J
  retry : ℕ → Decision J

-- What a call sent, how long it waited between the attempts, and its result.
pub record Trace (J : Type 0) : Type 0 where
  pub sent : List Sent
  pub waits : List ℕ
  pub result : Result (Option J)

-- `wait`, which a signal can end unless there is nothing to wait for.
unfoldable pub wait : ℕ → Option Text → Option Text
wait ms reason = if ms == 0 then none else reason

-- The text of an error with no message of its own.
abbrev shown : ℕ → Text → Text
shown status [] = text "HTTP " ++ decimal status
shown status (c ∷ body) = c ∷ body

-- `this.retryDelayMs * 2 ** attempt`
abbrev pub backoff : Settings → ℕ → ℕ
backoff settings attempt = settings.retry_delay * 2 ^ attempt

abbrev pub may_retry : Settings → ℕ → Round → Bool
may_retry settings attempt r = ltb attempt settings.max_retries && not r.aborted

module _ {J : Type 0} (reader : Reader J) where
  -- `retryDelay`
  unfoldable pub retry_delay : Option Text → ℕ → ℕ
  retry_delay value fallback =
      if not (is_present value) then fallback else elim (reader.seconds (get_or value [])) [
        | some ms ↦ ms
        | none ↦ elim (reader.date (get_or value [])) [
          | none ↦ fallback
          | some at ↦ at - reader.now
        ]
      ]

  -- `apiError`
  unfoldable pub api_fault : ℕ → Text → Bool → Fault
  api_fault status body retryable =
      let plain = api_error status [] (shown status (trim body)) retryable in
      elim (reader.parse body) [
        | none ↦ plain
        | some value ↦ elim (reader.error_of value) [
          | none ↦ plain
          | some info ↦
              if is_present info.message
              then api_error status (get_or info.code []) (get_or info.message [])
                  (retryable || info.retryable)
              else plain
        ]
      ]

  module _ (settings : Settings) (method path : Text) where
    abbrev transport : Text → Fault
    transport message =
        transport_error
          (text "farfield: " ++ (method ++ (text " " ++ (path ++ (text ": " ++ message)))))

    -- `decode`
    unfoldable pub decode : Text → Result (Option J)
    decode [] = ok none
    decode (c ∷ s) = elim (reader.parse (c ∷ s)) [
      | none ↦ fault (transport (text "response was not valid JSON"))
      | some value ↦ ok (some value)
    ]

    -- The `catch` for what is not an error of the client. What interrupts its wait is thrown as it
    -- is.
    unfoldable pub caught : ℕ → Round → Text → Decision J
    caught attempt r message =
        if may_retry settings attempt r
        then elim (wait (backoff settings attempt) r.interrupted) [
          | none ↦ retry (backoff settings attempt)
          | some reason ↦ finish (fault (raised reason))
        ]
        else finish (fault (transport message))

    -- The wait in the `try`. What interrupts it is caught below, where the signal is aborted.
    unfoldable pub again : ℕ → Round → Decision J
    again ms r = elim (wait ms r.interrupted) [
      | none ↦ retry ms
      | some reason ↦ finish (fault (transport reason))
    ]

    -- The body of the `try` behind `fetch`.
    unfoldable pub received : ℕ → Round → ℕ → Text → Option Text → Decision J
    received attempt r status body retry_after =
        if is_success status
        then finish (decode body)
        else if is_retryable status && may_retry settings attempt r
        then again (retry_delay retry_after (backoff settings attempt)) r
        else finish (fault (api_fault status body (is_retryable status)))

    unfoldable pub decide : ℕ → Round → Answer → Decision J
    decide attempt r (replied status body retry_after) = received attempt r status body retry_after
    decide attempt r (broken message) = caught attempt r message

    abbrev sent_now : Option Text → Sent
    sent_now body = record {
      method = method;
      url = settings.endpoint ++ path;
      headers = request_headers settings body;
      body = body;
    }

    abbrev out_of_budget : Trace J
    out_of_budget = record {
      sent = [];
      waits = [];
      result = fault (transport_error (text "farfield: retry budget exhausted"));
    }

    abbrev ended : Option Text → Result (Option J) → Trace J
    ended body result = record { sent = sent_now body ∷ []; waits = []; result = result }

    abbrev after : Option Text → ℕ → Trace J → Trace J
    after body ms rest = record {
      sent = sent_now body ∷ rest.sent;
      waits = ms ∷ rest.waits;
      result = rest.result;
    }

    -- The loop, by the attempts that are left, at `attempt`.
    unfoldable pub attempts : ℕ → ℕ → (ℕ → Round) → Option Text → Trace J
    attempts zero attempt rounds body = out_of_budget
    attempts (suc left) attempt rounds body =
        elim (decide attempt (rounds attempt) (rounds attempt).answer) [
          | finish result ↦ ended body result
          | retry ms ↦ after body ms (attempts left (suc attempt) rounds body)
        ]

    -- `#request`: the body is encoded once, and an error of `encode` is thrown before any attempt.
    unfoldable pub request : (ℕ → Round) → Result (Option Text) → Trace J
    request rounds (fault e) = record { sent = []; waits = []; result = fault e }
    request rounds (ok body) = attempts (settings.max_retries + 1) 0 rounds body
