-- ===== src/Sdk/Calls/Health.antt =====
-- What a verdict on the server's health rests on, sdk/typescript/src/client.ts.
use farfield.Base.{
  ℕ, ◌≡◌, ◌++◌, true, Bool, Option, none, some, Text, text, length, replicate, arith, suc, ◌≤◌,
}
use farfield.Sdk.Client.{Result, ok}
use farfield.Sdk.Request.{
  Reader, Settings, Answer, replied, broken, Round, is_success, Trace, request, decode, Sent,
  request_headers,
}
use farfield.Sdk.Request.Bounds.{IsReceived, request-IsRun, request-ok}
use farfield.Sdk.Calls.{HealthAnswer, get_call, judge, judged, health}

module _ {J : Type 0} (reader : Reader J) (settings : Settings) (rounds : ℕ → Round)
    (health_of : J → Option HealthAnswer) where
  abbrev pub health_trace : Trace J
  health_trace = request reader settings (text "GET") (text "/v1/health") rounds (ok none)

  abbrev pub plain_get : Text → Sent
  plain_get path = record {
    method = text "GET";
    url = settings.endpoint ++ path;
    headers = request_headers settings none;
    body = none;
  }

  -- The answer of the server that a verdict repeats.
  abbrev pub IsVerdict : Answer → Bool → Type 0
  IsVerdict (broken message) b = ⊥
  IsVerdict (replied status body retry_after) b =
      (is_success status ≡ true)
      × (value : J) × (reader.parse body ≡ some value)
      × (answer : HealthAnswer) × (health_of value ≡ some answer)
      × (b ≡ judged answer)

  judge-ok :
      (r : Result (Option J)) (b : Bool)
      → judge health_of r ≡ ok b
      → (value : J) × (r ≡ ok (some value))
        × (answer : HealthAnswer) × (health_of value ≡ some answer)
        × (b ≡ judged answer)
  unfolding judge
  judge-ok r b h = ground arith

  decode-some :
      (body : Text) (value : J)
      → decode reader settings (text "GET") (text "/v1/health") body ≡ ok (some value)
      → reader.parse body ≡ some value
  unfolding decode
  decode-some body value h = ground arith

  received-IsVerdict :
      (a : Answer) (value : J) (answer : HealthAnswer) (b : Bool)
      → IsReceived reader settings (text "GET") (text "/v1/health") a (some value)
      → health_of value ≡ some answer
      → b ≡ judged answer
      → IsVerdict a b
  received-IsVerdict (replied status body retry_after) value answer b (success, decoded) read e =
      (success, value, decode-some body value decoded, answer, read, e)
  received-IsVerdict (broken message) value answer b received read e = absurd received

  -- A verdict on the server's health, of either kind, is the one that the answer to the last
  -- attempt gives: it came with a status from 200 to 299 and a body that was read. No failure of
  -- the network, no error status and no other body becomes a verdict. It was asked for with the
  -- same request without a body every time, at most `maxRetries + 1` times.
  pub health-IsVerdict :
      (b : Bool)
      → health reader settings rounds health_of ≡ ok b
      → let t = health_trace in
        IsVerdict (rounds (length t.waits)).answer b
        × (t.sent ≡ replicate (suc (length t.waits)) (plain_get (text "/v1/health")))
        × (length t.waits ≤ settings.max_retries)
  unfolding health get_call
  health-IsVerdict b h =
      let (value, e, answer, read, same) = judge-ok health_trace.result b h in
      let run = request-IsRun reader settings (text "GET") (text "/v1/health") rounds none in
      (
        received-IsVerdict (rounds (length health_trace.waits)).answer value answer b
            (request-ok reader settings (text "GET") (text "/v1/health") rounds none (some value) e)
            read same,
        run.same_request,
        omega (arith, run.within),
      )
