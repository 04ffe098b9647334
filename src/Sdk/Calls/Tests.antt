-- ===== src/Sdk/Calls/Tests.antt =====
-- Calls that read, on scripted answers, sdk/typescript/src/client.ts.
use farfield.Base.{
  ℕ, if◌then◌else◌, zero, suc, ◌≡◌, ◌≤◌, refl, true, false, [], Option, none, some, Text, text,
  text_eq, length, replicate, decimal, decimal_from, trim, trim_start, trim_end, is_space,
}
use farfield.Base.Map.{put, spread}
use farfield.Sdk.Client.{ok, fault, type_error}
use farfield.Sdk.Queries.{
  Encoding, Query, odd, bad_limit, validate_limit, query_path, parameters_of, conversations_path,
}
use farfield.Sdk.Request.{
  Reader, Settings, Round, Answer, replied, broken, request, attempts, decide, received, caught,
  again, wait, retry_delay, decode, api_fault, request_headers,
}
use farfield.Sdk.Calls.{HealthAnswer, get_call, query, conversations, judge, health}
use farfield.Sdk.Calls.Health.{IsVerdict, health-IsVerdict, health_trace, plain_get}

abbrev reader : Reader Text
reader = record {
  parse = λ s. some s;
  error_of = λ s. none;
  seconds = λ s. none;
  date = λ s. none;
  now = 0;
}

abbrev settings : Settings
settings = record {
  endpoint = text "http://h";
  token = none;
  max_retries = 2;
  retry_delay = 100;
  headers = [];
}

-- A body names the service that answers, and `null` is null.
abbrev health_of : Text → Option HealthAnswer
health_of s =
    if text_eq s (text "null") then none else some (record { ok_field = true; service = some s })

abbrev once : Answer → ℕ → Round
once a n = record { answer = a; aborted = false; interrupted = none }

-- 503, then an answer.
abbrev second_time : Answer → ℕ → Round
second_time a zero = once (replied 503 [] none) 0
second_time a n = once a n

abbrev encoding : Encoding
encoding = record { iso = λ n. []; print_parameters = λ p. []; encode_component = λ s. s }

abbrev wrong_limit : Query
wrong_limit = record {
  text = none;
  conversation_id = none;
  trace_id = none;
  kind = none;
  agent = none;
  tool = none;
  status = none;
  tags = [];
  since = none;
  until = none;
  limit = some odd;
}

runs : Unit {0}
unfolding request attempts decide received caught again wait retry_delay decode api_fault
    request_headers text text_eq put spread decimal decimal_from trim trim_start trim_end is_space
    get_call judge health query conversations validate_limit query_path parameters_of
    conversations_path
runs = tt

health_test :
    (health reader settings (second_time (replied 200 (text "farfield") none)) health_of ≡ ok true)
    × (health reader settings (once (replied 200 (text "nginx") none)) health_of ≡ ok false)
unfolding runs
health_test = (refl, refl)

-- A body that is null or missing is an error.
no_answer_test :
    (health reader settings (once (replied 200 (text "null") none)) health_of
      ≡ fault (type_error (text "Cannot read properties of null (reading 'ok')")))
    × (health reader settings (once (replied 200 [] none)) health_of
        ≡ fault (type_error (text "Cannot read properties of undefined (reading 'ok')")))
unfolding runs
no_answer_test = (refl, refl)

-- A limit that is refused sends nothing.
limit_test :
    (query reader settings (once (broken [])) encoding wrong_limit
      ≡ record { sent = []; waits = []; result = fault bad_limit })
    × ((conversations reader settings (once (broken [])) encoding (some odd)).sent ≡ [])
unfolding runs
limit_test = (refl, refl)

healthy :
    health reader settings (second_time (replied 200 (text "farfield") none)) health_of ≡ ok true
unfolding runs
healthy = refl

health-IsVerdict_example :
    let rounds = second_time (replied 200 (text "farfield") none) in
    let t = health_trace reader settings rounds health_of in
    IsVerdict reader settings rounds health_of (rounds (length t.waits)).answer true
    × (t.sent
        ≡ replicate
            (suc (length t.waits))
            (plain_get reader settings rounds health_of (text "/v1/health")))
    × (length t.waits ≤ settings.max_retries)
health-IsVerdict_example =
    health-IsVerdict reader settings (second_time (replied 200 (text "farfield") none)) health_of
      true healthy
