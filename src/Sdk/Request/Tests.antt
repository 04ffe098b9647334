-- ===== src/Sdk/Request/Tests.antt =====
-- Requests with scripted answers, sdk/typescript/src/client.ts.
use farfield.Base.{
  ℕ, zero, suc, ◌-◌, ◌*◌, ◌≡◌, refl, false, [], ◌∷◌, Option, none, some, Text, text, decimal,
  decimal_from, trim, trim_start, trim_end, is_space,
}
use farfield.Base.Map.{put, spread}
use farfield.Base.{text_eq}
use farfield.Sdk.Client.{ok, fault, api_error}
use farfield.Sdk.Request.{
  Reader, Settings, Round, Answer, replied, broken, request, attempts, decide, received, caught,
  again, wait, retry_delay, decode, api_fault, request_headers, Trace,
}
use farfield.Sdk.Request.Bounds.{IsRun, request-IsRun}

-- A body stands for itself; a header of one digit asks for so many seconds.
abbrev seconds_of : Text → Option ℕ
seconds_of (c ∷ []) = some ((c - 48) * 1000)
seconds_of _ = none

abbrev reader : Reader Text
reader = record {
  parse = λ s. some s;
  error_of = λ s. none;
  seconds = seconds_of;
  date = λ s. none;
  now = 0;
}

abbrev settings : Settings
settings = record {
  endpoint = text "http://h";
  token = some (text "t");
  max_retries = 2;
  retry_delay = 100;
  headers = [];
}

abbrev calm : Answer → Round
calm a = record { answer = a; aborted = false; interrupted = none }

-- 503 with a `Retry-After`, no response, then 200.
abbrev third_time : ℕ → Round
third_time zero = calm (replied 503 [] (some (text "1")))
third_time (suc zero) = calm (broken (text "reset"))
third_time _ = calm (replied 200 (text "{}") none)

abbrev body : Option Text
body = some (text "{}")

abbrev call : (ℕ → Round) → Trace Text
call rounds = request reader settings (text "GET") (text "/v1/health") rounds (ok body)

runs : Unit {0}
unfolding request attempts decide received caught again wait retry_delay decode api_fault
    request_headers text text_eq put spread decimal decimal_from trim trim_start trim_end is_space
runs = tt

third_time_test : ((call third_time).result ≡ ok body) × ((call third_time).waits ≡ 1000 ∷ 200 ∷ [])
unfolding runs
third_time_test = (refl, refl)

-- A status off the list ends the call at once.
bad_request_test :
    (call (λ n. calm (replied 400 [] none))).result
    ≡ fault (api_error 400 [] (text "HTTP 400") false)
unfolding runs
bad_request_test = refl

request-IsRun_example :
    IsRun reader settings (text "GET") (text "/v1/health") third_time body 0 (call third_time)
request-IsRun_example =
    request-IsRun reader settings (text "GET") (text "/v1/health") third_time body
