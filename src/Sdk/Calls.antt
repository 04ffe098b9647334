-- ===== src/Sdk/Calls.antt =====
-- sdk/typescript/src/client.ts: the calls that read. Each asks for the path of Sdk/Queries, with no
-- body, by the loop of Sdk/Request.
pub mod Health
mod Tests
use farfield.Base.{◌&&◌, Bool, Option, none, some, Text, text, text_eq, ℕ, false, []}
use farfield.Sdk.Client.{Result, ok, fault, Fault, type_error}
use farfield.Sdk.Queries.{
  Limit, Query, Encoding, query_path, search_path, record_path, conversations_path, timeline_path,
}
use farfield.Sdk.Request.{Reader, Settings, Round, Trace, request}

-- The answer of `/v1/health`: `none` where it is null, whose properties cannot be read.
pub record HealthAnswer : Type 0 where
  pub ok_field : Bool
  pub service : Option Text

abbrev unreadable : Fault
unreadable = type_error (text "Cannot read properties of null (reading 'ok')")

abbrev undefined_answer : Fault
undefined_answer = type_error (text "Cannot read properties of undefined (reading 'ok')")

abbrev is_farfield : Option Text → Bool
is_farfield none = false
is_farfield (some service) = text_eq service (text "farfield")

-- `value.ok && value.service === "farfield"`
abbrev pub judged : HealthAnswer → Bool
judged value = value.ok_field && is_farfield value.service

-- What `health` makes of the result of its call.
unfoldable pub judge : {J : Type 0} → (J → Option HealthAnswer) → Result (Option J) → Result Bool
judge health_of (fault e) = fault e
judge health_of (ok none) = fault undefined_answer
judge health_of (ok (some value)) = elim (health_of value) [
  | none ↦ fault unreadable
  | some answer ↦ ok (judged answer)
]

module _ {J : Type 0} (reader : Reader J) (settings : Settings) (rounds : ℕ → Round) where
  -- A call of `#request` with `GET` and no body. What building the path throws is thrown before it.
  unfoldable pub get_call : Result Text → Trace J
  get_call (fault e) = record { sent = []; waits = []; result = fault e }
  get_call (ok path) = request reader settings (text "GET") path rounds (ok none)

  -- `query`, `search`, `getRecord`, `conversations` and `timeline`
  unfoldable pub query : Encoding → Query → Trace J
  query encoding options = get_call (query_path encoding options)

  unfoldable pub search : Encoding → Query → Trace J
  search encoding options = get_call (search_path encoding options)

  unfoldable pub get_record : Encoding → Text → Trace J
  get_record encoding id = get_call (ok (record_path encoding id))

  unfoldable pub conversations : Encoding → Option Limit → Trace J
  conversations encoding limit = get_call (conversations_path encoding limit)

  unfoldable pub timeline : Encoding → Text → Trace J
  timeline encoding id = get_call (ok (timeline_path encoding id))

  -- `health`
  unfoldable pub health : (J → Option HealthAnswer) → Result Bool
  health health_of = judge health_of (get_call (ok (text "/v1/health"))).result
