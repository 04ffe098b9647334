-- ===== src/Sdk/Options.antt =====
-- The constructor of `Farfield`, sdk/typescript/src/client.ts. Of the numbers of the options, the
-- natural ones, the infinite one, the negative ones and NaN are told apart.
pub mod Configured
mod Tests
use farfield.Base.{
  ℕ, zero, suc, ◌==◌, Bool, true, false, not, ◌&&◌, ◌||◌, List, [], ◌∷◌, ◌++◌, Option, none, some,
  Text, text, text_eq, is_truthy, is_present, get_or, or_else, mem_text, if◌then◌else◌,
}
use farfield.Sdk.Types.{Scope}
use farfield.Sdk.Scope.{clone_scope}
use farfield.Sdk.Client.{Client, Hook, Result, ok, fault, Fault, type_error, require, ◌>>=◌, ◌>>◌}

-- A number of milliseconds or of retries: `n`, `-(n + 1)`, or the infinity below 0 by `lowest`.
pub data Amount : Type 0 where
  natural : ℕ → Amount
  infinite lowest not_a_number : Amount
  negative : ℕ → Amount

pub record FarfieldOptions : Type 0 where
  pub endpoint : Option Text
  pub token : Option Text
  pub timeout_ms : Option Amount
  pub max_retries : Option Amount
  pub retry_delay_ms : Option Amount
  pub headers : List (Text × Text)
  pub defaults : Option Scope
  pub before_send : Option Hook

-- `URL`, the parts that are read.
pub record Url : Type 0 where
  pub protocol : Text
  pub search : Text
  pub hash : Text

-- The environment: its variables, `new URL` with `none` for what it throws on, and
-- `JSON.stringify` of a string.
pub record Environment : Type 0 where
  pub endpoint : Option Text
  pub token : Option Text
  pub parse_url : Text → Option Url
  pub quote : Text → Text

-- `Farfield`
pub record Farfield : Type 0 where
  pub endpoint : Text
  pub token : Option Text
  pub timeout_ms : Amount
  pub max_retries : Amount
  pub retry_delay_ms : Amount
  pub headers : List (Text × Text)
  pub client : Client

-- `replace(/\/+$/, "")`
unfoldable pub strip_slashes : Text → Text
strip_slashes [] = []
strip_slashes (c ∷ s) =
    let rest = strip_slashes s in if c == b'/' && not (is_truthy rest) then [] else c ∷ rest

abbrev pub default_endpoint : Text
default_endpoint = text "http://127.0.0.1:8787"

-- The endpoint of the options, of the environment, or the default.
abbrev pub endpoint_of : Environment → FarfieldOptions → Text
endpoint_of environment options =
    strip_slashes (get_or (or_else options.endpoint environment.endpoint) default_endpoint)

-- The test of the endpoint.
abbrev pub is_plain_url : Url → Bool
is_plain_url url =
    mem_text url.protocol (text "http:" ∷ text "https:" ∷ [])
    && not (is_truthy url.search)
    && not (is_truthy url.hash)

-- `n < 0`; NaN is not below any number.
abbrev pub is_below_zero : Amount → Bool
is_below_zero (negative n) = true
is_below_zero lowest = true
is_below_zero _ = false

-- `n <= 0`
abbrev pub is_zero_or_below : Amount → Bool
is_zero_or_below (natural n) = n == 0
is_zero_or_below n = is_below_zero n

-- The numbers of the options or their defaults.
abbrev pub timeout_of : FarfieldOptions → Amount
timeout_of options = get_or options.timeout_ms (natural 10000)

abbrev pub retries_of : FarfieldOptions → Amount
retries_of options = get_or options.max_retries (natural 2)

abbrev pub delay_of : FarfieldOptions → Amount
delay_of options = get_or options.retry_delay_ms (natural 100)

abbrev pub wrong_number : Fault
wrong_number = type_error (text "farfield: timeout must be positive; retries cannot be negative")

abbrev pub wrong_endpoint : Environment → Text → Fault
wrong_endpoint environment endpoint =
    type_error (text "farfield: invalid endpoint " ++ environment.quote endpoint)

abbrev expect : {A : Type 0} → Option A → Fault → Result A
expect none thrown = fault thrown
expect (some value) thrown = ok value

-- `{}`
abbrev no_scope : Scope
no_scope = record {
  conversation_id = none;
  trace_id = none;
  span_id = none;
  parent_id = none;
  agent = none;
  tags = none;
}

-- The constructor behind the test of the endpoint.
unfoldable pub configure : Environment → FarfieldOptions → Text → Result Farfield
configure environment options endpoint = do
  require
      (not (
        is_zero_or_below (timeout_of options)
        || is_below_zero (retries_of options)
        || is_below_zero (delay_of options)))
      wrong_number
  ok (record {
    endpoint = endpoint;
    token = or_else options.token environment.token;
    timeout_ms = timeout_of options;
    max_retries = retries_of options;
    retry_delay_ms = delay_of options;
    headers = options.headers;
    client = record {
      defaults = clone_scope (get_or options.defaults no_scope);
      before_send = options.before_send;
    };
  })

-- The constructor.
unfoldable pub construct : Environment → FarfieldOptions → Result Farfield
construct environment options = do
  let endpoint = endpoint_of environment options
  url ← expect (environment.parse_url endpoint) (type_error (text "Invalid URL"))
  require (is_plain_url url) (wrong_endpoint environment endpoint)
  configure environment options endpoint
