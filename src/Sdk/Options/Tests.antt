-- ===== src/Sdk/Options/Tests.antt =====
-- Clients that are constructed on small inputs, sdk/typescript/src/client.ts.
use farfield.Base.{◌≡◌, refl, [], none, some, text, text_eq, mem_text}
use farfield.Sdk.Client.{ok, fault}
use farfield.Sdk.Scope.{clone_scope}
use farfield.Sdk.Options.{
  FarfieldOptions, Environment, natural, negative, not_a_number, strip_slashes, construct,
  configure, wrong_number,
}
use farfield.Sdk.Options.Configured.{Constructs, construct-Constructs}

abbrev environment : Environment
environment = record {
  endpoint = some (text "http://host:1/");
  token = none;
  parse_url = λ s. some (record { protocol = text "http:"; search = []; hash = [] });
  quote = λ s. s;
}

abbrev options : FarfieldOptions
options = record {
  endpoint = none;
  token = none;
  timeout_ms = none;
  max_retries = some (natural 0);
  retry_delay_ms = none;
  headers = [];
  defaults = none;
  before_send = none;
}

slashes_test : strip_slashes (text "http://host//") ≡ text "http://host"
unfolding strip_slashes text
slashes_test = refl

negative_test :
    construct environment (record options { max_retries = some (negative 0) }) ≡ fault wrong_number
unfolding construct configure strip_slashes text text_eq mem_text
negative_test = refl

-- NaN is let through, here for the timeout and the number of retries.
nan_test :
    construct environment
      (record options { timeout_ms = some not_a_number; max_retries = some not_a_number })
    ≡ ok (record {
      endpoint = text "http://host:1";
      token = none;
      timeout_ms = not_a_number;
      max_retries = not_a_number;
      retry_delay_ms = natural 100;
      headers = [];
      client = record {
        defaults = record {
          conversation_id = none;
          trace_id = none;
          span_id = none;
          parent_id = none;
          agent = none;
          tags = some [];
        };
        before_send = none;
      };
    })
unfolding construct configure strip_slashes text text_eq mem_text clone_scope
nan_test = refl

construct-Constructs_example : Constructs environment options (construct environment options)
construct-Constructs_example = construct-Constructs environment options
