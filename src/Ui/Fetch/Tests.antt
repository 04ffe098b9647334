-- ===== src/Ui/Fetch/Tests.antt =====
-- Answers to the viewer, server/ui/src/lib/history.ts.
use farfield.Base.{
  ℕ, if◌then◌else◌, ◌≡◌, ◌↔◌, refl, false, [], ◌∷◌, List, Option, none, some, Text, text, text_eq,
  decimal, decimal_from,
}
use farfield.Base.Map.{get}
use farfield.Sdk.Client.{ok}
use farfield.Sdk.Queries.{Encoding}
use farfield.Sdk.Request.{Reader, Settings, Round, Answer, replied}
use farfield.Sdk.Calls.{timeline}
use farfield.Ui.History.{TimelineEntry}
use farfield.Ui.Samples.{entry_of}
use farfield.Ui.App.{init, loaded, broken, answer_timeline}
use farfield.Ui.Demo.{Clock}
use farfield.Ui.Demo.Entries.{is_demo_mode}
use farfield.Ui.Fetch.{Engine, Reply, unreached, read_json, fetch_timeline}
use farfield.Ui.Fetch.Client.{reply_of, fetch_timeline-timeline}
use farfield.Ui.Fetch.Shown.{IsShown, fetch_timeline-IsShown}

-- A body that begins with `<` or is empty is not JSON; the others stand for themselves.
abbrev parse : Text → Option Text
parse [] = none
parse (c ∷ body) = if text_eq (c ∷ []) (b'<' ∷ []) then none else some (c ∷ body)

abbrev engine : Engine Text
engine = record {
  parse = parse;
  unexpected = λ body. text "Unexpected token '<'";
  is_null = λ s. text_eq s (text "null");
  message_of = λ s. if text_eq s (text "{}") then none else some s;
}

computes : Unit {0}
unfolding text text_eq decimal decimal_from read_json
computes = tt

-- Without a body in JSON the status of an error is not told.
read_json_test :
    (read_json engine 404 (text "{}") ≡ broken (text "Request failed with 404"))
    × (read_json engine 404 (text "gone") ≡ broken (text "gone"))
    × (read_json engine 502 (text "<html>") ≡ broken (text "Unexpected token '<'"))
    × (read_json engine 502 (text "null")
        ≡ broken (text "Cannot read properties of null (reading 'error')"))
unfolding computes
read_json_test = (refl, refl, refl, refl)

abbrev reader : Reader Text
reader = record {
  parse = parse;
  error_of = λ s. none;
  seconds = λ s. none;
  date = λ s. none;
  now = 0;
}

abbrev settings : Settings
settings = record {
  endpoint = text "http://h";
  token = none;
  max_retries = 0;
  retry_delay = 0;
  headers = [];
}

abbrev encoding : Encoding
encoding = record { iso = λ n. []; print_parameters = λ p. []; encode_component = λ s. s }

abbrev clock : Clock
clock = record {
  double = λ n. record { bits = n };
  occurred = λ scenario index n. [];
  recorded = λ at. at;
  size = λ content. record { bits = 0 };
}

abbrev given : Answer
given = replied 200 (text "[]") none

abbrev rounds : ℕ → Round
rounds n = record { answer = given; aborted = false; interrupted = none }

abbrev network : Text → Reply
network address = reply_of given

abbrev typed : Text → List TimelineEntry
typed s = entry_of s (text "message.user") none ∷ []

not_demo : is_demo_mode [] ≡ false
unfolding is_demo_mode get
not_demo = refl

fetch_timeline-timeline_example :
    (fetch_timeline engine (λ s. 0) clock [] [] network encoding.encode_component typed (text "c")
      ≡ loaded (typed (text "[]")))
    ↔ ((value : Text) × ((timeline reader settings rounds encoding (text "c")).result
          ≡ ok (some value))
        × (typed (text "[]") ≡ typed value))
fetch_timeline-timeline_example =
    fetch_timeline-timeline reader engine (λ body. refl) refl (λ s. 0) clock [] [] network typed
      settings encoding (text "c") rounds (typed (text "[]")) not_demo refl

fetch_timeline-IsShown_example : IsShown engine typed (unreached (text "Failed to fetch")) init (
    answer_timeline
      (fetch_timeline engine
        (λ s. 0)
        clock
        []
        []
        (λ address. unreached (text "Failed to fetch"))
        (λ s. s)
        typed
        (text "c"))
      init)
fetch_timeline-IsShown_example =
    fetch_timeline-IsShown engine typed (λ s. 0) clock [] []
      (λ address. unreached (text "Failed to fetch")) (λ s. s) (text "c") init not_demo
