-- ===== src/Ui/Samples.antt =====
-- Small inputs of the viewer's tests: an engine, and records of a session.
use farfield.Base.{
  ℕ, ◌+◌, ◌-◌, ◌*◌, [], Option, none, some, Text, text, map, leb, get_or, length, if◌then◌else◌,
  ◌&&◌,
}
use farfield.Integrations.Payload.{null}
use farfield.Ui.History.{TimelineEntry}
use farfield.Ui.Match.{Matching}

abbrev pub lowered : ℕ → ℕ
lowered c = if leb b'A' c && leb c b'Z' then c + 32 else c

abbrev pub matching : Matching
matching = record {
  engine = record {
    lower = map lowered;
    get_time = λ s. some (length s);
    number_text = λ n. [];
    add = λ a b. a;
    zero_number = record { bits = 0 };
  };
  parse_number = λ s. record { bits = length s };
  times = λ n k. record { bits = n.bits * k };
  difference = λ a b. record { bits = get_or a 0 - get_or b 0 };
  canonical = lowered;
  stringify = λ j. text "null";
}

abbrev pub entry_of : Text → Text → Option Text → TimelineEntry
entry_of id kind tool = record {
  history_record = record {
    id = id;
    conversation_id = text "c";
    kind = kind;
    occurred_at = text "t";
    recorded_at = text "t";
    sequence = none;
    trace_id = none;
    span_id = none;
    parent_id = none;
    agent = none;
    tool = tool;
    status = none;
    tags = [];
    size = record { bits = 0 };
  };
  content = null;
}

abbrev pub call : TimelineEntry
call = entry_of (text "1") (text "tool.call") (some (text "Web_Search"))

abbrev pub asked : TimelineEntry
asked = entry_of (text "2") (text "message.user") none
