-- ===== src/Ui/History/Analysis/Tallies.antt =====
-- What the loop of `analyzeSession` collects, server/ui/src/lib/history.ts.
use farfield.Base.{
  ◌≡◌, refl, ap, ◌∙◌, Bool, true, false, ◌&&◌, List, [], ◌∷◌, map, Option, none, some, Text, text,
  is_truthy, is_present, get_or, keep, arith, if◌then◌else◌, Bool-cases, Option-cases, inl, inr,
}
use farfield.Sdk.Types.{Number}
use farfield.Ui.History.{TimelineEntry, Engine, has_kind, as_object, as_text, as_number, prop_of}
use farfield.Ui.History.Analysis.{
  Tally, is_completed, tally, tally_entry, tally_content, add_usage, no_tally, add_present,
  add_found, analyze_session,
}

-- The members of a list in the order of their first occurrences.
abbrev pub collect : List (Option Text) → List Text → List Text
collect [] set = set
collect (o ∷ os) set = collect os (add_present o set)

abbrev pub trace_of : TimelineEntry → Option Text
trace_of entry = entry.history_record.trace_id

-- The text that a user's message gives.
abbrev pub text_given : TimelineEntry → Option Text
text_given entry =
    if has_kind (text "message.user") entry
    then as_text (prop_of (text "text") (as_object (some entry.content)))
    else none

-- The first text that is not empty.
abbrev pub first_given : List TimelineEntry → Text
first_given [] = []
first_given (entry ∷ entries) =
    if is_present (text_given entry) then get_or (text_given entry) [] else first_given entries

-- The models in the order of their first requests.
abbrev pub model_of : TimelineEntry → Option Text
model_of entry =
    if has_kind (text "model.request") entry
    then as_text (prop_of (text "model") (as_object (some entry.content)))
    else none

abbrev pub collect_found : List (Option Text) → List Text → List Text
collect_found [] set = set
collect_found (o ∷ os) set = collect_found os (add_found o set)

-- The number under a key of the usage of an entry.
abbrev pub reported : Engine → Text → TimelineEntry → Number
reported engine key entry =
    get_or
      (as_number
        (prop_of key (as_object (prop_of (text "usage") (as_object (some entry.content))))))
      engine.zero_number

abbrev pub has_object : TimelineEntry → Bool
has_object entry = elim (as_object (some entry.content)) [ none ↦ false | some _ ↦ true ]

abbrev pub sum_from : Engine → Number → List Number → Number
sum_from engine n [] = n
sum_from engine n (m ∷ ms) = sum_from engine (engine.add n m) ms

-- The turns whose usage is counted.
abbrev pub counted : TimelineEntry → Bool
counted entry = is_completed entry && has_object entry

sum_ahead :
    (engine : Engine) (entry : TimelineEntry) (entries : List TimelineEntry) (key : Text)
    (n m : Number)
    → n ≡ (if counted entry then engine.add m (reported engine key entry) else m)
    → sum_from engine n (map (reported engine key) (keep counted entries))
      ≡ sum_from engine m (map (reported engine key) (keep counted (entry ∷ entries)))
sum_ahead engine entry entries key n m h = elim (Bool-cases (counted entry)) [
  | inl read ↦ rw (h, read) refl
  | inr passed ↦ rw (h, passed) refl
]

present-truthy : (p : Option Text) → is_present p ≡ is_truthy (get_or p [])
present-truthy none = refl
present-truthy (some s) = refl

prompt_alone : (p : Option Text) → get_or p [] ≡ (if is_present p then get_or p [] else [])
prompt_alone none = refl
prompt_alone (some []) = refl
prompt_alone (some (c ∷ s)) = refl

prompt_ahead :
    (q p g : Option Text) (r s : Text)
    → get_or q [] ≡ (if is_present p then get_or p [] else get_or g [])
    → r ≡ (if is_present q then get_or q [] else s)
    → r ≡ (if is_present p then get_or p [] else if is_present g then get_or g [] else s)
prompt_ahead q p g r s h k = ground (arith, present-truthy q, present-truthy p, present-truthy g)

module _ (engine : Engine) where
  record IsRead (entry : TimelineEntry) (t after : Tally) : Type 0 where
    traces : after.traces ≡ add_present (trace_of entry) t.traces
    models : after.models ≡ add_found (model_of entry) t.models
    prompt :
        get_or after.prompt []
        ≡ (if is_present t.prompt then get_or t.prompt [] else get_or (text_given entry) [])
    input : after.input_tokens ≡ (
        if counted entry
        then engine.add t.input_tokens (reported engine (text "input_tokens") entry)
        else t.input_tokens)
    output : after.output_tokens ≡ (
        if counted entry
        then engine.add t.output_tokens (reported engine (text "output_tokens") entry)
        else t.output_tokens)

  entry-IsRead : (entry : TimelineEntry) (t : Tally) → IsRead entry t (tally_entry engine entry t)
  unfolding tally_entry tally_content add_usage
  entry-IsRead entry t = elim (Option-cases (as_object (some entry.content))) [
    | inl n ↦
        rw (n, tally_entry)
          (record {
            traces = refl;
            models = ground arith;
            prompt = ground arith;
            input = ground arith;
            output = ground arith;
          })
    | inr (content, h) ↦
        rw (h, tally_entry)
          (elim (Bool-cases (is_completed entry)) [
            | inl c ↦
                rw (c, tally_content)
                  (record {
                    traces = refl;
                    models = ground arith;
                    prompt = ground arith;
                    input = ground arith;
                    output = ground arith;
                  })
            | inr o ↦
                rw (o, tally_content)
                  (record {
                    traces = refl;
                    models = ground arith;
                    prompt = ground arith;
                    input = ground arith;
                    output = ground arith;
                  })
          ])
  ]

  -- What a loop over the entries makes of a tally.
  record IsTallied (entries : List TimelineEntry) (t after : Tally) : Type 0 where
    traces : after.traces ≡ collect (map trace_of entries) t.traces
    models : after.models ≡ collect_found (map model_of entries) t.models
    prompt :
        get_or after.prompt []
        ≡ (if is_present t.prompt then get_or t.prompt [] else first_given entries)
    input :
        after.input_tokens
        ≡ sum_from engine t.input_tokens
            (map (reported engine (text "input_tokens")) (keep counted entries))
    output :
        after.output_tokens
        ≡ sum_from engine t.output_tokens
            (map (reported engine (text "output_tokens")) (keep counted entries))

  tally-IsTallied :
      (entries : List TimelineEntry) (t : Tally) → IsTallied entries t (tally engine entries t)
  unfolding tally
  tally-IsTallied [] t = record {
    traces = refl;
    models = refl;
    prompt = prompt_alone t.prompt;
    input = refl;
    output = refl;
  }
  tally-IsTallied (entry ∷ entries) t =
      let r = entry-IsRead entry t in
      let rest = tally-IsTallied entries (tally_entry engine entry t) in
      record {
        traces = rest.traces ∙ ap (collect (map trace_of entries)) r.traces;
        models = rest.models ∙ ap (collect_found (map model_of entries)) r.models;
        prompt =
            prompt_ahead (tally_entry engine entry t).prompt t.prompt (text_given entry) _ _
              r.prompt rest.prompt;
        input = rest.input ∙ sum_ahead engine entry entries (text "input_tokens") _ _ r.input;
        output = rest.output ∙ sum_ahead engine entry entries (text "output_tokens") _ _ r.output;
      }

  -- The loop of `analyzeSession` collects the trace ids that are not empty and the models of the
  -- requests, each once, in the order of their first occurrences. The prompt is the first text of a
  -- user that is not empty, or no text. The input and the output tokens are the sums, from the
  -- first turn on, of what the completed turns report.
  pub analyze_session-collects :
      (entries : List TimelineEntry)
      → ((analyze_session engine entries).traces ≡ collect (map trace_of entries) [])
        × ((analyze_session engine entries).models ≡ collect_found (map model_of entries) [])
        × (get_or (analyze_session engine entries).prompt [] ≡ first_given entries)
        × ((analyze_session engine entries).input_tokens
            ≡ sum_from engine engine.zero_number
                (map (reported engine (text "input_tokens")) (keep counted entries)))
        × ((analyze_session engine entries).output_tokens
            ≡ sum_from engine engine.zero_number
                (map (reported engine (text "output_tokens")) (keep counted entries)))
  unfolding analyze_session
  analyze_session-collects entries =
      let all = tally-IsTallied entries (no_tally engine) in
      (all.traces, all.models, all.prompt, all.input, all.output)
