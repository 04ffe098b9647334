-- ===== src/Integrations/Claude/Hooks.antt =====
-- The events of hooks, sdk/typescript/src/integrations/claude-agent-sdk.ts.
use farfield.Base.{
  ◌≡◌, refl, ap, ◌++◌, true, false, Option, none, some, Text, text, is_truthy, is_present, arith,
  Bool-cases, inl, inr,
}
use farfield.Sdk.Types.{Value, Event}
use farfield.Sdk.Client.{Result, ok, fault}
use farfield.Integrations.Payload.{Json}
use farfield.Integrations.Ids.{valid_id, external_id, matches_id, is_alnum, is_id_unit}
use farfield.Integrations.Ids.Validity.{
  IsDigest, IsIdPrefix, external_id-valid, safe_optional_id-valid,
}
use farfield.Integrations.Claude.{
  HookInput, missing_session, hook_event, event_from_hook, tool_use_id, span_of, parent_of,
}

pub conv_prefix : IsIdPrefix (text "conv_claude_")
unfolding text matches_id is_alnum is_id_unit
conv_prefix = record { begins = refl; short = omega arith }

external_id-hashed :
    (sha256 : Text → Text) (s : Text)
    → valid_id s ≡ false
    → external_id sha256 s (text "conv_claude_") ≡ text "conv_claude_" ++ sha256 s
unfolding external_id
external_id-hashed sha256 s h = rw h refl

pub span_prefix : IsIdPrefix (text "span_claude_")
unfolding text matches_id is_alnum is_id_unit
span_prefix = record { begins = refl; short = omega arith }

-- All ids of an event are valid; a session id that is valid is kept for the conversation and the
-- trace, and the conversation of any other is its digest behind the prefix.
pub record HasValidIds (sha256 : Text → Text) (session : Text) (e : Event) : Type 0 where
  pub conversation : (c : Text) × (e.conversation_id ≡ some c) × (valid_id c ≡ true)
  pub kept :
      valid_id session ≡ true → (e.conversation_id ≡ some session) × (e.trace_id ≡ some session)
  pub hashed :
      valid_id session ≡ false
      → (e.conversation_id ≡ some (text "conv_claude_" ++ sha256 session)) × (e.trace_id ≡ none)
  pub span : (id : Text) → e.span_id ≡ some id → valid_id id ≡ true
  pub parent : (id : Text) → e.parent_id ≡ some id → valid_id id ≡ true

module _ (sha256 : Text → Text) (d : IsDigest sha256) (place : Json → Value) where
  span_of-valid :
      (input : HookInput) (callback_id : Option Text) (id : Text)
      → span_of sha256 place input callback_id ≡ some id
      → valid_id id ≡ true
  unfolding span_of
  span_of-valid input callback_id id e = safe_optional_id-valid sha256 d _ _ id span_prefix e

  parent_of-valid :
      (input : HookInput) (callback_id : Option Text) (id : Text)
      → parent_of sha256 place input callback_id ≡ some id
      → valid_id id ≡ true
  unfolding parent_of
  parent_of-valid input callback_id id e =
      elim (Bool-cases (is_present (tool_use_id sha256 place input callback_id))) [
        | inl used ↦ safe_optional_id-valid sha256 d _ _ id span_prefix (rw used at e)
        | inr unused ↦ let bad : none ≡ some id = rw unused at e in cc
      ]

  hook_event-HasValidIds :
      (input : HookInput) (callback_id agent : Option Text)
      → HasValidIds sha256 input.session_id (hook_event sha256 place input callback_id agent)
  unfolding hook_event
  hook_event-HasValidIds input callback_id agent =
      let (valid, kept) =
        external_id-valid sha256 d input.session_id (text "conv_claude_") conv_prefix in
      record {
        conversation = (external_id sha256 input.session_id (text "conv_claude_"), refl, valid);
        kept = λ h. (ground (arith, kept h), ground arith);
        hashed = λ h. (ap some (external_id-hashed sha256 input.session_id h), ground arith);
        span = span_of-valid input callback_id;
        parent = parent_of-valid input callback_id;
      }

  abbrev pub IsHookResult : Text → Result Event → Type 0
  IsHookResult session (ok e) = (is_truthy session ≡ true) × HasValidIds sha256 session e
  IsHookResult session (fault thrown) = (is_truthy session ≡ false) × (thrown ≡ missing_session)

  -- `eventFromHook` throws exactly on an empty session id. Otherwise all ids of the event are valid
  -- for the server; a session id that is valid is the conversation and the trace, and any other is
  -- replaced by its own digest behind `conv_claude_` and gives no trace. The digest is assumed to be 64 hexadecimal digits.
  pub event_from_hook-HasValidIds :
      (input : HookInput) (callback_id agent : Option Text)
      → IsHookResult input.session_id (event_from_hook sha256 place input callback_id agent)
  unfolding event_from_hook
  event_from_hook-HasValidIds input callback_id agent =
      elim (Bool-cases (is_truthy input.session_id)) [
        | inr missing ↦ rw (missing, event_from_hook) (missing, refl)
        | inl there ↦
            rw (there, event_from_hook) (there, hook_event-HasValidIds input callback_id agent)
      ]
