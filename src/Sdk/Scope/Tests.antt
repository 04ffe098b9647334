-- ===== src/Sdk/Scope/Tests.antt =====
-- Nested conversations, sdk/typescript/src/client.ts.
use farfield.Base.{◌≡◌, refl, [], ◌∷◌, Option, none, some, Text, text, text_eq}
use farfield.Base.Map.{get, put, spread}
use farfield.Sdk.Types.{Scope, Tags}
use farfield.Sdk.Scope.{
  SameScope, merge_scope, active_scope, enter_conversation, active_scope-enter_conversation,
}

abbrev scope : Option Text → Tags → Scope
scope agent tags = record {
  conversation_id = none;
  trace_id = none;
  span_id = none;
  parent_id = none;
  agent = agent;
  tags = some tags;
}

abbrev outer : Scope
outer = scope (some (text "a")) ((text "x", text "1") ∷ [])

abbrev inner : Scope
inner = scope none ((text "x", text "2") ∷ (text "y", text "3") ∷ [])

inner_tags : (merge_scope (some outer) (some inner)).tags ≡ inner.tags
unfolding merge_scope spread put text text_eq
inner_tags = refl

active_scope-enter_conversation_example :
    SameScope
      (active_scope outer (some (enter_conversation outer none inner (text "conv_1"))))
      (enter_conversation outer none inner (text "conv_1"))
unfolding get text text_eq
active_scope-enter_conversation_example =
    active_scope-enter_conversation outer none inner (text "conv_1") (refl, tt) tt
      (refl, (refl, tt))
