-- ===== src/Integrations/Claude/Tests.antt =====
-- Hooks and their events on small inputs, sdk/typescript/src/integrations/claude-agent-sdk.ts.
use farfield.Base.{
  ℕ, zero, suc, ◌≡◌, refl, Bool, true, not, [], ◌∷◌, none, some, Text, text, text_eq, all,
}
use farfield.Base.Map.{get}
use farfield.Sdk.Types.{Value, null}
use farfield.Integrations.Payload.{Json, end}
use farfield.Integrations.Ids.{valid_id, matches_id, is_alnum, is_id_unit}
use farfield.Integrations.Ids.Validity.{IsDigest}
use farfield.Integrations.Claude.{HookInput, event_from_hook, hook_kind, hook_events, hook_status}
use farfield.Integrations.Claude.Hooks.{IsHookResult, event_from_hook-HasValidIds}

computes : Unit {0}
unfolding get hook_kind hook_status text text_eq valid_id matches_id is_alnum is_id_unit
computes = tt

is_mapped : Text → Bool
is_mapped event = not (text_eq (hook_kind event) (text "agent.hook"))

-- Every hook that is subscribed has a kind of its own.
kinds_test : all is_mapped hook_events ≡ true
unfolding computes is_mapped
kinds_test = refl

status_test : hook_status (text "StopFailure") ≡ some (text "error")
unfolding computes
status_test = refl

abbrev zeros : ℕ → Text
zeros zero = []
zeros (suc n) = b'0' ∷ zeros n

abbrev hash : Text → Text
hash s = zeros 64

hash-IsDigest : IsDigest hash
unfolding is_id_unit is_alnum
hash-IsDigest = record { digits = λ s. refl; id_units = λ s. refl }

abbrev input : HookInput
input = record { hook_event_name = text "Stop"; session_id = text "s 1"; payload = end }

abbrev no_value : Json → Value
no_value j = null

event_from_hook-HasValidIds_example :
    IsHookResult hash hash-IsDigest no_value input.session_id
      (event_from_hook hash no_value input none none)
event_from_hook-HasValidIds_example =
    event_from_hook-HasValidIds hash hash-IsDigest no_value input none none
