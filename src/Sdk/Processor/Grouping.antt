-- ===== src/Sdk/Processor/Grouping.antt =====
-- The grouping of a batch by conversation in `#deliverNext`, sdk/typescript/src/processor.ts.
use farfield.Base.{List, [], ◌∷◌, ◌++◌, Text, text_eq, if◌then◌else◌}
use farfield.Sdk.Types.{WireEvent}

-- `groups.get(id) ?? []`, `push` and `groups.set`. A group's key is the conversation of its events,
-- so the Map's entries are the groups themselves, each with its key.
unfoldable pub group_event : WireEvent → List (Text × List WireEvent) → List (Text × List WireEvent)
group_event e [] = (e.conversation_id, e ∷ []) ∷ []
group_event e ((id, values) ∷ more) =
    if text_eq id e.conversation_id
    then (id, values ++ e ∷ []) ∷ more
    else (id, values) ∷ group_event e more

unfoldable pub group_from :
    List WireEvent → List (Text × List WireEvent) → List (Text × List WireEvent)
unfolding group_event
group_from [] found = found
group_from (e ∷ events) found = group_from events (group_event e found)

abbrev pub values_of : List (Text × List WireEvent) → List (List WireEvent)
values_of [] = []
values_of ((id, values) ∷ more) = values ∷ values_of more

-- `groups.values()`
unfoldable pub groups : List WireEvent → List (List WireEvent)
unfolding group_from
groups events = values_of (group_from events [])
