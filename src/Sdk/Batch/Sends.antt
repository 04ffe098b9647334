-- ===== src/Sdk/Batch/Sends.antt =====
-- The sends of the background processor meet the test of `capturePreparedBatch`,
-- sdk/typescript/src/processor.ts and sdk/typescript/src/client.ts.
use farfield.Base.{◌≡◌, refl, true, List, [], ◌∷◌, none, is_truthy, All}
use farfield.Sdk.Types.{WireEvent}
use farfield.Sdk.Client.{ok, Runtime}
use farfield.Sdk.Batch.{send_segment, capture_prepared_batch}
use farfield.Sdk.Batch.Guard.{capture_prepared_batch-accepts}
use farfield.Sdk.Processor.{groups}
use farfield.Sdk.Processor.GroupLaws.{IsGroup, groups-IsGroup, groups-All}

abbrev HasConversation : WireEvent → Type 0
HasConversation e = is_truthy e.conversation_id ≡ true

-- The request of a group carries the group.
abbrev pub IsAccepted : Runtime → List WireEvent → Type 0
IsAccepted rt values = capture_prepared_batch rt none values ≡ ok (send_segment rt none values)

IsGroup-IsAccepted :
    (rt : Runtime) (values : List WireEvent)
    → IsGroup values
    → All HasConversation values
    → IsAccepted rt values
IsGroup-IsAccepted rt [] (n, _) h = absurd (n refl)
IsGroup-IsAccepted rt (e ∷ values) (n, (c, (same, rest))) (h, hs) =
    capture_prepared_batch-accepts rt none c (e ∷ values) (rw same at h, n, (same, rest))

All-IsAccepted :
    (rt : Runtime) (gs : List (List WireEvent))
    → All IsGroup gs
    → All (All HasConversation) gs
    → All (IsAccepted rt) gs
All-IsAccepted rt [] h k = tt
All-IsAccepted rt (values ∷ gs) (h, hs) (k, ks) =
    (IsGroup-IsAccepted rt values h k, All-IsAccepted rt gs hs ks)

-- Every group that the processor makes of a batch passes the test of `capturePreparedBatch`, if
-- each event of the batch has a conversation, as `prepareEvent` guarantees: no delivery fails for
-- the way in which events are grouped.
pub groups-IsAccepted :
    (rt : Runtime) (batch : List WireEvent)
    → All HasConversation batch
    → All (IsAccepted rt) (groups batch)
groups-IsAccepted rt batch h =
    All-IsAccepted rt (groups batch) (groups-IsGroup batch) (groups-All HasConversation batch h)
