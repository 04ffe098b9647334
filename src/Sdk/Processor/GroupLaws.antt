-- ===== src/Sdk/Processor/GroupLaws.antt =====
-- What the grouping of a batch keeps, sdk/typescript/src/processor.ts.
use farfield.Base.{
  ◌+◌, ◌≤◌, ◌≡◌, ◌≢◌, refl, sym, ap, ◌∙◌, ◌⊎◌, inl, inr, true, false, List, [], ◌∷◌, ◌++◌, Text,
  text_eq, text_eq_iff, All, All-append, All-map, arith, keep, keep-append, keep-move, keep-none,
  concat, append_assoc, append-nil, append-ne-nil, length, length-append, Bool-cases,
}
use farfield.Sdk.Types.{WireEvent}
use farfield.Sdk.Processor.{groups, group_event, group_from, values_of}

abbrev pub OfConversation : Text → List WireEvent → Type 0
OfConversation id events = All (λ e. e.conversation_id ≡ id) events

-- The events of one conversation, in order.
abbrev pub of_conversation : Text → List WireEvent → List WireEvent
of_conversation id = keep (λ e. text_eq e.conversation_id id)

abbrev Keyed : Text × List WireEvent → Type 0
Keyed (id, values) = (values ≢ []) × OfConversation id values

abbrev IsNew : Text → List (Text × List WireEvent) → Type 0
IsNew id found = All (λ g. g.0 ≢ id) found

-- No two groups have one key.
abbrev HasDistinctKeys : List (Text × List WireEvent) → Type 0
HasDistinctKeys [] = Unit
HasDistinctKeys (g ∷ more) = IsNew g.0 more × HasDistinctKeys more

group_event-Keyed :
    (e : WireEvent) (found : List (Text × List WireEvent))
    → All Keyed found
    → All Keyed (group_event e found)
unfolding group_event
group_event-Keyed e [] h = ((λ p. cc, (refl, tt)), tt)
group_event-Keyed e ((id, values) ∷ more) (h, hs) =
    elim (Bool-cases (text_eq id e.conversation_id)) [
      | inl same ↦ rw same (
        (
          append-ne-nil values e [],
          All-append _ values (e ∷ []) h.1 (sym ((text_eq_iff _ _).0 same), tt),
        ),
        hs,
      )
      | inr other ↦ rw other (h, group_event-Keyed e more hs)
    ]

group_event-IsNew :
    (e : WireEvent) (id : Text) (found : List (Text × List WireEvent))
    → IsNew id found
    → e.conversation_id ≢ id
    → IsNew id (group_event e found)
unfolding group_event
group_event-IsNew e id [] h n = (n, tt)
group_event-IsNew e id ((key, values) ∷ more) (h, hs) n =
    ground (arith, group_event-IsNew e id more hs n)

group_event-HasDistinctKeys :
    (e : WireEvent) (found : List (Text × List WireEvent))
    → HasDistinctKeys found
    → HasDistinctKeys (group_event e found)
unfolding group_event
group_event-HasDistinctKeys e [] h = (tt, tt)
group_event-HasDistinctKeys e ((key, values) ∷ more) (h, hs) = ground (
  arith,
  text_eq_iff key e.conversation_id,
  group_event-IsNew e key more h,
  group_event-HasDistinctKeys e more hs,
)

IsNew-of_conversation :
    (id : Text) (found : List (Text × List WireEvent))
    → IsNew id found
    → All Keyed found
    → of_conversation id (concat (values_of found)) ≡ []
IsNew-of_conversation id [] n h = refl
IsNew-of_conversation id ((key, values) ∷ more) (n, ns) ((_, h), hs) =
    rw
      (
        keep-append (λ e. text_eq e.conversation_id id) values (concat (values_of more)),
        keep-none (λ e. text_eq e.conversation_id id) values (All-map _ _ other values h),
      )
      (IsNew-of_conversation id more ns hs)
  where
    other : (e : WireEvent) → e.conversation_id ≡ key → text_eq e.conversation_id id ≡ false
    other e same = ground (arith, text_eq_iff e.conversation_id id)

of_conversation-group_event :
    (c : Text) (e : WireEvent) (found : List (Text × List WireEvent))
    → All Keyed found
    → HasDistinctKeys found
    → of_conversation c (concat (values_of (group_event e found)))
      ≡ of_conversation c (concat (values_of found)) ++ of_conversation c (e ∷ [])
unfolding group_event
of_conversation-group_event c e [] h d = refl
of_conversation-group_event c e ((key, values) ∷ more) (h, hs) (n, d) =
    elim (Bool-cases (text_eq key e.conversation_id)) [
      | inl same ↦ rw same (
          keep-move _ values e (concat (values_of more))
            (here (Bool-cases (text_eq e.conversation_id c)) ((text_eq_iff _ _).0 same)))
      | inr other ↦
          rw
            (
              other,
              keep-append (λ e'. text_eq e'.conversation_id c) values
                  (concat (values_of (group_event e more))),
              keep-append (λ e'. text_eq e'.conversation_id c) values (concat (values_of more)),
              of_conversation-group_event c e more hs d,
            )
            (sym (
              append_assoc (of_conversation c values) (of_conversation c (concat (values_of more)))
                (of_conversation c (e ∷ []))))
    ]
  where
    here :
        (text_eq e.conversation_id c ≡ true) ⊎ (text_eq e.conversation_id c ≡ false)
        → key ≡ e.conversation_id
        → (text_eq e.conversation_id c ≡ false) ⊎ (of_conversation c (concat (values_of more)) ≡ [])
    here (inl is_c) same =
        inr (rw (← ((text_eq_iff _ _).0 is_c), ← same) (IsNew-of_conversation key more n hs))
    here (inr not_c) same = inl not_c

length-group_event :
    (e : WireEvent) (found : List (Text × List WireEvent))
    → length (concat (values_of (group_event e found))) ≡ length (concat (values_of found)) + 1
unfolding group_event
length-group_event e [] = omega arith
length-group_event e ((key, values) ∷ more) = elim (Bool-cases (text_eq key e.conversation_id)) [
  | inl same ↦ rw same (
      omega (
        arith,
        length-append (values ++ e ∷ []) (concat (values_of more)),
        length-append values (e ∷ []),
        length-append values (concat (values_of more)),
      ))
  | inr other ↦ rw other (
      omega (
        arith,
        length-append values (concat (values_of (group_event e more))),
        length-append values (concat (values_of more)),
        length-group_event e more,
      ))
]

-- What the loop over a batch keeps true of the Map.
record IsGrouping (events : List WireEvent) (found : List (Text × List WireEvent)) : Type 0 where
  keyed : All Keyed found
  distinct : HasDistinctKeys found
  same_events : (c : Text) → of_conversation c (concat (values_of found)) ≡ of_conversation c events
  same_length : length (concat (values_of found)) ≡ length events

IsGrouping-group_event :
    (seen : List WireEvent) (e : WireEvent) (found : List (Text × List WireEvent))
    → IsGrouping seen found
    → IsGrouping (seen ++ e ∷ []) (group_event e found)
IsGrouping-group_event seen e found g = record {
  keyed = group_event-Keyed e found g.keyed;
  distinct = group_event-HasDistinctKeys e found g.distinct;
  same_events = λ c.
      of_conversation-group_event c e found g.keyed g.distinct
      ∙ ap (λ s. s ++ of_conversation c (e ∷ [])) (g.same_events c)
      ∙ sym (keep-append (λ e'. text_eq e'.conversation_id c) seen (e ∷ []));
  same_length =
      omega (arith, length-group_event e found, g.same_length, length-append seen (e ∷ []));
}

group_from-IsGrouping :
    (seen events : List WireEvent) (found : List (Text × List WireEvent))
    → IsGrouping seen found
    → IsGrouping (seen ++ events) (group_from events found)
unfolding group_from
group_from-IsGrouping seen [] found g = rw (append-nil seen) g
group_from-IsGrouping seen (e ∷ events) found g = rw (← append_assoc seen (e ∷ []) events) (
    group_from-IsGrouping (seen ++ e ∷ []) events (group_event e found)
      (IsGrouping-group_event seen e found g))

groups-IsGrouping : (events : List WireEvent) → IsGrouping events (group_from events [])
groups-IsGrouping events =
    group_from-IsGrouping [] events []
      (record { keyed = tt; distinct = tt; same_events = λ c. refl; same_length = refl })

-- A group that a send is made of: not empty, and of one conversation.
abbrev pub IsGroup : List WireEvent → Type 0
IsGroup values = (values ≢ []) × ((id : Text) × OfConversation id values)

values_of-IsGroup :
    (found : List (Text × List WireEvent)) → All Keyed found → All IsGroup (values_of found)
values_of-IsGroup [] h = tt
values_of-IsGroup ((id, values) ∷ more) (h, hs) = ((h.0, (id, h.1)), values_of-IsGroup more hs)

pub groups-IsGroup : (events : List WireEvent) → All IsGroup (groups events)
unfolding groups
groups-IsGroup events = values_of-IsGroup _ (groups-IsGrouping events).keyed

pub length-groups : (events : List WireEvent) → length (concat (groups events)) ≡ length events
unfolding groups
length-groups events = (groups-IsGrouping events).same_length

pub of_conversation-groups :
    (c : Text) (events : List WireEvent)
    → of_conversation c (concat (groups events)) ≡ of_conversation c events
unfolding groups
of_conversation-groups c events = (groups-IsGrouping events).same_events c

-- The groups of a batch are never empty, each holds events of one conversation only, and for
-- every conversation the groups hold its events of the batch, each once and in their order.
pub groups_partition :
    (c : Text) (events : List WireEvent)
    → All IsGroup (groups events)
      × (of_conversation c (concat (groups events)) ≡ of_conversation c events)
      × (length (concat (groups events)) ≡ length events)
groups_partition c events =
    (groups-IsGroup events, of_conversation-groups c events, length-groups events)

count-group_event :
    (e : WireEvent) (found : List (Text × List WireEvent))
    → length (values_of (group_event e found)) ≤ length (values_of found) + 1
unfolding group_event
count-group_event e [] = omega arith
count-group_event e ((key, values) ∷ more) = ground (arith, count-group_event e more)

count-group_from :
    (events : List WireEvent) (found : List (Text × List WireEvent))
    → length (values_of (group_from events found)) ≤ length (values_of found) + length events
unfolding group_from
count-group_from [] found = omega arith
count-group_from (e ∷ events) found =
    omega (arith, count-group_from events (group_event e found), count-group_event e found)

-- There are no more groups than events.
pub count-groups : (events : List WireEvent) → length (groups events) ≤ length events
unfolding groups
count-groups events = omega (arith, count-group_from events [])

module _ (P : WireEvent → Type 0) where
  group_event-All :
      (e : WireEvent) (found : List (Text × List WireEvent))
      → P e
      → All (All P) (values_of found)
      → All (All P) (values_of (group_event e found))
  unfolding group_event
  group_event-All e [] p h = ((p, tt), tt)
  group_event-All e ((key, values) ∷ more) p (h, hs) =
      elim (Bool-cases (text_eq key e.conversation_id)) [
        | inl same ↦ rw same (All-append P values (e ∷ []) h (p, tt), hs)
        | inr other ↦ rw other (h, group_event-All e more p hs)
      ]

  group_from-All :
      (events : List WireEvent) (found : List (Text × List WireEvent))
      → All P events
      → All (All P) (values_of found)
      → All (All P) (values_of (group_from events found))
  unfolding group_from
  group_from-All [] found p h = h
  group_from-All (e ∷ events) found (p, ps) h =
      group_from-All events (group_event e found) ps (group_event-All e found p h)

  -- What holds of every event of a batch holds in every group.
  pub groups-All : (events : List WireEvent) → All P events → All (All P) (groups events)
  unfolding groups
  groups-All events p = group_from-All events [] p tt
