-- ===== src/Sdk/Scope.antt =====
-- `cloneScope`, `mergeScope`, `#activeScope` and the scope that `withConversation` enters,
-- sdk/typescript/src/client.ts. A property that is absent and one that `compact` removes are one.
mod Tests
use farfield.Base.{
  ℕ, ◌≡◌, refl, ◌∙◌, sym, ap, List, [], ◌∷◌, Option, none, some, Text, get_or, or_else, arith,
}
use farfield.Base.Map.{get, spread, DistinctKeys, get-spread, spread-DistinctKeys}
use farfield.Sdk.Types.{Scope, Tags}

unfoldable pub clone_scope : Scope → Scope
clone_scope s = record s { tags = some (get_or s.tags []) }

abbrev pub of {ℓ} : {A : Type ℓ} → (Scope → Option A) → Option Scope → Option A
of field none = none
of field (some s) = field s

abbrev merged : (Scope → Option Text) → Option Scope → Option Scope → Option Text
merged field base overlay = or_else (of field overlay) (of field base)

abbrev pub tags_of : Option Scope → Tags
tags_of s = get_or (of (λ t. t.tags) s) []

unfoldable pub merge_scope : Option Scope → Option Scope → Scope
merge_scope base overlay = record {
  conversation_id = merged (λ s. s.conversation_id) base overlay;
  trace_id = merged (λ s. s.trace_id) base overlay;
  span_id = merged (λ s. s.span_id) base overlay;
  parent_id = merged (λ s. s.parent_id) base overlay;
  agent = merged (λ s. s.agent) base overlay;
  tags = some (spread (tags_of base) (tags_of overlay));
}

-- `#activeScope`; the second argument is what the AsyncLocalStorage holds.
unfoldable pub active_scope : Scope → Option Scope → Scope
active_scope defaults stored = merge_scope (some defaults) stored

-- The scope that `withConversation` runs its callback in; `fresh` is the id drawn for an absent one.
unfoldable pub enter_conversation : Scope → Option Scope → Scope → Text → Scope
enter_conversation defaults stored options fresh =
    merge_scope (some (active_scope defaults stored))
      (some (record options { conversation_id = some (get_or options.conversation_id fresh) }))

-- Two scopes that answer every question alike.
pub record SameScope (s t : Scope) : Type 0 where
  pub conversation : s.conversation_id ≡ t.conversation_id
  pub trace : s.trace_id ≡ t.trace_id
  pub span : s.span_id ≡ t.span_id
  pub parent : s.parent_id ≡ t.parent_id
  pub agents : s.agent ≡ t.agent
  pub tag : (k : Text) → get k (tags_of (some s)) ≡ get k (tags_of (some t))

abbrev pub HasTags : Scope → Type 0
HasTags s = DistinctKeys (tags_of (some s))

merge_scope-HasTags : (s t : Scope) → HasTags s → HasTags (merge_scope (some s) (some t))
unfolding merge_scope
merge_scope-HasTags s t d = spread-DistinctKeys (tags_of (some s)) (tags_of (some t)) d

or_else_assoc {ℓ} :
    {A : Type ℓ} (a b c : Option A) → or_else (or_else a b) c ≡ or_else a (or_else b c)
or_else_assoc none b c = refl
or_else_assoc (some a) b c = refl

-- Merging is associative, so the nesting of conversations does not matter.
pub merge_scope_assoc :
    (s t u : Scope)
    → HasTags t
    → HasTags u
    → SameScope
        (merge_scope (some (merge_scope (some s) (some t))) (some u))
        (merge_scope (some s) (some (merge_scope (some t) (some u))))
unfolding merge_scope
merge_scope_assoc s t u dt du = record {
  conversation = sym (or_else_assoc u.conversation_id t.conversation_id s.conversation_id);
  trace = sym (or_else_assoc u.trace_id t.trace_id s.trace_id);
  span = sym (or_else_assoc u.span_id t.span_id s.span_id);
  parent = sym (or_else_assoc u.parent_id t.parent_id s.parent_id);
  agents = sym (or_else_assoc u.agent t.agent s.agent);
  tag = λ k. tag_lem k;
}
  where
    of_s : Tags
    of_s = tags_of (some s)

    of_t : Tags
    of_t = tags_of (some t)

    of_u : Tags
    of_u = tags_of (some u)

    tag_lem :
        (k : Text) → get k (spread (spread of_s of_t) of_u) ≡ get k (spread of_s (spread of_t of_u))
    tag_lem k =
        rw
          (
            get-spread k (spread of_s of_t) of_u du,
            get-spread k of_s of_t dt,
            get-spread k of_s (spread of_t of_u) (spread-DistinctKeys of_t of_u dt),
            get-spread k of_t of_u du,
          )
          (sym (or_else_assoc (get k of_u) (get k of_t) (get k of_s)))

or_else_twice {ℓ} :
    {A : Type ℓ} (o s d : Option A) → or_else (or_else o (or_else s d)) d ≡ or_else o (or_else s d)
or_else_twice none none none = refl
or_else_twice none none (some d) = refl
or_else_twice none (some s) d = refl
or_else_twice (some o) s d = refl

abbrev pub TagsStored : Option Scope → Type 0
TagsStored s = DistinctKeys (tags_of s)

-- In the callback of `withConversation` the active scope is the scope that was entered: the
-- defaults of the client, merged in once more, change nothing.
pub active_scope-enter_conversation :
    (defaults : Scope) (stored : Option Scope) (options : Scope) (fresh : Text)
    → HasTags defaults
    → TagsStored stored
    → HasTags options
    → let entered = enter_conversation defaults stored options fresh in
      SameScope (active_scope defaults (some entered)) entered
unfolding enter_conversation active_scope merge_scope
active_scope-enter_conversation d stored o fresh dd ds dt = record {
  conversation = refl;
  trace = or_else_twice o.trace_id (of (λ s. s.trace_id) stored) d.trace_id;
  span = or_else_twice o.span_id (of (λ s. s.span_id) stored) d.span_id;
  parent = or_else_twice o.parent_id (of (λ s. s.parent_id) stored) d.parent_id;
  agents = or_else_twice o.agent (of (λ s. s.agent) stored) d.agent;
  tag = λ k. tag_lem k;
}
  where
    of_d : Tags
    of_d = tags_of (some d)

    of_s : Tags
    of_s = tags_of stored

    of_o : Tags
    of_o = tags_of (some o)

    entered : Tags
    entered = spread (spread of_d of_s) of_o

    tag_lem : (k : Text) → get k (spread of_d entered) ≡ get k entered
    tag_lem k =
        rw
          (
            get-spread k of_d entered
                (spread-DistinctKeys (spread of_d of_s) of_o (spread-DistinctKeys of_d of_s dd)),
            get-spread k (spread of_d of_s) of_o dt,
            get-spread k of_d of_s ds,
          )
          (or_else_twice (get k of_o) (get k of_s) (get k of_d))
