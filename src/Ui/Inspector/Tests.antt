-- ===== src/Ui/Inspector/Tests.antt =====
-- The view of a session on small inputs, server/ui/src/components/trace-inspector.tsx.
use farfield.Base.{
  ◌≡◌, refl, false, [], ◌∷◌, none, some, text, text_eq, trim, trim_start, trim_end, is_space, arith,
  if◌then◌else◌, join,
}
use farfield.Base.Map.{get, delete}
use farfield.Ui.Samples.{matching, call, asked}
use farfield.Ui.Operations.{TraceOperation, make_operation}
use farfield.Ui.Operations.Views.{full_trace, errors}
use farfield.Ui.Filter.{matches_only, full, parse_timeline_query}
use farfield.Ui.Inspector.{
  Inspector, trace, json, rendered, Parameters, set_parameter, sync_address, opened, selected_of,
  visible_operations, focused_operations, operation_matches, timeline_start, has_clauses,
}
use farfield.Ui.Inspector.Address.{readable, opened-sync_address}
use farfield.Ui.Inspector.Selection.{shown_in, visible_operations-shown}
use farfield.Ui.Inspector.Keys.{key_j, press, HasDistinctIds, operation_at_index, press-selects}

abbrev view : Inspector
view = record {
  session_view = trace;
  selected_id = some (text "1");
  timeline_query = text " tool:web ";
  context_mode = matches_only;
  density = full_trace;
  focus = errors;
  suggestion_index = 3;
  detail_tab = json;
}

abbrev before : Parameters
before = (text "demo", text "1") ∷ (text "trace_density", text "records") ∷ []

computes : Unit {0}
unfolding text text_eq trim trim_start trim_end is_space get delete set_parameter sync_address
computes = tt

-- The other parameters of the address stay; the default density is taken out.
sync_address_test :
    sync_address view before
    ≡ (text "demo", text "1")
      ∷ (text "timeline", text "tool:web")
      ∷ (text "timeline_context", text "matches")
      ∷ (text "trace_focus", text "errors")
      ∷ (text "session_view", text "trace")
      ∷ []
unfolding computes
sync_address_test = refl

opened-sync_address_example : opened (sync_address view before) ≡ record view {
  selected_id = none;
  timeline_query = trim (text " tool:web ");
  density = readable full_trace;
  suggestion_index = 0;
  detail_tab = rendered;
}
opened-sync_address_example = opened-sync_address view before

visible_operations-shown_example :
    visible_operations matching view (asked ∷ call ∷ [])
    ≡ shown_in
        (operation_matches matching
          (parse_timeline_query matching.engine.lower view.timeline_query)
          (timeline_start matching (asked ∷ call ∷ [])))
        (if has_clauses (parse_timeline_query matching.engine.lower view.timeline_query).clauses
          then matches_only
          else full)
        (focused_operations matching view (asked ∷ call ∷ []))
visible_operations-shown_example = visible_operations-shown matching view (asked ∷ call ∷ [])

abbrev asking : TraceOperation
asking = make_operation matching.engine asked [] 1

abbrev calling : TraceOperation
calling = make_operation matching.engine call [] 1

distinct : HasDistinctIds (asking ∷ calling ∷ [])
unfolding make_operation text join
distinct = ((λ e. ground (arith, e), tt), (tt, tt))

at_start : operation_at_index 0 (asking ∷ calling ∷ []) ≡ some asking
unfolding operation_at_index
at_start = refl

press-selects_example :
    selected_of
      (press key_j false
        (asking ∷ calling ∷ [])
        (record view { selected_id = some asking.id })).selected_id
      (asking ∷ calling ∷ [])
    ≡ operation_at_index 1 (asking ∷ calling ∷ [])
press-selects_example =
    press-selects view key_j (asking ∷ calling ∷ []) 0 asking refl refl distinct at_start
