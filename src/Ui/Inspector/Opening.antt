-- ===== src/Ui/Inspector/Opening.antt =====
-- From a message of the review to its record, server/ui/src/components/trace-inspector.tsx.
use farfield.Base.{
  trim, trim_end, trim_start, ◌≡◌, ◌≢◌, refl, ◌∙◌, true, false, List, [], ◌∷◌, ◌++◌, map, some,
  text_eq, text_eq_iff, text_eq_refl, All, arith, keep-same, join,
}
use farfield.Ui.History.{TimelineEntry}
use farfield.Ui.Operations.{TraceOperation, make_operation, raw_trace_operations}
use farfield.Ui.Operations.Views.{operation_matches_focus}
use farfield.Ui.Filter.{parse_timeline_query, parse_tokens, tokenize, tokenize_from}
use farfield.Ui.Match.{Matching}
use farfield.Ui.Inspector.{
  Inspector, open_entry_in_trace, density_operations, focused_operations, visible_operations,
  selected, selected_of, find_operation, has_id,
}
use farfield.Ui.Inspector.Selection.{visible_operations-shown}

module _ (matching : Matching) where
  record_operation : TimelineEntry → TraceOperation
  record_operation entry = make_operation matching.engine entry [] 1

  record_operation-id :
      (entry : TimelineEntry) → (record_operation entry).id ≡ entry.history_record.id
  unfolding record_operation make_operation join
  record_operation-id entry = refl

  visible-opened :
      (s : Inspector) (entry : TimelineEntry) (entries : List TimelineEntry)
      → visible_operations matching (open_entry_in_trace entry s) entries
        ≡ map record_operation entries
  unfolding open_entry_in_trace parse_timeline_query parse_tokens tokenize tokenize_from
      focused_operations density_operations raw_trace_operations operation_matches_focus
      record_operation trim trim_end trim_start
  visible-opened s entry entries =
      visible_operations-shown matching (open_entry_in_trace entry s) entries
      ∙ keep-same _ (map record_operation entries) (every (map record_operation entries))
    where
      every : (operations : List TraceOperation) → All (λ o. true ≡ true) operations
      every [] = tt
      every (o ∷ operations) = (refl, every operations)

  find-record :
      (entry : TimelineEntry) (before after : List TimelineEntry)
      → All (λ e. e.history_record.id ≢ entry.history_record.id) before
      → find_operation
          (has_id (some entry.history_record.id))
          (map record_operation (before ++ entry ∷ after))
        ≡ some (record_operation entry)
  unfolding find_operation
  find-record entry [] after h =
      rw (record_operation-id entry, text_eq_refl entry.history_record.id) refl
  find-record entry (e ∷ before) after (h, hs) =
      rw (record_operation-id e, differ) (find-record entry before after hs)
    where
      differ : text_eq e.history_record.id entry.history_record.id ≡ false
      differ = ground (arith, h, text_eq_iff e.history_record.id entry.history_record.id)

  -- Whatever the view showed before, opening an entry of the timeline in the trace selects the
  -- operation of just this record, if no entry before it has its id; the whole timeline is shown,
  -- one operation for each record.
  pub open_entry_in_trace-selects :
      (s : Inspector) (before : List TimelineEntry) (entry : TimelineEntry)
      (after : List TimelineEntry)
      → All (λ e. e.history_record.id ≢ entry.history_record.id) before
      → (selected matching (open_entry_in_trace entry s) (before ++ entry ∷ after)
          ≡ some (make_operation matching.engine entry [] 1))
        × (visible_operations matching (open_entry_in_trace entry s) (before ++ entry ∷ after)
            ≡ raw_trace_operations matching.engine (before ++ entry ∷ after))
  unfolding selected selected_of open_entry_in_trace record_operation raw_trace_operations
  open_entry_in_trace-selects s before entry after h =
      let shown = visible-opened s entry (before ++ entry ∷ after) in
      (rw (shown, find-record entry before after h) refl, shown)
