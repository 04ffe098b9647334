-- ===== src/Ui/Inspector/Address.antt =====
-- What the page's address keeps of a view, server/ui/src/components/trace-inspector.tsx.
use farfield.Base.{
  String, ◌≡◌, refl, ◌∙◌, [], ◌∷◌, Option, none, some, Text, text, text_eq, text_eq_iff, option_eq,
  is_truthy, trim, arith, if◌then◌else◌,
}
use farfield.Base.Map.{get, get-delete}
use farfield.Ui.Operations.Views.{
  TraceDensity, overview, full_trace, all_records, TraceFocus, everything, tools, reasoning, slow,
  errors,
}
use farfield.Ui.Filter.{ContextMode, matches_only, with_context, full}
use farfield.Ui.Inspector.{
  Inspector, SessionView, review, trace, rendered, Parameters, set_parameter, write_parameter,
  sync_address, opened, initial_context_mode, initial_density, initial_focus, initial_session_view,
  query_value, context_value, density_value, focus_value, view_value, query_of,
}

get-set_parameter :
    (k j v : Text) (m : Parameters)
    → get j (set_parameter k v m) ≡ (if text_eq k j then some v else get j m)
unfolding get set_parameter
get-set_parameter k j v [] = refl
get-set_parameter k j v ((i, w) ∷ m) = ground (
  arith,
  text_eq_iff k j,
  text_eq_iff i k,
  text_eq_iff i j,
  get-delete k j m,
  get-set_parameter k j v m,
)

get-write_parameter :
    (k : String) (j : Text) (v : Option Text) (m : Parameters)
    → get j (write_parameter k v m) ≡ (if text_eq (text k) j then v else get j m)
get-write_parameter k j none m = get-delete (text k) j m
get-write_parameter k j (some v) m = get-set_parameter (text k) j v m

-- What a parameter is behind the effect.
get-sync_address :
    (s : Inspector) (m : Parameters) (j : Text)
    → get j (sync_address s m) ≡ (
        if text_eq (text "review_density") j
        then none
        else if text_eq (text "session_view") j
        then view_value s.session_view
        else if text_eq (text "trace_focus") j
        then focus_value s.focus
        else if text_eq (text "trace_density") j
        then density_value s.density
        else if text_eq (text "timeline_context") j
        then context_value s.context_mode
        else if text_eq (text "timeline") j
        then query_value s.timeline_query
        else get j m)
unfolding sync_address
get-sync_address s m j =
    get-delete (text "review_density") j _
    ∙ rw
        (
          get-write_parameter "session_view" j (view_value s.session_view),
          get-write_parameter "trace_focus" j (focus_value s.focus),
          get-write_parameter "trace_density" j (density_value s.density),
          get-write_parameter "timeline_context" j (context_value s.context_mode),
          get-write_parameter "timeline" j (query_value s.timeline_query),
        )
        refl

read_query : (query : Text) → query_of (query_value query) ≡ trim query
read_query query = of_trimmed (trim query)
  where
    of_trimmed : (q : Text) → query_of (if is_truthy q then some q else none) ≡ q
    of_trimmed [] = refl
    of_trimmed (c ∷ q) = refl

module _ (m : Parameters) where
  read_context :
      (mode : ContextMode)
      → get (text "timeline_context") m ≡ context_value mode
      → initial_context_mode m ≡ mode
  unfolding initial_context_mode option_eq text text_eq
  read_context matches_only h = rw h refl
  read_context with_context h = rw h refl
  read_context full h = rw h refl

  read_focus :
      (focus : TraceFocus)
      → get (text "trace_focus") m ≡ focus_value focus
      → initial_focus m ≡ focus
  unfolding initial_focus option_eq text text_eq
  read_focus everything h = rw h refl
  read_focus tools h = rw h refl
  read_focus reasoning h = rw h refl
  read_focus slow h = rw h refl
  read_focus errors h = rw h refl

  read_view :
      (view : SessionView)
      → get (text "session_view") m ≡ view_value view
      → initial_session_view m ≡ view
  unfolding initial_session_view option_eq text text_eq
  read_view review h = rw h refl
  read_view trace h = rw h refl

-- The densities that can be chosen; the address has a word for the third, which is not read.
abbrev pub readable : TraceDensity → TraceDensity
readable overview = full_trace
readable full_trace = full_trace
readable all_records = all_records

read_density :
    (m : Parameters) (density : TraceDensity)
    → get (text "trace_density") m ≡ density_value density
    → initial_density m ≡ readable density
unfolding initial_density option_eq text text_eq
read_density m overview h = rw h refl
read_density m full_trace h = rw h refl
read_density m all_records h = rw h refl

-- A view that is opened at the address that another has written, whatever the address was before,
-- has its query without the white space around it, its mode of context, its focus, its session
-- view and its density, but that the overview becomes the full trace; it starts with no selection,
-- the first suggestion and the rendered tab.
pub opened-sync_address :
    (s : Inspector) (m : Parameters)
    → opened (sync_address s m) ≡ record s {
      selected_id = none;
      timeline_query = trim s.timeline_query;
      density = readable s.density;
      suggestion_index = 0;
      detail_tab = rendered;
    }
unfolding opened text text_eq
opened-sync_address s m =
    let found = get-sync_address s m in
    rw
      (
        found (text "timeline"),
        read_query s.timeline_query,
        read_context (sync_address s m) s.context_mode (found (text "timeline_context")),
        read_focus (sync_address s m) s.focus (found (text "trace_focus")),
        read_view (sync_address s m) s.session_view (found (text "session_view")),
        read_density (sync_address s m) s.density (found (text "trace_density")),
      )
      refl
