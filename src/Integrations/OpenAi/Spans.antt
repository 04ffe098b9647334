-- ===== src/Integrations/OpenAi/Spans.antt =====
-- What exports and flushes do to the spans, sdk/typescript/src/integrations/openai-agents.ts.
use farfield.Base.{
  list-cases, ℕ, ◌+◌, ◌≤◌, ◌≡◌, refl, ◌∙◌, Bool, true, false, ◌⊎◌, List, [], ◌∷◌, Option, Text,
  text_eq, length, Bool-cases, Option-cases, inl, inr, arith,
}
use farfield.Base.Map.{delete, get-delete, DistinctKeys}
use farfield.Sdk.Client.{Result, ok, fault, ◌>>◌}
use farfield.Integrations.Payload.{Json, Fields}
use farfield.Integrations.OpenAi.{
  Turn, commit_events, committed, commit_batch, deliver, export_one, then_go_on, export_ready,
  export_noted, export, export_payloads, throw_if_aborted,
}
use farfield.Integrations.OpenAi.Runs.{result-cases, ExportRun, export_ready-ExportRun}
use farfield.Integrations.OpenAiEvents.{Env}
use farfield.Integrations.OpenAiBuffer.{
  Exporter, note_traces, note_spans, spans_of, buffered_spans, add_all, keys,
}
use farfield.Integrations.OpenAi.Cache.{
  IsBounded, Covers, spans_given, note_traces-IsBounded, note_traces-keeps, note_spans-buffers,
  note_spans-DistinctKeys, delete-DistinctKeys, buffered-delete, Covers-nil, delete-Covers,
  add_all-Covers,
}

abbrev Kept : Exporter → Exporter → Type 0
Kept before after =
    (after.traces ≡ before.traces)
    × (after.max_trace_cache ≡ before.max_trace_cache)
    × (after.pending ≡ before.pending)

-- What one commit does to the exporter.
abbrev pub CommitsAll : ℕ → Exporter → Exporter × Result (Unit {0}) → Type 0
CommitsAll spans before (after, ok _) =
    Kept before after
    × (after.spans_committed ≡ before.spans_committed + spans)
    × (after.failed_exports ≡ before.failed_exports)
CommitsAll spans before (after, fault _) =
    Kept before after
    × (after.spans_committed ≡ before.spans_committed)
    × (after.failed_exports ≡ before.failed_exports + 1)

module _ (env : Env) where
  commit_events-nil :
      (e : Exporter) (trace : Fields) (spans : List Fields) (include : Bool)
      → commit_events env e trace spans include ≡ []
      → length spans ≡ 0
  unfolding commit_events
  commit_events-nil e trace [] include h = refl
  commit_events-nil e trace (span ∷ spans) true h = cc
  commit_events-nil e trace (span ∷ spans) false h = cc

  committed-CommitsAll :
      (e : Exporter) (spans : List Fields) (include : Bool) (r : Result (Unit {0}))
      → CommitsAll (length spans) e (committed env e spans include r)
  unfolding committed
  committed-CommitsAll e spans include (ok _) = ((refl, refl, refl), refl, refl)
  committed-CommitsAll e spans include (fault thrown) = ((refl, refl, refl), refl, refl)

  pub commit_batch-CommitsAll :
      (turn : Turn) (e : Exporter) (trace : Fields) (spans : List Fields) (include : Bool)
      → CommitsAll (length spans) e (commit_batch env turn e trace spans include)
  unfolding commit_batch
  commit_batch-CommitsAll turn e trace spans include =
      elim (list-cases (commit_events env e trace spans include)) [
        | inl nothing ↦
            rw (nothing, commit_batch)
              (
                (refl, refl, refl),
                omega (arith, commit_events-nil e trace spans include nothing),
                refl,
              )
        | inr (x, xs, some_events) ↦
            rw (some_events, commit_batch)
              (committed-CommitsAll e spans include (deliver env turn (x ∷ xs)))
      ]

abbrev Fixed : Exporter → Exporter → Type 0
Fixed before after =
    (after.traces ≡ before.traces)
    × (after.max_trace_cache ≡ before.max_trace_cache)
    × DistinctKeys after.pending

abbrev pub accounted : Exporter → ℕ
accounted e = e.spans_committed + buffered_spans e.pending

-- A failure keeps all spans, or loses those of the one trace whose commit has failed.
abbrev pub LosesAtMostOne : Exporter → Exporter → Type 0
LosesAtMostOne before after =
    ((after.failed_exports ≡ before.failed_exports) × (accounted after ≡ accounted before))
    ⊎ ((after.failed_exports ≡ before.failed_exports + 1)
        × (id : Text) × (lost : ℕ) × (lost ≤ length (spans_of id before.pending))
        × (accounted after + lost ≡ accounted before))

abbrev Exported : Exporter → Exporter × Result (Unit {0}) → Type 0
Exported before (after, ok _) =
    Fixed before after
    × (after.pending ≡ [])
    × (after.spans_committed ≡ accounted before)
    × (after.failed_exports ≡ before.failed_exports)
Exported before (after, fault _) = Fixed before after × LosesAtMostOne before after

sum-delete :
    (e e' : Exporter) (id : Text)
    → DistinctKeys e.pending
    → e'.pending ≡ delete id e.pending
    → accounted e' + length (spans_of id e.pending) ≡ e'.spans_committed + buffered_spans e.pending
sum-delete e e' id d pe = rw pe (omega (arith, buffered-delete id e.pending d))

spans_of-delete :
    (k id : Text) (pending : List (Text × List Fields))
    → length (spans_of k (delete id pending)) ≤ length (spans_of k pending)
spans_of-delete k id pending = elim (Bool-cases (text_eq id k)) [
  | inl same ↦ rw (get-delete id k pending, same) (omega arith)
  | inr other ↦ rw (get-delete id k pending, other) (omega arith)
]

LosesAtMostOne-ahead :
    (e e' e'' : Exporter) (id : Text)
    → DistinctKeys e.pending
    → e'.pending ≡ delete id e.pending
    → e'.spans_committed ≡ e.spans_committed + length (spans_of id e.pending)
    → e'.failed_exports ≡ e.failed_exports
    → LosesAtMostOne e' e''
    → LosesAtMostOne e e''
LosesAtMostOne-ahead e e' e'' id d pe sc f (inl (g, a)) =
    inl (g ∙ f, omega (arith, a, sum-delete e e' id d pe, sc))
LosesAtMostOne-ahead e e' e'' id d pe sc f (inr (g, k, lost, l, a)) = inr (
  rw f at g,
  k,
  lost,
  (let l' : lost ≤ length (spans_of k (delete id e.pending)) = rw pe at l in
      omega (arith, l', spans_of-delete k id e.pending)),
  omega (arith, a, sum-delete e e' id d pe, sc),
)

ready-step :
    (e : Exporter) (id : Text) (p : Exporter × Result (Unit {0}))
    (rest : Exporter → Exporter × Result (Unit {0}))
    → DistinctKeys e.pending
    → CommitsAll (length (spans_of id e.pending)) (record e { pending = delete id e.pending }) p
    → ((e' : Exporter) → e'.pending ≡ delete id e.pending → Exported e' (rest e'))
    → Exported e (then_go_on p rest)
unfolding then_go_on
ready-step e id (e', ok _) rest d ((t, m, pe), sc, f) go = ahead (rest e') (go e' pe)
  where
    ahead : (p : Exporter × Result (Unit {0})) → Exported e' p → Exported e p
    ahead (e'', ok _) (c, n, sc', f') =
        ((c.0 ∙ t, c.1 ∙ m, c.2), n, omega (arith, sc', sc, sum-delete e e' id d pe), f' ∙ f)
    ahead (e'', fault thrown) (c, l) =
        ((c.0 ∙ t, c.1 ∙ m, c.2), LosesAtMostOne-ahead e e' e'' id d pe sc f l)
ready-step e id (e', fault thrown) rest d ((t, m, pe), sc, f) go = (
  (t, m, rw pe (delete-DistinctKeys id e.pending d)),
  inr (
    f,
    id,
    length (spans_of id e.pending),
    omega arith,
    omega (arith, sc, sum-delete e e' id d pe),
  ),
)

pub nothing_buffered : (n : ℕ) → n ≡ n + buffered_spans []
unfolding buffered_spans
nothing_buffered n = omega arith

module _ (env : Env) where
  export_ready-Exported :
      (turn : ℕ → Turn) (new ready : List Text) (e : Exporter)
      → DistinctKeys e.pending
      → Covers ready e.pending
      → Exported e (export_ready env turn new ready e)
  unfolding export_ready export_one
  export_ready-Exported turn new [] e d c = (
    (refl, refl, d),
    Covers-nil e.pending c,
    rw (Covers-nil e.pending c) (nothing_buffered _),
    refl,
  )
  export_ready-Exported turn new (id ∷ ready) e d c =
      elim (Option-cases (turn (length ready)).aborted) [
        | inr (reason, h) ↦ rw (h, export_ready) ((refl, refl, d), inl (refl, refl))
        | inl h ↦
            rw (h, export_ready)
              (ready-step e id (export_one env (turn (length ready)) new id e)
                (λ e'. export_ready env turn new ready e') d (commit_batch-CommitsAll env _ _ _ _ _)
                (λ e' pe.
                  export_ready-Exported turn new ready e'
                    (rw pe (delete-DistinctKeys id e.pending d))
                    (rw pe (delete-Covers id ready e.pending c))))
      ]

  -- What an export makes of the spans: all committed, or all but those of one trace still there.
  abbrev pub IsExported : List Fields → Exporter → Exporter × Result (Unit {0}) → Type 0
  IsExported payloads before (after, ok _) =
      (after.pending ≡ [])
      × (after.spans_committed ≡ accounted before + spans_given payloads)
      × (after.failed_exports ≡ before.failed_exports)
  IsExported payloads before (after, fault _) =
      ((after.failed_exports ≡ before.failed_exports)
        × (accounted after ≡ accounted before + spans_given payloads))
      ⊎ ((after.failed_exports ≡ before.failed_exports + 1)
          × (id : Text) × (lost : ℕ) × (lost
              ≤ length (spans_of id (note_spans payloads before.pending)))
          × (accounted after + lost ≡ accounted before + spans_given payloads))

  -- The cache is within its bound, and no trace has two buffers.
  abbrev pub IsSound : Exporter → Type 0
  IsSound e = IsBounded e × DistinctKeys e.pending

  sum-noted :
      (payloads : List Fields) (e noted : Exporter)
      → noted.pending ≡ e.pending
      → noted.spans_committed ≡ e.spans_committed
      → accounted (record noted { pending = note_spans payloads noted.pending })
        ≡ accounted e + spans_given payloads
  sum-noted payloads e noted pe sc =
      rw (pe, sc) (omega (arith, note_spans-buffers payloads e.pending))

  from_loop :
      (payloads : List Fields) (e noted : Exporter) (p : Exporter × Result (Unit {0}))
      → (noted.pending ≡ e.pending)
        × (noted.spans_committed ≡ e.spans_committed)
        × (noted.failed_exports ≡ e.failed_exports)
      → IsBounded noted
      → Exported (record noted { pending = note_spans payloads noted.pending }) p
      → IsSound p.0 × IsExported payloads e p
  from_loop payloads e noted (after, ok _) (pe, sc, f) b ((t, m, d), n, sc', f') =
      ((rw (t, m) b, d), (n, sc' ∙ sum-noted payloads e noted pe sc, f' ∙ f))
  from_loop payloads e noted (after, fault thrown) (pe, sc, f) b ((t, m, d), inl (f', a)) =
      ((rw (t, m) b, d), inl (f' ∙ f, a ∙ sum-noted payloads e noted pe sc))
  from_loop payloads e noted (after, fault thrown) (pe, sc, f) b
        ((t, m, d), inr (f', id, lost, l, a)) =
      (
        (rw (t, m) b, d),
        inr (rw f at f', id, lost, rw pe at l, a ∙ sum-noted payloads e noted pe sc),
      )

  export_noted-IsExported :
      (turn : ℕ → Turn) (payloads : List Fields) (e : Exporter)
      → IsSound e
      → IsSound (export_noted env turn payloads e).0
        × IsExported payloads e (export_noted env turn payloads e)
  unfolding export_noted
  export_noted-IsExported turn payloads e (b, d) =
      let kept = note_traces-keeps payloads e [] in
      let noted = (note_traces payloads e []).0 in
      from_loop payloads e noted (export_noted env turn payloads e) kept
        (note_traces-IsBounded payloads e [] b)
        (export_ready-Exported turn _ _
          (record noted { pending = note_spans payloads noted.pending })
          (note_spans-DistinctKeys payloads _ (rw kept.0 d)) (add_all-Covers _ _))

  -- The traces and spans are noted, and those that are ready are sent by turns.
  abbrev pub SendsReady :
      (ℕ → Turn) → List Fields → Exporter → Exporter × Result (Unit {0}) → Type 0
  SendsReady turn payloads before p =
      let (noted, new) = note_traces payloads before [] in
      let pending = note_spans payloads before.pending in
      ExportRun env turn noted new (add_all (keys pending) new) pending p

  export_noted-SendsReady :
      (turn : ℕ → Turn) (payloads : List Fields) (e : Exporter)
      → SendsReady turn payloads e (export_noted env turn payloads e)
  unfolding export_noted
  export_noted-SendsReady turn payloads e =
      let (noted, new) = note_traces payloads e [] in
      let same : noted.pending ≡ e.pending = (note_traces-keeps payloads e []).0 in
      rw same (
        export_ready-ExportRun env turn new _ (note_spans payloads e.pending) noted
          (record noted { pending = note_spans payloads e.pending }) refl refl refl)

  -- What an export does, by what the reading of its items gives.
  abbrev pub IsExport :
      (ℕ → Turn) → Result (List Fields) → Exporter → Exporter × Result (Unit {0}) → Type 0
  IsExport turn (fault thrown) before p = p ≡ (before, fault thrown)
  IsExport turn (ok payloads) before p =
      IsSound p.0 × IsExported payloads before p × SendsReady turn payloads before p

  -- `export` changes nothing when the signal is aborted at the start or an item is no object.
  -- Otherwise the cache stays within its bound, and the traces that are ready, those with spans in
  -- the buffer and those that are new, are tried in turn, with an event for each of their spans and
  -- for a new trace: each batch is prepared and its request is taken, up to the first signal that is
  -- aborted or the first batch that fails. The buffer then has the traces that were not tried, so a
  -- failure loses the spans of the one trace whose batch has failed and no others, and a success
  -- leaves none. The counters agree: after a success all spans that were buffered or given with a
  -- trace are counted as committed, after a failure all but those lost are counted or buffered. This
  -- is for an exporter whose cache is within its bound and whose buffer has no trace twice.
  pub export-IsExport :
      (turn : ℕ → Turn) (aborted : Option Text) (items : List Json) (e : Exporter)
      → IsSound e
      → IsExport turn
          (throw_if_aborted aborted >> export_payloads items)
          e
          (export env turn aborted items e)
  unfolding export
  export-IsExport turn aborted items e s =
      elim (result-cases (throw_if_aborted aborted >> export_payloads items)) [
        | inl (thrown, h) ↦ rw (h, export) refl
        | inr (payloads, h) ↦
            (let (sound, counted) = export_noted-IsExported turn payloads e s in
              rw (h, export) (sound, counted, export_noted-SendsReady turn payloads e))
      ]
