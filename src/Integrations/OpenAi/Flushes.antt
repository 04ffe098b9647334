-- ===== src/Integrations/OpenAi/Flushes.antt =====
-- What a flush does to the spans, sdk/typescript/src/integrations/openai-agents.ts.
use farfield.Base.{
  ℕ, ◌+◌, ◌≤◌, ◌≡◌, refl, ◌∙◌, List, [], ◌∷◌, some, Text, length, get_or, Option-cases, inl, inr,
  arith,
}
use farfield.Base.Map.{get}
use farfield.Sdk.Client.{Result, ok, fault, raised}
use farfield.Integrations.Payload.{Fields}
use farfield.Integrations.OpenAi.{
  Turn, default_trace, then_go_on, flush_pending, flush_exporter, is_none,
}
use farfield.Integrations.OpenAi.Runs.{FlushRun, flush_pending-FlushRun}
use farfield.Integrations.OpenAiEvents.{Env}
use farfield.Integrations.OpenAiBuffer.{Exporter, buffered_spans}
use farfield.Integrations.OpenAi.Spans.{
  CommitsAll, commit_batch-CommitsAll, nothing_buffered, accounted,
}

module _ (env : Env) where
  FlushedAll : List (Text × List Fields) → Exporter → Exporter × Result (Unit {0}) → Type 0
  FlushedAll spans before (after, ok _) =
      (after.traces ≡ before.traces)
      × (after.pending ≡ before.pending)
      × (after.spans_committed ≡ before.spans_committed + buffered_spans spans)
      × (after.failed_exports ≡ before.failed_exports)
  FlushedAll spans before (after, fault _) =
      (after.traces ≡ before.traces)
      × (after.pending ≡ before.pending)
      × (after.spans_committed ≤ before.spans_committed + buffered_spans spans)

  flush-step :
      (e : Exporter) (id : Text) (spans : List Fields) (more : List (Text × List Fields))
      (p : Exporter × Result (Unit {0})) (rest : Exporter → Exporter × Result (Unit {0}))
      → CommitsAll (length spans) e p
      → ((e' : Exporter) → FlushedAll more e' (rest e'))
      → FlushedAll ((id, spans) ∷ more) e (then_go_on p rest)
  unfolding then_go_on buffered_spans FlushedAll
  flush-step e id spans more (e', ok _) rest ((t, m, pe), sc, f) go = ahead (rest e') (go e')
    where
      ahead :
          (p : Exporter × Result (Unit {0}))
          → FlushedAll more e' p
          → FlushedAll ((id, spans) ∷ more) e p
      ahead (e'', ok _) (t', pe', sc', f') = (t' ∙ t, pe' ∙ pe, omega (arith, sc', sc), f' ∙ f)
      ahead (e'', fault _) (t', pe', sc') = (t' ∙ t, pe' ∙ pe, omega (arith, sc', sc))
  flush-step e id spans more (e', fault thrown) rest ((t, m, pe), sc, f) go =
      (t, pe, omega (arith, sc))

  flush_pending-FlushedAll :
      (turn : ℕ → Turn) (pending : List (Text × List Fields)) (e : Exporter)
      → FlushedAll pending e (flush_pending env turn pending e)
  unfolding flush_pending FlushedAll
  flush_pending-FlushedAll turn [] e = (refl, refl, nothing_buffered _, refl)
  flush_pending-FlushedAll turn ((id, spans) ∷ more) e =
      elim (Option-cases (turn (length more)).aborted) [
        | inr (reason, h) ↦ rw (h, flush_pending) (refl, refl, omega arith)
        | inl h ↦
            rw (h, flush_pending)
              (flush-step e id spans more _ (λ e'. flush_pending env turn more e')
                (commit_batch-CommitsAll env (turn (length more)) e
                  (get_or (get id e.traces) (default_trace id)) spans (is_none (get id e.traces)))
                (λ e'. flush_pending-FlushedAll turn more e'))
      ]

  abbrev pub IsEmptied : Exporter → Exporter × Result (Unit {0}) → Type 0
  IsEmptied before (after, ok _) =
      (after.traces ≡ before.traces)
      × (after.pending ≡ [])
      × (after.spans_committed ≡ accounted before)
      × (after.failed_exports ≡ before.failed_exports)
  IsEmptied before (after, fault _) =
      (after.traces ≡ before.traces)
      × (after.pending ≡ [])
      × (after.spans_committed ≤ accounted before)

  emptied :
      (e : Exporter) (p : Exporter × Result (Unit {0}))
      → FlushedAll e.pending (record e { pending = [] }) p
      → IsEmptied e p
  unfolding FlushedAll
  emptied e (after, ok _) h = h
  emptied e (after, fault _) h = h

  flush-aborted :
      (turn : ℕ → Turn) (pending : List (Text × List Fields)) (e : Exporter) (id : Text)
      (spans : List Fields) (more : List (Text × List Fields)) (reason : Text)
      → pending ≡ (id, spans) ∷ more
      → (turn (length more)).aborted ≡ some reason
      → flush_pending env turn pending e ≡ (e, fault (raised reason))
  unfolding flush_pending
  flush-aborted turn pending e id spans more reason p h = rw (p, flush_pending, h) refl

  -- `flush` keeps the cache and empties the buffer, whether it succeeds or fails. It tries the
  -- traces of the buffer in turn, with an event for each span and for a trace that is not in the
  -- cache: each batch is prepared and its request is taken, up to the first signal that is aborted
  -- or the first batch that fails, and it succeeds only if all are. Then every span of the buffer is
  -- counted as committed; when it fails, no more than those.
  pub flush_exporter-IsEmptied :
      (turn : ℕ → Turn) (e : Exporter)
      → IsEmptied e (flush_exporter env turn e)
        × FlushRun env turn e e.pending (flush_exporter env turn e).1
  unfolding flush_exporter
  flush_exporter-IsEmptied turn e = (
    emptied e _ (flush_pending-FlushedAll turn e.pending (record e { pending = [] })),
    flush_pending-FlushRun env turn e.pending e (record e { pending = [] }) refl refl,
  )

  -- When the signal is aborted before the first commit of a `flush`, the spans of the buffer are
  -- dropped and none is sent, so a later `flush` succeeds and sends nothing.
  pub flush_exporter-lost :
      (turn later : ℕ → Turn) (e : Exporter) (id : Text) (spans : List Fields)
      (more : List (Text × List Fields)) (reason : Text)
      → e.pending ≡ (id, spans) ∷ more
      → (turn (length more)).aborted ≡ some reason
      → (flush_exporter env turn e ≡ (record e { pending = [] }, fault (raised reason)))
        × (flush_exporter env later (flush_exporter env turn e).0
            ≡ (record e { pending = [] }, ok tt))
  unfolding flush_exporter flush_pending
  flush_exporter-lost turn later e id spans more reason p h =
      let dropped =
        flush-aborted turn e.pending (record e { pending = [] }) id spans more reason p h in
      (dropped, rw dropped refl)
