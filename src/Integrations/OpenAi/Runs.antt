-- ===== src/Integrations/OpenAi/Runs.antt =====
-- What exports and flushes send, by turns, sdk/typescript/src/integrations/openai-agents.ts.
use farfield.Base.{
  list-cases, ℕ, suc, ◌≡◌, refl, ◌∙◌, Bool, true, false, ◌⊎◌, List, [], ◌∷◌, none, some, Text,
  length, map, ap, subst, get_or, mem_text, Option-cases, inl, inr,
}
use farfield.Base.Map.{get, delete}
use farfield.Sdk.Types.{Event, WireEvent}
use farfield.Sdk.Client.{Result, ok, fault, Fault, raised}
use farfield.Integrations.Payload.{Fields}
use farfield.Integrations.OpenAiEvents.{Env, segment_id}
use farfield.Integrations.OpenAiBuffer.{Exporter, spans_of}
use farfield.Integrations.OpenAi.{
  Turn, commit_events, committed, commit_batch, deliver, default_trace, is_none, export_one,
  then_go_on, export_ready, flush_pending,
}

pub result-cases :
    {A : Type 0} (r : Result A) → ((thrown : Fault) × (r ≡ fault thrown)) ⊎ ((a : A) × (r ≡ ok a))
result-cases (ok a) = inr (a, refl)
result-cases (fault thrown) = inl (thrown, refl)

length-map : {A B : Type 0} (f : A → B) (xs : List A) → length (map f xs) ≡ length xs
length-map f [] = refl
length-map f (x ∷ xs) = ap suc (length-map f xs)

-- The fields that a commit does not touch.
abbrev Same : Exporter → Exporter → Type 0
Same before after =
    (after.default_agent ≡ before.default_agent)
    × (after.traces ≡ before.traces)
    × (after.pending ≡ before.pending)

-- One event for each span, and one for the trace that is new.
abbrev batch_size : List Fields → Bool → ℕ
batch_size spans true = suc (length spans)
batch_size spans false = length spans

module _ (env : Env) where
  -- The batch has so many events, and if any, the client prepared them and took the request for
  -- their segment.
  abbrev pub IsSent : Turn → ℕ → List Event → Type 0
  IsSent turn size events =
      (length events ≡ size)
      × ((events ≡ [])
          ⊎ ((wire : List WireEvent) × (turn.prepare events ≡ ok wire)
              × (turn.send (segment_id env wire) wire ≡ ok tt)))

  -- The client could not prepare the events, or the request for their segment failed.
  abbrev pub Fails : Turn → List Event → Fault → Type 0
  Fails turn events thrown =
      (turn.prepare events ≡ fault thrown)
      ⊎ ((wire : List WireEvent) × (turn.prepare events ≡ ok wire)
          × (turn.send (segment_id env wire) wire ≡ fault thrown))

  -- Whether a batch was sent, and else what was thrown for it.
  abbrev pub IsTried : Turn → ℕ → List Event → Result (Unit {0}) → Type 0
  IsTried turn size events (ok _) = IsSent turn size events
  IsTried turn size events (fault thrown) = Fails turn events thrown

  commit_events-length :
      (e : Exporter) (trace : Fields) (spans : List Fields) (include : Bool)
      → length (commit_events env e trace spans include) ≡ batch_size spans include
  unfolding commit_events
  commit_events-length e trace spans true = ap suc (length-map _ spans)
  commit_events-length e trace spans false = length-map _ spans

  commit_events-agent :
      (e e' : Exporter) (trace : Fields) (spans : List Fields) (include : Bool)
      → e'.default_agent ≡ e.default_agent
      → commit_events env e' trace spans include ≡ commit_events env e trace spans include
  unfolding commit_events
  commit_events-agent e e' trace spans include h = rw h refl

  deliver-IsTried :
      (turn : Turn) (size : ℕ) (events : List Event)
      → length events ≡ size
      → IsTried turn size events (deliver env turn events)
  deliver-IsTried turn size events l = elim (result-cases (turn.prepare events)) [
    | inl (thrown, p) ↦ rw p (inl p)
    | inr (wire, p) ↦ elim (result-cases (turn.send (segment_id env wire) wire)) [
      | inl (thrown, q) ↦ rw (p, q) (inr (wire, p, q))
      | inr (_, q) ↦ rw (p, q) (l, inr (wire, p, q))
    ]
  ]

  Committed : Turn → ℕ → List Event → Exporter → Exporter × Result (Unit {0}) → Type 0
  Committed turn size events e p = Same e p.0 × IsTried turn size events p.1

  committed-Committed :
      (turn : Turn) (size : ℕ) (events : List Event) (e : Exporter) (spans : List Fields)
      (include : Bool) (r : Result (Unit {0}))
      → IsTried turn size events r
      → Committed turn size events e (committed env e spans include r)
  unfolding committed Committed
  committed-Committed turn size events e spans include (ok _) t = ((refl, refl, refl), t)
  committed-Committed turn size events e spans include (fault thrown) t = ((refl, refl, refl), t)

  commit_batch-Committed :
      (turn : Turn) (e : Exporter) (trace : Fields) (spans : List Fields) (include : Bool)
      → Committed turn
          (batch_size spans include)
          (commit_events env e trace spans include)
          e
          (commit_batch env turn e trace spans include)
  unfolding commit_batch Committed
  commit_batch-Committed turn e trace spans include =
      let size = commit_events-length e trace spans include in
      elim (list-cases (commit_events env e trace spans include)) [
        | inl nothing ↦
            rw (nothing, commit_batch) ((refl, refl, refl), (rw nothing at size, inl refl))
        | inr (x, xs, some_events) ↦
            rw (some_events, commit_batch)
              (committed-Committed turn (batch_size spans include) (x ∷ xs) e spans include _
                (deliver-IsTried turn _ (x ∷ xs) (rw some_events at size)))
      ]

  -- What a flush makes of the buffer of an exporter, trace by trace, and the result: before each
  -- batch the signal is read; the first signal that is aborted and the first batch that fails end
  -- it.
  abbrev pub FlushRun :
      (ℕ → Turn) → Exporter → List (Text × List Fields) → Result (Unit {0}) → Type 0
  FlushRun turn e [] r = r ≡ ok tt
  FlushRun turn e ((id, spans) ∷ more) r =
      let t = turn (length more) in
      let new = is_none (get id e.traces) in
      let events = commit_events env e (get_or (get id e.traces) (default_trace id)) spans new in
      ((reason : Text) × (t.aborted ≡ some reason) × (r ≡ fault (raised reason)))
      ⊎ ((t.aborted ≡ none)
          × (((thrown : Fault) × Fails t events thrown × (r ≡ fault thrown))
              ⊎ (IsSent t (batch_size spans new) events × FlushRun turn e more r)))

  -- The same, by an exporter with the same agent and by equal arguments.
  commit_batch-Based :
      (turn : Turn) (e₀ e : Exporter) (trace trace₀ : Fields) (spans spans₀ : List Fields)
      (include include₀ : Bool)
      → e.default_agent ≡ e₀.default_agent
      → trace ≡ trace₀
      → spans ≡ spans₀
      → include ≡ include₀
      → Committed turn
          (batch_size spans₀ include₀)
          (commit_events env e₀ trace₀ spans₀ include₀)
          e
          (commit_batch env turn e trace spans include)
  commit_batch-Based turn e₀ e trace trace₀ spans spans₀ include include₀ a t s i =
      rw (t, s, i)
        (subst
          (λ events.
            Committed turn (batch_size spans₀ include₀) events e
              (commit_batch env turn e trace₀ spans₀ include₀))
          (commit_events-agent e₀ e trace₀ spans₀ include₀ a)
          (commit_batch-Committed turn e trace₀ spans₀ include₀))

  Committed-goes_on :
      (t : Turn) (size : ℕ) (events : List Event) (e : Exporter) (p : Exporter × Result (Unit {0}))
      (rest : Exporter → Exporter × Result (Unit {0}))
      (After : Exporter × Result (Unit {0}) → Type 0)
      → Committed t size events e p
      → ((e' : Exporter) → Same e e' → After (rest e'))
      → ((thrown : Fault) × Fails t events thrown
          × ((then_go_on p rest).1 ≡ fault thrown)
          × ((then_go_on p rest).0.pending ≡ e.pending))
        ⊎ (IsSent t size events × After (then_go_on p rest))
  unfolding then_go_on Committed
  Committed-goes_on t size events e (e', ok _) rest After (same, sent) go = inr (sent, go e' same)
  Committed-goes_on t size events e (e', fault thrown) rest After ((a, t', pe), fails) go =
      inl (thrown, fails, refl, pe)

  pub flush_pending-FlushRun :
      (turn : ℕ → Turn) (pending : List (Text × List Fields)) (e₀ e : Exporter)
      → e.default_agent ≡ e₀.default_agent
      → e.traces ≡ e₀.traces
      → FlushRun turn e₀ pending (flush_pending env turn pending e).1
  unfolding flush_pending
  flush_pending-FlushRun turn [] e₀ e a t = refl
  flush_pending-FlushRun turn ((id, spans) ∷ more) e₀ e a t =
      elim (Option-cases (turn (length more)).aborted) [
        | inr (reason, h) ↦ rw (h, flush_pending) (inl (reason, refl, refl))
        | inl h ↦
            rw (h, flush_pending)
              (inr (
                refl,
                (elim (Committed-goes_on (turn (length more)) _ _ e _
                    (λ e'. flush_pending env turn more e') (λ p. FlushRun turn e₀ more p.1)
                    (commit_batch-Based (turn (length more)) e₀ e _ _ spans spans _ _ a
                      (ap (λ traces. get_or (get id traces) (default_trace id)) t) refl
                      (ap (λ traces. is_none (get id traces)) t))
                    (λ e' (a', t', pe). flush_pending-FlushRun turn more e₀ e' (a' ∙ a) (t' ∙ t))) [
                      | inl (thrown, fails, r, pe) ↦ inl (thrown, fails, r)
                      | inr after ↦ inr after
                    ]),
              ))
      ]

  -- What the last loop of an export makes of the traces that are ready, what is buffered behind it,
  -- and the result. The spans of a trace leave the buffer when its batch is tried; the first signal
  -- that is aborted and the first batch that fails end the loop and leave the rest in the buffer.
  abbrev pub ExportRun :
      (ℕ → Turn)
      → Exporter
      → List Text
      → List Text
      → List (Text × List Fields)
      → Exporter × Result (Unit {0})
      → Type 0
  ExportRun turn e new [] pending (after, r) = (r ≡ ok tt) × (after.pending ≡ pending)
  ExportRun turn e new (id ∷ ready) pending (after, r) =
      let t = turn (length ready) in
      let spans = spans_of id pending in
      let include = mem_text id new in
      let events =
        commit_events env e (get_or (get id e.traces) (default_trace id)) spans include in
      ((reason : Text) × (t.aborted ≡ some reason)
        × (r ≡ fault (raised reason))
        × (after.pending ≡ pending))
      ⊎ ((t.aborted ≡ none)
          × (((thrown : Fault) × Fails t events thrown
                × (r ≡ fault thrown)
                × (after.pending ≡ delete id pending))
              ⊎ (IsSent t (batch_size spans include) events
                  × ExportRun turn e new ready (delete id pending) (after, r))))

  pub export_ready-ExportRun :
      (turn : ℕ → Turn) (new ready : List Text) (pending : List (Text × List Fields))
      (e₀ e : Exporter)
      → e.default_agent ≡ e₀.default_agent
      → e.traces ≡ e₀.traces
      → e.pending ≡ pending
      → ExportRun turn e₀ new ready pending (export_ready env turn new ready e)
  unfolding export_ready export_one
  export_ready-ExportRun turn new [] pending e₀ e a t pe = (refl, pe)
  export_ready-ExportRun turn new (id ∷ ready) pending e₀ e a t pe =
      elim (Option-cases (turn (length ready)).aborted) [
        | inr (reason, h) ↦ rw (h, export_ready) (inl (reason, refl, refl, pe))
        | inl h ↦
            rw (h, export_ready)
              (inr (
                refl,
                (elim (Committed-goes_on (turn (length ready)) _ _
                    (record e { pending = delete id e.pending }) _
                    (λ e'. export_ready env turn new ready e')
                    (λ p. ExportRun turn e₀ new ready (delete id pending) p)
                    (commit_batch-Based (turn (length ready)) e₀
                      (record e { pending = delete id e.pending }) _ _ _ (spans_of id pending)
                      (mem_text id new) (mem_text id new) a
                      (ap (λ traces. get_or (get id traces) (default_trace id)) t)
                      (ap (spans_of id) pe) refl)
                    (λ e' (a', t', pe').
                      export_ready-ExportRun turn new ready (delete id pending) e₀ e' (a' ∙ a)
                        (t' ∙ t) (pe' ∙ ap (delete id) pe))) [
                          | inl (thrown, fails, r, left) ↦
                              inl (thrown, fails, r, left ∙ ap (delete id) pe)
                          | inr after ↦ inr after
                        ]),
              ))
      ]
