-- ===== src/Integrations/OpenAi/Segments.antt =====
-- The id of a segment, sdk/typescript/src/integrations/openai-agents.ts.
use farfield.Base.{◌≡◌, refl, ap, ◌∙◌, List, ◌++◌, map, text, join}
use farfield.Base.Sorting.{sort_texts, insert_text_comm}
use mathlib.Core.List.{Permᴰ}
use farfield.Sdk.Types.{WireEvent}
use farfield.Integrations.OpenAiEvents.{Env, segment_id}

sort_texts-Perm :
    {s t : List WireEvent}
    → Permᴰ s t
    → sort_texts (map (λ e. e.id) s) ≡ sort_texts (map (λ e. e.id) t)
unfolding sort_texts
sort_texts-Perm Permᴰ.nil = refl
sort_texts-Perm (Permᴰ.cons e p) = rw (ap (λ x. x.id) e, sort_texts-Perm p) refl
sort_texts-Perm (Permᴰ.swap e f) = rw (ap (λ x. x.id) e, ap (λ x. x.id) f) (insert_text_comm _ _ _)
sort_texts-Perm (Permᴰ.trans p q) = sort_texts-Perm p ∙ sort_texts-Perm q

-- The id of a segment does not depend on the order of its events, so a retry of the same events
-- names the same segment.
pub segment_id-Perm :
    (env : Env) (prepared again : List WireEvent)
    → Permᴰ prepared again
    → segment_id env prepared ≡ segment_id env again
unfolding segment_id
segment_id-Perm env prepared again p =
    ap (λ ids. text "openai_" ++ env.sha256 (join (text "\n") ids)) (sort_texts-Perm p)
