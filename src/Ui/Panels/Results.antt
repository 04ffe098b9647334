-- ===== src/Ui/Panels/Results.antt =====
-- The results of a search that are shown, server/ui/src/components/trace-inspector.tsx.
use farfield.Base.{ℕ, suc, ◌+◌, ◌≤◌, ◌≡◌, refl, List, [], ◌∷◌, length, length-take, take, arith}
use farfield.Integrations.Payload.{Items, Fields}
use farfield.Ui.Panels.{Panel, evidence_panel, evidence_from, evidence_panel_of, objects_of}

length-evidence_from :
    (index : ℕ) (results : List Fields) → length (evidence_from index results) ≡ length results
unfolding evidence_from
length-evidence_from index [] = refl
length-evidence_from index (fields ∷ results) =
    omega (arith, length-evidence_from (suc index) results)

-- A panel of results tells of all of them: of at most eight what they are, of the others how many.
abbrev pub TellsAll : List Fields → Panel → Type 0
TellsAll results (evidence_panel n shown additional) =
    (n ≡ length results) × (length shown + additional ≡ n) × (length shown ≤ 8)
TellsAll results _ = ⊥

pub evidence_panel_of-TellsAll :
    (items : Items) → TellsAll (objects_of items) (evidence_panel_of items)
unfolding evidence_panel_of
evidence_panel_of-TellsAll items =
    let results = objects_of items in
    (
      refl,
      omega (arith, length-evidence_from 0 (take 8 results), length-take 8 results),
      omega (arith, length-evidence_from 0 (take 8 results), length-take 8 results),
    )
