-- ===== src/Ui/ReviewView/Shown.antt =====
-- What the review hides and what a toggle changes, server/ui/src/components/conversation-review.tsx.
use farfield.Base.{
  ◌≡◌, refl, ap, ◌∙◌, false, not, ◌||◌, ◌&&◌, List, [], ◌∷◌, ◌++◌, map, Text, text_eq, text_eq_iff,
  mem_text, add_text, any, keep, keep-append, concat, arith, if◌then◌else◌, Bool-cases, inl, inr,
}
use farfield.Integrations.Payload.{Json}
use farfield.Ui.History.{TimelineEntry, Engine}
use farfield.Ui.Review.{ReviewBlock, message, activity, build_review_blocks}
use farfield.Ui.Review.Blocks.{entries_in, build_review_blocks-IsFlushed}
use farfield.Ui.ReviewView.{is_content, is_visible, visible_blocks, delete_text, toggle}

keep-nothing :
    (entries : List TimelineEntry) → any is_content entries ≡ false → keep is_content entries ≡ []
keep-nothing [] h = refl
keep-nothing (entry ∷ entries) h = ground (arith, h, keep-nothing entries)

keep-visible :
    (blocks : List ReviewBlock)
    → keep is_content (concat (map entries_in (keep is_visible blocks)))
      ≡ keep is_content (concat (map entries_in blocks))
keep-visible [] = refl
keep-visible (message block ∷ blocks) = ground (arith, keep-visible blocks)
keep-visible (activity block ∷ blocks) = elim (Bool-cases (any is_content block.entries)) [
  | inl shown ↦
      rw
        (
          shown,
          keep-append is_content block.entries (concat (map entries_in (keep is_visible blocks))),
          keep-append is_content block.entries (concat (map entries_in blocks)),
          keep-visible blocks,
        )
        refl
  | inr hidden ↦
      rw
        (
          hidden,
          keep-append is_content block.entries (concat (map entries_in blocks)),
          keep-nothing block.entries hidden,
          keep-visible blocks,
        )
        refl
]

-- The review hides only starts and ends of turns: the entries of the blocks that it shows, without
-- those, are the entries of the conversation without those, each once and in their order.
pub visible_blocks-entries :
    (engine : Engine) (stringify : Json → Text) (entries : List TimelineEntry)
    → keep is_content (concat (map entries_in (visible_blocks engine stringify entries)))
      ≡ keep is_content entries
unfolding visible_blocks
visible_blocks-entries engine stringify entries =
    keep-visible (build_review_blocks engine entries)
    ∙ ap (keep is_content) (build_review_blocks-IsFlushed engine entries).0

mem_text-delete :
    (s t : Text) (set : List Text)
    → mem_text t (delete_text s set) ≡ (mem_text t set && not (text_eq s t))
unfolding mem_text delete_text
mem_text-delete s t [] = refl
mem_text-delete s t (u ∷ set) =
    ground (arith, mem_text-delete s t set, text_eq_iff u s, text_eq_iff u t, text_eq_iff s t)

mem_text-append :
    (s t : Text) (set : List Text) → mem_text t (set ++ s ∷ []) ≡ (mem_text t set || text_eq s t)
unfolding mem_text
mem_text-append s t [] = ground arith
mem_text-append s t (u ∷ set) = ground (arith, mem_text-append s t set)

-- A toggle turns round whether its block is expanded, and no other.
pub mem_text-toggle :
    (s t : Text) (set : List Text)
    → mem_text t (toggle s set) ≡ (if text_eq s t then not (mem_text t set) else mem_text t set)
unfolding toggle add_text
mem_text-toggle s t set = elim (Bool-cases (mem_text s set)) [
  | inl old ↦ rw old (
      ground (
        arith,
        mem_text-delete s t set,
        text_eq_iff s t,
        old,
        λ (h : s ≡ t). ap (λ x. mem_text x set) h,
      ))
  | inr new ↦ rw new (
      ground (
        arith,
        mem_text-append s t set,
        text_eq_iff s t,
        new,
        λ (h : s ≡ t). ap (λ x. mem_text x set) h,
      ))
]
