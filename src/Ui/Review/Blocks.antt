-- ===== src/Ui/Review/Blocks.antt =====
-- What the blocks of a conversation hold, server/ui/src/lib/conversation-review.ts.
use farfield.Base.{
  ◌≡◌, refl, sym, ap, ◌∙◌, Bool, true, false, ◌&&◌, List, [], ◌∷◌, ◌++◌, append_assoc, append-nil,
  map, Option, Text, All, All-append, concat, arith, Bool-cases, inl, inr,
}
use farfield.Ui.History.{TimelineEntry, Engine}
use farfield.Ui.Review.{
  ReviewBlock, message, activity, is_message, activity_block, flush_activity, message_block,
  build_blocks, build_review_blocks,
}

abbrev pub entries_in : ReviewBlock → List TimelineEntry
entries_in (message block) = block.entry ∷ []
entries_in (activity block) = block.entries

abbrev pub is_activity : ReviewBlock → Bool
is_activity (message _) = false
is_activity (activity _) = true

abbrev pub is_filled : List TimelineEntry → Bool
is_filled [] = false
is_filled (_ ∷ _) = true

-- A message block holds a message; an activity block holds entries, of which none is a message.
abbrev pub IsReviewBlock : ReviewBlock → Type 0
IsReviewBlock (message block) = is_message block.entry ≡ true
IsReviewBlock (activity block) =
    (is_filled block.entries ≡ true) × All (λ e. is_message e ≡ false) block.entries

-- No activity block follows another.
abbrev pub IsAlternating : List ReviewBlock → Type 0
IsAlternating [] = Unit
IsAlternating (b ∷ []) = Unit
IsAlternating (b ∷ c ∷ blocks) =
    ((is_activity b && is_activity c) ≡ false) × IsAlternating (c ∷ blocks)

-- The last block is no activity.
abbrev IsOpenEnded : List ReviewBlock → Type 0
IsOpenEnded [] = Unit
IsOpenEnded (b ∷ []) = is_activity b ≡ false
IsOpenEnded (b ∷ c ∷ blocks) = IsOpenEnded (c ∷ blocks)

IsAlternating-snoc :
    (blocks : List ReviewBlock) (b : ReviewBlock)
    → IsAlternating blocks
    → IsOpenEnded blocks
    → IsAlternating (blocks ++ b ∷ [])
IsAlternating-snoc [] b a o = tt
IsAlternating-snoc (c ∷ []) b a o = (rw o refl, tt)
IsAlternating-snoc (c ∷ d ∷ blocks) b (p, a) o = (p, IsAlternating-snoc (d ∷ blocks) b a o)

IsAlternating-message :
    (blocks : List ReviewBlock) (b : ReviewBlock)
    → IsAlternating blocks
    → is_activity b ≡ false
    → IsAlternating (blocks ++ b ∷ []) × IsOpenEnded (blocks ++ b ∷ [])
IsAlternating-message [] b a m = (tt, m)
IsAlternating-message (c ∷ []) b a m = ((ground arith, tt), m)
IsAlternating-message (c ∷ d ∷ blocks) b (p, a) m =
    let (a', o) = IsAlternating-message (d ∷ blocks) b a m in ((p, a'), o)

entries-append :
    (bs cs : List ReviewBlock)
    → concat (map entries_in (bs ++ cs)) ≡ concat (map entries_in bs) ++ concat (map entries_in cs)
entries-append [] cs = refl
entries-append (b ∷ bs) cs = rw (entries-append bs cs) (sym (append_assoc (entries_in b) _ _))

entries_ahead :
    (blocks flushed : List ReviewBlock) (block : ReviewBlock) (pending : List TimelineEntry)
    (entry : TimelineEntry) (entries : List TimelineEntry)
    → entries_in block ≡ entry ∷ []
    → concat (map entries_in flushed) ≡ concat (map entries_in blocks) ++ pending
    → concat (map entries_in (flushed ++ block ∷ [])) ++ entries
      ≡ concat (map entries_in blocks) ++ (pending ++ entry ∷ entries)
entries_ahead blocks flushed block pending entry entries e f =
    rw
      (
        entries-append flushed (block ∷ []),
        f,
        e,
        append_assoc (concat (map entries_in blocks) ++ pending) (entry ∷ []) entries,
      )
      (append_assoc (concat (map entries_in blocks)) pending (entry ∷ entries))

module _ (engine : Engine) where
  record IsFlushed (pending : List TimelineEntry) (blocks after : List ReviewBlock) : Type 0 where
    entries : concat (map entries_in after) ≡ concat (map entries_in blocks) ++ pending
    sound : All IsReviewBlock after
    alternating : IsAlternating after

  flush_activity-IsFlushed :
      (pending : List TimelineEntry) (blocks : List ReviewBlock)
      → All (λ e. is_message e ≡ false) pending
      → All IsReviewBlock blocks
      → IsAlternating blocks
      → IsOpenEnded blocks
      → IsFlushed pending blocks (flush_activity engine pending blocks)
  unfolding flush_activity activity_block
  flush_activity-IsFlushed [] blocks p s a o = record {
    entries = sym (append-nil _);
    sound = s;
    alternating = a;
  }
  flush_activity-IsFlushed (entry ∷ entries) blocks p s a o =
      let block = activity (activity_block engine entry entries) in
      record {
        entries =
            entries-append blocks (block ∷ [])
            ∙ ap (λ es. concat (map entries_in blocks) ++ es) (append-nil _);
        sound = All-append IsReviewBlock blocks (block ∷ []) s ((refl, p), tt);
        alternating = IsAlternating-snoc blocks block a o;
      }

  build_blocks-IsFlushed :
      (latest : Option Text) (entries pending : List TimelineEntry) (blocks : List ReviewBlock)
      → All (λ e. is_message e ≡ false) pending
      → All IsReviewBlock blocks
      → IsAlternating blocks
      → IsOpenEnded blocks
      → IsFlushed (pending ++ entries) blocks (build_blocks engine latest entries pending blocks)
  unfolding build_blocks
  build_blocks-IsFlushed latest [] pending blocks p s a o =
      rw (append-nil pending) (flush_activity-IsFlushed pending blocks p s a o)
  build_blocks-IsFlushed latest (entry ∷ entries) pending blocks p s a o =
      elim (Bool-cases (is_message entry)) [
        | inr other ↦
            rw (other, build_blocks, sym (append_assoc pending (entry ∷ []) entries))
              (build_blocks-IsFlushed latest entries (pending ++ entry ∷ []) blocks
                (All-append _ pending (entry ∷ []) p (other, tt)) s a o)
        | inl sent ↦
            rw (sent, build_blocks)
              (let flushed = flush_activity-IsFlushed pending blocks p s a o in
                let block = message (message_block engine latest entry) in
                let (a', o') = IsAlternating-message _ block flushed.alternating refl in
                let rest =
                  build_blocks-IsFlushed latest entries []
                    (flush_activity engine pending blocks ++ block ∷ []) tt
                    (All-append IsReviewBlock _ (block ∷ []) flushed.sound (sent, tt)) a' o' in
                record {
                  entries =
                      rest.entries
                      ∙ entries_ahead blocks (flush_activity engine pending blocks) block pending
                          entry entries refl flushed.entries;
                  sound = rest.sound;
                  alternating = rest.alternating;
                })
      ]

  -- The blocks hold all entries of a conversation in their order, each once. A message has a block
  -- of its own; an activity block holds at least one entry and no message; and no activity block
  -- follows another, so that each holds all that lies between two messages.
  pub build_review_blocks-IsFlushed :
      (entries : List TimelineEntry)
      → (concat (map entries_in (build_review_blocks engine entries)) ≡ entries)
        × All IsReviewBlock (build_review_blocks engine entries)
        × IsAlternating (build_review_blocks engine entries)
  unfolding build_review_blocks
  build_review_blocks-IsFlushed entries =
      let all = build_blocks-IsFlushed _ entries [] [] tt tt tt tt in
      (all.entries, all.sound, all.alternating)
