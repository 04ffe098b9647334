-- ===== src/Ui/History/Analysis/Status.antt =====
-- The status of a session, server/ui/src/lib/history.ts.
use farfield.Base.{
  ◌≡◌, refl, ◌∙◌, Bool, true, false, ◌||◌, List, [], ◌∷◌, ◌++◌, Option, none, some, Text, text,
  text_eq, text_eq_sound, mem_text, add_text, any, get_or, or_else, All, arith, if◌then◌else◌,
}
use farfield.Ui.History.{TimelineEntry, Engine}
use farfield.Ui.History.Analysis.{
  complete, running, failed, captured, find_last, is_completed, is_failure, lowered, status_of,
  statuses_of, add_present, analyze_session,
}

find_last-append :
    (p : TimelineEntry → Bool) (entries more : List TimelineEntry)
    → find_last p (entries ++ more) ≡ or_else (find_last p more) (find_last p entries)
unfolding find_last
find_last-append p [] more = ground arith
find_last-append p (entry ∷ entries) more = ground (arith, find_last-append p entries more)

find_last-none :
    (p : TimelineEntry → Bool) (entries : List TimelineEntry)
    → All (λ e. p e ≡ false) entries
    → find_last p entries ≡ none
unfolding find_last
find_last-none p [] h = refl
find_last-none p (entry ∷ entries) (h, hs) = rw (find_last-none p entries hs, h) refl

any-mem :
    (p : Text → Bool) (s : Text) (set : List Text)
    → mem_text s set ≡ true
    → p s ≡ true
    → any p set ≡ true
unfolding mem_text
any-mem p s [] m h = cc
any-mem p s (t ∷ set) m h = ground (arith, text_eq_sound t s, any-mem p s set)

any-append :
    (p : Text → Bool) (set : List Text) (s : Text) → any p (set ++ s ∷ []) ≡ (any p set || p s)
any-append p [] s = ground arith
any-append p (t ∷ set) s = ground (arith, any-append p set s)

any-add_present :
    (p : Text → Bool) (o : Option Text) (set : List Text)
    → p [] ≡ false
    → any p (add_present o set) ≡ (any p set || p (get_or o []))
unfolding add_text
any-add_present p none set e = ground arith
any-add_present p (some []) set e = ground arith
any-add_present p (some (c ∷ s)) set e =
    ground (arith, any-mem p (c ∷ s) set, any-append p set (c ∷ s))

mem-any : (s : Text) (set : List Text) → mem_text s set ≡ any (λ t. text_eq t s) set
unfolding mem_text
mem-any s [] = refl
mem-any s (t ∷ set) = rw (mem-any s set) refl

module _ (engine : Engine) where
  -- Once a turn is completed, its status decides: no entry behind the last completed turn changes
  -- the status of the session, whatever the status it carries. Such a session is failed or
  -- complete, after the status of that turn.
  pub analyze_session-terminal :
      (before : List TimelineEntry) (terminal : TimelineEntry) (after : List TimelineEntry)
      → is_completed terminal ≡ true
      → All (λ e. is_completed e ≡ false) after
      → (analyze_session engine (before ++ terminal ∷ after)).status ≡ (
          if is_failure (get_or (lowered engine terminal.history_record.status) [])
          then failed
          else complete)
  unfolding analyze_session status_of find_last
  analyze_session-terminal before terminal after done open_turn =
      let found : find_last is_completed (before ++ terminal ∷ after) ≡ some terminal =
        find_last-append is_completed before (terminal ∷ after)
        ∙ rw (find_last-none is_completed after open_turn, done) refl in
      rw (found, status_of) refl

  -- A test of the lowered status.
  abbrev pub has_status : (Text → Bool) → TimelineEntry → Bool
  has_status p entry = p (get_or (lowered engine entry.history_record.status) [])

  any-statuses_of :
      (p : Text → Bool) (entries : List TimelineEntry) (set : List Text)
      → p [] ≡ false
      → any p (statuses_of engine entries set) ≡ (any p set || any (has_status p) entries)
  unfolding statuses_of
  any-statuses_of p [] set e = ground arith
  any-statuses_of p (entry ∷ entries) set e = ground (
    arith,
    any-statuses_of p entries (add_present (lowered engine entry.history_record.status) set) e,
    any-add_present p (lowered engine entry.history_record.status) set e,
  )

  -- Before any turn is completed, a session is failed exactly if an entry has failed, and running
  -- exactly if an entry runs and none has failed; it is never complete.
  pub analyze_session-open :
      (entries : List TimelineEntry)
      → All (λ e. is_completed e ≡ false) entries
      → (analyze_session engine entries).status ≡ (
          if any (has_status is_failure) entries
          then failed
          else if any (has_status (λ s. text_eq s (text "running"))) entries
          then running
          else captured)
  unfolding analyze_session status_of mem_text text_eq text
  analyze_session-open entries h =
      rw
        (
          find_last-none is_completed entries h,
          status_of,
          mem-any (text "running") (statuses_of engine entries []),
          any-statuses_of is_failure entries [] refl,
          any-statuses_of (λ s. text_eq s (text "running")) entries [] refl,
        )
        refl
