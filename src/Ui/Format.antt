-- ===== src/Ui/Format.antt =====
-- `formatDuration` and `shortID`, server/ui/src/lib/utils.ts. A duration is a whole number of
-- milliseconds, as the viewer gives it, or not finite.
use Prim.Native.Nat.{◌/◌, ◌%◌}
use farfield.Base.{
  ℕ, ◌+◌, ◌*◌, ◌≤◌, ◌<◌, leb, ltb, ◌==◌, ◌≡◌, [], ◌∷◌, ◌++◌, Option, none, some, Text, text,
  decimal, length, take, arith, if◌then◌else◌,
}

-- The parts of what is shown: a unit of its own for each shape.
pub data Shown : Type 0 where
  dash : Shown
  milliseconds : ℕ → Shown
  tenths : ℕ → Shown
  seconds : ℕ → Shown
  minutes : ℕ → ℕ → Shown
  hours : ℕ → ℕ → Shown
  days : ℕ → ℕ → Shown

-- `Math.round(n / d)` of whole numbers.
abbrev rounded : ℕ → ℕ → ℕ
rounded n d = (2 * n + d) / (2 * d)

-- The significand of the double nearest to n / 1000, which is between 1 and 10: that double is the
-- significand over the scale.
abbrev scale : ℕ → ℕ
scale n =
    if ltb n 2000
    then 4503599627370496
    else if ltb n 4000
    then 2251799813685248
    else if ltb n 8000
    then 1125899906842624
    else 562949953421312

abbrev significand : ℕ → ℕ → ℕ
significand n s = (2 * (n * s) + 1000) / 2000

-- `(n / 1000).toFixed(1)` in tenths: of the double, rounded to the larger one of two that are as
-- near.
unfoldable pub fixed_tenths : ℕ → ℕ
fixed_tenths n = let s = scale n in (20 * significand n s + s) / (2 * s)

-- The branches of `formatDuration`.
unfoldable pub shown_duration : Option ℕ → Shown
shown_duration none = dash
shown_duration (some ms) =
    let whole_minutes = ms / 60000 in
    if ltb ms 1000
    then milliseconds ms
    else if ltb ms 10000
    then tenths (fixed_tenths ms)
    else if ltb ms 60000
    then seconds (rounded ms 1000)
    else if leb 1440 whole_minutes
    then days (whole_minutes / 1440) (whole_minutes % 1440 / 60)
    else if leb 60 whole_minutes
    then hours (whole_minutes / 60) (whole_minutes % 60)
    else minutes whole_minutes (rounded (ms % 60000) 1000)

-- The text of a part.
unfoldable pub print_duration : Shown → Text
print_duration dash = text "—"
print_duration (milliseconds n) = decimal n ++ text " ms"
print_duration (tenths n) = decimal (n / 10) ++ (text "." ++ (decimal (n % 10) ++ text " s"))
print_duration (seconds n) = decimal n ++ text " s"
print_duration (minutes m s) = decimal m ++ (text "m " ++ (decimal s ++ text "s"))
print_duration (hours h m) = decimal h ++ (text "h " ++ (decimal m ++ text "m"))
print_duration (days d h) = decimal d ++ (text "d " ++ (decimal h ++ text "h"))

-- `formatDuration`
unfoldable pub format_duration : Option ℕ → Text
format_duration ms = print_duration (shown_duration ms)

-- The durations that each unit is for, how far what is shown may lie from the duration, and the
-- ranges of its parts. The seconds behind minutes, and those on their own, may be 60.
abbrev pub IsNear : ℕ → Shown → Type 0
IsNear ms dash = ⊥
IsNear ms (milliseconds n) = (n ≡ ms) × (n < 1000)
IsNear ms (tenths n) =
    (1000 ≤ ms) × (ms < 10000) × (n * 100 ≤ ms + 50) × (ms ≤ n * 100 + 50) × (n ≤ 100)
IsNear ms (seconds n) =
    (10000 ≤ ms) × (ms < 60000) × (n * 1000 ≤ ms + 500) × (ms ≤ n * 1000 + 500) × (n ≤ 60)
IsNear ms (minutes m s) =
    (60000 ≤ ms)
    × (ms < 3600000)
    × ((m * 60 + s) * 1000 ≤ ms + 500)
    × (ms ≤ (m * 60 + s) * 1000 + 500)
    × (m < 60)
    × (s ≤ 60)
IsNear ms (hours h m) =
    (3600000 ≤ ms)
    × (ms < 86400000)
    × ((h * 60 + m) * 60000 ≤ ms)
    × (ms < (h * 60 + m + 1) * 60000)
    × (h < 24)
    × (m < 60)
IsNear ms (days d h) =
    (86400000 ≤ ms) × ((d * 24 + h) * 3600000 ≤ ms) × (ms < (d * 24 + h + 1) * 3600000) × (h < 24)

-- `shortID` of the last part that `split("_")` makes.
unfoldable pub last_part : Text → Text → Text
last_part part [] = part
last_part part (c ∷ s) = if c == b'_' then last_part [] s else last_part (part ++ c ∷ []) s

-- `shortID`
unfoldable pub short_id : Text → ℕ → Text
short_id value n =
    let meaningful = last_part [] value in
    if ltb n (length meaningful) then take n meaningful else meaningful

-- From 59.5 seconds of a minute on, the seconds are shown as 60 and the minute is not counted up.
pub shown_duration-sixty :
    (m rest : ℕ)
    → 1 ≤ m
    → m < 60
    → rest < 500
    → shown_duration (some (m * 60000 + 59500 + rest)) ≡ minutes m 60
unfolding shown_duration
shown_duration-sixty m rest l h r = ground arith
