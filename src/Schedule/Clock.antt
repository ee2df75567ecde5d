-- ===== src/Schedule/Clock.antt =====
-- parseScheduleTime of internal/usecase/schedule_usecase.go, with the layouts "15:04:05" and
-- "15:04" of time.Parse, and Format("15:04:05"). A time of day counts nanoseconds since midnight.
use kelolakelas_academic_ser.App.{finish}
use kelolakelas_academic_ser.Prelude.{
  ltb, leb, ◌==◌, if◌then◌else◌, ℕ, ◌+◌, ◌-◌, ◌*◌, ◌/◌, ◌%◌, String, Bool, true, false, not, ◌&&◌,
  ◌||◌, Option, none, some, List, [], ◌∷◌,
}
use Prim.Native.Char.{code}
use Prim.Native.String.{◌++◌, slice}
use mathlib.Core.Option.{bind as ◌>>=◌}

unfoldable pub codes : String → List ℕ
codes String.[] = []
codes (String.◌∷◌ c text) = code c ∷ codes text

abbrev pub is_digit : ℕ → Bool
is_digit c = leb 48 c && leb c 57

-- getnum of package time: two digits, or one where the layout allows it
unfoldable pub number : Bool → List ℕ → Option (ℕ × List ℕ)
number fixed [] = none
number fixed (a ∷ []) = if is_digit a && not fixed then some (a - 48, []) else none
number fixed (a ∷ b ∷ rest) =
    if not (is_digit a)
    then none
    else if is_digit b
    then some ((a - 48) * 10 + (b - 48), rest)
    else if fixed
    then none
    else some (a - 48, b ∷ rest)

abbrev below : ℕ → Option (ℕ × List ℕ) → Option (ℕ × List ℕ)
below limit none = none
below limit (some (n, rest)) = if ltb n limit then some (n, rest) else none

abbrev after_colon : List ℕ → Option (List ℕ)
after_colon [] = none
after_colon (c ∷ rest) = if c == 58 then some rest else none

-- The digits of a fraction of a second: nine of them count, the others are read and dropped.
unfoldable pub fraction : ℕ → List ℕ → ℕ × List ℕ
fraction weight [] = (0, [])
fraction weight (c ∷ text) =
    let later = fraction (weight / 10) text in
    if is_digit c then ((c - 48) * weight + later.0, later.1) else (0, c ∷ text)

-- A fraction may follow the seconds even where the layout has none.
unfoldable pub optional_fraction : List ℕ → ℕ × List ℕ
optional_fraction [] = (0, [])
optional_fraction (p ∷ []) = (0, p ∷ [])
optional_fraction (p ∷ c ∷ rest) =
    if (p == 46 || p == 44) && is_digit c then fraction 100000000 (c ∷ rest) else (0, p ∷ c ∷ rest)

abbrev at_end : ℕ → List ℕ → Option ℕ
at_end t [] = some t
at_end t (_ ∷ _) = none

abbrev nanoseconds : ℕ
nanoseconds = 1000000000

unfoldable pub parse_seconds : ℕ → ℕ → List ℕ → Option ℕ
parse_seconds h m text = do
  rest ← after_colon text
  (s, tail) ← below 60 (number true rest)
  let (nanos, left) = optional_fraction tail
  at_end (((h * 60 + m) * 60 + s) * nanoseconds + nanos) left

unfoldable pub parse_minutes : (ℕ → ℕ → List ℕ → Option ℕ) → String → Option ℕ
parse_minutes finish text = do
  (h, after_hour) ← below 24 (number false (codes text))
  rest ← after_colon after_hour
  (m, tail) ← below 60 (number true rest)
  finish h m tail

unfoldable pub without_seconds : ℕ → ℕ → List ℕ → Option ℕ
without_seconds h m rest = at_end ((h * 60 + m) * 60 * nanoseconds) rest

abbrev or_else : Option ℕ → Option ℕ → Option ℕ
or_else (some t) other = some t
or_else none other = other

unfoldable pub parse_schedule_time : String → Option ℕ
parse_schedule_time text =
    or_else (parse_minutes parse_seconds text) (parse_minutes without_seconds text)

abbrev digit : ℕ → String
digit n = slice "0123456789" n (n + 1)

abbrev two_digits : ℕ → String
two_digits n = digit (n / 10) ++ digit (n % 10)

-- Format("15:04:05") drops the fraction.
unfoldable pub format_time : ℕ → String
format_time t =
    let s = t / nanoseconds in
    two_digits (s / 3600) ++ ":" ++ two_digits (s / 60 % 60) ++ ":" ++ two_digits (s % 60)

-- `startErr != nil || endErr != nil || !start.Before(end)`, refused, or the two times
unfoldable pub time_range : String → String → Option (ℕ × ℕ)
time_range from to = do
  start ← parse_schedule_time from
  finish ← parse_schedule_time to
  if ltb start finish then some (start, finish) else none
