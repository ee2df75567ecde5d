-- ===== src/Students/Dates.antt =====
-- The date of birth of a student: parseStudentDateOfBirth of internal/usecase/student_usecase.go.
use kelolakelas_academic_ser.App.{App, pure, raise, ◌>>=◌, today_jakarta}
use kelolakelas_academic_ser.Calendar.{month_lengths, year_from}
use kelolakelas_academic_ser.Domain.{Day, CivilDate}
use kelolakelas_academic_ser.Errors.{student_date_of_birth_future, domain, message}
use kelolakelas_academic_ser.Prelude.{
  ltb, leb, ◌==◌, if◌then◌else◌, ℕ, zero, suc, ◌+◌, ◌-◌, ◌*◌, String, Bool, ◌&&◌, ◌||◌, Option,
  none, some, List, [], ◌∷◌,
}
use kelolakelas_academic_ser.Schedule.Clock.{codes, is_digit}

-- time.Parse("2006-01-02", value): ten characters, and a day of the month.
unfoldable pub digits_value : List ℕ → ℕ → Option ℕ
digits_value [] n = some n
digits_value (c ∷ rest) n =
    let others = digits_value rest (10 * n + (c - 48)) in if is_digit c then others else none

unfoldable pub nth_length : ℕ → List ℕ → ℕ
nth_length n [] = 0
nth_length zero (x ∷ rest) = x
nth_length (suc n) (x ∷ rest) = nth_length n rest

abbrev pub valid_date : CivilDate → Bool
valid_date d =
    leb 1 d.month
    && leb d.month 12
    && leb 1 d.day
    && leb d.day (nth_length (d.month - 1) (month_lengths d.year))

abbrev pub checked_date : Option ℕ → Option ℕ → Option ℕ → Option CivilDate
checked_date none m d = none
checked_date (some y) none d = none
checked_date (some y) (some m) none = none
checked_date (some y) (some m) (some d) =
    let date : CivilDate = record { year = y; month = m; day = d } in
    if valid_date date then some date else none

unfoldable pub date_codes : List ℕ → Option CivilDate
date_codes (a ∷ b ∷ c ∷ d ∷ s ∷ e ∷ f ∷ t ∷ g ∷ h ∷ []) =
    if s == 45 && t == 45
    then checked_date (digits_value (a ∷ b ∷ c ∷ d ∷ []) 0) (digits_value (e ∷ f ∷ []) 0)
        (digits_value (g ∷ h ∷ []) 0)
    else none
date_codes other = none

unfoldable pub parse_date : String → Option CivilDate
parse_date text = date_codes (codes text)

-- The date of a day number.
unfoldable pub civil_month : ℕ → List ℕ → ℕ → ℕ × ℕ
civil_month m [] r = (m, r + 1)
civil_month m (n ∷ months) r =
    let later = civil_month (m + 1) months (r - n) in if ltb r n then (m, r + 1) else later

unfoldable pub civil_date : Day → CivilDate
civil_date d =
    let (y, r) = year_from d 1970 d in
    let (m, day) = civil_month 1 (month_lengths y) r in record { year = y; month = m; day = day }

-- The texts have one length, so that their order is that of the dates.
unfoldable pub after_date : CivilDate → CivilDate → Bool
after_date a b =
    ltb b.year a.year
    || (a.year == b.year && (ltb b.month a.month || (a.month == b.month && ltb b.day a.day)))

abbrev pub not_future : Option CivilDate → Day → App CivilDate
not_future none now = raise (message "parsing time")
not_future (some dob) now =
    if after_date dob (civil_date now)
    then raise (domain student_date_of_birth_future)
    else pure dob

-- parseStudentDateOfBirth, by the date in Jakarta
unfoldable pub parse_student_date_of_birth : String → App CivilDate
parse_student_date_of_birth text = do now ← today_jakarta; not_future (parse_date text) now
