-- ===== src/Attendance/Repository/Upsert.antt =====
-- The bulk write keeps one row for each student of a session, and the status last written.
use kelolakelas_academic_ser.Attendance.Repository.{of_session, upsert_row, upsert_rows}
use kelolakelas_academic_ser.Domain.{Uuid, Attendance}
use kelolakelas_academic_ser.Prelude.{
  ◌==◌, if◌then◌else◌, count, first, ◌≤◌, String, ◌≡◌, refl, ap, ◌∙◌, ◌&&◌, Option, none, some,
  List, [], ◌∷◌, arith,
}

abbrev pub status_text : Option Attendance → Option String
status_text none = none
status_text (some a) = some a.status

-- The status that the table has for an enrollment and a session.
abbrev pub recorded : Uuid → Uuid → List Attendance → Option String
recorded session enrollment rows = status_text (first (of_session session enrollment) rows)

-- The status that the last of the written rows gives, or the given one.
unfoldable pub last_written : Uuid → Uuid → Option String → List Attendance → Option String
last_written session enrollment s [] = s
last_written session enrollment s (a ∷ values) =
    last_written session enrollment (if of_session session enrollment a then some a.status else s)
      values

recorded-upsert_row :
    (session enrollment : Uuid) (a : Attendance) (rows : List Attendance)
    → recorded session enrollment (upsert_row a rows) ≡ (
        if of_session session enrollment a then some a.status else recorded session enrollment rows)
unfolding upsert_row first
recorded-upsert_row session enrollment a [] = ground arith
recorded-upsert_row session enrollment a (r ∷ rows) =
    ground (arith, recorded-upsert_row session enrollment a rows)

-- A row is added only if there is none for its session and enrollment.
count-upsert_row :
    (session enrollment : Uuid) (a : Attendance) (rows : List Attendance)
    → count (of_session session enrollment) (upsert_row a rows) ≡ (
        if of_session session enrollment a && count (of_session session enrollment) rows == 0
        then 1
        else count (of_session session enrollment) rows)
unfolding upsert_row count
count-upsert_row session enrollment a [] = ground arith
count-upsert_row session enrollment a (r ∷ rows) =
    ground (arith, count-upsert_row session enrollment a rows)

-- After a bulk write, an enrollment still has at most one row in a session, and its status is the
-- one last written for it, or the one it had if none was written.
pub upsert_rows_lem :
    (session enrollment : Uuid) (values rows : List Attendance)
    → count (of_session session enrollment) rows ≤ 1
    → (count (of_session session enrollment) (upsert_rows values rows) ≤ 1)
      × (recorded session enrollment (upsert_rows values rows)
          ≡ last_written session enrollment (recorded session enrollment rows) values)
unfolding upsert_rows last_written
upsert_rows_lem session enrollment [] rows h = (h, refl)
upsert_rows_lem session enrollment (a ∷ values) rows h =
    let later =
      upsert_rows_lem session enrollment values (upsert_row a rows)
        (ground (arith, count-upsert_row session enrollment a rows)) in
    (
      later.0,
      later.1
          ∙ ap (λ s. last_written session enrollment s values)
              (recorded-upsert_row session enrollment a rows),
    )
