-- ===== src/Students/Operations.antt =====
-- Create, Update and Delete of internal/usecase/student_usecase.go.
use kelolakelas_academic_ser.App.{
  App, pure, raise, ◌>>=◌, ◌>>◌, query, execute, with_transaction, new_uuid, time_now,
}
use kelolakelas_academic_ser.Domain.{Uuid, Timestamp, CivilDate, Student}
use kelolakelas_academic_ser.Errors.{
  student_forbidden, student_active_enroll, student_first_name_required, domain,
}
use kelolakelas_academic_ser.Prelude.{
  ltb, ◌==◌, same_text, if◌then◌else◌, count, Bool, true, false, not, Option, none, some,
}
use kelolakelas_academic_ser.Students.Dates.{parse_student_date_of_birth}
use kelolakelas_academic_ser.Students.Notes.{
  CreateStudentRequest, UpdateStudentRequest, trim_space, clean_optional, build_student_notes,
}
use kelolakelas_academic_ser.Students.Rows.{
  insert_student, save_student, delete_student_row, insert_notes, get_student_for_access,
  active_enrollment_of,
}

abbrev pub may_create : Option Uuid → Option Uuid → Uuid → Bool
may_create (some tenant) user parent = true
may_create none none parent = false
may_create none (some user) parent = user == parent

unfoldable pub create_student : Option Uuid → Option Uuid → CreateStudentRequest → App Student
create_student tenant user req =
    if not (may_create tenant user req.parent_id) then raise (domain student_forbidden) else do
      dob ← parse_student_date_of_birth req.date_of_birth
      if same_text (trim_space req.first_name) ""
          then raise (domain student_first_name_required)
          else do
            i ← new_uuid
            now ← time_now
            let s : Student = record {
              id = i;
              parent_id = req.parent_id;
              first_name = trim_space req.first_name;
              last_name = clean_optional req.last_name;
              nickname = clean_optional req.nickname;
              gender = clean_optional req.gender;
              date_of_birth = some dob;
              updated_at = now;
              deleted = false;
            }
            notes ← build_student_notes tenant user s req.student_notes
            with_transaction (do execute (insert_student s); insert_notes notes)
            pure s

unfoldable pub with_changes : UpdateStudentRequest → CivilDate → Timestamp → Student → Student
with_changes req dob now s = record s {
  first_name = trim_space req.first_name;
  last_name = clean_optional req.last_name;
  nickname = clean_optional req.nickname;
  gender = clean_optional req.gender;
  date_of_birth = some dob;
  updated_at = now;
}

unfoldable pub update_student :
    Option Uuid → Option Uuid → Option Uuid → Uuid → UpdateStudentRequest → App Student
update_student tenant parent author i req = do
  s ← get_student_for_access tenant parent i
  dob ← parse_student_date_of_birth req.date_of_birth
  if same_text (trim_space req.first_name) ""
      then raise (domain student_first_name_required)
      else do
        now ← time_now
        let changed = with_changes req dob now s
        notes ← build_student_notes tenant author changed req.student_notes
        with_transaction (do execute (save_student changed); insert_notes notes)
        pure changed

unfoldable pub delete_student : Option Uuid → Option Uuid → Uuid → App (Unit {0})
delete_student tenant parent i = do
  get_student_for_access tenant parent i
  n ← query (λ d. count (active_enrollment_of i) d.enrollments)
  if ltb 0 n then raise (domain student_active_enroll) else execute (delete_student_row i)
