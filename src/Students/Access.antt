-- ===== src/Students/Access.antt =====
-- What a parent can change of the students.
use kelolakelas_academic_ser.App.{
  Db, World, ok, pure, ◌>>=◌, ◌>>◌, execute, with_transaction, new_uuid,
}
use kelolakelas_academic_ser.App.Run.{
  Run, Run-pure, Run-raise, Run-if, Run-gets, Run-execute, Run-lookup_last, Run-map_error-then,
  run_rules, Inv, Keeps, keep-bind, keep-with_transaction, keep_rules, keep-reads,
}
use kelolakelas_academic_ser.Domain.{Uuid, Day, CivilDate, Student, StudentNote}
use kelolakelas_academic_ser.Enrollment.Checkout.{student_key, find_student}
use kelolakelas_academic_ser.Prelude.{
  ◌==◌, same_text, ==_iff, Bool-cases, by_id, replace, by_id-key, by_id-replace, String, ◌≡◌, refl,
  ◌∙◌, inl, inr, true, false, Option, none, some, List, [], ◌∷◌, arith,
}
use kelolakelas_academic_ser.Requests.Decisions.{trim_left, trim_right}
use kelolakelas_academic_ser.Students.Dates.{
  parse_date, civil_date, after_date, not_future, parse_student_date_of_birth,
}
use kelolakelas_academic_ser.Students.Notes.{
  StudentNoteRequest, UpdateStudentRequest, trim_space, build_student_note, build_student_notes,
}
use kelolakelas_academic_ser.Students.Operations.{with_changes, update_student}
use kelolakelas_academic_ser.Students.Rows.{
  put_student, save_student, insert_note, insert_notes, find_student_for_access,
  get_student_for_access,
}

module _ (d : Db) where
  abbrev Same : Db → Type 0
  Same d' = d' ≡ d

  note-reads :
      (tenant author : Option Uuid) (s : Student) (req : StudentNoteRequest)
      → Run false d (build_student_note tenant author s req) (Inv Same)
  unfolding build_student_note trim_space trim_left trim_right ◌>>=◌ new_uuid
  note-reads tenant none s req = Run-raise _ refl
  note-reads tenant (some author) s req = search (keep_rules, run_rules) depth 12

  notes-reads :
      (tenant author : Option Uuid) (s : Student) (reqs : List StudentNoteRequest)
      → Run false d (build_student_notes tenant author s reqs) (Inv Same)
  unfolding build_student_notes
  notes-reads tenant author s [] = Run-pure _ refl
  notes-reads tenant author s (req ∷ reqs) =
      keep-reads _ _ refl (note-reads tenant author s req)
        λ note. keep-reads _ _ refl (notes-reads tenant author s reqs) λ others. Run-pure _ refl

  not_future-reads :
      (dob : Option CivilDate) (now : Day) → Run false d (not_future dob now) (Inv Same)
  not_future-reads none now = Run-raise _ refl
  not_future-reads (some dob) now =
      Run-if (after_date dob (civil_date now)) _ _ (λ _. Run-raise _ refl) (λ _. Run-pure _ refl)

  date-reads : (text : String) → Run false d (parse_student_date_of_birth text) (Inv Same)
  unfolding parse_student_date_of_birth
  date-reads text = Run-gets _ _ λ now. not_future-reads (parse_date text) now

module _ (parent : Uuid) (before : Db) where
  -- The students of other parents are as they were.
  abbrev pub Untouched : Db → Type 0
  Untouched d =
      (j : Uuid) (s : Student)
      → by_id student_key j before.students ≡ some s
      → (s.parent_id == parent) ≡ false
      → by_id student_key j d.students ≡ some s

  insert_notes-Untouched : (notes : List StudentNote) → Keeps Untouched (insert_notes notes)
  unfolding insert_notes
  insert_notes-Untouched [] d v = Run-pure _ v
  insert_notes-Untouched (n ∷ notes) d v =
      Run-execute _ _ (λ _. v) (λ x _. v) λ d' h. insert_notes-Untouched notes d' (kept d' h)
    where
      kept : (d' : Db) → insert_note n d ≡ ok d' → Untouched d'
      kept d' h = rw (effect h) v
        where
          effect : insert_note n d ≡ ok d' → d' ≡ record d { student_notes = n ∷ d.student_notes }
          effect k = unfold insert_note in ground arith

  apart :
      (i j : Uuid) (s other : Student) (same : i ≡ j)
      → by_id student_key i before.students ≡ some s
      → by_id student_key j before.students ≡ some other
      → (s.parent_id == parent) ≡ true
      → (other.parent_id == parent) ≡ false
      → ⊥
  apart i j s other same there found own foreign = cc

  accessible_row :
      (tenant : Option Uuid) (i : Uuid) (s : Student)
      → find_student_for_access i tenant (some parent) before ≡ some s
      → (by_id student_key i before.students ≡ some s) × ((s.parent_id == parent) ≡ true)
  unfolding find_student_for_access find_student
  accessible_row tenant i s found = ground arith

  accessed :
      (tenant : Option Uuid) (i : Uuid) (s : Student)
      → find_student_for_access i tenant (some parent) before ≡ some s
      → (by_id student_key s.id before.students ≡ some s) × ((s.parent_id == parent) ≡ true)
  accessed tenant i s found =
      let row = accessible_row tenant i s found in
      let key : s.id ≡ i = by_id-key student_key i before.students s row.0 in (cc, row.1)

  replaced :
      (s s' : Student)
      → by_id student_key s'.id before.students ≡ some s
      → (s.parent_id == parent) ≡ true
      → (j : Uuid) (other : Student) → by_id student_key j before.students ≡ some other
      → (other.parent_id == parent) ≡ false
      → by_id student_key j (replace student_key s' before.students) ≡ some other
  replaced s s' there own j other found foreign = elim (Bool-cases (s'.id == j)) [
    | inl same ↦ absurd (apart s'.id j s other ((==_iff s'.id j).0 same) there found own foreign)
    | inr other_row ↦ by_id-replace student_key j s' s before.students there ∙ rw other_row found
  ]

  saved :
      (s s' : Student) (d' : Db)
      → by_id student_key s'.id before.students ≡ some s
      → (s.parent_id == parent) ≡ true
      → save_student s' before ≡ ok d'
      → Untouched d'
  saved s s' d' there own h j other found foreign =
      rw (effect h, there) (replaced s s' there own j other found foreign)
    where
      effect :
          save_student s' before ≡ ok d'
          → d' ≡ record before {
            students = put_student s' before.students (by_id student_key s'.id before.students);
          }
      effect k = unfold save_student in ground arith

  write-Run :
      (tenant : Option Uuid) (i : Uuid) (s' : Student) (notes : List StudentNote) (s : Student)
      → find_student_for_access i tenant (some parent) before ≡ some s
      → s'.id ≡ s.id
      → Run false before
          (with_transaction (do execute (save_student s'); insert_notes notes) >> pure s')
          (Inv Untouched)
  write-Run tenant i s' notes s found same =
      keep-bind _ _
        (keep-with_transaction _ (λ j s f g. f)
          (Run-execute _ _ (λ _. λ j s f g. f) (λ x _. λ j s f g. f)
            λ d' h. insert_notes-Untouched notes d' (
              saved s s' d' (rw same (accessed tenant i s found).0) (accessed tenant i s found).1
                h)))
        λ n d' v. Run-pure _ v

  update-Run :
      (tenant author : Option Uuid) (i : Uuid) (req : UpdateStudentRequest)
      → Run false before (update_student tenant (some parent) author i req) (Inv Untouched)
  unfolding update_student get_student_for_access with_changes
  update-Run tenant author i req = Run-map_error-then _ _ _ (
      Run-lookup_last _ (λ _. λ j s f g. f) (λ _. λ j s f g. f)
        λ s found.
          keep-reads _ _ (λ j s f g. f) (date-reads before req.date_of_birth)
            λ dob.
              Run-if (same_text (trim_space req.first_name) "") _ _
                (λ _. Run-raise _ (λ j s f g. f))
                λ _. Run-gets _ _ λ now.
                  keep-reads _ _ (λ j s f g. f)
                    (notes-reads before tenant author _ req.student_notes)
                    λ notes. write-Run tenant i (with_changes req dob now s) notes s found refl)

-- An update by a parent leaves the row of every student of another parent as it was, whatever
-- identifier it names, whether it succeeds or not and whichever calls fail.
pub update_student-Untouched :
    (tenant author : Option Uuid) (parent i : Uuid) (req : UpdateStudentRequest) (w : World)
    → Untouched parent w.db (update_student tenant (some parent) author i req w).1.db
update_student-Untouched tenant author parent i req w =
    ((update-Run parent w.db tenant author i req).at w.env (λ r. cc)).0
