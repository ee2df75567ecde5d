-- ===== src/Students/Notes.antt =====
-- The notes of a student, and the optional texts, as internal/usecase/student_usecase.go checks them.
use kelolakelas_academic_ser.App.{App, pure, raise, ◌>>=◌, new_uuid}
use kelolakelas_academic_ser.Domain.{Uuid, uuid_nil, Student, StudentNote}
use kelolakelas_academic_ser.Errors.{
  student_forbidden, student_note_invalid, student_note_content_required, domain,
}
use kelolakelas_academic_ser.Prelude.{
  ◌==◌, same_text, if◌then◌else◌, String, Bool, true, not, ◌||◌, Option, none, some, List, [], ◌∷◌,
}
use kelolakelas_academic_ser.Requests.Decisions.{trim_left, trim_right}
use Prim.Native.String.{String as Text}

pub record StudentNoteRequest : Type 0 where
  pub note_type : String
  pub content : Text

pub record CreateStudentRequest : Type 0 where
  pub parent_id : Uuid
  pub first_name : Text
  pub last_name : Option Text
  pub nickname : Option Text
  pub gender : Option Text
  pub date_of_birth : String
  pub student_notes : List StudentNoteRequest

pub record UpdateStudentRequest : Type 0 where
  pub first_name : Text
  pub last_name : Option Text
  pub nickname : Option Text
  pub gender : Option Text
  pub date_of_birth : String
  pub student_notes : List StudentNoteRequest

-- strings.TrimSpace
unfoldable pub trim_space : Text → Text
trim_space text = trim_left (trim_right text)

abbrev pub none_if_empty : Text → Option Text
none_if_empty Text.[] = none
none_if_empty (Text.◌∷◌ c text) = some (Text.◌∷◌ c text)

unfoldable pub clean_optional : Option Text → Option Text
clean_optional none = none
clean_optional (some text) = none_if_empty (trim_space text)

-- The tenant of a note: a parent who is no tenant writes to an own child only.
abbrev pub author_allowed : Option Uuid → Uuid → Student → Bool
author_allowed none author s = author == s.parent_id
author_allowed (some tenant) author s = if tenant == uuid_nil then author == s.parent_id else true

abbrev pub note_tenant : Option Uuid → Option Uuid
note_tenant none = none
note_tenant (some tenant) = if tenant == uuid_nil then none else some tenant

abbrev pub known_note_type : String → Bool
known_note_type t = same_text t "medical" || same_text t "academic" || same_text t "behavioral"

unfoldable pub build_student_note :
    Option Uuid → Option Uuid → Student → StudentNoteRequest → App StudentNote
build_student_note tenant none s req = raise (domain student_note_invalid)
build_student_note tenant (some author) s req =
    if author == uuid_nil
    then raise (domain student_note_invalid)
    else if not (author_allowed tenant author s)
    then raise (domain student_forbidden)
    else if same_text (trim_space req.content) ""
    then raise (domain student_note_content_required)
    else if not (known_note_type req.note_type)
    then raise (domain student_note_invalid)
    else do
      i ← new_uuid
      pure (record {
        id = i;
        tenant_id = note_tenant tenant;
        student_id = s.id;
        author_id = author;
        note_type = req.note_type;
        content = trim_space req.content;
      })

unfoldable pub build_student_notes :
    Option Uuid → Option Uuid → Student → List StudentNoteRequest → App (List StudentNote)
build_student_notes tenant author s [] = pure []
build_student_notes tenant author s (req ∷ rest) = do
  note ← build_student_note tenant author s req
  others ← build_student_notes tenant author s rest
  pure (note ∷ others)
