-- ===== src/Classes/Store.antt =====
-- internal/repository/class_creation_store.go: the claim of a key, and the response that is stored
-- with it as JSON.
-- Begin: the claim of a key, or the response that an earlier request left.
use kelolakelas_academic_ser.App.{Db, Result, ok, App, pure, raise, ◌>>=◌, statement, lookup}
use kelolakelas_academic_ser.Domain.{
  Uuid, ClassSchedule, CreateClassWithCategoryResponse, ScheduleJson, ResponseJson, ClassCreation,
}
use kelolakelas_academic_ser.Errors.{class_creation_key_conflict, usecase, message}
use kelolakelas_academic_ser.Prelude.{
  ◌==◌, same_text, if◌then◌else◌, is_some, first, update_where, ℕ, String, Bool, not, ◌&&◌, Option,
  none, some, ◌∷◌, map,
}

abbrev pub claimed_by : Uuid → String → ClassCreation → Bool
claimed_by tenant key r = r.tenant_id == tenant && same_text r.request_key key

unfoldable pub find_creation : Uuid → String → Db → Option ClassCreation
find_creation tenant key d = first (claimed_by tenant key) d.class_creations

abbrev pub new_claim : Uuid → String → String → ClassCreation
new_claim tenant key hash = record {
  tenant_id = tenant;
  request_key = key;
  payload_hash = hash;
  response = none;
}

-- INSERT ... ON CONFLICT DO NOTHING, and RowsAffected
unfoldable pub claim : Uuid → String → String → Db → Result (ℕ × Db)
claim tenant key hash d =
    if is_some (find_creation tenant key d)
    then ok (0, d)
    else ok (1, record d { class_creations = new_claim tenant key hash ∷ d.class_creations })

-- json.Marshal and json.Unmarshal. What has no field in the JSON comes back as its zero value.
abbrev pub marshal_schedule : ClassSchedule → ScheduleJson
marshal_schedule s = record {
  id = s.id;
  class_id = s.class_id;
  enrollment_id = s.enrollment_id;
  tutor_id = s.tutor_id;
  capacity = s.capacity;
  location = s.location;
  day_of_week = s.day_of_week;
  start_time = s.start_time;
  end_time = s.end_time;
  valid_from = s.valid_from;
  valid_until = s.valid_until;
  deleted_at = s.deleted;
}

abbrev pub unmarshal_schedule : ScheduleJson → ClassSchedule
unmarshal_schedule s = record {
  id = s.id;
  class_id = s.class_id;
  enrollment_id = s.enrollment_id;
  tutor_id = s.tutor_id;
  capacity = s.capacity;
  location = s.location;
  day_of_week = s.day_of_week;
  start_time = s.start_time;
  end_time = s.end_time;
  valid_from = s.valid_from;
  valid_until = s.valid_until;
  sessions_generated_until = none;
  deleted = s.deleted_at;
}

unfoldable pub marshal_response : CreateClassWithCategoryResponse → ResponseJson
marshal_response x = record {
  class = x.class;
  category = x.category;
  schedules = map marshal_schedule x.schedules;
  sessions = x.sessions;
}

unfoldable pub unmarshal_response : ResponseJson → CreateClassWithCategoryResponse
unmarshal_response j = record {
  class = j.class;
  category = j.category;
  schedules = map unmarshal_schedule j.schedules;
  sessions = j.sessions;
}

abbrev pub stored_response : Option ResponseJson → App (Option CreateClassWithCategoryResponse)
stored_response none = raise (message "unexpected end of JSON input")
stored_response (some j) = pure (some (unmarshal_response j))

abbrev pub replayed : String → ClassCreation → App (Option CreateClassWithCategoryResponse)
replayed hash r =
    if not (same_text r.payload_hash hash)
    then raise (usecase class_creation_key_conflict)
    else stored_response r.response

unfoldable pub begin_creation :
    Uuid → String → String → App (Option CreateClassWithCategoryResponse)
begin_creation tenant key hash = do
  affected ← statement (claim tenant key hash)
  if affected == 1 then pure none else do r ← lookup (find_creation tenant key); replayed hash r

-- Complete
unfoldable pub complete_creation : Uuid → String → CreateClassWithCategoryResponse → Db → Result Db
complete_creation tenant key response d = ok (record d {
  class_creations =
      update_where (claimed_by tenant key)
        (λ r. record r { response = some (marshal_response response) }) d.class_creations;
})
