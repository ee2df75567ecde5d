-- ===== src/Examples/Classes.antt =====
-- Classes: the properties of their creation, change and deletion.
use kelolakelas_academic_ser.App.{
  World, Result, ok, pure, ◌>>=◌, statement, transacted, with_transaction, map_error, attempt,
  new_uuid,
}
use kelolakelas_academic_ser.App.Run.{Run-pure}
use kelolakelas_academic_ser.Calendar.{year_from, days_after, end_of_month, iso_weekday}
use kelolakelas_academic_ser.Classes.Categories.{TenantClient, require_tenant, blank, QuietTenant}
use kelolakelas_academic_ser.Classes.Changes.{UpdateClassRequest, too_long_name, delete_class}
use kelolakelas_academic_ser.Classes.Creation.{
  CreateClassRequest, Fingerprint, distinct_teachers, check_members, choose_category, slot_of,
  create_class_slots, make_class, create_in_transaction, create_class_with_category,
}
use kelolakelas_academic_ser.Classes.Creation.Once.{create_class_with_category-once}
use kelolakelas_academic_ser.Classes.Creation.Replay.{Replays}
use kelolakelas_academic_ser.Classes.Deletion.{Gone, delete_class-Gone}
use kelolakelas_academic_ser.Classes.Limits.{Limited}
use kelolakelas_academic_ser.Classes.Limits.Operations.{
  ClassRequest, creating, updating, deleting, serve_classes, serve_classes-Limited,
}
use kelolakelas_academic_ser.Classes.Payload.{
  CreateClassWithCategoryRequest, bad_slot, check_slot_items, bad_key, validate_class_creation,
}
use kelolakelas_academic_ser.Classes.Rows.{
  insert_class, insert_teacher, assign_teachers, valid_slot_limit, new_private_slot_limit,
  find_tenant_category,
}
use kelolakelas_academic_ser.Classes.Store.{
  find_creation, claim, marshal_response, begin_creation, complete_creation,
}
use kelolakelas_academic_ser.Domain.{
  private, group, opened, Class, pos, scheduled, CreateClassWithCategoryResponse,
}
use kelolakelas_academic_ser.Examples.{tenant, teacher, music, academy, monday_world}
use kelolakelas_academic_ser.Prelude.{
  first, update_where, any, all, by_id, ◌≡◌, refl, true, false, none, some, List, [], ◌∷◌,
}
use kelolakelas_academic_ser.Requests.Decisions.{trim_left, trim_right}
use kelolakelas_academic_ser.Schedule.Changes.Capacity.{ReadsOnly}
use kelolakelas_academic_ser.Schedule.Clock.{
  codes, number, fraction, optional_fraction, parse_seconds, parse_minutes, without_seconds,
  parse_schedule_time, format_time, time_range,
}
use kelolakelas_academic_ser.Schedule.Generation.{
  matching_days, meeting_days, session_on, sessions_on, sessions_between, generate_sessions,
}
use kelolakelas_academic_ser.Schedule.Guard.{Membership, check_tutor}
use kelolakelas_academic_ser.Schedule.Initial.{invalid_item}
use kelolakelas_academic_ser.Schedule.Rows.{
  create_schedule, create_session, create_sessions, batch_create,
}
use kelolakelas_academic_ser.Schedule.Worker.{occupies, taken}
use mathlib.Core.Option.{bind}

abbrev all_active : TenantClient
all_active t = pure true

abbrev members : Membership
members = some (λ t m. pure true)

all_active-Quiet : QuietTenant all_active
all_active-Quiet t d = Run-pure true refl

members-ReadsOnly : ReadsOnly members
members-ReadsOnly t m d = Run-pure true refl

abbrev print : Fingerprint
print req = req.class.name

abbrev flute : CreateClassRequest
flute = record {
  private_slot_limit = some (pos 3);
  category_id = 5;
  name = "Flute";
  description = none;
  type = private;
  price = 80;
  is_published = true;
  enrollment_status = none;
}

abbrev wider : UpdateClassRequest
wider = record {
  private_slot_limit = some (pos 4);
  teacher_ids = none;
  category = none;
  is_published = none;
  enrollment_status = some "closed";
  category_id = none;
  name = none;
  description = none;
  type = some "private";
  price = some (pos 90);
}

academy-Limited : Limited academy
academy-Limited = record { at = (tt, (tt, tt)) }

abbrev term_plan : List ClassRequest
term_plan = creating tenant flute ∷ updating tenant 11 wider ∷ deleting tenant 10 ∷ []

serve_classes-Limited_example :
    Limited (serve_classes print all_active members term_plan monday_world).db
serve_classes-Limited_example =
    serve_classes-Limited print all_active members term_plan monday_world all_active-Quiet
      members-ReadsOnly academy-Limited

delete_class-Gone_example :
    let (r, w') = delete_class tenant 10 monday_world in Gone 10 academy r w'.db
delete_class-Gone_example = delete_class-Gone tenant 10 monday_world

abbrev choir : CreateClassWithCategoryRequest
choir = record {
  category_id = 5;
  category = none;
  schedules =
      record {
        enrollment_id = none;
        tutor_id = some teacher;
        capacity = 12;
        location = none;
        day_of_week = 4;
        start_time = "15:00";
        end_time = "16:00";
        valid_from = none;
        valid_until = none;
      }
      ∷ [];
  idempotency_key = "choir";
  class = record {
    private_slot_limit = none;
    name = "Choir";
    description = none;
    type = group;
    price = pos 50;
    is_published = true;
    enrollment_status = "";
  };
  teacher_ids = teacher ∷ [];
}

abbrev choir_class : Class
choir_class = record {
  private_slot_limit = none;
  id = 100;
  tenant_id = tenant;
  category_id = 5;
  name = "Choir";
  description = none;
  type = group;
  price = 50;
  is_published = true;
  enrollment_status = opened;
  deleted = false;
}

abbrev choir_made : CreateClassWithCategoryResponse
choir_made = record {
  class = choir_class;
  category = music;
  schedules =
      record {
        id = 101;
        class_id = 100;
        enrollment_id = none;
        tutor_id = some teacher;
        capacity = 12;
        location = none;
        day_of_week = 4;
        start_time = "15:00:00";
        end_time = "16:00:00";
        valid_from = some 20783;
        valid_until = none;
        sessions_generated_until = some 20787;
        deleted = false;
      }
      ∷ [];
  sessions =
      record {
        id = 102;
        class_id = 100;
        schedule_id = some 101;
        enrollment_id = none;
        rescheduled_from_session_id = none;
        tutor_id = teacher;
        session_date = 20783;
        start_time = "15:00:00";
        end_time = "16:00:00";
        status = scheduled;
        deleted = false;
      }
      ∷ [];
}

abbrev choir_run : Result CreateClassWithCategoryResponse × World
choir_run = create_class_with_category print all_active members tenant choir monday_world

choir_answered : choir_run ≡ (ok choir_made, choir_run.1)
unfolding create_class_with_category validate_class_creation check_slot_items require_tenant
    create_in_transaction begin_creation claim make_class check_members check_tutor choose_category
    assign_teachers create_class_slots valid_slot_limit blank too_long_name bad_key
    new_private_slot_limit find_creation first insert_class insert_teacher find_tenant_category
    complete_creation ◌>>=◌ statement with_transaction transacted map_error attempt new_uuid
    trim_left trim_right codes distinct_teachers any all by_id update_where bad_slot bind
    parse_schedule_time parse_minutes number parse_seconds without_seconds invalid_item
    create_schedule slot_of generate_sessions sessions_between sessions_on meeting_days end_of_month
    iso_weekday batch_create create_sessions days_after year_from format_time fraction
    optional_fraction time_range matching_days session_on create_session occupies taken
choir_answered = refl

-- The key again, for another class.
abbrev quartet : CreateClassWithCategoryRequest
quartet = record choir { teacher_ids = 9 ∷ 8 ∷ [] }

create_class_with_category-once_example :
    let (r, w2) = create_class_with_category print all_active members tenant quartet choir_run.1 in
    Replays (marshal_response choir_made) choir_run.1.db r w2.db
create_class_with_category-once_example =
    create_class_with_category-once print all_active members tenant choir quartet choir_made
      monday_world choir_run.1 all_active-Quiet members-ReadsOnly refl refl choir_answered
