-- ===== src/Examples.antt =====
-- A small academy for the tests and examples: a tenant with a group class of two seats on Mondays,
-- a student who attends it, a private class, and one past session.
mod Enrollments
mod Schedules
mod Attendances
mod Dates
mod Requests
mod Purchases
mod Classes
mod Services
use kelolakelas_academic_ser.App.{Db, Env, World}
use kelolakelas_academic_ser.Domain.{
  Uuid, active, payment_pending, Enrollment, private, group, opened, Class, Category, Student,
  ClassSchedule, scheduled, ClassSession,
}
use kelolakelas_academic_ser.Enrollment.Capacity.{WithinCapacity}
use kelolakelas_academic_ser.Enrollment.Rows.{enrollment_id, class_id, schedule_id, seated}
use kelolakelas_academic_ser.Prelude.{count, by_id, ◌+◌, true, false, none, some, [], ◌∷◌, arith}
use kelolakelas_academic_ser.Schedule.Changes.Seats.{Booked}

abbrev pub tenant : Uuid
tenant = 1

abbrev pub parent : Uuid
parent = 2

abbrev pub teacher : Uuid
teacher = 9

abbrev pub music : Category
music = record { id = 5; tenant_id = tenant; name = "Lessons"; description = none; deleted = false }

abbrev pub group_class : Class
group_class = record {
  private_slot_limit = none;
  id = 10;
  tenant_id = tenant;
  category_id = 5;
  name = "Math";
  description = none;
  type = group;
  price = 100;
  is_published = true;
  enrollment_status = opened;
  deleted = false;
}

abbrev pub private_class : Class
private_class = record group_class { id = 11; name = "Piano"; type = private }

abbrev pub child : Student
child = record {
  id = 20;
  parent_id = parent;
  first_name = "Ayu";
  last_name = none;
  nickname = none;
  gender = none;
  date_of_birth = some (record { year = 2016; month = 5; day = 17 });
  updated_at = 0;
  deleted = false;
}

abbrev pub mondays : ClassSchedule
mondays = record {
  id = 30;
  class_id = 10;
  enrollment_id = none;
  tutor_id = some teacher;
  capacity = 2;
  location = none;
  day_of_week = 1;
  start_time = "09:00:00";
  end_time = "10:00:00";
  valid_from = some 20700;
  valid_until = none;
  sessions_generated_until = some 20787;
  deleted = false;
}

abbrev pub seat : Enrollment
seat = record {
  parent_email = "parent@example.com";
  id = 40;
  tenant_id = tenant;
  student_id = 20;
  class_id = 10;
  schedule_id = some 30;
  status = active;
  billing_cycle = "monthly";
  idempotency_key = none;
  payment_transaction_id = none;
  checkout_session_url = none;
  payment_status = payment_pending;
  gross_amount = 100;
  joined_at = 0;
  updated_at = 0;
  deleted = false;
}

abbrev pub lesson : ClassSession
lesson = record {
  id = 50;
  class_id = 10;
  schedule_id = some 30;
  enrollment_id = none;
  rescheduled_from_session_id = none;
  tutor_id = teacher;
  session_date = 20780;
  start_time = "09:00:00";
  end_time = "10:00:00";
  status = scheduled;
  deleted = false;
}

abbrev pub academy : Db
academy = record {
  enrollments = seat ∷ [];
  classes = group_class ∷ private_class ∷ [];
  students = child ∷ [];
  schedules = mondays ∷ [];
  sessions = lesson ∷ [];
  attendances = [];
  requests = [];
  student_notes = [];
  categories = music ∷ [];
  class_teachers = [];
  class_creations = [];
}

-- Noon in UTC on 2026-11-26; identifiers from 100 on.
abbrev pub calm : Env
calm = record { now = 1795694400; zone = 25200; uuids = λ n. 100 + n; drawn = 0; faults = [] }

abbrev pub monday_world : World
monday_world = record { db = academy; env = calm }

-- No schedule of the academy is overbooked.
pub academy-WithinCapacity : WithinCapacity academy
academy-WithinCapacity = record { at = λ sid s h. unfold by_id count seated in ground arith }

pub academy-Booked : Booked academy
academy-Booked = record {
  within = academy-WithinCapacity;
  present = λ sid h. unfold by_id count seated in ground arith;
}
