-- ===== src/Examples/Services.antt =====
-- Lists, the catalog gate and the outbox of notifications: their properties.
use kelolakelas_academic_ser.App.{World, ok}
use kelolakelas_academic_ser.Calendar.{year_from}
use kelolakelas_academic_ser.Catalog.{
  CatalogPolicy, new_catalog_policy_gate, check, PolicyCheck, checked, answers_open, check-fresh,
  recently_closed, check-reopens,
}
use kelolakelas_academic_ser.Domain.{pos, Student}
use kelolakelas_academic_ser.Examples.{parent, child, academy, monday_world}
use kelolakelas_academic_ser.Lists.Paging.{
  decimal, signed, atoi, query_number, list_query, list_query-bounds,
}
use kelolakelas_academic_ser.Lists.Search.{
  escape_like_pattern, literal, literal-escape_like_pattern,
}
use kelolakelas_academic_ser.Notifications.{
  email, queued, sending, ParentNotification, exhausted, send_failed, deliver_verdict,
  DeliveryRound, Outbox, Pass, run_passes,
}
use kelolakelas_academic_ser.Notifications.Retries.{
  Sparing, deliver_verdict-bounds, run_passes-Sparing,
}
use kelolakelas_academic_ser.Prelude.{
  leb, length, count, any, by_id, ℕ, ◌-◌, ◌≤◌, ◌<◌, ◌≡◌, refl, true, false, ◌&&◌, none, some, List,
  [], ◌∷◌, arith,
}
use kelolakelas_academic_ser.Schedule.Clock.{codes}
use kelolakelas_academic_ser.Students.Access.{Untouched, update_student-Untouched}
use kelolakelas_academic_ser.Students.Dates.{
  digits_value, nth_length, date_codes, parse_date, civil_month, civil_date,
}
use kelolakelas_academic_ser.Students.Deletion.{Removed, delete_student-Removed}
use kelolakelas_academic_ser.Students.Notes.{UpdateStudentRequest}
use kelolakelas_academic_ser.Students.Operations.{update_student, delete_student}
use Prim.Native.String.{String as Text}

abbrev sought : Text
sought = "50%_a\\b"

literal-escape_like_pattern_example : literal false (escape_like_pattern sought) ≡ some sought
literal-escape_like_pattern_example = literal-escape_like_pattern sought

escaped_text : escape_like_pattern "50%" ≡ "50\\%"
unfolding escape_like_pattern
escaped_text = refl

query_read : list_query "3" "" "a" ≡ some (record { page = 3; page_size = 20; search = "a" })
unfolding list_query query_number atoi signed decimal codes
query_read = refl

list_query-bounds_example :
    (1 ≤ 3) × (3 ≤ 1000) × (1 ≤ 20) × (20 ≤ 100) × (length (codes "a") ≤ 255)
list_query-bounds_example =
    list_query-bounds "3" "" "a" (record { page = 3; page_size = 20; search = "a" }) query_read

abbrev open_policy : CatalogPolicy
open_policy = record { is_open = true; applied_version = 4; desired_version = 4 }

abbrev closed_policy : CatalogPolicy
closed_policy = record open_policy { is_open = false; applied_version = 3 }

-- Closed, unreadable, and then open after the fifteen seconds.
abbrev morning_checks : List PolicyCheck
morning_checks =
    record { time = 1000000000; answer = some closed_policy }
    ∷ record { time = 2000000000; answer = none }
    ∷ []

quiet_morning :
    any (recently_closed (new_catalog_policy_gate true (pos 0)).ttl 17000000000) morning_checks
    ≡ false
unfolding any new_catalog_policy_gate
quiet_morning = refl

check-reopens_example :
    (check
      (checked (new_catalog_policy_gate true (pos 0)) morning_checks)
      17000000000
      (some open_policy)).0
    ≡ ok tt
check-reopens_example =
    check-reopens (pos 0) morning_checks 17000000000 (some open_policy) quiet_morning refl

check-fresh_example : answers_open (some open_policy) ≡ true
check-fresh_example =
    check-fresh true (pos 0) morning_checks 17000000000 (some open_policy) check-reopens_example

abbrev news : ParentNotification
news = record {
  id = 90;
  channel = email;
  status = queued;
  attempts = 0;
  available_at = 0;
  created_at = 0;
  lease_token = none;
  first_attempt_at = none;
  sent_at = none;
  last_error = "";
}

abbrev newsbox : Outbox
newsbox = record { rows = news ∷ []; sends = [] }

newsbox-Sparing : Sparing newsbox
newsbox-Sparing = record { at = λ i n h. unfold by_id count in ground arith }

abbrev failing_round : ℕ → DeliveryRound
failing_round k = record {
  stopped = false;
  claim_fails = false;
  token = 91;
  claimed_at = 100;
  judged_at = 101;
  delivered = false;
  finish_fails = false;
  finished_at = 102;
}

abbrev one_pass : Pass
one_pass = record { eligible = λ n. true; rounds = failing_round }

run_passes-Sparing_example : Sparing (run_passes (one_pass ∷ one_pass ∷ []) newsbox)
run_passes-Sparing_example = run_passes-Sparing (one_pass ∷ one_pass ∷ []) newsbox newsbox-Sparing

abbrev fourth_try : ParentNotification
fourth_try = record news { status = sending; attempts = 4; first_attempt_at = some 100 }

fourth_verdict : (deliver_verdict fourth_try 1000 false).status ≡ queued
unfolding deliver_verdict exhausted send_failed
fourth_verdict = refl

deliver_verdict-bounds_example :
    (4 < 12)
    × (5 ≤ (deliver_verdict fourth_try 1000 false).delay)
    × ((deliver_verdict fourth_try 1000 false).delay ≤ 3600)
    × (true && leb 82800 (1000 - 100) ≡ false)
deliver_verdict-bounds_example = deliver_verdict-bounds fourth_try 1000 false fourth_verdict

abbrev without_lessons : World
without_lessons = record monday_world { db = record academy { enrollments = [] } }

delete_student-Removed_example :
    let (r, w') = delete_student none (some parent) 20 without_lessons in
    Removed none (some parent) 20 without_lessons.db r w'.db
delete_student-Removed_example = delete_student-Removed none (some parent) 20 without_lessons

abbrev neighbour : Student
neighbour = record child { id = 21; parent_id = 99; first_name = "Budi" }

abbrev two_families : World
two_families = record monday_world { db = record academy { students = child ∷ neighbour ∷ [] } }

abbrev renamed : UpdateStudentRequest
renamed = record {
  first_name = " Ayu Lestari ";
  last_name = none;
  nickname = some "Ayu";
  gender = none;
  date_of_birth = "2016-05-17";
  student_notes = record { note_type = "medical"; content = "asthma" } ∷ [];
}

update_student-Untouched_example :
    Untouched parent two_families.db
      (update_student none (some parent) (some parent) 20 renamed two_families).1.db
update_student-Untouched_example =
    update_student-Untouched none (some parent) parent 20 renamed two_families

-- Tests of dates of birth, and of the update.
leap_date : parse_date "2016-02-29" ≡ some (record { year = 2016; month = 2; day = 29 })
unfolding parse_date date_codes digits_value nth_length codes
leap_date = refl

no_leap_date : parse_date "2015-02-29" ≡ none
unfolding parse_date date_codes digits_value nth_length codes
no_leap_date = refl

date_of_day : civil_date 20783 ≡ record { year = 2026; month = 11; day = 26 }
unfolding civil_date civil_month year_from
date_of_day = refl
