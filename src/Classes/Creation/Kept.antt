-- ===== src/Classes/Creation/Kept.antt =====
-- What the creation of a class leaves alone, beside the class that it adds.
use kelolakelas_academic_ser.App.{Db, Result, ok, err, execute}
use kelolakelas_academic_ser.App.Run.{
  Run-pure, Run-raise, Run-if, Run-gets, Run-new_uuid, Run-execute_last, Keeps, keep-bind,
  keep_rules,
}
use kelolakelas_academic_ser.Classes.Categories.{CreateCategoryRequest}
use kelolakelas_academic_ser.Classes.Creation.{
  distinct_teachers, taught, check_members, choose_category, payload_class, create_class_slots,
  make_class,
}
use kelolakelas_academic_ser.Classes.Payload.{CreateClassWithCategoryRequest}
use kelolakelas_academic_ser.Classes.Rows.{
  insert_category, insert_class, insert_teacher, assign_teachers,
}
use kelolakelas_academic_ser.Domain.{Uuid, Day, Category, ClassTeacher, ClassSchedule, ClassSession}
use kelolakelas_academic_ser.Prelude.{
  ◌==◌, all, ◌≡◌, refl, not, ◌||◌, Option, none, some, List, [], ◌∷◌, arith,
}
use kelolakelas_academic_ser.Schedule.Changes.Capacity.{ReadsOnly, check_tutor-Keeps}
use kelolakelas_academic_ser.Schedule.Generation.{sessions_on, sessions_between, generate_sessions}
use kelolakelas_academic_ser.Schedule.Guard.{Membership}
use kelolakelas_academic_ser.Schedule.Initial.{ScheduleItem}
use kelolakelas_academic_ser.Schedule.Rows.{
  create_schedule, create_session, and_create, create_sessions, batch_create,
}

module _ (P : Db → Type 0)
    (any_schedules : (d : Db) (rows : List ClassSchedule) → P d → P (record d { schedules = rows }))
    (any_sessions : (d : Db) (rows : List ClassSession) → P d → P (record d { sessions = rows }))
    (any_teachers : (d : Db) (rows : List ClassTeacher)
      → P d
      → P (record d { class_teachers = rows }))
    (any_categories : (d : Db) (rows : List Category)
      → P d
      → P (record d { categories = rows })) where
  insert_category-Keeps : (c : Category) → Keeps P (execute (insert_category c))
  insert_category-Keeps c d v =
      Run-execute_last _ (λ _. v) (λ x _. v) λ d' h. rw (effect d' h) (any_categories d _ v)
    where
      effect :
          (d' : Db) → insert_category c d ≡ ok d' → d' ≡ record d { categories = c ∷ d.categories }
      effect d' k = unfold insert_category in ground arith

  insert_teacher-Keeps : (t : ClassTeacher) → Keeps P (execute (insert_teacher t))
  insert_teacher-Keeps t d v =
      Run-execute_last _ (λ _. v) (λ x _. v) λ d' h. rw (effect d' h) (any_teachers d _ v)
    where
      effect :
          (d' : Db)
          → insert_teacher t d ≡ ok d'
          → d' ≡ record d { class_teachers = t ∷ d.class_teachers }
      effect d' k = unfold insert_teacher in ground arith

  assign_teachers-Keeps :
      (class : Uuid) (teachers : List Uuid) → Keeps P (assign_teachers class teachers)
  unfolding assign_teachers
  assign_teachers-Keeps class [] d v = Run-pure tt v
  assign_teachers-Keeps class (t ∷ rest) d v =
      keep-bind _ _ (insert_teacher-Keeps _ d v) λ _ d' v'. assign_teachers-Keeps class rest d' v'

  sessions_on-Keeps : (s : ClassSchedule) (days : List Day) → Keeps P (sessions_on s days)
  unfolding sessions_on
  sessions_on-Keeps s [] d v = Run-pure [] v
  sessions_on-Keeps s (x ∷ days) d v =
      Run-new_uuid _ λ i. keep-bind _ _ (sessions_on-Keeps s days d v) λ rest d' v'. Run-pure _ v'

  create_session-Keeps : (s : ClassSession) (d d' : Db) → create_session s d ≡ ok d' → P d → P d'
  create_session-Keeps s d d' h v = rw (effect h) (any_sessions d _ v)
    where
      effect : create_session s d ≡ ok d' → d' ≡ record d { sessions = s ∷ d.sessions }
      effect k = unfold create_session in ground arith

  and_create-Keeps :
      (r : Result Db) (s : ClassSession) (d' : Db)
      → ((d1 : Db) → r ≡ ok d1 → P d1)
      → and_create r s ≡ ok d'
      → P d'
  and_create-Keeps (ok d1) s d' rest h = create_session-Keeps s d1 d' h (rest d1 refl)
  and_create-Keeps (err x) s d' rest h = absurd (refused h)
    where
      refused : ◌≡◌ {A = Result Db} (err x) (ok d') → ⊥
      refused k = cc

  create_sessions-Keeps :
      (sessions : List ClassSession) (d d' : Db) → create_sessions sessions d ≡ ok d' → P d → P d'
  unfolding create_sessions
  create_sessions-Keeps [] d d' h v = rw (same h) v
    where
      same : ok d ≡ ok d' → d' ≡ d
      same k = ground arith
  create_sessions-Keeps (s ∷ rest) d d' h v =
      and_create-Keeps (create_sessions rest d) s d' (λ d1 e. create_sessions-Keeps rest d d1 e v) h

  batch_create-Keeps : (sessions : List ClassSession) → Keeps P (batch_create sessions)
  unfolding batch_create
  batch_create-Keeps [] d v = Run-pure tt v
  batch_create-Keeps (s ∷ rest) d v =
      Run-execute_last _ (λ _. v) (λ x _. v) λ d' h. create_sessions-Keeps (s ∷ rest) d d' h v

  create_schedule-Keeps : (s : ClassSchedule) → Keeps P (execute (create_schedule s))
  create_schedule-Keeps s d v =
      Run-execute_last _ (λ _. v) (λ x _. v) λ d' h. rw (effect d' h) (any_schedules d _ v)
    where
      effect :
          (d' : Db) → create_schedule s d ≡ ok d' → d' ≡ record d { schedules = s ∷ d.schedules }
      effect d' k = unfold create_schedule in ground arith

  create_slots-Keeps :
      (class : Uuid) (items : List ScheduleItem) → Keeps P (create_class_slots class items)
  unfolding create_class_slots generate_sessions sessions_between
  create_slots-Keeps class [] d v = Run-pure _ v
  create_slots-Keeps class (item ∷ rest) d v = Run-gets _ _ λ now. Run-new_uuid _ λ i.
      keep-bind _ _ (create_schedule-Keeps _ d v) λ _ d1 v1.
        keep-bind _ _ (sessions_on-Keeps _ _ d1 v1) λ made d2 v2.
          keep-bind _ _ (batch_create-Keeps made d2 v2) λ _ d3 v3.
            keep-bind _ _ (create_slots-Keeps class rest d3 v3) λ others d4 v4. Run-pure _ v4

  choose_category-Keeps :
      (tenant : Uuid) (req : CreateClassWithCategoryRequest) (o : Option CreateCategoryRequest)
      → Keeps P (choose_category tenant req o)
  unfolding choose_category
  choose_category-Keeps tenant req (some c) d v =
      Run-new_uuid _ λ i. keep-bind _ _ (insert_category-Keeps _ d v) λ _ d' v'. Run-pure _ v'
  choose_category-Keeps tenant req none d v = search keep_rules

  module _ (membership : Membership) (reads : ReadsOnly membership) where
    check_members-Keeps :
        (tenant : Uuid) (teachers : List Uuid) → Keeps P (check_members membership tenant teachers)
    unfolding check_members
    check_members-Keeps tenant [] d v = Run-pure tt v
    check_members-Keeps tenant (t ∷ rest) d v =
        keep-bind _ _ (check_tutor-Keeps P membership tenant t reads d v)
          λ _ d' v'. check_members-Keeps tenant rest d' v'

    -- The class that is added keeps it as well.
    pub make_class-Keeps :
        (tenant : Uuid) (req : CreateClassWithCategoryRequest)
        → ((i : Uuid) (category : Category)
            → Keeps P (execute (insert_class (payload_class i tenant category req.class))))
        → Keeps P (make_class membership tenant req)
    unfolding make_class
    make_class-Keeps tenant req adds d v =
        Run-if
          (not (distinct_teachers req.teacher_ids)
            || not (all (taught req.teacher_ids) req.schedules))
          _ _ (λ _. Run-raise _ v)
          λ _. keep-bind _ _ (check_members-Keeps tenant req.teacher_ids d v) λ _ d1 v1.
            keep-bind _ _ (choose_category-Keeps tenant req req.category d1 v1) λ category d2 v2.
              Run-if (not (category.tenant_id == tenant)) _ _ (λ _. Run-raise _ v2)
                λ _. Run-new_uuid _ λ i. keep-bind _ _ (adds i category d2 v2) λ _ d3 v3.
                  keep-bind _ _ (assign_teachers-Keeps i req.teacher_ids d3 v3) λ _ d4 v4.
                    keep-bind _ _ (create_slots-Keeps i req.schedules d4 v4)
                      λ slots d5 v5. Run-pure _ v5
