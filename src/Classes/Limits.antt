-- ===== src/Classes/Limits.antt =====
-- The slot limit of a class.
pub mod Changes
pub mod Operations
use kelolakelas_academic_ser.App.{Db, ok, err, App, ◌>>=◌, execute}
use kelolakelas_academic_ser.App.Run.{
  Post, Run, Run-pure, Run-raise, Run-if, Run-bind, Run-new_uuid, Run-statement_last, Run-execute,
  Run-execute_last, run_rules, Inv, Keeps, keep-bind, keep_rules,
}
use kelolakelas_academic_ser.Classes.Categories.{
  CreateCategoryRequest, new_category, own_category, blank,
}
use kelolakelas_academic_ser.Classes.Changes.{
  with_limit, too_long_name, apply_category, with_publication, class_status_named, set_status_of,
  apply_status, apply_category_id, apply_name, with_description, apply_price,
}
use kelolakelas_academic_ser.Classes.Rows.{
  insert_category, insert_class, tenant_class, update_classes, update_class_row, insert_teacher,
  assign_teachers, clear_teachers, replace_teachers, valid_slot_limit, natural,
  new_private_slot_limit,
}
use kelolakelas_academic_ser.Domain.{
  Uuid, ClassType, private, group, ClassEnrollmentStatus, Class, Category, ClassTeacher, ℤ, pos,
  negsuc,
}
use kelolakelas_academic_ser.Enrollment.Rows.{class_id, find_class}
use kelolakelas_academic_ser.Prelude.{
  ◌==◌, if◌then◌else◌, Bool-cases, select, update_where, any, by_id, ℕ, ◌≤◌, String, ◌≡◌, refl, inl,
  inr, Bool, true, false, not, ◌&&◌, ◌||◌, Option, none, some, List, [], ◌∷◌, arith,
}
use mathlib.Core.Path.{subst}

-- A limit is a positive PostgreSQL integer, and only a private class has one.
abbrev pub LimitFits : ClassType → Option ℕ → Type 0
LimitFits t none = Unit {0}
LimitFits t (some n) = (t ≡ private) × (1 ≤ n) × (n ≤ 2147483647)

abbrev pub LimitsFit : List Class → Type 0
LimitsFit [] = Unit {0}
LimitsFit (c ∷ rest) = LimitFits c.type c.private_slot_limit × LimitsFit rest

pub record Limited (d : Db) : Type 0 where
  pub at : LimitsFit d.classes

pub valid_slot_limit-fits :
    (t : ClassType) (limit : Option ℤ)
    → valid_slot_limit t limit ≡ true
    → LimitFits t (new_private_slot_limit t limit)
unfolding valid_slot_limit new_private_slot_limit
valid_slot_limit-fits private none h = (refl, omega arith, omega arith)
valid_slot_limit-fits group none h = tt
valid_slot_limit-fits private (some (pos n)) h = ground arith
valid_slot_limit-fits private (some (negsuc n)) h = cc
valid_slot_limit-fits group (some limit) h = cc

valid-stored :
    (t : ClassType) (limit : ℤ)
    → valid_slot_limit t (some limit) ≡ true
    → LimitFits t (some (natural limit))
unfolding valid_slot_limit
valid-stored private (pos n) h = ground arith
valid-stored private (negsuc n) h = cc
valid-stored group limit h = cc

pub with_limit-fits :
    (limit : Option ℤ) (c : Class)
    → valid_slot_limit c.type limit ≡ true
    → LimitFits c.type c.private_slot_limit
    → LimitFits (with_limit limit c).type (with_limit limit c).private_slot_limit
with_limit-fits none c h v = v
with_limit-fits (some limit) c h v = valid-stored c.type limit h

by_id-fits :
    (i : Uuid) (rows : List Class) (c : Class)
    → by_id class_id i rows ≡ some c
    → LimitsFit rows
    → LimitFits c.type c.private_slot_limit
unfolding by_id
by_id-fits i [] c h v = cc
by_id-fits i (x ∷ rows) c h v = elim (Bool-cases (x.id == i)) [
  | inl e ↦ subst (λ (y : Class). LimitFits y.type y.private_slot_limit) (here e) v.0
  | inr e ↦ by_id-fits i rows c (later e) v.1
]
  where
    here : (x.id == i) ≡ true → x ≡ c
    here e = ground arith

    later : (x.id == i) ≡ false → by_id class_id i rows ≡ some c
    later e = ground arith

pub find_class-fits :
    (i : Uuid) (d : Db) (c : Class)
    → find_class i d ≡ some c
    → Limited d
    → LimitFits c.type c.private_slot_limit
unfolding find_class
find_class-fits i d c h v = by_id-fits i d.classes c (ground arith) v.at

pub update_where-fits :
    (p : Class → Bool) (f : Class → Class) (rows : List Class)
    → ((c : Class)
        → LimitFits c.type c.private_slot_limit
        → LimitFits (f c).type (f c).private_slot_limit)
    → LimitsFit rows
    → LimitsFit (update_where p f rows)
unfolding update_where
update_where-fits p f [] h v = tt
update_where-fits p f (c ∷ rows) h v = (one (p c), update_where-fits p f rows h v.1)
  where
    one : (b : Bool) → let x : Class = if b then f c else c in LimitFits x.type x.private_slot_limit
    one true = h c v.0
    one false = v.0

pub insert_class-Limited :
    (c : Class) (d d' : Db)
    → LimitFits c.type c.private_slot_limit
    → insert_class c d ≡ ok d'
    → Limited d
    → Limited d'
insert_class-Limited c d d' fits h v = rw (effect h) (record { at = (fits, v.at) })
  where
    effect : insert_class c d ≡ ok d' → d' ≡ record d { classes = c ∷ d.classes }
    effect k = unfold insert_class in ground arith

pub update_classes-Limited :
    (p : Class → Bool) (f : Class → Class)
    → ((c : Class)
        → LimitFits c.type c.private_slot_limit
        → LimitFits (f c).type (f c).private_slot_limit)
    → Keeps Limited (update_classes p f)
unfolding update_classes
update_classes-Limited p f h d v =
    Run-statement_last _ (λ _. v) (record { at = update_where-fits p f d.classes h v.at })

pub update_class_row-Limited :
    (c : Class) → LimitFits c.type c.private_slot_limit → Keeps Limited (update_class_row c)
unfolding update_class_row
update_class_row-Limited c fits d v =
    keep-bind _ _ (update_classes-Limited _ _ (λ _ _. fits) d v) λ n d' v'. search run_rules

-- A class whose limit fits, and which a part of the update passes on.
abbrev pub FitsClass : Post Class
FitsClass (ok c) d = LimitFits c.type c.private_slot_limit × Limited d
FitsClass (err x) d = Limited d

abbrev pub Passes : App Class → Type 0
Passes m = (d : Db) → Limited d → Run false d m FitsClass

pub insert_category-Limited : (c : Category) → Keeps Limited (execute (insert_category c))
insert_category-Limited c d v =
    Run-execute_last _ (λ _. v) (λ x _. v) λ d' h. rw (effect d' h) (record { at = v.at })
  where
    effect :
        (d' : Db) → insert_category c d ≡ ok d' → d' ≡ record d { categories = c ∷ d.categories }
    effect d' k = unfold insert_category in ground arith

pub own_category-Limited : (tenant i : Uuid) → Keeps Limited (own_category tenant i)
unfolding own_category
own_category-Limited tenant i d v = search keep_rules

insert_teacher-Limited : (t : ClassTeacher) → Keeps Limited (execute (insert_teacher t))
insert_teacher-Limited t d v =
    Run-execute_last _ (λ _. v) (λ x _. v) λ d' h. rw (effect d' h) (record { at = v.at })
  where
    effect :
        (d' : Db)
        → insert_teacher t d ≡ ok d'
        → d' ≡ record d { class_teachers = t ∷ d.class_teachers }
    effect d' k = unfold insert_teacher in ground arith

pub assign_teachers-Limited :
    (class : Uuid) (teachers : List Uuid) → Keeps Limited (assign_teachers class teachers)
unfolding assign_teachers
assign_teachers-Limited class [] d v = Run-pure tt v
assign_teachers-Limited class (t ∷ rest) d v =
    keep-bind _ _ (insert_teacher-Limited _ d v) λ _ d' v'. assign_teachers-Limited class rest d' v'

pub replace_teachers-Limited :
    (tenant class : Uuid) (teachers : List Uuid)
    → Keeps Limited (replace_teachers tenant class teachers)
unfolding replace_teachers
replace_teachers-Limited tenant class teachers d v =
    Run-execute _ _ (λ _. v) (λ x _. v)
      λ d' h. rw (effect d' h) (assign_teachers-Limited class teachers _ (record { at = v.at }))
  where
    effect :
        (d' : Db)
        → clear_teachers tenant class d ≡ ok d'
        → d' ≡ record d {
          class_teachers =
              select
                (λ t. not (t.class_id == class && any (tenant_class tenant class) d.classes))
                d.class_teachers;
        }
    effect d' k = unfold clear_teachers in ground arith

module _ (c : Class) (fits : LimitFits c.type c.private_slot_limit) where
  pub apply_category-Passes :
      (tenant : Uuid) (o : Option CreateCategoryRequest) → Passes (apply_category tenant o c)
  unfolding apply_category
  apply_category-Passes tenant none d v = Run-pure c (fits, v)
  apply_category-Passes tenant (some req) d v =
      Run-if (blank req.name || too_long_name req.name) _ _ (λ _. Run-raise _ v)
        λ _. Run-new_uuid _ λ i.
          Run-bind (Inv Limited) _ _ (insert_category-Limited (new_category i tenant req) d v)
            (λ _ d' v'. Run-pure (record c { category_id = i }) (fits, v')) (λ x d' v'. v')

  set_status-Passes : (o : Option ClassEnrollmentStatus) → Passes (set_status_of o c)
  set_status-Passes none d v = Run-raise _ v
  set_status-Passes (some s) d v = Run-pure (record c { enrollment_status = s }) (fits, v)

  pub apply_status-Passes : (o : Option String) → Passes (apply_status o c)
  unfolding apply_status
  apply_status-Passes none d v = Run-pure c (fits, v)
  apply_status-Passes (some text) d v = set_status-Passes (class_status_named text) d v

  pub apply_category_id-Passes :
      (tenant : Uuid) (o : Option Uuid) → Passes (apply_category_id tenant o c)
  unfolding apply_category_id
  apply_category_id-Passes tenant none d v = Run-pure c (fits, v)
  apply_category_id-Passes tenant (some i) d v =
      Run-if (i == c.category_id) _ _ (λ _. Run-pure c (fits, v))
        λ _.
          Run-bind (Inv Limited) _ _ (own_category-Limited tenant i d v)
            (λ _ d' v'. Run-pure (record c { category_id = i }) (fits, v')) (λ x d' v'. v')

  pub apply_name-Passes : (o : Option String) → Passes (apply_name o c)
  unfolding apply_name
  apply_name-Passes none d v = Run-pure c (fits, v)
  apply_name-Passes (some name) d v =
      Run-if (blank name) _ _ (λ _. Run-raise _ v)
        λ _. Run-pure (record c { name = name }) (fits, v)

  pub apply_price-Passes : (o : Option ℤ) → Passes (apply_price o c)
  unfolding apply_price
  apply_price-Passes none d v = Run-pure c (fits, v)
  apply_price-Passes (some (pos n)) d v = Run-pure (record c { price = n }) (fits, v)
  apply_price-Passes (some (negsuc n)) d v = Run-raise _ v

  pub published-fits :
      (o : Option Bool)
      → LimitFits (with_publication o c).type (with_publication o c).private_slot_limit
  published-fits none = fits
  published-fits (some b) = fits

  pub described-fits :
      (o : Option String)
      → LimitFits (with_description o c).type (with_description o c).private_slot_limit
  described-fits none = fits
  described-fits (some text) = fits

pub passing :
    (m : App Class) (k : Class → App Class) (d : Db)
    → Run false d m FitsClass
    → ((c : Class) → LimitFits c.type c.private_slot_limit → Passes (k c))
    → Run false d (m >>= k) FitsClass
passing m k d p h = Run-bind FitsClass m k p (λ c d' q. h c q.0 d' q.1) (λ x d' q. q)
