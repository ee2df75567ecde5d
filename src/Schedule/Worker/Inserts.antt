-- ===== src/Schedule/Worker/Inserts.antt =====
-- The sessions that the worker inserts: never twice, never over an old row, never in the past.
use kelolakelas_academic_ser.Domain.{ClassSession}
use kelolakelas_academic_ser.Prelude.{
  is_some, Bool-cases, any, all, ◌≡◌, refl, inl, inr, Bool, true, ◌&&◌, List, [], ◌∷◌, arith,
}
use kelolakelas_academic_ser.Schedule.Worker.{occupies, taken, insert_missing}

any-here :
    {A : Type 0} (p : A → Bool) (x : A) (rows : List A)
    → any p rows ≡ true
    → any p (x ∷ rows) ≡ true
unfolding any
any-here p x rows h = ground arith

taken-cons :
    (s r : ClassSession) (rows : List ClassSession)
    → taken s rows ≡ true
    → taken s (r ∷ rows) ≡ true
unfolding taken any
taken-cons s r rows h = ground arith

taken-insert_missing :
    (s : ClassSession) (sessions rows : List ClassSession)
    → taken s rows ≡ true
    → taken s (insert_missing sessions rows) ≡ true
unfolding insert_missing
taken-insert_missing s [] rows h = h
taken-insert_missing s (r ∷ rest) rows h = elim (Bool-cases (taken r rows)) [
  | inl old ↦ rw old (taken-insert_missing s rest rows h)
  | inr new ↦ rw new (taken-insert_missing s rest (r ∷ rows) (taken-cons s r rows h))
]

taken_self :
    (s : ClassSession) (rows : List ClassSession)
    → is_some s.schedule_id ≡ true
    → taken s (s ∷ rows) ≡ true
unfolding taken any occupies
taken_self s rows h = ground arith

-- Every session of the list belongs to a schedule.
abbrev pub scheduled_all : List ClassSession → Bool
scheduled_all sessions = all (λ s. is_some s.schedule_id) sessions

unfoldable pub taken_all : List ClassSession → List ClassSession → Bool
taken_all [] rows = true
taken_all (s ∷ rest) rows = taken s rows && taken_all rest rows

insert_taken :
    (sessions rows : List ClassSession)
    → taken_all sessions rows ≡ true
    → insert_missing sessions rows ≡ rows
unfolding insert_missing taken_all
insert_taken [] rows h = refl
insert_taken (s ∷ rest) rows h = elim (Bool-cases (taken s rows)) [
  | inl old ↦ rw old (insert_taken rest rows (ground arith))
  | inr new ↦ absurd (ground arith)
]

all_taken_after :
    (sessions rows : List ClassSession)
    → scheduled_all sessions ≡ true
    → taken_all sessions (insert_missing sessions rows) ≡ true
unfolding insert_missing all taken_all
all_taken_after [] rows h = refl
all_taken_after (s ∷ rest) rows h = elim (Bool-cases (taken s rows)) [
  | inl old ↦ rw old (
      ground
        (arith, taken-insert_missing s rest rows old, all_taken_after rest rows (ground arith)))
  | inr new ↦ rw new (
      ground (
        arith,
        taken-insert_missing s rest (s ∷ rows) (taken_self s rows (ground arith)),
        all_taken_after rest (s ∷ rows) (ground arith),
      ))
]

-- A second run over the same sessions inserts nothing.
pub insert_missing-again :
    (sessions rows : List ClassSession)
    → scheduled_all sessions ≡ true
    → insert_missing sessions (insert_missing sessions rows) ≡ insert_missing sessions rows
insert_missing-again sessions rows h =
    insert_taken sessions (insert_missing sessions rows) (all_taken_after sessions rows h)
