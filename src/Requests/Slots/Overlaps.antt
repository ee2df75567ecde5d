-- ===== src/Requests/Slots/Overlaps.antt =====
-- Accepted slots do not overlap: the test of neighbours in the sorted day is a test of all pairs.

use kelolakelas_academic_ser.Domain.Request.{PrivateScheduleSlot}
use kelolakelas_academic_ser.Prelude.{
  ltb, leb, ◌==◌, Bool-cases, Option-cases, any, all, ℕ, ◌≤◌, ◌≡◌, refl, sym, ap, ◌∙◌, inl, inr,
  Bool, true, false, ◌&&◌, ◌||◌, some, List, [], ◌∷◌, arith,
}
use kelolakelas_academic_ser.Requests.Slots.{
  slot_times, insert_interval, sort_intervals, neighbours_overlap, times_of_day,
  valid_private_slots,
}

-- One interval ends before the other starts.
abbrev pub apart : ℕ × ℕ → ℕ × ℕ → Bool
apart i j = leb i.1 j.0 || leb j.1 i.0

unfoldable pub apart_from : ℕ × ℕ → List (ℕ × ℕ) → Bool
apart_from i [] = true
apart_from i (j ∷ rest) = apart i j && apart_from i rest

unfoldable pub disjoint : List (ℕ × ℕ) → Bool
disjoint [] = true
disjoint (i ∷ rest) = apart_from i rest && disjoint rest

abbrev proper : ℕ × ℕ → Bool
proper i = ltb i.0 i.1

-- Sorting keeps what holds of all intervals, and of all pairs.
apart_from-insert :
    (i j : ℕ × ℕ) (rows : List (ℕ × ℕ))
    → apart_from j (insert_interval i rows) ≡ (apart j i && apart_from j rows)
unfolding insert_interval apart_from
apart_from-insert i j [] = ground arith
apart_from-insert i j (k ∷ rows) = ground (arith, apart_from-insert i j rows)

disjoint-insert :
    (i : ℕ × ℕ) (rows : List (ℕ × ℕ))
    → disjoint (insert_interval i rows) ≡ (apart_from i rows && disjoint rows)
unfolding insert_interval disjoint apart_from
disjoint-insert i [] = ground arith
disjoint-insert i (k ∷ rows) = ground (arith, disjoint-insert i rows, apart_from-insert i k rows)

apart_from-sort :
    (i : ℕ × ℕ) (rows : List (ℕ × ℕ)) → apart_from i (sort_intervals rows) ≡ apart_from i rows
unfolding sort_intervals apart_from
apart_from-sort i [] = refl
apart_from-sort i (k ∷ rows) =
    apart_from-insert k i (sort_intervals rows) ∙ ap (λ b. apart i k && b) (apart_from-sort i rows)

disjoint-sort : (rows : List (ℕ × ℕ)) → disjoint (sort_intervals rows) ≡ disjoint rows
unfolding sort_intervals disjoint
disjoint-sort [] = refl
disjoint-sort (k ∷ rows) =
    disjoint-insert k (sort_intervals rows)
    ∙ ground (arith, apart_from-sort k rows, disjoint-sort rows)

proper-insert :
    (i : ℕ × ℕ) (rows : List (ℕ × ℕ))
    → proper i ≡ true
    → all proper rows ≡ true
    → all proper (insert_interval i rows) ≡ true
unfolding insert_interval all
proper-insert i [] h k = ground arith
proper-insert i (j ∷ rows) h k = ground (arith, proper-insert i rows h)

proper-sort :
    (rows : List (ℕ × ℕ)) → all proper rows ≡ true → all proper (sort_intervals rows) ≡ true
unfolding sort_intervals all
proper-sort [] h = refl
proper-sort (i ∷ rows) h =
    proper-insert i (sort_intervals rows) (ground arith) (proper-sort rows (ground arith))

-- In a chain of neighbours, each interval is apart from all later ones.
chain-apart :
    (i j : ℕ × ℕ) (rows : List (ℕ × ℕ))
    → i.1 ≤ j.0
    → all proper (j ∷ rows) ≡ true
    → neighbours_overlap (j ∷ rows) ≡ false
    → apart_from i (j ∷ rows) ≡ true
unfolding apart_from neighbours_overlap all
chain-apart i j [] h p k = ground arith
chain-apart i j (l ∷ rows) h p k =
    ground (arith, chain-apart i l rows (ground arith) (ground arith) (ground arith))

chain-disjoint :
    (rows : List (ℕ × ℕ))
    → all proper rows ≡ true
    → neighbours_overlap rows ≡ false
    → disjoint rows ≡ true
unfolding disjoint neighbours_overlap apart_from all
chain-disjoint [] p k = refl
chain-disjoint (i ∷ []) p k = refl
chain-disjoint (i ∷ j ∷ rows) p k = ground (
  arith,
  chain-apart i j rows (ground arith) (ground arith) (ground arith),
  chain-disjoint (j ∷ rows) (ground arith) (ground arith),
)

slot_times-proper : (s : PrivateScheduleSlot) (i : ℕ × ℕ) → slot_times s ≡ some i → proper i ≡ true
unfolding slot_times
slot_times-proper s i h = ground arith

times_of_day-proper :
    (day : ℕ) (slots : List PrivateScheduleSlot) → all proper (times_of_day day slots) ≡ true
unfolding times_of_day all
times_of_day-proper day [] = refl
times_of_day-proper day (s ∷ rest) = elim (Option-cases (slot_times s)) [
  | inl absent ↦ ground (arith, times_of_day-proper day rest)
  | inr (i, found) ↦ ground (arith, times_of_day-proper day rest, slot_times-proper s i found)
]

no_overlap :
    (slots : List PrivateScheduleSlot) (day : ℕ)
    → valid_private_slots slots ≡ true
    → 1 ≤ day
    → day ≤ 7
    → neighbours_overlap (sort_intervals (times_of_day day slots)) ≡ false
unfolding valid_private_slots any
no_overlap slots day h low high = elim (Bool-cases (day == 1)) [
  | inl e ↦ ground arith
  | inr n ↦ ground arith
]

-- Of slots that are accepted, no two on one day overlap.
pub valid_private_slots-disjoint :
    (slots : List PrivateScheduleSlot) (day : ℕ)
    → valid_private_slots slots ≡ true
    → 1 ≤ day
    → day ≤ 7
    → disjoint (times_of_day day slots) ≡ true
valid_private_slots-disjoint slots day h low high =
    sym (disjoint-sort (times_of_day day slots))
    ∙ chain-disjoint (sort_intervals (times_of_day day slots))
        (proper-sort (times_of_day day slots) (times_of_day-proper day slots))
        (no_overlap slots day h low high)
