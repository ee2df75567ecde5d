-- ===== src/Requests/Slots/Selection.antt =====
-- As many slots are selected as indexes are given.
use kelolakelas_academic_ser.App.{ok}
use kelolakelas_academic_ser.Domain.{ℤ, pos, negsuc}
use kelolakelas_academic_ser.Domain.Request.{PrivateScheduleSlot, PrivateScheduleRequest}
use kelolakelas_academic_ser.Prelude.{
  ltb, leb, bit, length, count, any, ℕ, suc, ◌+◌, ◌≡◌, refl, sym, Bool, true, false, ◌&&◌, some,
  List, [], ◌∷◌, arith,
}
use kelolakelas_academic_ser.Requests.Slots.{
  ApprovePrivateScheduleRequest, same_index, indexes_valid, pick_slots, private_selected_slots,
}

-- The index lies among the `n` from `k` on.
abbrev in_range : ℕ → ℕ → ℤ → Bool
in_range k n (pos i) = leb k i && ltb i (k + n)
in_range k n (negsuc i) = false

abbrev is_index : ℕ → ℤ → Bool
is_index n = same_index (pos n)

none_in_range : (k : ℕ) (indexes : List ℤ) → count (in_range k 0) indexes ≡ 0
unfolding count
none_in_range k [] = refl
none_in_range k (pos i ∷ rest) = ground (arith, none_in_range k rest)
none_in_range k (negsuc i ∷ rest) = omega (arith, none_in_range k rest)

split_range :
    (k n : ℕ) (indexes : List ℤ)
    → count (in_range k (suc n)) indexes
      ≡ count (is_index k) indexes + count (in_range (k + 1) n) indexes
unfolding count
split_range k n [] = refl
split_range k n (pos i ∷ rest) = ground (arith, split_range k n rest)
split_range k n (negsuc i ∷ rest) = omega (arith, split_range k n rest)

-- The indexes of a valid selection are all in range, and each stands once.
valid_in_range :
    (n : ℕ) (indexes : List ℤ)
    → indexes_valid n indexes ≡ true
    → count (in_range 0 n) indexes ≡ length indexes
unfolding indexes_valid count
valid_in_range n [] h = refl
valid_in_range n (pos i ∷ rest) h = ground (arith, valid_in_range n rest)
valid_in_range n (negsuc i ∷ rest) h = cc

valid_once :
    (n k : ℕ) (indexes : List ℤ)
    → indexes_valid n indexes ≡ true
    → count (is_index k) indexes ≡ bit (any (is_index k) indexes)
unfolding indexes_valid count any
valid_once n k [] h = refl
valid_once n k (pos i ∷ rest) h = ground (arith, valid_once n k rest)
valid_once n k (negsuc i ∷ rest) h = cc

length-pick_slots :
    (n k : ℕ) (indexes : List ℤ) (slots : List PrivateScheduleSlot)
    → indexes_valid n indexes ≡ true
    → length (pick_slots k indexes slots) ≡ count (in_range k (length slots)) indexes
unfolding pick_slots
length-pick_slots n k indexes [] h = sym (none_in_range k indexes)
length-pick_slots n k indexes (s ∷ rest) h = ground (
  arith,
  length-pick_slots n (k + 1) indexes rest h,
  split_range k (length rest) indexes,
  valid_once n k indexes h,
)

-- An approval that is accepted selects as many slots of the request as it names indexes: none is
-- taken twice and none is lost.
pub length-private_selected_slots :
    (r : PrivateScheduleRequest) (a : ApprovePrivateScheduleRequest)
    (selected : List PrivateScheduleSlot)
    → private_selected_slots r (some a) ≡ ok selected
    → length selected ≡ length a.selected_slot_indexes
unfolding private_selected_slots
length-private_selected_slots r a selected h = ground (
  arith,
  length-pick_slots (length r.slots) 0 a.selected_slot_indexes r.slots,
  valid_in_range (length r.slots) a.selected_slot_indexes,
)
