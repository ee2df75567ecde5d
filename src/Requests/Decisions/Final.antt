-- ===== src/Requests/Decisions/Final.antt =====
-- A decision on a request is final.
use kelolakelas_academic_ser.App.{Db, World, App}
use kelolakelas_academic_ser.App.Run.{Run-gets, Run-statement_last, Keeps, keep-bind, keep_rules}
use kelolakelas_academic_ser.Domain.{Uuid}
use kelolakelas_academic_ser.Domain.Request.{
  PrivateScheduleSlot, RequestStatus, rejected, is_request_pending, is_rejected,
  PrivateScheduleRequest,
}
use kelolakelas_academic_ser.Prelude.{
  is_some, update_where, by_id, ℕ, String, ◌≡◌, refl, Bool, true, false, not, ◌&&◌, Option, none,
  some, List, [], ◌∷◌, arith,
}
use kelolakelas_academic_ser.Requests.Decisions.{
  RejectPrivateScheduleRequest, recommend, reject_checked, reject_request, cancel_request,
  decline_recommendation,
}
use kelolakelas_academic_ser.Requests.Repository.{
  request_id, get_request, update_requests, after_update, pending_row, transition,
  reject_with_recommendation, declinable, decline_row,
}

-- What a tenant or a parent asks for.
pub data Decision : Type 0 where
  rejecting : Uuid → Uuid → RejectPrivateScheduleRequest → Decision
  cancelling : Uuid → Uuid → Decision
  declining : Uuid → Uuid → Decision

unfoldable pub decide : Decision → App PrivateScheduleRequest
decide (rejecting tenant i req) = reject_request tenant i req
decide (cancelling parent i) = cancel_request parent i
decide (declining parent i) = decline_recommendation parent i

-- The world after all of them, whatever each answers.
unfoldable pub decide_all : List Decision → World → World
decide_all [] w = w
decide_all (o ∷ rest) w = decide_all rest (decide o w).1

-- Approved, cancelled and declined requests, and rejections without a recommendation.
unfoldable pub is_final : PrivateScheduleRequest → Bool
is_final r =
    not (is_request_pending r.status) && not (is_rejected r.status && is_some r.recommended_slots)

-- The row of a request.
abbrev pub Stands : PrivateScheduleRequest → Db → Type 0
Stands r d = by_id request_id r.id d.requests ≡ some r

update_where-by_id :
    (p : PrivateScheduleRequest → Bool) (f : PrivateScheduleRequest → PrivateScheduleRequest)
    (i : Uuid) (r : PrivateScheduleRequest) (rows : List PrivateScheduleRequest)
    → ((x : PrivateScheduleRequest) → (f x).id ≡ x.id)
    → p r ≡ false
    → by_id request_id i rows ≡ some r
    → by_id request_id i (update_where p f rows) ≡ some r
unfolding update_where by_id
update_where-by_id p f i r [] same out h = h
update_where-by_id p f i r (x ∷ rows) same out h =
    ground (arith, same x, update_where-by_id p f i r rows same out)

update_requests-Stands :
    (p : PrivateScheduleRequest → Bool) (f : PrivateScheduleRequest → PrivateScheduleRequest)
    (r : PrivateScheduleRequest)
    → ((x : PrivateScheduleRequest) → (f x).id ≡ x.id)
    → p r ≡ false
    → Keeps (Stands r) (update_requests p f)
unfolding update_requests
update_requests-Stands p f r same out d v =
    Run-statement_last _ (λ _. v) (update_where-by_id p f r.id r d.requests same out v)

not_pending :
    (i : Uuid) (tenant parent : Option Uuid) (r : PrivateScheduleRequest)
    → is_final r ≡ true
    → pending_row i tenant parent r ≡ false
unfolding is_final pending_row
not_pending i tenant parent r h = ground arith

not_declinable :
    (i parent : Uuid) (r : PrivateScheduleRequest)
    → is_final r ≡ true
    → declinable i parent r ≡ false
unfolding is_final declinable
not_declinable i parent r h = ground arith

module _ (r : PrivateScheduleRequest) (h : is_final r ≡ true) where
  get_request-Stands :
      (i : Uuid) (tenant parent : Option Uuid) → Keeps (Stands r) (get_request i tenant parent)
  unfolding get_request
  get_request-Stands i tenant parent d v = search keep_rules

  after_update-Stands :
      (i : Uuid) (tenant parent : Option Uuid) (n : ℕ)
      → Keeps (Stands r) (after_update i tenant parent n)
  unfolding after_update
  after_update-Stands i tenant parent n d v = search (keep_rules, get_request-Stands) depth 8

  transition-Stands :
      (i : Uuid) (tenant parent : Option Uuid) (status : RequestStatus) (reason : Option String)
      → Keeps (Stands r) (transition i tenant parent status reason)
  unfolding transition
  transition-Stands i tenant parent status reason d v = Run-gets _ _ λ now.
      keep-bind _ _
        (update_requests-Stands (pending_row i tenant parent) _ r (λ x. refl)
          (not_pending i tenant parent r h) d v)
        λ n d' v'. after_update-Stands i tenant parent n d' v'

  recommendation-Stands :
      (i tenant : Uuid) (reason : Option String) (slots : List PrivateScheduleSlot)
      → Keeps (Stands r) (reject_with_recommendation i tenant reason slots)
  unfolding reject_with_recommendation
  recommendation-Stands i tenant reason slots d v = Run-gets _ _ λ now.
      keep-bind _ _
        (update_requests-Stands (pending_row i (some tenant) none) _ r (λ x. refl)
          (not_pending i (some tenant) none r h) d v)
        λ n d' v'. after_update-Stands i (some tenant) none n d' v'

  decline_row-Stands : (i parent : Uuid) → Keeps (Stands r) (decline_row i parent)
  unfolding decline_row
  decline_row-Stands i parent d v =
      keep-bind _ _
        (update_requests-Stands (declinable i parent) _ r (λ x. refl) (not_declinable i parent r h)
          d v)
        λ n d' v'. after_update-Stands i none (some parent) n d' v'

  reject_checked-Stands :
      (tenant i : Uuid) (reason : Option String) (slots : Option (List PrivateScheduleSlot))
      → Keeps (Stands r) (reject_checked tenant i reason slots)
  unfolding reject_checked recommend
  reject_checked-Stands tenant i reason none d v =
      transition-Stands i (some tenant) none rejected reason d v
  reject_checked-Stands tenant i reason (some slots) d v =
      search (keep_rules, get_request-Stands, recommendation-Stands) depth 12

  decide-Stands : (o : Decision) → Keeps (Stands r) (decide o)
  unfolding decide reject_request cancel_request decline_recommendation
  decide-Stands (rejecting tenant i req) d v = search (keep_rules, reject_checked-Stands) depth 8
  decide-Stands (cancelling parent i) d v = search (keep_rules, transition-Stands) depth 8
  decide-Stands (declining parent i) d v = search (keep_rules, decline_row-Stands) depth 8

-- A request that was approved, cancelled or declined, or rejected without a recommendation, keeps
-- its row whatever rejections, cancellations and declinations follow, by whomever and on whichever
-- requests, and whatever calls fail.
pub decide_all-Stands :
    (r : PrivateScheduleRequest) (decisions : List Decision) (w : World)
    → is_final r ≡ true
    → Stands r w.db
    → Stands r (decide_all decisions w).db
unfolding decide_all
decide_all-Stands r [] w h v = v
decide_all-Stands r (o ∷ rest) w h v =
    decide_all-Stands r rest (decide o w).1 h ((decide-Stands r h o w.db v).at w.env (λ f. cc)).0
