-- ===== src/Enrollment/Checkout/Private.antt =====
-- A private class cannot be checked out directly.
use kelolakelas_academic_ser.App.{Db, World, Result, ok, err, App, raise, ◌>>=◌}
use kelolakelas_academic_ser.App.Run.{
  Post, Run, Run-raise, Run-if, Run-lookup, Run-lookup_last, Run-attempt_then,
}
use kelolakelas_academic_ser.Domain.{Uuid, Enrollment, private, is_private, Class}
use kelolakelas_academic_ser.Enrollment.Checkout.{
  PublicEnrollmentRequest, get_class, replay_public, first_checkout, checkout_by_key, enroll_public,
}
use kelolakelas_academic_ser.Enrollment.Invoice.{GenerateInvoice}
use kelolakelas_academic_ser.Enrollment.Repository.{get_by_idempotency_key}
use kelolakelas_academic_ser.Enrollment.Rows.{find_class}
use kelolakelas_academic_ser.Errors.{private_checkout, domain, is_not_found}
use kelolakelas_academic_ser.Prelude.{
  if◌then◌else◌, String, ◌≡◌, refl, Bool, true, false, some, arith,
}

-- The database is as it was and the answer is an error.
abbrev pub Refused : {A : Type 0} → Db → Post A
Refused d (ok a) d' = ⊥
Refused d (err x) d' = d' ≡ d

private_lookup :
    (d : Db) (i : Uuid) (c c' : Class)
    → find_class i d ≡ some c
    → c.type ≡ private
    → find_class i d ≡ some c'
    → is_private c'.type ≡ true
private_lookup d i c c' h p k = ground arith

module _ (generate : GenerateInvoice) (tx : Bool) (parent i : Uuid) (req : PublicEnrollmentRequest)
    (key : String) (c : Class) (d : Db) (h : find_class i d ≡ some c) (p : c.type ≡ private) where
  refused_class :
      {B : Type 0} (k : Class → App B)
      → Run false d
          (get_class i >>= λ class.
            if is_private class.type then raise (domain private_checkout) else k class)
          (Refused d)
  unfolding get_class
  refused_class k =
      Run-lookup (find_class i) _ (λ _. refl) (λ _. refl)
        λ c' found.
          Run-if (is_private c'.type) _ _ (λ _. Run-raise _ refl)
            λ other. cc (private_lookup d i c c' h p found, other)

  refused_replay :
      (e : Enrollment) → Run false d (replay_public generate tx parent i req key e) (Refused d)
  unfolding replay_public
  refused_replay e = search (Run-if, Run-raise, refused_class)

  refused_first : Run false d (first_checkout generate tx parent i req key) (Refused d)
  unfolding first_checkout
  refused_first = search refused_class

  refused_key :
      (r : Result Enrollment)
      → Run false d (checkout_by_key generate tx parent i req key r) (Refused d)
  unfolding checkout_by_key
  refused_key (ok e) = refused_replay e
  refused_key (err x) = Run-if (is_not_found x) _ _ (λ _. refused_first) (λ _. Run-raise x refl)

  refused_checkout : Run false d (enroll_public generate tx parent i req key) (Refused d)
  unfolding enroll_public get_by_idempotency_key
  refused_checkout =
      search (Run-if, Run-raise, Run-attempt_then, Run-lookup_last, refused_key) depth 10

-- A checkout of a private class is refused and changes nothing: for every key, new or already
-- used, whatever billing would answer and whichever database calls fail.
pub enroll_public-private :
    (generate : GenerateInvoice) (tx : Bool) (parent i : Uuid) (req : PublicEnrollmentRequest)
    (key : String) (c : Class) (w : World)
    → find_class i w.db ≡ some c
    → c.type ≡ private
    → let (r, w') = enroll_public generate tx parent i req key w in Refused w.db r w'.db
enroll_public-private generate tx parent i req key c w h p =
    ((refused_checkout generate tx parent i req key c w.db h p).at w.env (λ r. cc)).0
