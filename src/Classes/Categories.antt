-- ===== src/Classes/Categories.antt =====
-- internal/usecase/category_usecase.go. GetByID answers no category with every error, so that the
-- use cases report each of its errors as a category that is not found.
use kelolakelas_academic_ser.App.{
  Db, App, pure, raise, ◌>>=◌, ◌>>◌, query, lookup, execute, with_transaction, map_error, new_uuid,
}
use kelolakelas_academic_ser.App.Run.{Run}
use kelolakelas_academic_ser.Classes.Rows.{
  find_category, insert_category, update_category_row, classes_of, delete_category_row,
}
use kelolakelas_academic_ser.Domain.{Uuid, Category}
use kelolakelas_academic_ser.Errors.{
  category_not_found, category_forbidden, category_active_classes, category_name_required,
  tenant_inactive_or_not_found, Error, domain, usecase, is_not_found,
}
use kelolakelas_academic_ser.Prelude.{
  ltb, ◌==◌, same_text, if◌then◌else◌, String, ◌≡◌, Bool, false, Option, none, some,
}
use kelolakelas_academic_ser.Requests.Decisions.{trim_left, trim_right}
use kelolakelas_academic_ser.Schedule.Guard.{always}

pub record CreateCategoryRequest : Type 0 where
  pub name : String
  pub description : Option String

pub record UpdateCategoryRequest : Type 0 where
  pub name : Option String
  pub description : Option String

-- grpcclient.TenantClient: whether the tenant is active.
abbrev pub TenantClient : Type 0
TenantClient = Uuid → App Bool

unfoldable pub require_tenant : TenantClient → Uuid → App (Unit {0})
require_tenant client tenant = do
  active_tenant ← map_error (always tenant_inactive_or_not_found) (client tenant)
  if active_tenant then pure tt else raise (usecase tenant_inactive_or_not_found)

unfoldable pub new_category : Uuid → Uuid → CreateCategoryRequest → Category
new_category i tenant req = record {
  id = i;
  tenant_id = tenant;
  name = req.name;
  description = req.description;
  deleted = false;
}

unfoldable pub create_category : TenantClient → Uuid → CreateCategoryRequest → App Category
create_category client tenant req = do
  require_tenant client tenant
  i ← new_uuid
  execute (insert_category (new_category i tenant req))
  pure (new_category i tenant req)

abbrev pub any_category_missing : Error → Error
any_category_missing e = domain category_not_found

-- The category, if it is the tenant's.
unfoldable pub own_category : Uuid → Uuid → App Category
own_category tenant i = do
  c ← map_error any_category_missing (lookup (find_category i))
  if c.tenant_id == tenant then pure c else raise (domain category_forbidden)

-- strings.TrimSpace(name) == ""
unfoldable pub blank : String → Bool
blank name = same_text (trim_left (trim_right name)) ""

unfoldable pub rename_category : Option String → Category → App Category
rename_category none c = pure c
rename_category (some name) c =
    if blank name then raise (domain category_name_required) else pure (record c { name = name })

abbrev pub describe_category : Option String → Category → Category
describe_category none c = c
describe_category (some text) c = record c { description = some text }

abbrev pub missing_category : Error → Error
missing_category e = if is_not_found e then domain category_not_found else e

unfoldable pub update_own_category : Uuid → Uuid → UpdateCategoryRequest → App Category
update_own_category tenant i req = do
  c ← own_category tenant i
  renamed ← rename_category req.name c
  let patched = describe_category req.description renamed
  map_error missing_category (update_category_row patched)
  pure patched

unfoldable pub update_category : Uuid → Uuid → Option UpdateCategoryRequest → App Category
update_category tenant i none = raise (domain category_name_required)
update_category tenant i (some req) = with_transaction (update_own_category tenant i req)

unfoldable pub delete_own_category : Uuid → Uuid → App (Unit {0})
delete_own_category tenant i = do
  own_category tenant i
  n ← query (classes_of i)
  if ltb 0 n then raise (domain category_active_classes) else execute (delete_category_row tenant i)

unfoldable pub delete_category : Uuid → Uuid → App (Unit {0})
delete_category tenant i = with_transaction (delete_own_category tenant i)

-- The tenant service does not write to this database.
abbrev pub QuietTenant : TenantClient → Type 0
QuietTenant client = (tenant : Uuid) (d : Db) → Run false d (client tenant) (λ r d'. d' ≡ d)
