-- ===== src/AdminUsers/Tests.antt =====
-- Runs of the service for managed accounts on a list of rows, and its theorems at concrete inputs.
use big_project.Common.{
  String, ◌≡◌, refl, ◌≢◌, true, false, not, none, some, List, [], ◌∷◌, map, length, find, filter,
  includes_char,
}
use big_project.Common.Result.{ok, throw, forbidden, conflict}
use big_project.Shared.{admin, organization, proctor, User, AuthSession}
use big_project.Auth.Table.{UserRow}
use big_project.Auth.{to_user}
use big_project.AdminUsers.Table.{is_admin, AccountTable, update_at, has_id, has_email, admins}
use big_project.AdminUsers.{
  UpdateAdminUserInput, Request, parse_editable_role, parse_update_user_input, write_update,
  update_target, update_managed_user, delete_transaction, delete_managed_user,
}
use big_project.AdminUsers.Tenancy.{MayAssign, update_managed_user_scope}
use big_project.AdminUsers.LastAdmin.{
  delete_managed_user_never_conflict, update_managed_user_demotes,
}

abbrev table : AccountTable
table = record {
  Db = List UserRow;
  rows = λ us. us;
  find_by_id = λ us id. find (has_id id) us;
  find_by_email = λ us email. find (has_email email) us;
  count_admins = λ us. length (admins us);
  update = λ us id f. map (update_at id f) us;
  delete = λ us id. filter (λ u. not (has_id id u)) us;
  delete_invitations = λ us id. us;
  find_by_id_lem = λ us id. refl;
  find_by_email_lem = λ us email. refl;
  count_admins_lem = λ us. refl;
  rows-update = λ us id f. refl;
  rows-delete = λ us id. refl;
  rows-delete_invitations = λ us id. refl;
}

abbrev request : Request
request = record {
  trim = λ s. s;
  to_lower_case = λ s. s;
  database_available = true;
  target_fails = false;
  email_fails = false;
  write_fails = false;
}

abbrev operator : UserRow
operator = record {
  id = "u1";
  email = "a@b";
  name = "A";
  role = admin;
  organization_id = some "o1";
  organization = none;
  password_hash = "";
  failed_login_attempts = 0;
  locked_until = none;
  password_changed_at = none;
  password_change_required = false;
  created_at = 0;
}

abbrev manager : UserRow
manager = record operator { id = "u2"; email = "m@b"; role = organization }

abbrev watcher : UserRow
watcher = record operator { id = "u3"; email = "w@b"; role = proctor }

abbrev db : List UserRow
db = operator ∷ manager ∷ watcher ∷ []

abbrev session_of : UserRow → AuthSession
session_of u = record {
  token = "t";
  user = to_user u;
  organization = record { id = "o1"; name = "O"; join_code = none; created_at = 0 };
  password_change_required = false;
}

abbrev promotion : UpdateAdminUserInput
promotion = record { name = "W"; email = "w@b"; role = organization; organization_id = none }

abbrev resignation : UpdateAdminUserInput
resignation = record { name = "A"; email = "a@b"; role = proctor; organization_id = some "o1" }

program : Unit {0}
unfolding includes_char parse_editable_role parse_update_user_input write_update update_target
    update_managed_user delete_transaction delete_managed_user
program = tt

abbrev promoted : User
promoted = to_user (record watcher { name = "W"; role = organization })

promotes :
    (update_managed_user table request db (session_of manager) "u3" promotion).1 ≡ ok promoted
unfolding program
promotes = refl

operator_is_out_of_reach :
    (update_managed_user table request db (session_of manager) "u1" promotion).1 ≡ throw forbidden
unfolding program
operator_is_out_of_reach = refl

deletes : (delete_managed_user table request db (session_of operator) "u3").1 ≡ ok "u3"
unfolding program
deletes = refl

resigns :
    (update_managed_user table request db (session_of operator) "u1" resignation).1
    ≡ ok (to_user (record operator { role = proctor }))
unfolding program
resigns = refl

update_managed_user_scope_example :
    (target : UserRow) × (find (has_id "u3") db ≡ some target)
    × (target.organization_id ≡ some "o1")
    × (is_admin target.role ≡ false)
    × ((stored : UserRow) × (find
            (has_id "u3")
            (update_managed_user table request db (session_of manager) "u3" promotion).0
          ≡ some stored)
        × (stored.organization_id ≡ some "o1")
        × MayAssign organization stored.role
        × (promoted ≡ to_user stored))
    × ((other : String)
        → "u3" ≢ other
        → find
            (has_id other)
            (update_managed_user table request db (session_of manager) "u3" promotion).0
          ≡ find (has_id other) db)
update_managed_user_scope_example =
    update_managed_user_scope table request db (session_of manager) "u3" promotion promoted refl
      promotes

delete_managed_user_never_conflict_example :
    (delete_managed_user table request db (session_of operator) "u3").1 ≢ throw conflict
delete_managed_user_never_conflict_example =
    delete_managed_user_never_conflict table request db (session_of operator) "u3"

update_managed_user_demotes_example :
    length (admins (update_managed_user table request db (session_of operator) "u1" resignation).0)
    ≡ 0
update_managed_user_demotes_example =
    update_managed_user_demotes table request db (session_of operator) "u1" resignation operator
      (to_user (record operator { role = proctor })) refl refl refl refl resigns
