-- ===== src/Invitations/Tests.antt =====
-- Two invitations of one user, on tables that are lists.
use big_project.Common.{◌≡◌, refl, false, none, some, List, [], ◌∷◌, arith, eq_iff, find}
use big_project.Common.Result.{ok, throw, conflict}
use big_project.Shared.{organization, proctor, candidate, AuthSession}
use big_project.Auth.Table.{UserRow}
use big_project.AdminUsers.Table.{has_id}
use big_project.Invitations.Table.{pending, InvitationRow, InvitationTables, update_where}
use big_project.Invitations.{Host, is_free_user, join_organization, accept_row, accept_transaction}
use big_project.Invitations.Acceptance.{accept_transaction_once}

abbrev list_tables : InvitationTables
list_tables = record {
  Db = List UserRow × List InvitationRow;
  users = λ db. db.0;
  invitations = λ db. db.1;
  update_users = λ db p f. (update_where p f db.0, db.1);
  update_invitations = λ db p f. (db.0, update_where p f db.1);
  create_invitation = λ db row. (db.0, row ∷ db.1);
  users-update_users = λ db p f. refl;
  users-update_invitations = λ db p f. refl;
  invitations-update_users = λ db p f. refl;
  invitations-update_invitations = λ db p f. refl;
  invitations-create_invitation = λ db row. refl;
}

abbrev host : Host
host = record { trim = λ s. s; to_lower_case = λ s. s; new_id = "i3"; new_token = "t3"; now = 9 }

abbrev kim : UserRow
kim = record {
  id = "u1";
  email = "kim@x";
  name = "Kim";
  role = candidate;
  organization_id = none;
  organization = none;
  password_hash = "";
  failed_login_attempts = 0;
  locked_until = none;
  password_changed_at = none;
  password_change_required = false;
  created_at = 0;
}

abbrev lee : UserRow
lee = record kim { id = "u2"; email = "lee@x"; role = organization; organization_id = some "A" }

abbrev from_a : InvitationRow
from_a = record {
  id = "i1";
  token = "t1";
  organization_id = "A";
  invited_user_id = "u1";
  requested_role = proctor;
  status = pending;
  invited_by_id = "u2";
  created_at = 1;
  accepted_at = none;
}

abbrev from_b : InvitationRow
from_b = record from_a { id = "i2"; token = "t2"; organization_id = "B" }

abbrev session : AuthSession
session = record {
  token = "s";
  user = record {
    id = "u1";
    email = "kim@x";
    name = "Kim";
    role = candidate;
    organization_id = none;
    created_at = 0;
  };
  organization = record { id = ""; name = ""; join_code = none; created_at = 0 };
  password_change_required = false;
}

abbrev db_a : List UserRow × List InvitationRow
db_a = (kim ∷ lee ∷ [], from_a ∷ from_b ∷ [])

accepts : (accept_transaction list_tables host db_a session from_a).1 ≡ ok (accept_row 9 from_a)
unfolding accept_transaction
accepts = refl

accept_transaction_once_example :
    let after = (accept_transaction list_tables host db_a session from_a).0 in
    (accept_transaction list_tables host after session from_b ≡ (after, throw conflict))
    × ((after.0 ≡ update_where (is_free_user "u1") (join_organization from_a) db_a.0)
        × (find (has_id "u2") after.0 ≡ find (has_id "u2") db_a.0))
accept_transaction_once_example =
    accept_transaction_once list_tables host db_a session from_a from_b (accept_row 9 from_a) "u2"
      accepts (λ e. ground (arith, eq_iff "u1" "u2", e))
