-- ===== src/OrganizationRequests/Tests.antt =====
-- Runs of the service for organization requests on one request of one user, and its theorems at
-- concrete inputs.
use big_project.Common.{
  String, ◌≡◌, refl, sym, ◌≢◌, ◌↔◌, true, false, ◌&&◌, Option, none, some, arith, eq_iff, ◌=ₛ◌,
  if◌then◌else◌,
}
use big_project.Common.Result.{ok, throw, conflict}
use big_project.Shared.{organization, proctor, candidate, AuthSession}
use big_project.Auth.{to_user}
use big_project.Auth.Table.{UserRow}
use big_project.OrganizationRequests.Table.{pending, approved, RequestRow, RequestTables}
use big_project.OrganizationRequests.{
  ReviewInput, approve, reject, Host, parse_review_input, parse_create_input,
  assert_request_allowed, make_request, is_pending, check_review, commit_review, review_request,
}
use big_project.OrganizationRequests.Allowed.{may_request, assert_request_allowed_iff}
use big_project.OrganizationRequests.Review.{review_request_once}
use big_project.OrganizationRequests.Race.{Overwritten, review_race}

abbrev Rows : Type 0
Rows = RequestRow × UserRow

abbrev request_at : Rows → String → Option RequestRow
request_at (r, u) id = if r.id =ₛ id then some r else none

abbrev user_at : Rows → String → Option UserRow
user_at (r, u) id = if u.id =ₛ id then some u else none

abbrev change_request : Rows → String → (RequestRow → RequestRow) → Rows
change_request (r, u) id f = if r.id =ₛ id then (record (f r) { id = r.id }, u) else (r, u)

abbrev change_user : Rows → String → (UserRow → UserRow) → Rows
change_user (r, u) id f = if u.id =ₛ id then (r, record (f u) { id = u.id }) else (r, u)

request_id :
    (db : Rows) (id : String) (row : RequestRow) → request_at db id ≡ some row → row.id ≡ id
request_id (r, u) id row h = ground (arith, eq_iff r.id id)

change_request_found :
    (db : Rows) (id : String) (f : RequestRow → RequestRow) (row : RequestRow)
    → ((r : RequestRow) → (f r).id ≡ r.id)
    → request_at db id ≡ some row
    → request_at (change_request db id f) id ≡ some (f row)
change_request_found (r, u) id f row keeps h =
    let same : record (f row) { id = row.id } ≡ f row =
      λ i. record (f row) { id = sym (keeps row) i } in
    ground arith

change_user_request :
    (db : Rows) (id request : String) (f : UserRow → UserRow)
    → request_at (change_user db id f) request ≡ request_at db request
change_user_request (r, u) id request f = ground arith

change_request_user :
    (db : Rows) (id user : String) (f : RequestRow → RequestRow)
    → user_at (change_request db id f) user ≡ user_at db user
change_request_user (r, u) id user f = ground arith

change_user_found :
    (db : Rows) (id : String) (f : UserRow → UserRow) (u : UserRow)
    → ((v : UserRow) → (f v).id ≡ v.id)
    → user_at db id ≡ some u
    → user_at (change_user db id f) id ≡ some (f u)
change_user_found (r, v) id f u keeps h =
    let same : record (f u) { id = u.id } ≡ f u = λ i. record (f u) { id = sym (keeps u) i } in
    ground arith

change_user_other :
    (db : Rows) (id other : String) (f : UserRow → UserRow)
    → id ≢ other
    → user_at (change_user db id f) other ≡ user_at db other
change_user_other (r, u) id other f differs = ground (arith, eq_iff u.id id, eq_iff u.id other)

abbrev tables : RequestTables
tables = record {
  Db = Rows;
  find_request = request_at;
  find_user = user_at;
  find_pending =
      λ db user. if db.0.user_id =ₛ user && is_pending db.0.status then some db.0 else none;
  find_organization = λ db code. if code =ₛ "ORG-1" then some "o1" else none;
  create_request = λ db row. (row, db.1);
  update_user = change_user;
  update_request = change_request;
  find_request-id = request_id;
  find_request-update_request = change_request_found;
  find_request-update_user = change_user_request;
  find_user-update_request = change_request_user;
  find_user-update_user = change_user_found;
  find_user-update_user_other = change_user_other;
}

abbrev host : Host
host = record { trim = λ s. s; to_upper_case = λ s. s; database_available = true }

abbrev applicant : UserRow
applicant = record {
  id = "u1";
  email = "a@b";
  name = "A";
  role = candidate;
  organization_id = none;
  organization = none;
  password_hash = "";
  failed_login_attempts = 0;
  locked_until = none;
  password_changed_at = none;
  password_change_required = false;
  created_at = 0;
}

abbrev manager : UserRow
manager = record applicant { id = "u2"; role = organization; organization_id = some "o1" }

abbrev asked : RequestRow
asked = record {
  id = "r1";
  user_id = "u1";
  organization_id = "o1";
  requested_role = candidate;
  reason = "join";
  status = pending;
  rejection_reason = none;
  reviewed_by_id = none;
  reviewed_at = none;
}

abbrev db : Rows
db = (asked, applicant)

abbrev session_of : UserRow → AuthSession
session_of u = record {
  token = "t";
  user = to_user u;
  organization = record { id = "o1"; name = "O"; join_code = none; created_at = 0 };
  password_change_required = false;
}

abbrev approval : ReviewInput
approval = record { action = "APPROVE"; rejection_reason = none }

abbrev rejection : ReviewInput
rejection = record { action = "REJECT"; rejection_reason = some "no" }

program : Unit {0}
unfolding parse_review_input parse_create_input assert_request_allowed make_request check_review
    commit_review review_request
program = tt

abbrev done : RequestRow
done = record asked { status = approved; reviewed_by_id = some "u2"; reviewed_at = some 10 }

approves : (review_request tables host db (session_of manager) 10 "r1" approval).1 ≡ ok done
unfolding program
approves = refl

pending_blocks :
    (make_request tables host db
      (session_of applicant)
      "r2"
      (record { join_code = "ORG-1"; requested_role = candidate; reason = "again" })).1
    ≡ throw conflict
unfolding program
pending_blocks = refl

first_check : check_review tables host db (session_of manager) "r1" approval ≡ ok (asked, approve)
unfolding program
first_check = refl

second_check :
    check_review tables host db (session_of manager) "r1" rejection ≡ ok (asked, reject "no")
unfolding program
second_check = refl

assert_request_allowed_iff_example :
    (assert_request_allowed (some "o1") proctor "o1" organization ≡ ok tt)
    ↔ (may_request (some "o1") proctor "o1" organization ≡ true)
assert_request_allowed_iff_example =
    assert_request_allowed_iff (some "o1") proctor "o1" organization

review_request_once_example :
    (review_request tables host
      (review_request tables host db (session_of manager) 10 "r1" approval).0
      (session_of manager)
      20
      "r1"
      rejection).1
    ≢ ok asked
review_request_once_example =
    review_request_once tables host db (session_of manager) (session_of manager) 10 20 "r1" approval
      rejection done asked approves

review_race_example :
    Overwritten tables host
      (commit_review tables host
        (commit_review tables host db (session_of manager) 10 asked approve).0
        (session_of manager)
        11
        asked
        (reject "no")).0
      asked
      applicant
review_race_example =
    review_race tables host db (session_of manager) (session_of manager) 10 11 "r1" "no" approval
      rejection asked asked applicant first_check second_check refl
