-- ===== src/ExamAdmin/Tests.antt =====
-- Runs of the administration of exams on a table that is a list of exams.
use big_project.Common.{
  String, ◌≡◌, refl, true, false, none, some, List, [], ◌∷◌, optional, find, filter, filter-Mem,
  ◌⊎◌,
}
use big_project.Common.Result.{ok, throw, Exception, forbidden, not_found}
use big_project.Shared.{admin, organization, proctor, UserRole, AuthSession}
use big_project.Shared.Exams.{Exam, CreateExamInput, UpdateExamInput, deleted}
use big_project.Database.{Environment, Connection, try_database}
use big_project.ExamAdmin.Table.{has_id, replace, ExamTable, matches}
use big_project.ExamAdmin.{
  list_in_database, change_in_database, scoped_exam_where, change_in_memory, Request,
  can_access_exam, list_exams, update_exam, delete_exam, require_exam, new_exam, mark_deleted,
}
use big_project.ExamAdmin.Visible.{ListsVisible}
use big_project.ExamAdmin.Tenancy.{list_exams-ListsVisible, update_exam-delete_exam_unreachable}
use big_project.ExamAdmin.Refinement.{
  Operation, creating, updating, deleting, perform, perform_all, serve_all, serve_all-perform_all,
  serve,
}
use big_project.ExamAdmin.Deletion.{serve_all-deleted}
use big_project.ExamAdmin.Agreement.{perform_in_memory}

abbrev update_rows : List Exam → String → (Exam → Exam) → List Exam
update_rows exams id f = optional exams (λ e. replace id (f e) exams) (find (has_id id) exams)

abbrev list_table : ExamTable
list_table = record {
  Db = List Exam;
  exams = λ db. db;
  find_unique = λ db id. find (has_id id) db;
  find_many = λ db condition. filter (matches condition) db;
  create = λ db exam. exam ∷ db;
  update = update_rows;
  find_unique_lem = λ db id. refl;
  find_many_lem = λ db condition exam. filter-Mem (matches condition) exam db;
  exams-create = λ db exam. refl;
  exams-update = λ db id f exam h. rw (h) refl;
}

abbrev live : Environment
live = record {
  disable_database = false;
  has_database_url = true;
  production = true;
  allow_demo_auth = none;
}

abbrev session_of : UserRole → String → AuthSession
session_of role organization_id = record {
  token = "t";
  user = record {
    id = "u";
    email = "u@x";
    name = "U";
    role = role;
    organization_id = some organization_id;
    created_at = 0;
  };
  organization = record {
    id = organization_id;
    name = organization_id;
    join_code = none;
    created_at = 0;
  };
  password_change_required = false;
}

abbrev manager : Request
manager = record {
  env = live;
  session = session_of organization "A";
  new_id = "e9";
  now = 50;
  read_breaks = false;
  write_breaks = false;
}

abbrev stranger : Request
stranger = record manager { session = session_of organization "B" }

abbrev watcher : Request
watcher = record manager { session = session_of proctor "A" }

abbrev exam_input : CreateExamInput
exam_input = record {
  title = "Final";
  description = "";
  start_at = some 100;
  end_at = some 900;
  duration_minutes = 10;
  languages = "python" ∷ [];
  proctoring_enabled = true;
  identity_verification_enabled = false;
  mobile_camera_required = false;
  screen_share_required = false;
}

abbrev retitle : UpdateExamInput
retitle = record {
  id = none;
  organization_id = none;
  title = some "Retake";
  description = none;
  start_at = some (some 100);
  end_at = some (some 900);
  duration_minutes = none;
  status = none;
  languages = none;
  proctoring_enabled = none;
  identity_verification_enabled = none;
  mobile_camera_required = none;
  screen_share_required = none;
  created_at = none;
}

abbrev exam_a : Exam
exam_a = record (new_exam manager exam_input) { id = "e1" }

abbrev rows : List Exam
rows = exam_a ∷ record exam_a { id = "e2"; organization_id = "B" } ∷ []

abbrev connection : Connection (List Exam)
connection = record { database_unavailable = false; db = rows }

abbrev steps : List (Request × Operation)
steps =
    (manager, creating exam_input)
    ∷ (manager, updating "e1" retitle)
    ∷ (stranger, deleting "e1")
    ∷ (watcher, deleting "e1")
    ∷ (manager, deleting "e1")
    ∷ (manager, deleting "e1")
    ∷ []

abbrev retake : Exam
retake = record exam_a { title = "Retake" }

answers :
    (perform_all rows steps).1
    ≡ ok (new_exam manager exam_input)
      ∷ ok retake
      ∷ throw not_found
      ∷ throw forbidden
      ∷ ok (record retake { status = deleted })
      ∷ throw not_found
      ∷ []
unfolding perform change_in_memory
answers = refl

serve_all-perform_all_example :
    let run = serve_all list_table (connection, []) steps in
    let spec = perform_all rows steps in
    (run.0.1 ≡ []) × ((run.1 ≡ spec.1) × (list_table.exams run.0.0.db ≡ spec.0))
serve_all-perform_all_example = serve_all-perform_all list_table connection [] steps refl

-- The body of an update may bring a deleted exam of the memory back, or move an exam to another
-- identifier, from which its questions and candidates are not found.
moved :
    (perform_in_memory rows (manager, updating "e1" (record retitle { id = some "e7" }))).1
    ≡ ok (record retake { id = "e7" })
unfolding perform_in_memory change_in_memory
moved = refl

deletes : (serve list_table (connection, []) (manager, deleting "e1")).1 ≡ ok (mark_deleted exam_a)
unfolding serve delete_exam try_database change_in_database
deletes = refl

serve_all-deleted_example :
    let later = (serve_all list_table (connection, []) ((manager, deleting "e1") ∷ steps)).0.0.db in
    require_exam (session_of admin "A") (find (has_id "e1") later) ≡ throw not_found
serve_all-deleted_example =
    serve_all-deleted list_table connection [] "e1" manager (mark_deleted exam_a) steps
      (session_of admin "A") refl deletes refl

lists : (list_exams list_table watcher connection []).1 ≡ ok (exam_a ∷ [])
unfolding list_exams try_database list_in_database scoped_exam_where
lists = refl

list_exams-ListsVisible_example :
    ListsVisible (session_of proctor "A") rows (exam_a ∷ [])
    ⊎ ListsVisible (session_of proctor "A") [] (exam_a ∷ [])
list_exams-ListsVisible_example =
    list_exams-ListsVisible list_table watcher connection [] (exam_a ∷ []) lists

update_exam-delete_exam_unreachable_example :
    let updated = update_exam list_table stranger connection rows "e1" retitle in
    let removed = delete_exam list_table stranger connection rows "e1" in
    ((updated.0.db ≡ rows) × ((e : Exception) × (updated.1 ≡ throw e)))
    × ((removed.0.db ≡ rows) × ((e : Exception) × (removed.1 ≡ throw e)))
unfolding can_access_exam
update_exam-delete_exam_unreachable_example =
    update_exam-delete_exam_unreachable list_table stranger connection rows "e1" retitle refl refl
