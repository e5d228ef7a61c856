-- ===== src/ExamAdmin.antt =====
-- apps/api/src/services/platform-store.exam-admin.ts: the administration of exams. Each operation
-- runs on the database, a parameter, `ExamTable`, or else on the memory; `Request` says which of its
-- calls the client breaks on, and what the clock and the generator of identifiers return. The seeding
-- of an empty database, which production skips, is left out.
pub mod Table
pub mod Access
pub mod Visible
pub mod Tenancy
pub mod Refinement
pub mod Agreement
pub mod Deletion
mod Tests
use big_project.Common.{
  ℕ, zero, suc, ◌+◌, ◌-◌, ◌*◌, ◌/◌, ◌%◌, ◌≤◌, ◌<◌, min, max, String, ◌≡◌, refl, sym, ap, subst, ◌∙◌,
  ◌≢◌, ◌↔◌, ◌⊎◌, inl, inr, Bool, true, false, not, ◌&&◌, ◌||◌, Option, none, some, List, [], ◌∷◌,
  ◌++◌, map, arith, eq_iff, eq_refl, ◌=ₛ◌, ltb, leb, ◌==◌, if◌then◌else◌, ltb→lt, lt→ltb, le→leb,
  Bool-cases, Option-cases, length, find, filter, any, all, head?, length-append, length-filter-le,
  find-passes, All, All-append, All-filter, filter-All, All-sort_descending, sort_descending, take,
  is_empty, before, includes_char,
}
use big_project.Common.Result.{
  Result, ok, throw, Exception, bad_request, unauthorized, forbidden, not_found, conflict,
  too_many_requests, service_unavailable, ◌>>=◌, ◌>>◌, throw_if, or_throw, Result-cases,
}
use big_project.Shared.{UserRole, admin, organization, proctor, candidate, AuthSession}
use big_project.Shared.Exams.{
  Exam, ExamStatus, draft, scheduled, active, ended, deleted, Question, TestCase, Candidate,
  CreateExamInput, UpdateExamInput, ExamDetail, QuestionWithTestCases,
}
use big_project.AdminUsers.Table.{is_admin}
use big_project.Database.{
  Environment, Outcome, returns, raises, breaks, Connection, try_database, or_in_memory,
}
use mathlib.Core.Option
use Table.{has_id, replace, ExamWhere, ExamTable}

pub record ExamAdminMemoryState : Type 0 where
  pub exams : List Exam
  pub questions : List Question
  pub candidates : List Candidate
  pub test_cases : List TestCase

pub record Request : Type 0 where
  pub env : Environment
  pub session : AuthSession
  pub new_id : String
  pub now : ℕ
  pub read_breaks : Bool
  pub write_breaks : Bool

abbrev pub is_deleted : ExamStatus → Bool
is_deleted draft = false
is_deleted scheduled = false
is_deleted active = false
is_deleted ended = false
is_deleted deleted = true

abbrev pub can_manage : UserRole → Bool
can_manage admin = true
can_manage organization = true
can_manage proctor = false
can_manage candidate = false

abbrev pub can_view : UserRole → Bool
can_view admin = true
can_view organization = true
can_view proctor = true
can_view candidate = false

unfoldable pub assert_session_can_manage_exams : AuthSession → Result (Unit {0})
assert_session_can_manage_exams session = throw_if (not (can_manage session.user.role)) forbidden

unfoldable pub assert_session_can_view_exams : AuthSession → Result (Unit {0})
assert_session_can_view_exams session = throw_if (not (can_view session.user.role)) forbidden

unfoldable pub assert_session_can_proctor : AuthSession → Result (Unit {0})
assert_session_can_proctor session = throw_if (not (can_view session.user.role)) forbidden

-- `scopedExamWhere`
unfoldable pub scoped_exam_where : AuthSession → ExamWhere
scoped_exam_where session =
    if is_admin session.user.role
    then record { status_not = deleted; organization_id = none }
    else record { status_not = deleted; organization_id = some session.organization.id }

-- Whether the organization is the session's, or the session an operator's.
abbrev pub is_within : AuthSession → String → Bool
is_within session organization_id =
    is_admin session.user.role || session.organization.id =ₛ organization_id

unfoldable pub assert_session_can_access_exam : AuthSession → String → Result (Unit {0})
assert_session_can_access_exam session organization_id =
    throw_if (not (is_within session organization_id)) not_found

unfoldable pub can_access_exam : AuthSession → Exam → Bool
can_access_exam session exam =
    not (is_deleted exam.status) && is_within session exam.organization_id

-- The exam that a search has found: it must exist, must not be deleted, and must be within reach.
unfoldable pub require_exam : AuthSession → Option Exam → Result Exam
unfolding assert_session_can_access_exam
require_exam session none = throw not_found
require_exam session (some exam) =
    if is_deleted exam.status
    then throw not_found
    else assert_session_can_access_exam session exam.organization_id >> ok exam

abbrev pub to_outcome {ℓ} : {T : Type ℓ} → Result T → Outcome T
to_outcome (throw e) = raises e
to_outcome (ok t) = returns t

abbrev pub is_none {ℓ} : {T : Type ℓ} → Option T → Bool
is_none none = true
is_none (some t) = false

abbrev pub new_exam : Request → CreateExamInput → Exam
new_exam request input = record {
  id = request.new_id;
  organization_id = request.session.organization.id;
  title = input.title;
  description = input.description;
  start_at = input.start_at;
  end_at = input.end_at;
  duration_minutes = input.duration_minutes;
  status = draft;
  languages = input.languages;
  proctoring_enabled = input.proctoring_enabled;
  identity_verification_enabled = input.identity_verification_enabled;
  mobile_camera_required = input.mobile_camera_required;
  screen_share_required = input.screen_share_required;
  created_at = request.now;
}

-- The data of the update in the database. The client leaves a column alone whose value is missing.
abbrev pub apply_input : UpdateExamInput → Exam → Exam
apply_input input exam = record exam {
  title = Option.get_or input.title exam.title;
  description = Option.get_or input.description exam.description;
  start_at = Option.get_or input.start_at none;
  end_at = Option.get_or input.end_at none;
  duration_minutes = Option.get_or input.duration_minutes exam.duration_minutes;
  languages = Option.get_or input.languages exam.languages;
  proctoring_enabled = Option.get_or input.proctoring_enabled exam.proctoring_enabled;
  identity_verification_enabled =
      Option.get_or input.identity_verification_enabled exam.identity_verification_enabled;
  mobile_camera_required = Option.get_or input.mobile_camera_required exam.mobile_camera_required;
  screen_share_required = Option.get_or input.screen_share_required exam.screen_share_required;
}

-- `{ ...exam, ...input }`: every field that the body has replaces the exam's.
abbrev pub spread_input : UpdateExamInput → Exam → Exam
spread_input input exam = record {
  id = Option.get_or input.id exam.id;
  organization_id = Option.get_or input.organization_id exam.organization_id;
  title = Option.get_or input.title exam.title;
  description = Option.get_or input.description exam.description;
  start_at = Option.get_or input.start_at exam.start_at;
  end_at = Option.get_or input.end_at exam.end_at;
  duration_minutes = Option.get_or input.duration_minutes exam.duration_minutes;
  status = Option.get_or input.status exam.status;
  languages = Option.get_or input.languages exam.languages;
  proctoring_enabled = Option.get_or input.proctoring_enabled exam.proctoring_enabled;
  identity_verification_enabled =
      Option.get_or input.identity_verification_enabled exam.identity_verification_enabled;
  mobile_camera_required = Option.get_or input.mobile_camera_required exam.mobile_camera_required;
  screen_share_required = Option.get_or input.screen_share_required exam.screen_share_required;
  created_at = Option.get_or input.created_at exam.created_at;
}

abbrev pub mark_deleted : Exam → Exam
mark_deleted exam = record exam { status = deleted }

-- The second halves of `updateExamInStore` and `deleteExamInStore`.
unfoldable pub change_in_memory :
    Request → List Exam → String → (Exam → Exam) → Result (List Exam × Exam)
unfolding require_exam
change_in_memory request exams exam_id change =
    require_exam request.session (find (has_id exam_id) exams)
    >>= (λ exam. ok (replace exam_id (change exam) exams, change exam))

abbrev pub create_in_memory : Request → List Exam → CreateExamInput → Result (List Exam × Exam)
create_in_memory request exams input = ok (new_exam request input ∷ exams, new_exam request input)

-- The client refuses an invalid date.
abbrev pub has_dates : CreateExamInput → Bool
has_dates input = not (is_none input.start_at) && not (is_none input.end_at)

-- A missing date makes an invalid one.
abbrev pub sets_dates : UpdateExamInput → Bool
sets_dates input =
    not (is_none (Option.get_or input.start_at none))
    && not (is_none (Option.get_or input.end_at none))

module _ (table : ExamTable) (request : Request) where
  open table use {Db, find_unique, find_many, create, update}

  unfoldable pub create_in_database : CreateExamInput → Db → Db × Outcome Exam
  create_in_database input db =
      if request.write_breaks || not (has_dates input)
      then (db, breaks)
      else (create db (new_exam request input), returns (new_exam request input))

  -- The closures of `updateExamInStore` and `deleteExamInStore`.
  unfoldable pub change_in_database : Bool → String → (Exam → Exam) → Db → Db × Outcome Exam
  unfolding require_exam
  change_in_database is_valid exam_id change db =
      if request.read_breaks
      then (db, breaks)
      else elim (require_exam request.session (find_unique db exam_id)) [
        | throw e ↦ (db, raises e)
        | ok exam ↦
            if request.write_breaks || not is_valid
            then (db, breaks)
            else (update db exam_id change, returns (change exam))
      ]

  unfoldable pub list_in_database : Db → Db × Outcome (List Exam)
  unfolding scoped_exam_where
  list_in_database db =
      if request.read_breaks
      then (db, breaks)
      else (db, returns (find_many db (scoped_exam_where request.session)))

  abbrev pub list_in_memory : List Exam → List Exam
  list_in_memory exams =
      sort_descending (λ e. e.created_at) (filter (can_access_exam request.session) exams)

  unfoldable pub list_exams : Connection Db → List Exam → Connection Db × Result (List Exam)
  unfolding assert_session_can_view_exams
  list_exams c exams = elim (assert_session_can_view_exams request.session) [
    | throw e ↦ (c, throw e)
    | ok done ↦
        let run = try_database request.env c list_in_database in
        (run.0, or_in_memory run.1 (λ found. found) (ok (list_in_memory exams)))
  ]

  unfoldable pub create_exam :
      Connection Db → List Exam → CreateExamInput → Connection Db × Result (List Exam × Exam)
  unfolding assert_session_can_manage_exams
  create_exam c exams input = elim (assert_session_can_manage_exams request.session) [
    | throw e ↦ (c, throw e)
    | ok done ↦
        let run = try_database request.env c (create_in_database input) in
        (run.0, or_in_memory run.1 (λ exam. (exams, exam)) (create_in_memory request exams input))
  ]

  -- What `updateExamInStore` and `deleteExamInStore` have in common: what they do to the exam in the
  -- database, and in the memory.
  unfoldable pub change_exam :
      Bool
      → (Exam → Exam)
      → (Exam → Exam)
      → Connection Db
      → List Exam
      → String
      → Connection Db × Result (List Exam × Exam)
  unfolding assert_session_can_manage_exams
  change_exam is_valid in_database in_memory c exams exam_id =
      elim (assert_session_can_manage_exams request.session) [
        | throw e ↦ (c, throw e)
        | ok done ↦
            let run =
              try_database request.env c (change_in_database is_valid exam_id in_database) in
            (
              run.0,
              or_in_memory run.1 (λ exam. (exams, exam))
                  (change_in_memory request exams exam_id in_memory),
            )
      ]

  unfoldable pub update_exam :
      Connection Db
      → List Exam
      → String
      → UpdateExamInput
      → Connection Db × Result (List Exam × Exam)
  unfolding change_exam
  update_exam c exams exam_id input =
      change_exam (sets_dates input) (apply_input input) (spread_input input) c exams exam_id

  unfoldable pub delete_exam :
      Connection Db → List Exam → String → Connection Db × Result (List Exam × Exam)
  unfolding change_exam
  delete_exam c exams exam_id = change_exam true mark_deleted mark_deleted c exams exam_id

-- The second half of `getExamDetailInStore`.
unfoldable pub detail_in_memory : AuthSession → ExamAdminMemoryState → String → Result ExamDetail
unfolding require_exam
detail_in_memory session state exam_id =
    require_exam session (find (has_id exam_id) state.exams) >>= (λ exam. ok (record {
      exam = exam;
      questions =
          map
            (λ question. record {
              question = question;
              test_cases =
                  filter (λ test_case. test_case.question_id =ₛ question.id) state.test_cases;
            })
            (filter (λ question. question.exam_id =ₛ exam_id) state.questions);
      candidates = filter (λ candidate. candidate.exam_id =ₛ exam_id) state.candidates;
    }))

-- `found` is what the database operation of `getExamDetailInStore` ended in.
unfoldable pub get_exam_detail :
    AuthSession → Result (Option ExamDetail) → ExamAdminMemoryState → String → Result ExamDetail
unfolding assert_session_can_manage_exams detail_in_memory
get_exam_detail session found state exam_id =
    assert_session_can_manage_exams session
    >> or_in_memory found (λ detail. detail) (detail_in_memory session state exam_id)
