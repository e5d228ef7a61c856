-- ===== src/ExamAdmin/Agreement.antt =====
-- apps/api/src/services/platform-store.exam-admin.ts: the administration of exams without a
-- database, which works on the list in the memory.
use big_project.Common.{
  ◌≡◌, refl, inl, inr, Bool, true, ◌&&◌, Option, List, if◌then◌else◌, Bool-cases,
}
use big_project.Common.Result.{Result, throw, forbidden}
use mathlib.Core.Option
use big_project.Shared.Exams.{Exam}
use big_project.Database.{Connection, try_database}
use big_project.ExamAdmin.Table.{ExamTable}
use big_project.ExamAdmin.{
  Request, can_manage, assert_session_can_manage_exams, is_none, spread_input, mark_deleted,
  create_in_memory, change_in_memory, create_exam, change_exam, update_exam, delete_exam,
}
use big_project.ExamAdmin.Refinement.{Operation, creating, updating, deleting, keep, serve}

-- The second halves of the three operations.
abbrev pub allowed_in_memory : Request → List Exam → Operation → Result (List Exam × Exam)
allowed_in_memory request exams (creating input) = create_in_memory request exams input
allowed_in_memory request exams (updating id input) =
    change_in_memory request exams id (spread_input input)
allowed_in_memory request exams (deleting id) = change_in_memory request exams id mark_deleted

unfoldable pub perform_in_memory : List Exam → Request × Operation → List Exam × Result Exam
perform_in_memory exams step =
    if can_manage step.0.session.user.role
    then keep exams (allowed_in_memory step.0 exams step.1)
    else (exams, throw forbidden)

-- The same request to a service without a database.
abbrev pub offline : Request × Operation → Request × Operation
offline (request, operation) =
    (record request { env = record request.env { disable_database = true } }, operation)

-- An update's body has no other fields than `UpdateExamInput`.
abbrev pub has_own_fields : Request × Operation → Bool
has_own_fields (request, creating input) = true
has_own_fields (request, updating id input) =
    (is_none input.id && is_none input.organization_id)
    && (is_none input.status && is_none input.created_at)
has_own_fields (request, deleting id) = true

module _ (table : ExamTable) where
  open table use {Db}

  -- Without a database, a call works on the memory alone.
  pub serve_in_memory :
      (c : Connection Db) (memory : List Exam) (step : Request × Operation)
      → step.0.env.disable_database ≡ true
      → serve table (c, memory) step
        ≡ ((c, (perform_in_memory memory step).0), (perform_in_memory memory step).1)
  unfolding serve perform_in_memory create_exam update_exam delete_exam change_exam try_database
      assert_session_can_manage_exams
  serve_in_memory c memory (request, creating input) off =
      elim (Bool-cases (can_manage request.session.user.role)) [
        | inl can ↦ rw (serve, perform_in_memory, create_exam, try_database, can, off) refl
        | inr cannot ↦ rw (serve, perform_in_memory, create_exam, cannot) refl
      ]
  serve_in_memory c memory (request, updating id input) off =
      elim (Bool-cases (can_manage request.session.user.role)) [
        | inl can ↦
            rw (serve, perform_in_memory, update_exam, change_exam, try_database, can, off) refl
        | inr cannot ↦ rw (serve, perform_in_memory, update_exam, change_exam, cannot) refl
      ]
  serve_in_memory c memory (request, deleting id) off =
      elim (Bool-cases (can_manage request.session.user.role)) [
        | inl can ↦
            rw (serve, perform_in_memory, delete_exam, change_exam, try_database, can, off) refl
        | inr cannot ↦ rw (serve, perform_in_memory, delete_exam, change_exam, cannot) refl
      ]
