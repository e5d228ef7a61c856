-- ===== src/ExamAdmin/Tenancy.antt =====
-- apps/api/src/services/platform-store.exam-admin.ts: an organization administers its own exams.
use big_project.Common.{
  String, ◌≡◌, refl, ap, subst, ◌≢◌, inl, inr, Bool, true, false, some, List, arith, if◌then◌else◌,
  Bool-cases, find, filter, filter-Mem, sort-Mem, ◌⊎◌, sym, ◌∙◌,
}
use big_project.Common.Result.{ok, throw, Exception, forbidden, not_found}
use big_project.Shared.Exams.{Exam, UpdateExamInput}
use big_project.Database.{Connection, try_database, or_in_memory, returns, raises, breaks}
use big_project.Database.Cases.{
  try_database-some, try_database-db, or_in_memory-cases, or_in_memory_throws,
}
use big_project.ExamAdmin.Table.{has_id, ExamTable}
use big_project.ExamAdmin.{
  change_exam, Request, can_access_exam, can_manage, assert_session_can_manage_exams,
  assert_session_can_view_exams, list_exams, list_in_database, list_in_memory, can_view,
  update_exam, delete_exam, change_in_memory, change_in_database, mark_deleted, apply_input,
  spread_input, sets_dates, scoped_exam_where,
}
use big_project.ExamAdmin.Visible.{
  ListsVisible, can_access_exam-IsVisible, scoped_exam_where-can_access_exam,
}
use big_project.ExamAdmin.Access.{is_reachable, require_exam_unreachable}

module _ (table : ExamTable) (request : Request) where
  open table use {Db, find_unique, find_many}

  listed_in_database :
      (db : Db) (found : List Exam)
      → (list_in_database table request db).1 ≡ returns found
      → ListsVisible request.session (table.exams db) found
  unfolding list_in_database
  listed_in_database db found h = elim (Bool-cases request.read_breaks) [
    | inl is ↦ ground (arith, h, is)
    | inr isnt ↦
        let condition = scoped_exam_where request.session in
        let same : find_many db condition ≡ found = ground (arith, h, isnt) in
        subst (ListsVisible request.session (table.exams db)) same (λ exam.
          let law = table.find_many_lem db condition exam in
          let test = scoped_exam_where-can_access_exam request.session exam in
          let may = can_access_exam-IsVisible request.session exam in
          (λ m. ((law.0 m).0, may.0 (sym test ∙ (law.0 m).1)), λ m. law.1 (m.0, test ∙ may.1 m.1)))
  ]

  listed_in_memory :
      (exams : List Exam) → ListsVisible request.session exams (list_in_memory table request exams)
  listed_in_memory exams exam =
      let may = can_access_exam-IsVisible request.session exam in
      let sorted =
        sort-Mem (λ e. e.created_at) exam (filter (can_access_exam request.session) exams) in
      let passes = filter-Mem (can_access_exam request.session) exam exams in
      (
        λ m. let kept = passes.0 (sorted.0 m) in (kept.0, may.0 kept.1),
        λ m. sorted.1 (passes.1 (m.0, may.1 m.1)),
      )

  -- The list that a session gets is that of the exams of the database, or else of the memory, that
  -- are not deleted and, unless the user is an operator, are of the session's organization: each of
  -- these exams is listed, and no other.
  pub list_exams-ListsVisible :
      (c : Connection Db) (exams found : List Exam)
      → (list_exams table request c exams).1 ≡ ok found
      → ListsVisible request.session (table.exams c.db) found
        ⊎ ListsVisible request.session exams found
  unfolding list_exams assert_session_can_view_exams
  list_exams-ListsVisible c exams found h = elim (Bool-cases (can_view request.session.user.role)) [
    | inr isnt ↦ ground (arith, h, isnt)
    | inl is ↦
        let run = (try_database request.env c (list_in_database table request)).1 in
        let value : or_in_memory run (λ found. found) (ok (list_in_memory table request exams))
            ≡ ok found =
          ground (arith, h, is) in
        elim (or_in_memory-cases run (λ found. found) (ok (list_in_memory table request exams))
          found value) [
            | inl from ↦ inl (
                listed_in_database c.db found (
                  subst (λ l. (list_in_database table request c.db).1 ≡ returns l) from.1.1
                    (try_database-some request.env c (list_in_database table request) from.0
                      from.1.0)))
            | inr memory ↦
                let same : list_in_memory table request exams ≡ found = ground (arith, memory.1) in
                inr (subst (ListsVisible request.session exams) same (listed_in_memory exams))
          ]
  ]

  unreachable_in_database :
      (is_valid : Bool) (exam_id : String) (change : Exam → Exam) (db : Db)
      → is_reachable request.session (find_unique db exam_id) ≡ false
      → change_in_database table request is_valid exam_id change db
        ≡ (db, if request.read_breaks then breaks else raises not_found)
  unfolding change_in_database
  unreachable_in_database is_valid exam_id change db h =
      let missing = require_exam_unreachable request.session (find_unique db exam_id) h in
      elim (Bool-cases request.read_breaks) [
        | inl is ↦ rw (is) refl
        | inr isnt ↦ rw (isnt, missing) refl
      ]

  unreachable_in_memory :
      (exams : List Exam) (exam_id : String) (change : Exam → Exam)
      → is_reachable request.session (find (has_id exam_id) exams) ≡ false
      → change_in_memory request exams exam_id change ≡ throw not_found
  unfolding change_in_memory
  unreachable_in_memory exams exam_id change h =
      rw (require_exam_unreachable request.session (find (has_id exam_id) exams) h) refl

  -- A change of an exam that neither store lets the session reach leaves the database alone and
  -- ends in an exception.
  change_exam_unreachable :
      (is_valid : Bool) (change in_memory : Exam → Exam) (c : Connection Db) (exams : List Exam)
      (exam_id : String)
      → is_reachable request.session (find_unique c.db exam_id) ≡ false
      → is_reachable request.session (find (has_id exam_id) exams) ≡ false
      → let run = change_exam table request is_valid change in_memory c exams exam_id in
        (run.0.db ≡ c.db) × ((e : Exception) × (run.1 ≡ throw e))
  unfolding change_exam assert_session_can_manage_exams
  change_exam_unreachable is_valid change in_memory c exams exam_id out away =
      let operation = change_in_database table request is_valid exam_id change in
      let alone : (operation c.db).0 ≡ c.db =
        ap (λ r. r.0) (unreachable_in_database is_valid exam_id change c.db out) in
      let kept = try_database-db request.env c operation alone in
      let memory = unreachable_in_memory exams exam_id in_memory away in
      let no_value : (t : Exam) → (try_database request.env c operation).1 ≢ ok (some t) = λ t h.
        let value = try_database-some request.env c operation t h in
        let end = ap (λ r. r.1) (unreachable_in_database is_valid exam_id change c.db out) in
        ground (arith, value, end) in
      elim (Bool-cases (can_manage request.session.user.role)) [
        | inr isnt ↦ rw (change_exam, isnt) (refl, (forbidden, refl))
        | inl is ↦
            rw (change_exam, is)
              (
                kept,
                or_in_memory_throws (try_database request.env c operation).1 (λ exam. (exams, exam))
                    (change_in_memory request exams exam_id in_memory) not_found no_value memory,
              )
      ]

  -- The exams of other organizations, and deleted ones, are out of reach of updates and deletions:
  -- where neither the database nor the memory holds an exam under the identifier that the session
  -- may access, both operations throw, and the database is as before.
  pub update_exam-delete_exam_unreachable :
      (c : Connection Db) (exams : List Exam) (exam_id : String) (input : UpdateExamInput)
      → is_reachable request.session (find_unique c.db exam_id) ≡ false
      → is_reachable request.session (find (has_id exam_id) exams) ≡ false
      → let updated = update_exam table request c exams exam_id input in
        let removed = delete_exam table request c exams exam_id in
        ((updated.0.db ≡ c.db) × ((e : Exception) × (updated.1 ≡ throw e)))
        × ((removed.0.db ≡ c.db) × ((e : Exception) × (removed.1 ≡ throw e)))
  unfolding update_exam delete_exam
  update_exam-delete_exam_unreachable c exams exam_id input out away = (
    change_exam_unreachable (sets_dates input) (apply_input input) (spread_input input) c exams
        exam_id out away,
    change_exam_unreachable true mark_deleted mark_deleted c exams exam_id out away,
  )
