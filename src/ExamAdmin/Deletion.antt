-- ===== src/ExamAdmin/Deletion.antt =====
-- apps/api/src/services/platform-store.exam-admin.ts: a deleted exam never comes back.
use big_project.Common.{
  String, ◌≡◌, refl, sym, ap, subst, ◌∙◌, inl, inr, Bool, true, not, ◌||◌, some, List, [], ◌∷◌,
  arith, ◌=ₛ◌, Bool-cases, find, all,
}
use big_project.Common.Result.{ok, throw, not_found, Result-cases}
use big_project.Shared.{AuthSession}
use big_project.Shared.Exams.{Exam}
use big_project.Database.{Connection}
use big_project.ExamAdmin.Table.{has_id, replace, ExamTable}
use big_project.ExamAdmin.{
  Request, is_deleted, can_access_exam, can_manage, apply_input, mark_deleted, change_in_memory,
  require_exam,
}
use big_project.ExamAdmin.Access.{require_exam_reachable}
use big_project.ExamAdmin.Refinement.{
  Operation, creating, updating, deleting, keep, perform, perform_all, is_live, serve, serve_all,
  serve_all-perform_all,
}

-- An exam of another identifier, or a deleted one.
abbrev pub is_gone : String → Exam → Bool
is_gone id exam = not (has_id id exam) || is_deleted exam.status

abbrev pub makes_other : String → Request × Operation → Bool
makes_other id (request, creating input) = not (request.new_id =ₛ id)
makes_other id (request, updating other input) = true
makes_other id (request, deleting other) = true

all-find :
    (p q : Exam → Bool) (exams : List Exam) (exam : Exam)
    → all p exams ≡ true
    → find q exams ≡ some exam
    → p exam ≡ true
all-find p q [] exam h found = ground (arith, found)
all-find p q (x ∷ xs) exam h found = elim (Bool-cases (q x)) [
  | inl is ↦ let same : some x ≡ some exam = ground (arith, found, is) in ground (arith, h, same)
  | inr isnt ↦ all-find p q xs exam (ground (arith, h)) (ground (arith, found, isnt))
]

all-replace :
    (p : Exam → Bool) (id : String) (exam : Exam) (exams : List Exam)
    → p exam ≡ true
    → all p exams ≡ true
    → all p (replace id exam exams) ≡ true
all-replace p id exam [] new old = refl
all-replace p id exam (x ∷ xs) new old = ground (arith, all-replace p id exam xs new)

-- A change that keeps identifiers, and deleted exams deleted, brings nothing back.
change_in_memory-IsGone :
    (request : Request) (exams : List Exam) (id other : String) (change : Exam → Exam)
    → ((e : Exam) → (change e).id ≡ e.id)
    → all (is_gone id) exams ≡ true
    → all (is_gone id) (keep exams (change_in_memory request exams other change)).0 ≡ true
unfolding change_in_memory can_access_exam
change_in_memory-IsGone request exams id other change keeps old =
    elim (Result-cases (require_exam request.session (find (has_id other) exams))) [
      | inl thrown ↦ rw (change_in_memory, thrown.1) old
      | inr done ↦
          let exam = done.0 in
          let reached =
            require_exam_reachable request.session (find (has_id other) exams) exam done.1 in
          let gone = all-find (is_gone id) (has_id other) exams exam old reached.0 in
          let k = keeps exam in
          rw (change_in_memory, done.1)
            (all-replace (is_gone id) other (change exam) exams (ground (arith, gone, reached.1, k))
              old)
    ]

perform-IsGone :
    (exams : List Exam) (id : String) (step : Request × Operation)
    → makes_other id step ≡ true
    → all (is_gone id) exams ≡ true
    → all (is_gone id) (perform exams step).0 ≡ true
unfolding perform
perform-IsGone exams id (request, creating input) other old = ground (arith, other, old)
perform-IsGone exams id (request, updating target input) other old =
    let run = change_in_memory-IsGone request exams id target (apply_input input) (λ e. refl) old in
    ground (arith, run, old)
perform-IsGone exams id (request, deleting target) other old =
    let run = change_in_memory-IsGone request exams id target mark_deleted (λ e. refl) old in
    ground (arith, run, old)

replace-IsGone :
    (id : String) (exam : Exam) (exams : List Exam)
    → all (is_gone id) (replace id (mark_deleted exam) exams) ≡ true
replace-IsGone id exam [] = refl
replace-IsGone id exam (x ∷ xs) = ground (arith, replace-IsGone id exam xs)

deleting-IsGone :
    (exams : List Exam) (id : String) (request : Request) (exam : Exam)
    → (perform exams (request, deleting id)).1 ≡ ok exam
    → all (is_gone id) (perform exams (request, deleting id)).0 ≡ true
unfolding perform change_in_memory
deleting-IsGone exams id request exam h = elim (Bool-cases (can_manage request.session.user.role)) [
  | inr cannot ↦ ground (arith, h, cannot)
  | inl can ↦ elim (Result-cases (require_exam request.session (find (has_id id) exams))) [
    | inl thrown ↦ ground (arith, h, can, thrown.1)
    | inr done ↦ rw (perform, can, change_in_memory, done.1) (replace-IsGone id done.0 exams)
  ]
]

perform_all-IsGone :
    (exams : List Exam) (id : String) (steps : List (Request × Operation))
    → all (makes_other id) steps ≡ true
    → all (is_gone id) exams ≡ true
    → all (is_gone id) (perform_all exams steps).0 ≡ true
perform_all-IsGone exams id [] others old = old
perform_all-IsGone exams id (step ∷ steps) others old =
    perform_all-IsGone (perform exams step).0 id steps (ground (arith, others))
      (perform-IsGone exams id step (ground (arith, others)) old)

find-IsGone :
    (exams : List Exam) (id : String) (session : AuthSession)
    → all (is_gone id) exams ≡ true
    → require_exam session (find (has_id id) exams) ≡ throw not_found
unfolding require_exam
find-IsGone [] id session old = refl
find-IsGone (x ∷ xs) id session old = ground (arith, find-IsGone xs id session, old)

perform_all-deleted :
    (exams : List Exam) (id : String) (request : Request) (exam : Exam)
    (steps : List (Request × Operation)) (session : AuthSession)
    → (perform exams (request, deleting id)).1 ≡ ok exam
    → all (makes_other id) steps ≡ true
    → let later = (perform_all (perform exams (request, deleting id)).0 steps).0 in
      require_exam session (find (has_id id) later) ≡ throw not_found
perform_all-deleted exams id request exam steps session done others =
    find-IsGone (perform_all (perform exams (request, deleting id)).0 steps).0 id session (
      perform_all-IsGone (perform exams (request, deleting id)).0 id steps others
        (deleting-IsGone exams id request exam done))

module _ (table : ExamTable) where
  open table use {Db}

  -- A deleted exam never comes back from the database: after a deletion that succeeded and any
  -- creations, updates and deletions since, all in production on a database that answers and with
  -- valid dates, and none of which creates an exam under the same identifier, no session gets hold of
  -- the exam, whatever its role.
  pub serve_all-deleted :
      (c : Connection Db) (memory : List Exam) (id : String) (request : Request) (exam : Exam)
      (steps : List (Request × Operation)) (session : AuthSession)
      → all is_live ((request, deleting id) ∷ steps) ≡ true
      → (serve table (c, memory) (request, deleting id)).1 ≡ ok exam
      → all (makes_other id) steps ≡ true
      → let later = (serve_all table (c, memory) ((request, deleting id) ∷ steps)).0.0.db in
        require_exam session (table.find_unique later id) ≡ throw not_found
  serve_all-deleted c memory id request exam steps session live done others =
      let step : Request × Operation = (request, deleting id) in
      let one = serve_all-perform_all table c memory (step ∷ []) (ground (arith, live)) in
      let run = serve_all-perform_all table c memory (step ∷ steps) live in
      let answer : (perform (table.exams c.db) step).1 ≡ ok exam =
        ap (λ l. elim l [ [] ↦ ok exam | r ∷ rest ↦ r ]) (sym one.1.0) ∙ done in
      let later = (serve_all table (c, memory) (step ∷ steps)).0.0.db in
      subst (λ f. require_exam session f ≡ throw not_found)
        (sym (table.find_unique_lem later id ∙ ap (find (has_id id)) run.1.1))
        (perform_all-deleted (table.exams c.db) id request exam steps session answer others)
