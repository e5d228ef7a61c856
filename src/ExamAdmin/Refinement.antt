-- ===== src/ExamAdmin/Refinement.antt =====
-- apps/api/src/services/platform-store.exam-admin.ts, and `createExam`, `updateExam` and `deleteExam`
-- of apps/api/src/services/platform-store.service.ts: a specification of the administration of exams,
-- a list of exams that the operations change, and the database keeps to it.
use big_project.Common.{
  String, ◌≡◌, refl, sym, ap, subst, ◌∙◌, inl, inr, Bool, true, false, not, ◌&&◌, List, [], ◌∷◌,
  arith, if◌then◌else◌, Bool-cases, find, all,
}
use big_project.Common.Result.{Result, ok, throw, forbidden, not_found, Result-cases}
use big_project.Shared.Exams.{Exam, CreateExamInput, UpdateExamInput}
use big_project.Database.{Connection, returns, raises}
use big_project.Database.Fallback.{try_database_in_production}
use big_project.ExamAdmin.Access.{require_exam_throws, require_exam_reachable}
use big_project.ExamAdmin.Table.{has_id, ExamTable}
use big_project.ExamAdmin.{
  Request, can_manage, assert_session_can_manage_exams, has_dates, sets_dates, new_exam,
  apply_input, spread_input, mark_deleted, create_in_memory, change_in_memory, create_in_database,
  change_in_database, create_exam, change_exam, update_exam, delete_exam, require_exam,
}

pub data Operation : Type 0 where
  creating : CreateExamInput → Operation
  updating : String → UpdateExamInput → Operation
  deleting : String → Operation

-- An operation that throws changes nothing.
abbrev pub keep : List Exam → Result (List Exam × Exam) → List Exam × Result Exam
keep exams (throw e) = (exams, throw e)
keep exams (ok done) = (done.0, ok done.1)

abbrev pub perform_allowed : Request → List Exam → Operation → Result (List Exam × Exam)
perform_allowed request exams (creating input) = create_in_memory request exams input
perform_allowed request exams (updating id input) =
    change_in_memory request exams id (apply_input input)
perform_allowed request exams (deleting id) = change_in_memory request exams id mark_deleted

-- The specification.
unfoldable pub perform : List Exam → Request × Operation → List Exam × Result Exam
perform exams step =
    if can_manage step.0.session.user.role
    then keep exams (perform_allowed step.0 exams step.1)
    else (exams, throw forbidden)

abbrev pub perform_all : List Exam → List (Request × Operation) → List Exam × List (Result Exam)
perform_all exams [] = (exams, [])
perform_all exams (step ∷ steps) =
    let rest = perform_all (perform exams step).0 steps in (rest.0, (perform exams step).1 ∷ rest.1)

-- `this.exams = [...result.exams]; return result.exam;`
abbrev pub store_exams {ℓ} :
    {C : Type ℓ} → List Exam → C × Result (List Exam × Exam) → (C × List Exam) × Result Exam
store_exams exams run = ((run.0, (keep exams run.1).0), (keep exams run.1).1)

abbrev pub input_has_dates : Operation → Bool
input_has_dates (creating input) = has_dates input
input_has_dates (updating id input) = sets_dates input
input_has_dates (deleting id) = true

-- The service is in production on its database, which does not break, and the dates are valid.
abbrev pub is_live : Request × Operation → Bool
is_live step =
    ((step.0.env.production && not step.0.env.disable_database) && step.0.env.has_database_url)
    && ((not step.0.read_breaks && not step.0.write_breaks) && input_has_dates step.1)

module _ (table : ExamTable) where
  open table use {Db}

  unfoldable pub serve :
      Connection Db × List Exam → Request × Operation → (Connection Db × List Exam) × Result Exam
  serve state (request, creating input) =
      store_exams state.1 (create_exam table request state.0 state.1 input)
  serve state (request, updating id input) =
      store_exams state.1 (update_exam table request state.0 state.1 id input)
  serve state (request, deleting id) =
      store_exams state.1 (delete_exam table request state.0 state.1 id)

  abbrev pub serve_all :
      Connection Db × List Exam
      → List (Request × Operation)
      → (Connection Db × List Exam) × List (Result Exam)
  serve_all state [] = (state, [])
  serve_all state (step ∷ steps) =
      let rest = serve_all (serve state step).0 steps in (rest.0, (serve state step).1 ∷ rest.1)

  refused_in_database :
      (request : Request) (change : Exam → Exam) (db : Db) (id : String)
      → request.read_breaks ≡ false
      → require_exam request.session (table.find_unique db id) ≡ throw not_found
      → change_in_database table request true id change db ≡ (db, raises not_found)
  unfolding change_in_database
  refused_in_database request change db id reads refused = rw (reads, refused) refl

  changed_in_database :
      (request : Request) (change : Exam → Exam) (db : Db) (id : String) (exam : Exam)
      → request.read_breaks ≡ false
      → request.write_breaks ≡ false
      → require_exam request.session (table.find_unique db id) ≡ ok exam
      → change_in_database table request true id change db
        ≡ (table.update db id change, returns (change exam))
  unfolding change_in_database
  changed_in_database request change db id exam reads writes found = rw (reads, found, writes) refl

  -- A change on the database is the change on the list of its rows.
  change_refines :
      (request : Request) (change in_memory : Exam → Exam) (c : Connection Db) (memory : List Exam)
      (id : String)
      → is_live (request, deleting id) ≡ true
      → can_manage request.session.user.role ≡ true
      → let run =
          store_exams memory (change_exam table request true change in_memory c memory id) in
        let spec =
          keep (table.exams c.db) (change_in_memory request (table.exams c.db) id change) in
        (run.0.1 ≡ memory) × ((run.1 ≡ spec.1) × (table.exams run.0.0.db ≡ spec.0))
  unfolding change_exam assert_session_can_manage_exams change_in_memory
  change_refines request change in_memory c memory id live can =
      let operation = change_in_database table request true id change in
      let run =
        try_database_in_production request.env c operation (ground (arith, live))
          (ground (arith, live)) (ground (arith, live)) in
      let reads : request.read_breaks ≡ false = ground (arith, live) in
      let writes : request.write_breaks ≡ false = ground (arith, live) in
      let found = table.find_unique_lem c.db id in
      elim (Result-cases (require_exam request.session (table.find_unique c.db id))) [
        | inl thrown ↦
            let what =
              require_exam_throws request.session (table.find_unique c.db id) thrown.0 thrown.1 in
            let refused = thrown.1 ∙ ap throw what in
            let op = refused_in_database request change c.db id reads refused in
            let memory : require_exam request.session (find (has_id id) (table.exams c.db))
                ≡ throw not_found =
              subst (λ f. require_exam request.session f ≡ throw not_found) found refused in
            rw (change_exam, can, run, op, memory) (refl, (refl, refl))
        | inr done ↦
            let exam = done.0 in
            let op = changed_in_database request change c.db id exam reads writes done.1 in
            let memory : require_exam request.session (find (has_id id) (table.exams c.db))
                ≡ ok exam =
              subst (λ f. require_exam request.session f ≡ ok exam) found done.1 in
            let there =
              (require_exam_reachable request.session (table.find_unique c.db id) exam done.1).0 in
            rw (change_exam, can, run, op, memory)
              (refl, (refl, table.exams-update c.db id change exam there))
      ]

  create_refines :
      (request : Request) (c : Connection Db) (memory : List Exam) (input : CreateExamInput)
      → is_live (request, creating input) ≡ true
      → can_manage request.session.user.role ≡ true
      → let run = store_exams memory (create_exam table request c memory input) in
        (run.0.1 ≡ memory)
        × ((run.1 ≡ ok (new_exam request input))
            × (table.exams run.0.0.db ≡ new_exam request input ∷ table.exams c.db))
  unfolding create_exam assert_session_can_manage_exams create_in_database
  create_refines request c memory input live can =
      let run =
        try_database_in_production request.env c (create_in_database table request input)
          (ground (arith, live)) (ground (arith, live)) (ground (arith, live)) in
      let writes : request.write_breaks ≡ false = ground (arith, live) in
      let dates : has_dates input ≡ true = ground (arith, live) in
      let op : create_in_database table request input c.db
          ≡ (table.create c.db (new_exam request input), returns (new_exam request input)) =
        rw (create_in_database, writes, dates) refl in
      rw (create_exam, can, run, op)
        (refl, (refl, table.exams-create c.db (new_exam request input)))

  -- One call of the service, in production: the memory is not touched, the answer is the
  -- specification's, and so are the rows of the database.
  serve_refines :
      (c : Connection Db) (memory : List Exam) (step : Request × Operation)
      → is_live step ≡ true
      → let run = serve (c, memory) step in
        let spec = perform (table.exams c.db) step in
        (run.0.1 ≡ memory) × ((run.1 ≡ spec.1) × (table.exams run.0.0.db ≡ spec.0))
  unfolding serve perform create_exam update_exam delete_exam change_exam
      assert_session_can_manage_exams
  serve_refines c memory (request, creating input) live =
      elim (Bool-cases (can_manage request.session.user.role)) [
        | inl can ↦
            let run = create_refines request c memory input live can in rw (perform, can) run
        | inr cannot ↦ rw (serve, perform, create_exam, cannot) (refl, (refl, refl))
      ]
  serve_refines c memory (request, updating id input) live =
      elim (Bool-cases (can_manage request.session.user.role)) [
        | inl can ↦
            let dates : sets_dates input ≡ true = ground (arith, live) in
            let run =
              change_refines request (apply_input input) (spread_input input) c memory id
                (ground (arith, live)) can in
            rw (perform, update_exam, dates, can) run
        | inr cannot ↦ rw (serve, perform, update_exam, change_exam, cannot) (refl, (refl, refl))
      ]
  serve_refines c memory (request, deleting id) live =
      elim (Bool-cases (can_manage request.session.user.role)) [
        | inl can ↦
            let run = change_refines request mark_deleted mark_deleted c memory id live can in
            rw (perform, can) run
        | inr cannot ↦ rw (serve, perform, delete_exam, change_exam, cannot) (refl, (refl, refl))
      ]

  -- Refinement: in production, with a database that answers, any run of creations, updates and
  -- deletions gives the answers of the specification and leaves the database with the
  -- specification's exams, while the list in the memory stays as it is.
  pub serve_all-perform_all :
      (c : Connection Db) (memory : List Exam) (steps : List (Request × Operation))
      → all is_live steps ≡ true
      → let run = serve_all (c, memory) steps in
        let spec = perform_all (table.exams c.db) steps in
        (run.0.1 ≡ memory) × ((run.1 ≡ spec.1) × (table.exams run.0.0.db ≡ spec.0))
  serve_all-perform_all c memory [] live = (refl, (refl, refl))
  serve_all-perform_all c memory (step ∷ steps) live =
      let one = serve_refines c memory step (ground (arith, live)) in
      let state = (serve (c, memory) step).0 in
      let rest = serve_all-perform_all state.0 memory steps (ground (arith, live)) in
      let run : (serve_all state steps ≡ serve_all (state.0, memory) steps) =
        ap (λ m. serve_all (state.0, m) steps) one.0 in
      let spec : perform_all (perform (table.exams c.db) step).0 steps
          ≡ perform_all (table.exams state.0.db) steps =
        ap (λ l. perform_all l steps) (sym one.1.1) in
      (
        ap (λ r. r.0.1) run ∙ rest.0,
        (
          ap (λ x. x ∷ (serve_all state steps).1) one.1.0
              ∙ ap (λ l. (perform (table.exams c.db) step).1 ∷ l)
                  (ap (λ r. r.1) run ∙ rest.1.0 ∙ ap (λ r. r.1) (sym spec)),
          ap (λ r. table.exams r.0.0.db) run ∙ rest.1.1 ∙ ap (λ r. r.0) (sym spec),
        ),
      )
