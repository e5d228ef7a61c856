-- ===== src/Store/Links.antt =====
-- apps/api/src/services/platform-store.exam-content.ts and platform-store.exam-admin.ts: what the
-- memory holds stays linked. A step is one change by an administrator.
use big_project.Common.{
  String, ◌≡◌, refl, sym, ap, subst, ◌∙◌, inl, inr, Bool, true, none, some, List, [], ◌∷◌, ◌++◌,
  arith, eq_iff, Bool-cases, Option-cases, find, any, all, find-passes,
}
use big_project.Common.Result.{ok, Result-cases}
use big_project.Shared.{AuthSession}
use big_project.Shared.Exams.{
  Exam, Question, TestCase, Candidate, CreateQuestionInput, CreateTestCaseInput,
  CreateCandidateInput, UpdateExamInput,
}
use big_project.ExamAdmin.Table.{has_id, replace}
use big_project.ExamAdmin.{
  assert_session_can_manage_exams, Request, require_exam, can_manage, change_in_memory,
  spread_input, is_none, mark_deleted,
}
use big_project.ExamAdmin.Access.{require_exam_reachable}
use big_project.ExamAdmin.Refinement.{Operation, creating, updating, deleting, keep}
use big_project.ExamAdmin.Agreement.{perform_in_memory}
use big_project.Store.{Memory, Source, question_has_id}
use big_project.Store.Content.{
  add_question, add_test_case, add_candidate, new_question, new_test_case, new_candidate,
  assert_memory_exam_exists,
}

-- An update whose body has no identifier keeps the exam's.
abbrev pub keeps_identifier : Operation → Bool
keeps_identifier (creating input) = true
keeps_identifier (updating id input) = is_none input.id
keeps_identifier (deleting id) = true

spread-keeps_identifier :
    (input : UpdateExamInput) (exam : Exam)
    → is_none input.id ≡ true
    → (spread_input input exam).id ≡ exam.id
spread-keeps_identifier input exam h = elim (Option-cases input.id) [
  | inl missing ↦ rw (missing) refl
  | inr given ↦ absurd (ground (arith, h, given.1))
]

pub data Step : Memory → Memory → Type 0 where
  change_exams :
      (m : Memory) (step : Request × Operation)
      → keeps_identifier step.1 ≡ true
      → Step m (record m { exams = (perform_in_memory m.exams step).0 })
  add_a_question :
      (m : Memory) (source : Source) (session : AuthSession) (id : String)
      (input : CreateQuestionInput) (questions : List Question) (question : Question)
      → add_question (ok none) source m session id input ≡ ok (questions, question)
      → Step m (record m { questions = questions })
  add_a_test_case :
      (m : Memory) (source : Source) (session : AuthSession) (id : String)
      (input : CreateTestCaseInput) (test_cases : List TestCase) (test_case : TestCase)
      → add_test_case (ok none) source m session id input ≡ ok (test_cases, test_case)
      → Step m (record m { test_cases = test_cases })
  add_a_candidate :
      (m : Memory) (source : Source) (session : AuthSession) (id : String)
      (input : CreateCandidateInput) (candidates : List Candidate) (candidate : Candidate)
      → add_candidate (ok none) source m session id input ≡ ok (candidates, candidate)
      → Step m (record m { candidates = candidates })

pub data Steps : Memory → Memory → Type 0 where
  stay : (m : Memory) → Steps m m
  follow : (m n o : Memory) → Step m n → Steps n o → Steps m o

abbrev pub has_exam : List Exam → String → Bool
has_exam exams id = any (has_id id) exams

-- Every question and every candidate has its exam, and every test case its question.
abbrev pub IsLinked : Memory → Type 0
IsLinked m =
    (all (λ q. has_exam m.exams q.exam_id) m.questions ≡ true)
    × ((all (λ t. any (question_has_id t.question_id) m.questions) m.test_cases ≡ true)
        × (all (λ c. has_exam m.exams c.exam_id) m.candidates ≡ true))

all-imp {ℓ} :
    {A : Type ℓ} (p q : A → Bool) (xs : List A)
    → ((x : A) → p x ≡ true → q x ≡ true)
    → all p xs ≡ true
    → all q xs ≡ true
all-imp p q [] imp h = refl
all-imp p q (x ∷ xs) imp h = ground (arith, imp x, all-imp p q xs imp, h)

all-append_one {ℓ} :
    {A : Type ℓ} (p : A → Bool) (xs : List A) (x : A)
    → all p xs ≡ true
    → p x ≡ true
    → all p (xs ++ (x ∷ [])) ≡ true
all-append_one p [] x h hx = ground (arith, hx)
all-append_one p (y ∷ ys) x h hx = ground (arith, all-append_one p ys x)

any-append {ℓ} :
    {A : Type ℓ} (p : A → Bool) (xs ys : List A) → any p xs ≡ true → any p (xs ++ ys) ≡ true
any-append p [] ys h = absurd (ground (arith, h))
any-append p (x ∷ xs) ys h = ground (arith, any-append p xs ys, h)

any-find {ℓ} :
    {A : Type ℓ} (p : A → Bool) (xs : List A) (x : A) → find p xs ≡ some x → any p xs ≡ true
any-find p [] x h = ground (arith, h)
any-find p (y ∷ ys) x h = ground (arith, any-find p ys x, h)

has_exam-replace :
    (id other : String) (exam : Exam) (exams : List Exam)
    → has_id other exam ≡ true
    → has_exam exams id ≡ true
    → has_exam (replace other exam exams) id ≡ true
has_exam-replace id other exam [] hx h = h
has_exam-replace id other exam (x ∷ xs) hx h = ground (
  arith,
  has_exam-replace id other exam xs hx,
  h,
  eq_iff x.id other,
  eq_iff exam.id other,
  eq_iff x.id id,
  eq_iff exam.id id,
)

change-has_exam :
    (request : Request) (exams : List Exam) (other id : String) (change : Exam → Exam)
    → ((e : Exam) → (change e).id ≡ e.id)
    → has_exam exams id ≡ true
    → has_exam (keep exams (change_in_memory request exams other change)).0 id ≡ true
unfolding change_in_memory
change-has_exam request exams other id change keeps h =
    elim (Result-cases (require_exam request.session (find (has_id other) exams))) [
      | inl thrown ↦ rw (change_in_memory, thrown.1) h
      | inr made ↦
          let reached =
            require_exam_reachable request.session (find (has_id other) exams) made.0 made.1 in
          let found = find-passes (has_id other) exams made.0 reached.0 in
          let k = keeps made.0 in
          rw (change_in_memory, made.1)
            (has_exam-replace id other (change made.0) exams (rw (k) found) h)
    ]

perform-has_exam :
    (exams : List Exam) (step : Request × Operation) (id : String)
    → keeps_identifier step.1 ≡ true
    → has_exam exams id ≡ true
    → has_exam (perform_in_memory exams step).0 id ≡ true
unfolding perform_in_memory
perform-has_exam exams (request, creating input) id keeps h = ground (arith, h)
perform-has_exam exams (request, updating target input) id keeps h =
    let run =
      change-has_exam request exams target id (spread_input input)
        (λ e. spread-keeps_identifier input e keeps) h in
    ground (arith, run, h)
perform-has_exam exams (request, deleting target) id keeps h =
    ground (arith, change-has_exam request exams target id mark_deleted (λ e. refl) h, h)

found_exam :
    (m : Memory) (id : String) (session : AuthSession) (exam : Exam)
    → assert_memory_exam_exists m id session ≡ ok exam
    → has_exam m.exams id ≡ true
unfolding assert_memory_exam_exists
found_exam m id session exam h =
    any-find (has_id id) m.exams exam
      (require_exam_reachable session (find (has_id id) m.exams) exam h).0

added_question :
    (m : Memory) (source : Source) (session : AuthSession) (id : String)
    (input : CreateQuestionInput) (questions : List Question) (question : Question)
    → add_question (ok none) source m session id input ≡ ok (questions, question)
    → (questions ≡ m.questions ++ (new_question source id input ∷ []))
      × (has_exam m.exams id ≡ true)
unfolding add_question assert_session_can_manage_exams
added_question m source session id input questions question h =
    elim (Bool-cases (can_manage session.user.role)) [
      | inr isnt ↦ absurd (ground (arith, h, isnt))
      | inl is ↦ elim (Result-cases (assert_memory_exam_exists m id session)) [
        | inl thrown ↦ absurd (ground (arith, h, is, thrown.1))
        | inr exam ↦
            let run : add_question (ok none) source m session id input
                ≡ ok (
                  m.questions ++ (new_question source id input ∷ []),
                  new_question source id input,
                ) =
              rw (add_question, is, exam.1) refl in
            let same : ◌≡◌ {A = List Question × Question}
                (m.questions ++ (new_question source id input ∷ []), new_question source id input)
                (questions, question) =
              ground (arith, sym run ∙ h) in
            (sym (ap (λ r. r.0) same), found_exam m id session exam.0 exam.1)
      ]
    ]

added_candidate :
    (m : Memory) (source : Source) (session : AuthSession) (id : String)
    (input : CreateCandidateInput) (candidates : List Candidate) (candidate : Candidate)
    → add_candidate (ok none) source m session id input ≡ ok (candidates, candidate)
    → (candidates ≡ m.candidates ++ (new_candidate source id input ∷ []))
      × (has_exam m.exams id ≡ true)
unfolding add_candidate assert_session_can_manage_exams
added_candidate m source session id input candidates candidate h =
    elim (Bool-cases (can_manage session.user.role)) [
      | inr isnt ↦ absurd (ground (arith, h, isnt))
      | inl is ↦ elim (Result-cases (assert_memory_exam_exists m id session)) [
        | inl thrown ↦ absurd (ground (arith, h, is, thrown.1))
        | inr exam ↦
            let run : add_candidate (ok none) source m session id input
                ≡ ok (
                  m.candidates ++ (new_candidate source id input ∷ []),
                  new_candidate source id input,
                ) =
              rw (add_candidate, is, exam.1) refl in
            let same : ◌≡◌ {A = List Candidate × Candidate}
                (
                  m.candidates ++ (new_candidate source id input ∷ []),
                  new_candidate source id input,
                )
                (candidates, candidate) =
              ground (arith, sym run ∙ h) in
            (sym (ap (λ r. r.0) same), found_exam m id session exam.0 exam.1)
      ]
    ]

added_test_case :
    (m : Memory) (source : Source) (session : AuthSession) (id : String)
    (input : CreateTestCaseInput) (test_cases : List TestCase) (test_case : TestCase)
    → add_test_case (ok none) source m session id input ≡ ok (test_cases, test_case)
    → (test_cases ≡ m.test_cases ++ (new_test_case source id input ∷ []))
      × (any (question_has_id id) m.questions ≡ true)
unfolding add_test_case assert_session_can_manage_exams
added_test_case m source session id input test_cases test_case h =
    elim (Bool-cases (can_manage session.user.role)) [
      | inr isnt ↦ absurd (ground (arith, h, isnt))
      | inl is ↦ elim (Option-cases (find (question_has_id id) m.questions)) [
        | inl lost ↦ absurd (ground (arith, h, is, lost))
        | inr q ↦ elim (Result-cases (assert_memory_exam_exists m q.0.exam_id session)) [
          | inl thrown ↦ absurd (ground (arith, h, is, q.1, thrown.1))
          | inr exam ↦
              let run : add_test_case (ok none) source m session id input
                  ≡ ok (
                    m.test_cases ++ (new_test_case source id input ∷ []),
                    new_test_case source id input,
                  ) =
                rw (add_test_case, is, q.1, exam.1) refl in
              let same : ◌≡◌ {A = List TestCase × TestCase}
                  (
                    m.test_cases ++ (new_test_case source id input ∷ []),
                    new_test_case source id input,
                  )
                  (test_cases, test_case) =
                ground (arith, sym run ∙ h) in
              (sym (ap (λ r. r.0) same), any-find (question_has_id id) m.questions q.0 q.1)
        ]
      ]
    ]

Step-IsLinked : (m n : Memory) → Step m n → IsLinked m → IsLinked n
Step-IsLinked _ _ (change_exams m step keeps) h = (
  all-imp (λ q. has_exam m.exams q.exam_id)
      (λ q. has_exam (perform_in_memory m.exams step).0 q.exam_id) m.questions
      (λ q. perform-has_exam m.exams step q.exam_id keeps) h.0,
  (
    h.1.0,
    all-imp (λ c. has_exam m.exams c.exam_id)
        (λ c. has_exam (perform_in_memory m.exams step).0 c.exam_id) m.candidates
        (λ c. perform-has_exam m.exams step c.exam_id keeps) h.1.1,
  ),
)
Step-IsLinked _ _ (add_a_question m source session id input questions question run) h =
    let added = added_question m source session id input questions question run in
    let new = new_question source id input in
    let grown : IsLinked (record m { questions = m.questions ++ (new ∷ []) }) = (
      all-append_one (λ q. has_exam m.exams q.exam_id) m.questions new h.0 added.1,
      (
        all-imp (λ t. any (question_has_id t.question_id) m.questions)
            (λ t. any (question_has_id t.question_id) (m.questions ++ (new ∷ []))) m.test_cases
            (λ t. any-append (question_has_id t.question_id) m.questions (new ∷ [])) h.1.0,
        h.1.1,
      ),
    ) in
    subst (λ l. IsLinked (record m { questions = l })) (sym added.0) grown
Step-IsLinked _ _ (add_a_test_case m source session id input test_cases test_case run) h =
    let added = added_test_case m source session id input test_cases test_case run in
    let new = new_test_case source id input in
    let grown : IsLinked (record m { test_cases = m.test_cases ++ (new ∷ []) }) = (
      h.0,
      (
        all-append_one (λ t. any (question_has_id t.question_id) m.questions) m.test_cases new h.1.0
            added.1,
        h.1.1,
      ),
    ) in
    subst (λ l. IsLinked (record m { test_cases = l })) (sym added.0) grown
Step-IsLinked _ _ (add_a_candidate m source session id input candidates candidate run) h =
    let added = added_candidate m source session id input candidates candidate run in
    let new = new_candidate source id input in
    let grown : IsLinked (record m { candidates = m.candidates ++ (new ∷ []) }) = (
      h.0,
      (h.1.0, all-append_one (λ c. has_exam m.exams c.exam_id) m.candidates new h.1.1 added.1),
    ) in
    subst (λ l. IsLinked (record m { candidates = l })) (sym added.0) grown

-- Whatever administrators create, change, delete and add, every question and every candidate keeps
-- an exam in the memory, and every test case its question, as long as no body of an update brings
-- an identifier.
pub Steps-IsLinked : (m n : Memory) → Steps m n → IsLinked m → IsLinked n
Steps-IsLinked _ _ (stay m) h = h
Steps-IsLinked _ _ (follow m n o first rest) h = Steps-IsLinked n o rest (Step-IsLinked m n first h)
