-- ===== src/Store/CandidateAdmin.antt =====
-- apps/api/src/services/platform-store.candidate-admin.ts: a candidate is found for a session, and
-- proctors act on candidates.
use big_project.Common.{String, not, Option, none, some, List, ◌∷◌, find}
use big_project.Common.Result.{Result, ok, forbidden, not_found, ◌>>=◌, ◌>>◌, throw_if, or_throw}
use big_project.Shared.{AuthSession}
use big_project.Shared.Exams.{Exam, Candidate}
use big_project.Shared.Proctoring.{ProctorAction, CreateProctorActionInput}
use big_project.Database.{or_in_memory}
use big_project.ExamAdmin.Table.{has_id}
use big_project.ExamAdmin.{
  assert_session_can_manage_exams, can_view, is_deleted, assert_session_can_access_exam,
}
use big_project.Store.{Memory, Source, candidate_has_id}

-- `session` is optional in the source.
abbrev pub assert_optional_access : Option AuthSession → String → Result (Unit {0})
assert_optional_access none organization_id = ok tt
assert_optional_access (some session) organization_id =
    assert_session_can_access_exam session organization_id

unfoldable pub find_candidate_with_exam :
    Result (Option (Candidate × Exam))
    → Memory
    → String
    → Option AuthSession
    → Result (Candidate × Exam)
unfolding assert_session_can_access_exam
find_candidate_with_exam db memory candidate_id session =
    or_in_memory db (λ found. found)
      (or_throw (find (candidate_has_id candidate_id) memory.candidates) not_found >>= (λ candidate.
        or_throw (find (has_id candidate.exam_id) memory.exams) not_found >>= (λ exam.
          throw_if (is_deleted exam.status) not_found
          >> (assert_optional_access session exam.organization_id >> ok (candidate, exam)))))

unfoldable pub find_manageable_candidate_with_exam :
    Result (Option (Candidate × Exam)) → Memory → String → AuthSession → Result (Candidate × Exam)
unfolding assert_session_can_manage_exams find_candidate_with_exam
find_manageable_candidate_with_exam db memory candidate_id session =
    assert_session_can_manage_exams session
    >> find_candidate_with_exam db memory candidate_id (some session)

abbrev pub new_action : Source → String → String → CreateProctorActionInput → ProctorAction
new_action source candidate_id exam_id input = record {
  id = source.new_id;
  candidate_id = candidate_id;
  exam_id = exam_id;
  type = input.type;
  message = input.message;
  created_at = source.now;
}

-- `found` and `created` are what the two runs on the database end in.
unfoldable pub create_proctor_action :
    Result (Option (Candidate × Exam))
    → Result (Option ProctorAction)
    → Source
    → Memory
    → AuthSession
    → String
    → CreateProctorActionInput
    → Result (List ProctorAction × ProctorAction)
unfolding find_candidate_with_exam
create_proctor_action found created source memory session candidate_id input =
    throw_if (not (can_view session.user.role)) forbidden
    >> (find_candidate_with_exam found memory candidate_id (some session) >>= (λ with_exam.
        or_in_memory created (λ action. (memory.proctor_actions, action))
          (ok (
            new_action source candidate_id with_exam.1.id input ∷ memory.proctor_actions,
            new_action source candidate_id with_exam.1.id input,
          ))))
