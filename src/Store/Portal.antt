-- ===== src/Store/Portal.antt =====
-- apps/api/src/services/platform-store.candidate-portal.ts: what a candidate gets for the token of
-- the invitation.
pub mod View
use big_project.Common.{
  ℕ, zero, suc, ◌+◌, ◌-◌, ◌*◌, ◌/◌, ◌%◌, ◌≤◌, ◌<◌, min, max, String, ◌≡◌, refl, sym, ap, subst, ◌∙◌,
  ◌≢◌, ◌↔◌, ◌⊎◌, inl, inr, Bool, true, false, not, ◌&&◌, ◌||◌, Option, none, some, List, [], ◌∷◌,
  ◌++◌, map, arith, eq_iff, eq_refl, ◌=ₛ◌, ltb, leb, ◌==◌, if◌then◌else◌, ltb→lt, lt→ltb, le→leb,
  Bool-cases, Option-cases, length, find, filter, any, all, head?, length-append, length-filter-le,
  find-passes, All, All-append, All-filter, filter-All, All-sort_descending, sort_descending, take,
  is_empty, before, includes_char,
}
use big_project.Common.Result.{
  Result, ok, throw, Exception, bad_request, unauthorized, forbidden, not_found, conflict,
  too_many_requests, service_unavailable, ◌>>=◌, ◌>>◌, throw_if, or_throw, Result-cases,
}
use big_project.Shared.Exams.{Exam, Candidate, Question, ready}
use big_project.Shared.Invites.{CandidateInvite}
use big_project.Database.{or_in_memory}
use big_project.ExamAdmin.Table.{has_id}
use big_project.ExamAdmin.{is_deleted}
use big_project.Store.{Memory, has_invite_token}

abbrev pub omit_expected_answer : Question → Question
omit_expected_answer question = record question { expected_answer = none }

abbrev pub invite_of : Memory → Candidate → Exam → CandidateInvite
invite_of memory candidate exam = record {
  candidate = candidate;
  exam = exam;
  organization = memory.organization;
  questions =
      map omit_expected_answer (filter (λ question. question.exam_id =ₛ exam.id) memory.questions);
  proctor_devices = filter (λ device. device.candidate_id =ₛ candidate.id) memory.proctor_devices;
  identity_verification =
      find (λ verification. verification.candidate_id =ₛ candidate.id)
        memory.identity_verifications;
  environment_check = find (λ check. check.candidate_id =ₛ candidate.id) memory.environment_checks;
}

unfoldable pub get_candidate_invite :
    Result (Option CandidateInvite) → Memory → String → Result CandidateInvite
get_candidate_invite db memory invite_token =
    or_in_memory db (λ invite. invite)
      (or_throw (find (has_invite_token invite_token) memory.candidates) not_found >>= (λ candidate.
        or_throw (find (has_id candidate.exam_id) memory.exams) not_found >>= (λ exam.
          throw_if (is_deleted exam.status) not_found >> ok (invite_of memory candidate exam))))

abbrev pub mark_ready : String → Candidate → Candidate
mark_ready invite_token candidate =
    if has_invite_token invite_token candidate
    then record candidate { status = ready }
    else candidate

-- `db` is the run of the whole operation, `reread` that of the invitation afterwards.
unfoldable pub mark_candidate_ready :
    Result (Option CandidateInvite)
    → Result (Option CandidateInvite)
    → Memory
    → String
    → Result (List Candidate × CandidateInvite)
unfolding get_candidate_invite
mark_candidate_ready db reread memory invite_token =
    or_in_memory db (λ invite. (memory.candidates, invite))
      (or_throw (find (has_invite_token invite_token) memory.candidates) not_found >>= (λ candidate.
        let candidates = map (mark_ready invite_token) memory.candidates in
        get_candidate_invite reread (record memory { candidates = candidates }) invite_token
        >>= (λ invite. ok (candidates, invite))))
