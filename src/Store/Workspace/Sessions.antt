-- ===== src/Store/Workspace/Sessions.antt =====
-- apps/api/src/services/platform-store.candidate-workspace.ts: the time of a candidate's session.
use big_project.Common.{
  ◌-◌, ◌/◌, ◌≡◌, refl, ap, ◌∙◌, inl, inr, true, some, List, [], ◌∷◌, arith, eq_iff, eq_refl,
  Bool-cases, Option-cases, find,
}
use big_project.Shared.Submissions.{ExamSession}
use big_project.Shared.Invites.{CandidateInvite}
use big_project.Store.{Source}
use big_project.Store.Workspace.{
  is_session_of, new_session, with_remaining_seconds, ensure_memory_exam_session,
}

-- Visits of candidates, one after the other.
abbrev pub visit_all : List (Source × CandidateInvite) → List ExamSession → List ExamSession
visit_all [] sessions = sessions
visit_all (visit ∷ visits) sessions =
    visit_all visits (ensure_memory_exam_session visit.0 visit.1 sessions).1

same_owner :
    (source : Source) (invite other : CandidateInvite) (session : ExamSession)
    → is_session_of invite (new_session source other) ≡ true
    → is_session_of other session ≡ is_session_of invite session
same_owner source invite other session h =
    let candidate : other.candidate.id ≡ invite.candidate.id =
      ground (arith, h, eq_iff other.candidate.id invite.candidate.id) in
    let exam : other.exam.id ≡ invite.exam.id =
      ground (arith, h, eq_iff other.exam.id invite.exam.id) in
    rw (candidate, exam) refl

same_find :
    (source : Source) (invite other : CandidateInvite) (sessions : List ExamSession)
    → is_session_of invite (new_session source other) ≡ true
    → find (is_session_of other) sessions ≡ find (is_session_of invite) sessions
same_find source invite other [] h = refl
same_find source invite other (s ∷ ss) h =
    rw (same_owner source invite other s h, same_find source invite other ss h) refl

ensure_keeps :
    (source : Source) (invite other : CandidateInvite) (sessions : List ExamSession)
    (s : ExamSession)
    → find (is_session_of invite) sessions ≡ some s
    → find (is_session_of invite) (ensure_memory_exam_session source other sessions).1 ≡ some s
unfolding ensure_memory_exam_session
ensure_keeps source invite other sessions s h =
    elim (Option-cases (find (is_session_of other) sessions)) [
      | inr found ↦ rw (ensure_memory_exam_session, found.1) h
      | inl lost ↦ elim (Bool-cases (is_session_of invite (new_session source other))) [
        | inr isnt ↦ rw (ensure_memory_exam_session, lost, isnt) h
        | inl is ↦ absurd (ground (arith, same_find source invite other sessions is, lost, h))
      ]
    ]

visit_all-keeps :
    (visits : List (Source × CandidateInvite)) (invite : CandidateInvite)
    (sessions : List ExamSession) (s : ExamSession)
    → find (is_session_of invite) sessions ≡ some s
    → find (is_session_of invite) (visit_all visits sessions) ≡ some s
visit_all-keeps [] invite sessions s h = h
visit_all-keeps (visit ∷ visits) invite sessions s h =
    visit_all-keeps visits invite (ensure_memory_exam_session visit.0 visit.1 sessions).1 s
      (ensure_keeps visit.0 invite visit.1 sessions s h)

new_found :
    (source : Source) (invite : CandidateInvite) (sessions : List ExamSession)
    → find (is_session_of invite) (new_session source invite ∷ sessions)
      ≡ some (new_session source invite)
new_found source invite sessions =
    ground (arith, eq_refl invite.candidate.id, eq_refl invite.exam.id)

started_session :
    (first : Source) (invite : CandidateInvite) (sessions : List ExamSession)
    → let started = ensure_memory_exam_session first invite sessions in
      (s : ExamSession) × ((find (is_session_of invite) started.1 ≡ some s)
        × ((s.started_at ≡ started.0.started_at) × (s.ends_at ≡ started.0.ends_at)))
unfolding ensure_memory_exam_session
started_session first invite sessions = elim (Option-cases (find (is_session_of invite) sessions)) [
  | inr found ↦ rw (ensure_memory_exam_session, found.1) (found.0, (found.1, (refl, refl)))
  | inl lost ↦
      rw (ensure_memory_exam_session, lost)
        (new_session first invite, (new_found first invite sessions, (refl, refl)))
]

again_session :
    (later : Source) (invite : CandidateInvite) (sessions : List ExamSession) (s : ExamSession)
    → find (is_session_of invite) sessions ≡ some s
    → (ensure_memory_exam_session later invite sessions).0 ≡ with_remaining_seconds later.now s
unfolding ensure_memory_exam_session
again_session later invite sessions s h = rw (ensure_memory_exam_session, h) refl

-- The clock of a candidate starts once: whatever visits of this and other candidates follow the
-- first one, the session keeps its start and its end, and the seconds left are those to that end.
pub ensure_memory_exam_session-visit_all :
    (first later : Source) (invite : CandidateInvite) (sessions : List ExamSession)
    (visits : List (Source × CandidateInvite))
    → let started = ensure_memory_exam_session first invite sessions in
      let again = ensure_memory_exam_session later invite (visit_all visits started.1) in
      (again.0.started_at ≡ started.0.started_at)
      × ((again.0.ends_at ≡ started.0.ends_at)
          × (again.0.remaining_seconds ≡ (started.0.ends_at - later.now) / 1000))
ensure_memory_exam_session-visit_all first later invite sessions visits =
    let started = ensure_memory_exam_session first invite sessions in
    let s = started_session first invite sessions in
    let again =
      again_session later invite (visit_all visits started.1) s.0
        (visit_all-keeps visits invite started.1 s.0 s.1.0) in
    (
      ap (λ x. x.started_at) again ∙ s.1.1.0,
      (
        ap (λ x. x.ends_at) again ∙ s.1.1.1,
        ap (λ x. x.remaining_seconds) again ∙ ap (λ at. (at - later.now) / 1000) s.1.1.1,
      ),
    )
