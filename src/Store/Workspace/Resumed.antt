-- ===== src/Store/Workspace/Resumed.antt =====
-- apps/api/src/services/platform-store.candidate-workspace.ts: what it means that the actions of the
-- proctors let a candidate go on.
use big_project.Common.{
  ℕ, ◌≤◌, Memᴰ, filter-Mem, sort-head, head-sort_Mem, head-sort_max, eq_iff, filter, some, String,
  ◌≡◌, refl, subst, ◌⊎◌, inl, inr, true, List, arith,
}
use big_project.Common.Result.{ok}
use big_project.Shared.Proctoring.{
  ProctorAction, ProctorActionType, warning_message, pause_exam, resume_exam, terminate_exam, memo,
}
use big_project.Shared.Invites.{CandidateInvite}
use big_project.Store.Workspace.{
  is_blocking, concerns, type_allows_exam, latest_memory_blocking_action,
  assert_proctor_action_allows_exam,
}

-- Each action by which a proctor has paused or terminated the exam of the candidate is followed by a
-- RESUME, or has one of the same instant.
abbrev pub IsResumed : String → List ProctorAction → Type 0
IsResumed candidate_id actions =
    (action : ProctorAction)
    → Memᴰ action actions
    → action.candidate_id ≡ candidate_id
    → (action.type ≡ pause_exam) ⊎ (action.type ≡ terminate_exam)
    → (resume : ProctorAction) × Memᴰ resume actions
      × (resume.candidate_id ≡ candidate_id)
      × (resume.type ≡ resume_exam)
      × (action.created_at ≤ resume.created_at)

stop-is_blocking :
    (type : ProctorActionType)
    → (type ≡ pause_exam) ⊎ (type ≡ terminate_exam)
    → is_blocking type ≡ true
stop-is_blocking type (inl h) = rw (h) refl
stop-is_blocking type (inr h) = rw (h) refl

allowed_blocking :
    (type : ProctorActionType)
    → is_blocking type ≡ true
    → type_allows_exam type ≡ ok tt
    → type ≡ resume_exam
allowed_blocking warning_message blocks allows = absurd (ground (arith, blocks))
allowed_blocking pause_exam blocks allows = absurd (ground (arith, allows))
allowed_blocking resume_exam blocks allows = refl
allowed_blocking terminate_exam blocks allows = absurd (ground (arith, allows))
allowed_blocking memo blocks allows = absurd (ground (arith, blocks))

pub allows-IsResumed :
    (invite : CandidateInvite) (actions : List ProctorAction)
    → assert_proctor_action_allows_exam (latest_memory_blocking_action invite actions) ≡ ok tt
    → IsResumed invite.candidate.id actions
unfolding assert_proctor_action_allows_exam latest_memory_blocking_action
allows-IsResumed invite actions h action here of stops =
    let key : ProctorAction → ℕ = λ a. a.created_at in
    let kept = filter (concerns invite) actions in
    let same = (eq_iff action.candidate_id invite.candidate.id).1 of in
    let blocks = stop-is_blocking action.type stops in
    let passes : concerns invite action ≡ true = rw (same, blocks) refl in
    let among = (filter-Mem (concerns invite) action actions).1 (here, passes) in
    let first = sort-head key kept action among in
    let last = first.0 in
    let found =
      (filter-Mem (concerns invite) last actions).0 (head-sort_Mem key kept last first.1) in
    let latest : latest_memory_blocking_action invite actions ≡ some last = first.1 in
    let allows : type_allows_exam last.type ≡ ok tt =
      subst (λ l. assert_proctor_action_allows_exam l ≡ ok tt) latest h in
    (
      last,
      found.0,
      (eq_iff last.candidate_id invite.candidate.id).0 (ground (arith, found.1)),
      allowed_blocking last.type (ground (arith, found.1)) allows,
      head-sort_max key kept last action first.1 among,
    )
