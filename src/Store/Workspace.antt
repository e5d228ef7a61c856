-- ===== src/Store/Workspace.antt =====
-- apps/api/src/services/platform-store.candidate-workspace.ts, `withRemainingSeconds` of
-- platform-store.execution-mappers.ts, and `assertCandidateCanUseWorkspace` of
-- platform-store.state.ts: the session of a candidate, and what may keep it from the exam.
pub mod Sessions
pub mod Actions
pub mod Gate
pub mod Resumed
use big_project.Common.{
  ℕ, zero, suc, ◌+◌, ◌-◌, ◌*◌, ◌/◌, ◌%◌, ◌≤◌, ◌<◌, min, max, String, ◌≡◌, refl, sym, ap, subst, ◌∙◌,
  ◌≢◌, ◌↔◌, ◌⊎◌, inl, inr, Bool, true, false, not, ◌&&◌, ◌||◌, Option, none, some, List, [], ◌∷◌,
  ◌++◌, map, arith, eq_iff, eq_refl, ◌=ₛ◌, ltb, leb, ◌==◌, if◌then◌else◌, optional, ltb→lt, lt→ltb,
  le→leb, Bool-cases, Option-cases, length, find, filter, any, all, head?, length-append,
  length-filter-le, find-passes, All, All-append, All-filter, filter-All, All-sort_descending,
  sort_descending, take, is_empty, before, includes_char,
}
use big_project.Common.Result.{
  Result, ok, throw, Exception, bad_request, unauthorized, forbidden, not_found, conflict,
  too_many_requests, service_unavailable, ◌>>=◌, ◌>>◌, throw_if, or_throw, Result-cases,
}
use big_project.Shared.Exams.{
  Exam, ExamStatus, draft, scheduled, active, ended, deleted, CandidateStatus, invited, ready,
  in_progress, completed,
}
use big_project.Shared.Proctoring.{
  ProctorEventType, tab_hidden, tab_visible, window_blur, window_focus, copy, paste,
  fullscreen_exit, fullscreen_enter, primary_camera_connected, primary_camera_disconnected,
  primary_camera_permission_denied, mobile_camera_connected, mobile_camera_disconnected,
  mobile_camera_permission_denied, mobile_page_hidden, mobile_page_visible, mobile_page_left,
  mobile_network_offline, mobile_network_online, mobile_heartbeat_missed, ProctorDeviceRole,
  primary_pc, mobile_aux, ProctorDeviceStatus, waiting, connected, disconnected, permission_denied,
  ProctorRiskLevel, safe, warning, danger, ProctorActionType, warning_message, pause_exam,
  resume_exam, terminate_exam, memo, ProctorEvent, ProctorDevice, ProctorAction,
  CreateProctorEventInput, UpsertProctorDeviceInput, CreateProctorActionInput,
}
use big_project.Shared.Checks.{
  IdentityVerification, IdentityVerificationStatus, pending, verified, failed, EnvironmentCheck,
}
use big_project.Shared.Submissions.{ExamSession}
use big_project.Shared.Invites.{CandidateInvite, CandidateWorkspace}
use big_project.Database.{or_in_memory}
use big_project.Store.{Memory, Source}
use big_project.Store.Devices.{is_mobile_aux, is_connected}

abbrev pub with_remaining_seconds : ℕ → ExamSession → ExamSession
with_remaining_seconds now session = record session {
  server_now = now;
  remaining_seconds = (session.ends_at - now) / 1000;
}

abbrev pub is_session_of : CandidateInvite → ExamSession → Bool
is_session_of invite session =
    session.candidate_id =ₛ invite.candidate.id && session.exam_id =ₛ invite.exam.id

abbrev pub new_session : Source → CandidateInvite → ExamSession
new_session source invite = record {
  id = source.new_id;
  candidate_id = invite.candidate.id;
  exam_id = invite.exam.id;
  started_at = source.now;
  ends_at = source.now + invite.exam.duration_minutes * 60 * 1000;
  completed_at = none;
  server_now = source.now;
  remaining_seconds = invite.exam.duration_minutes * 60;
}

unfoldable pub ensure_memory_exam_session :
    Source → CandidateInvite → List ExamSession → ExamSession × List ExamSession
ensure_memory_exam_session source invite sessions = elim (find (is_session_of invite) sessions) [
  | some existing ↦ (with_remaining_seconds source.now existing, sessions)
  | none ↦ (new_session source invite, new_session source invite ∷ sessions)
]

abbrev pub is_blocking : ProctorActionType → Bool
is_blocking warning_message = false
is_blocking pause_exam = true
is_blocking resume_exam = true
is_blocking terminate_exam = true
is_blocking memo = false

abbrev pub concerns : CandidateInvite → ProctorAction → Bool
concerns invite action = action.candidate_id =ₛ invite.candidate.id && is_blocking action.type

unfoldable pub latest_memory_blocking_action :
    CandidateInvite → List ProctorAction → Option ProctorAction
latest_memory_blocking_action invite actions =
    head? (sort_descending (λ action. action.created_at) (filter (concerns invite) actions))

abbrev pub type_allows_exam : ProctorActionType → Result (Unit {0})
type_allows_exam terminate_exam = throw forbidden
type_allows_exam pause_exam = throw forbidden
type_allows_exam warning_message = ok tt
type_allows_exam resume_exam = ok tt
type_allows_exam memo = ok tt

unfoldable pub assert_proctor_action_allows_exam : Option ProctorAction → Result (Unit {0})
assert_proctor_action_allows_exam none = ok tt
assert_proctor_action_allows_exam (some action) = type_allows_exam action.type

-- The second half of `assertExamSessionOpenInStore`: the sessions, one of them the invitation's.
unfoldable pub open_in_memory :
    Source → CandidateInvite → List ProctorAction → List ExamSession → Result (List ExamSession)
unfolding ensure_memory_exam_session latest_memory_blocking_action assert_proctor_action_allows_exam
open_in_memory source invite actions sessions =
    let ensured = ensure_memory_exam_session source invite sessions in
    assert_proctor_action_allows_exam (latest_memory_blocking_action invite actions)
    >> (throw_if (leb ensured.0.remaining_seconds 0) forbidden >> ok ensured.1)

unfoldable pub assert_exam_session_open :
    Result (Option (Unit {0}))
    → Source
    → CandidateInvite
    → List ProctorAction
    → List ExamSession
    → Result (List ExamSession)
unfolding open_in_memory
assert_exam_session_open db source invite actions sessions =
    or_in_memory db (λ done. sessions) (open_in_memory source invite actions sessions)

unfoldable pub workspace_in_memory :
    Source → CandidateInvite → Memory → CandidateWorkspace × List ExamSession
unfolding ensure_memory_exam_session
workspace_in_memory source invite memory =
    let ensured = ensure_memory_exam_session source invite memory.exam_sessions in
    (
      record {
        invite = invite;
        submissions =
            sort_descending (λ s. s.submitted_at)
              (filter (λ s. s.candidate_id =ₛ invite.candidate.id) memory.submissions);
        executions = take 20 (
            sort_descending (λ e. e.created_at)
              (filter (λ e. e.candidate_id =ₛ invite.candidate.id) memory.code_executions));
        proctor_events = filter (λ e. e.candidate_id =ₛ invite.candidate.id) memory.proctor_events;
        proctor_actions =
            filter (λ a. a.candidate_id =ₛ invite.candidate.id) memory.proctor_actions;
        exam_session = ensured.0;
        drafts = filter (λ d. d.candidate_id =ₛ invite.candidate.id) memory.code_drafts;
      },
      ensured.1,
    )

unfoldable pub get_candidate_workspace :
    Result (Option CandidateWorkspace)
    → Source
    → CandidateInvite
    → Memory
    → Result (CandidateWorkspace × List ExamSession)
unfolding workspace_in_memory
get_candidate_workspace db source invite memory =
    or_in_memory db (λ workspace. (workspace, memory.exam_sessions))
      (ok (workspace_in_memory source invite memory))

abbrev pub is_over : ExamStatus → Bool
is_over draft = false
is_over scheduled = false
is_over active = false
is_over ended = true
is_over deleted = true

abbrev pub is_invited : CandidateStatus → Bool
is_invited invited = true
is_invited ready = false
is_invited in_progress = false
is_invited completed = false

abbrev pub is_verified : IdentityVerificationStatus → Bool
is_verified pending = false
is_verified verified = true
is_verified failed = false

-- `Number.isFinite(at) && now >= at`, and `... && now < at`.
abbrev pub has_come : Option ℕ → ℕ → Bool
has_come none now = false
has_come (some at) now = leb at now

abbrev pub is_ahead : Option ℕ → ℕ → Bool
is_ahead none now = false
is_ahead (some at) now = ltb now at

abbrev pub exam_available : Exam → ℕ → Bool
exam_available exam now =
    not (is_over exam.status) && (has_come exam.start_at now && is_ahead exam.end_at now)

abbrev pub mobile_aux_connected : CandidateInvite → Bool
mobile_aux_connected invite =
    any (λ device. is_mobile_aux device.role && is_connected device.status) invite.proctor_devices

abbrev pub environment_passed : CandidateInvite → Bool
environment_passed invite = optional false (λ check. check.required_passed) invite.environment_check

abbrev pub identity_verified : CandidateInvite → Bool
identity_verified invite =
    optional false (λ verification. is_verified verification.status) invite.identity_verification

unfoldable pub assert_candidate_can_use_workspace : ℕ → CandidateInvite → Result (Unit {0})
assert_candidate_can_use_workspace now invite =
    throw_if (not (exam_available invite.exam now)) forbidden
    >> (throw_if (is_invited invite.candidate.status) forbidden
        >> (throw_if (not (environment_passed invite)) forbidden
            >> (throw_if
                  (invite.exam.identity_verification_enabled && not (identity_verified invite))
                  forbidden
                >> throw_if
                    (invite.exam.mobile_camera_required && not (mobile_aux_connected invite))
                    forbidden)))
