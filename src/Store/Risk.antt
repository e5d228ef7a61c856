-- ===== src/Store/Risk.antt =====
-- apps/api/src/services/platform-store.helpers.ts: the risk score of a candidate, and which checks of
-- the environment a candidate must pass.
pub mod Levels
use big_project.Common.{
  ℕ, zero, suc, ◌+◌, ◌-◌, ◌*◌, ◌/◌, ◌%◌, ◌≤◌, ◌<◌, min, max, String, ◌≡◌, refl, sym, ap, subst, ◌∙◌,
  ◌≢◌, ◌↔◌, ◌⊎◌, inl, inr, Bool, true, false, not, ◌&&◌, ◌||◌, Option, none, some, List, [], ◌∷◌,
  ◌++◌, map, arith, eq_iff, eq_refl, ◌=ₛ◌, ltb, leb, ◌==◌, if◌then◌else◌, ltb→lt, lt→ltb, le→leb,
  Bool-cases, Option-cases, length, find, filter, any, all, head?, length-append, length-filter-le,
  find-passes, All, All-append, All-filter, filter-All, All-sort_descending, sort_descending, take,
  is_empty, before, includes_char,
}
use big_project.Shared.Proctoring.{
  ProctorEventType, tab_hidden, tab_visible, window_blur, window_focus, copy, paste,
  fullscreen_exit, fullscreen_enter, primary_camera_connected, primary_camera_disconnected,
  primary_camera_permission_denied, mobile_camera_connected, mobile_camera_disconnected,
  mobile_camera_permission_denied, mobile_page_hidden, mobile_page_visible, mobile_page_left,
  mobile_network_offline, mobile_network_online, mobile_heartbeat_missed, ProctorDeviceRole,
  primary_pc, mobile_aux, ProctorDeviceStatus, waiting, connected, disconnected, permission_denied,
  ProctorRiskLevel, safe, warning, danger, ProctorActionType, warning_message, pause_exam,
  resume_exam, terminate_exam, memo, ProctorEvent, ProctorDevice, ProctorAction,
  CreateProctorEventInput, UpsertProctorDeviceInput, CreateProctorActionInput,
}
use big_project.Shared.Checks.{
  EnvironmentCheckStatus, passed_check, warning_check, failed_check, EnvironmentCheckItemId,
  browser, network, camera, microphone, screen, EnvironmentCheckResult,
}

unfoldable pub event_score : ProctorEventType → ℕ
event_score tab_hidden = 5
event_score tab_visible = 1
event_score window_blur = 4
event_score window_focus = 1
event_score copy = 6
event_score paste = 8
event_score fullscreen_exit = 10
event_score fullscreen_enter = 1
event_score primary_camera_connected = 1
event_score primary_camera_disconnected = 15
event_score primary_camera_permission_denied = 20
event_score mobile_camera_connected = 1
event_score mobile_camera_disconnected = 12
event_score mobile_camera_permission_denied = 18
event_score mobile_page_hidden = 8
event_score mobile_page_visible = 1
event_score mobile_page_left = 15
event_score mobile_network_offline = 12
event_score mobile_network_online = 1
event_score mobile_heartbeat_missed = 12

-- `types.reduce(...)` from a score on.
abbrev pub add_scores : ℕ → List ProctorEventType → ℕ
add_scores score [] = score
add_scores score (type ∷ types) = add_scores (score + event_score type) types

unfoldable pub calculate_risk_score : List ProctorEventType → ℕ
calculate_risk_score types = add_scores 0 types

unfoldable pub calculate_risk_level : ℕ → ProctorRiskLevel
calculate_risk_level score = if leb 30 score then danger else if leb 12 score then warning else safe

-- An entry of the request's body: `none` for a field that is missing or of no known value.
pub record RawResult : Type 0 where
  pub id : Option EnvironmentCheckItemId
  pub status : Option EnvironmentCheckStatus
  pub detail : Option String

abbrev pub or_failed : Option EnvironmentCheckStatus → EnvironmentCheckStatus
or_failed none = failed_check
or_failed (some status) = status

abbrev pub normalize_result :
    Option EnvironmentCheckItemId → RawResult → List EnvironmentCheckResult
normalize_result none raw = []
normalize_result (some id) raw =
    record { id = id; status = or_failed raw.status; detail = raw.detail } ∷ []

-- An entry that is no object is `none`.
unfoldable pub normalize_environment_results : List (Option RawResult) → List EnvironmentCheckResult
normalize_environment_results [] = []
normalize_environment_results (none ∷ results) = normalize_environment_results results
normalize_environment_results (some raw ∷ results) =
    normalize_result raw.id raw ++ normalize_environment_results results

abbrev pub item_index : EnvironmentCheckItemId → ℕ
item_index browser = 0
item_index network = 1
item_index camera = 2
item_index microphone = 3
item_index screen = 4

abbrev pub is_item : EnvironmentCheckItemId → EnvironmentCheckResult → Bool
is_item id result = item_index result.id == item_index id

abbrev pub is_acceptable : EnvironmentCheckStatus → Bool
is_acceptable passed_check = true
is_acceptable warning_check = true
is_acceptable failed_check = false

abbrev pub found_acceptable : Option EnvironmentCheckResult → Bool
found_acceptable none = false
found_acceptable (some result) = is_acceptable result.status

abbrev pub required_ids : List EnvironmentCheckItemId
required_ids = browser ∷ network ∷ camera ∷ microphone ∷ screen ∷ []

unfoldable pub did_pass_required_environment_checks : List EnvironmentCheckResult → Bool
did_pass_required_environment_checks results =
    all (λ id. found_acceptable (find (is_item id) results)) required_ids
