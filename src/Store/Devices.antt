-- ===== src/Store/Devices.antt =====
-- apps/api/src/services/platform-store.proctor.ts: the events and the devices of a candidate.
pub mod Keys
pub mod Stale
use big_project.Common.{
  ℕ, zero, suc, ◌+◌, ◌-◌, ◌*◌, ◌/◌, ◌%◌, ◌≤◌, ◌<◌, min, max, String, ◌≡◌, refl, sym, ap, subst, ◌∙◌,
  ◌≢◌, ◌↔◌, ◌⊎◌, inl, inr, Bool, true, false, not, ◌&&◌, ◌||◌, Option, none, some, List, [], ◌∷◌,
  ◌++◌, map, arith, eq_iff, eq_refl, ◌=ₛ◌, ltb, leb, ◌==◌, if◌then◌else◌, optional, ltb→lt, lt→ltb,
  le→leb, Bool-cases, Option-cases, length, find, filter, any, all, head?, length-append,
  length-filter-le, find-passes, All, All-append, All-filter, filter-All, All-sort_descending,
  sort_descending, take, is_empty, before, includes_char,
}
use big_project.Common.Result.{
  Result, ok, throw, Exception, bad_request, unauthorized, forbidden, not_found, conflict,
  too_many_requests, service_unavailable, ◌>>=◌, ◌>>◌, throw_if, or_throw, Result-cases,
}
use big_project.Shared.Proctoring.{
  ProctorEventType, tab_hidden, tab_visible, window_blur, window_focus, copy, paste,
  fullscreen_exit, fullscreen_enter, primary_camera_connected, primary_camera_disconnected,
  primary_camera_permission_denied, mobile_camera_connected, mobile_camera_disconnected,
  mobile_camera_permission_denied, mobile_page_hidden, mobile_page_visible, mobile_page_left,
  mobile_network_offline, mobile_network_online, mobile_heartbeat_missed, ProctorDeviceRole,
  primary_pc, mobile_aux, ProctorDeviceStatus, waiting, connected, disconnected, permission_denied,
  ProctorRiskLevel, safe, warning, danger, ProctorActionType, warning_message, pause_exam,
  resume_exam, terminate_exam, memo, ProctorEvent, ProctorDevice, ProctorAction,
  CreateProctorEventInput, UpsertProctorDeviceInput, CreateProctorActionInput,
}
use big_project.Shared.Invites.{CandidateInvite}
use big_project.Database.{or_in_memory}
use big_project.Store.{Source}

abbrev pub is_mobile_aux : ProctorDeviceRole → Bool
is_mobile_aux primary_pc = false
is_mobile_aux mobile_aux = true

abbrev pub same_role : ProctorDeviceRole → ProctorDeviceRole → Bool
same_role primary_pc other = not (is_mobile_aux other)
same_role mobile_aux other = is_mobile_aux other

abbrev pub is_connected : ProctorDeviceStatus → Bool
is_connected waiting = false
is_connected connected = true
is_connected disconnected = false
is_connected permission_denied = false

abbrev pub is_off : ProctorDeviceStatus → Bool
is_off waiting = false
is_off connected = false
is_off disconnected = true
is_off permission_denied = true

abbrev pub device_has_id : String → ProctorDevice → Bool
device_has_id id device = device.id =ₛ id

abbrev pub new_event : Source → CandidateInvite → CreateProctorEventInput → ProctorEvent
new_event source invite input = record {
  id = source.new_id;
  candidate_id = invite.candidate.id;
  exam_id = invite.exam.id;
  type = input.type;
  detail = input.detail;
  created_at = source.now;
}

unfoldable pub log_proctor_event :
    Result (Option ProctorEvent)
    → Source
    → CandidateInvite
    → CreateProctorEventInput
    → List ProctorEvent
    → Result (List ProctorEvent × ProctorEvent)
log_proctor_event db source invite input events =
    or_in_memory db (λ event. (events, event))
      (ok (new_event source invite input ∷ events, new_event source invite input))

-- The device of a candidate in a role, at an exam.
abbrev pub has_key : String → String → ProctorDeviceRole → ProctorDevice → Bool
has_key candidate_id exam_id role device =
    (device.candidate_id =ₛ candidate_id && device.exam_id =ₛ exam_id) && same_role device.role role

-- The new record of a device, made from the one before, if there is one.
abbrev pub upserted_device :
    Source → CandidateInvite → UpsertProctorDeviceInput → Option ProctorDevice → ProctorDevice
upserted_device source invite input existing = record {
  id = optional source.new_id (λ d. d.id) existing;
  candidate_id = invite.candidate.id;
  exam_id = invite.exam.id;
  role = input.role;
  status = input.status;
  connected_at =
      if is_connected input.status
      then some source.now
      else optional none (λ d. d.connected_at) existing;
  disconnected_at =
      if is_off input.status
      then some source.now
      else optional none (λ d. d.disconnected_at) existing;
  last_heartbeat_at =
      if is_connected input.status
      then some source.now
      else optional none (λ d. d.last_heartbeat_at) existing;
  detail = input.detail;
  created_at = optional source.now (λ d. d.created_at) existing;
  updated_at = source.now;
}

unfoldable pub upsert_proctor_device :
    Result (Option ProctorDevice)
    → Source
    → CandidateInvite
    → UpsertProctorDeviceInput
    → List ProctorDevice
    → Result (List ProctorDevice × ProctorDevice)
upsert_proctor_device db source invite input devices =
    let existing = find (has_key invite.candidate.id invite.exam.id input.role) devices in
    let device = upserted_device source invite input existing in
    or_in_memory db (λ device. (devices, device))
      (ok (device ∷ filter (λ item. not (device_has_id device.id item)) devices, device))

pub record ProctorMemoryState : Type 0 where
  pub proctor_events : List ProctorEvent
  pub proctor_devices : List ProctorDevice

abbrev pub heartbeat_of : Option ℕ → ℕ
heartbeat_of none = 0
heartbeat_of (some at) = at

abbrev pub is_stale : String → ℕ → ProctorDevice → Bool
is_stale exam_id stale_before device =
    (device.exam_id =ₛ exam_id && is_connected device.status)
    && ltb (heartbeat_of device.last_heartbeat_at) stale_before

abbrev pub disconnect : ℕ → ProctorDevice → ProctorDevice
disconnect now device = record device {
  status = disconnected;
  disconnected_at = some now;
  detail = some "heartbeat missed";
  updated_at = now;
}

-- The event of a stale device. The identifier is made anew for each.
abbrev pub stale_event : (String → String) → ℕ → ProctorDevice → ProctorEvent
stale_event event_id now device = record {
  id = event_id device.id;
  candidate_id = device.candidate_id;
  exam_id = device.exam_id;
  type = if is_mobile_aux device.role then mobile_heartbeat_missed else primary_camera_disconnected;
  detail = some (
      if is_mobile_aux device.role
      then "MOBILE_AUX heartbeat missed."
      else "PRIMARY_PC heartbeat missed.");
  created_at = now;
}

unfoldable pub mark_stale_in_memory :
    ℕ → (String → String) → ℕ → String → ProctorMemoryState → ProctorMemoryState
mark_stale_in_memory timeout_ms event_id now exam_id state =
    let stale = filter (is_stale exam_id (now - timeout_ms)) state.proctor_devices in
    if length stale == 0 then state else record {
      proctor_devices =
          map
            (λ device.
              if any (λ item. item.id =ₛ device.id) stale then disconnect now device else device)
            state.proctor_devices;
      proctor_events = map (stale_event event_id now) stale ++ state.proctor_events;
    }

unfoldable pub mark_stale_proctor_devices :
    Result (Option Bool)
    → ℕ
    → (String → String)
    → ℕ
    → String
    → ProctorMemoryState
    → Result ProctorMemoryState
unfolding mark_stale_in_memory
mark_stale_proctor_devices db timeout_ms event_id now exam_id state =
    or_in_memory db (λ done. state)
      (ok (mark_stale_in_memory timeout_ms event_id now exam_id state))
