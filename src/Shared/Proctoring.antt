-- ===== src/Shared/Proctoring.antt =====
-- packages/shared/src/index.ts: what proctoring records of a candidate.
use big_project.Common.{ℕ, String, Option}

pub data ProctorEventType : Type 0 where
  tab_hidden tab_visible window_blur window_focus copy paste : ProctorEventType
  fullscreen_exit fullscreen_enter : ProctorEventType
  primary_camera_connected primary_camera_disconnected : ProctorEventType
  primary_camera_permission_denied : ProctorEventType
  mobile_camera_connected mobile_camera_disconnected : ProctorEventType
  mobile_camera_permission_denied : ProctorEventType
  mobile_page_hidden mobile_page_visible mobile_page_left : ProctorEventType
  mobile_network_offline mobile_network_online mobile_heartbeat_missed : ProctorEventType

pub data ProctorDeviceRole : Type 0 where
  primary_pc mobile_aux : ProctorDeviceRole

pub data ProctorDeviceStatus : Type 0 where
  waiting connected disconnected permission_denied : ProctorDeviceStatus

pub data ProctorRiskLevel : Type 0 where
  safe warning danger : ProctorRiskLevel

pub data ProctorActionType : Type 0 where
  warning_message pause_exam resume_exam terminate_exam memo : ProctorActionType

pub record ProctorEvent : Type 0 where
  pub id : String
  pub candidate_id : String
  pub exam_id : String
  pub type : ProctorEventType
  pub detail : Option String
  pub created_at : ℕ

pub record ProctorDevice : Type 0 where
  pub id : String
  pub candidate_id : String
  pub exam_id : String
  pub role : ProctorDeviceRole
  pub status : ProctorDeviceStatus
  pub connected_at : Option ℕ
  pub disconnected_at : Option ℕ
  pub last_heartbeat_at : Option ℕ
  pub detail : Option String
  pub created_at : ℕ
  pub updated_at : ℕ

pub record ProctorAction : Type 0 where
  pub id : String
  pub candidate_id : String
  pub exam_id : String
  pub type : ProctorActionType
  pub message : String
  pub created_at : ℕ

pub record CreateProctorEventInput : Type 0 where
  pub type : ProctorEventType
  pub detail : Option String

pub record UpsertProctorDeviceInput : Type 0 where
  pub role : ProctorDeviceRole
  pub status : ProctorDeviceStatus
  pub detail : Option String

pub record CreateProctorActionInput : Type 0 where
  pub type : ProctorActionType
  pub message : String
