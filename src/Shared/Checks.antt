-- ===== src/Shared/Checks.antt =====
-- packages/shared/src/index.ts: the checks that a candidate passes before the exam. Scores are
-- natural numbers, in the unit of the provider. `accepted` is the decision `VERIFIED`.
use big_project.Common.{ℕ, String, Bool, Option, List}

pub data IdentityVerificationStatus : Type 0 where
  pending verified failed : IdentityVerificationStatus

pub data KycProviderDecision : Type 0 where
  accepted rejected review_required : KycProviderDecision

pub data EnvironmentCheckStatus : Type 0 where
  passed_check warning_check failed_check : EnvironmentCheckStatus

pub data EnvironmentCheckItemId : Type 0 where
  browser network camera microphone screen : EnvironmentCheckItemId

pub record IdentityVerification : Type 0 where
  pub id : String
  pub candidate_id : String
  pub exam_id : String
  pub document_capture_confirmed : Bool
  pub document_image_name : String
  pub face_image_captured : Bool
  pub provider : String
  pub provider_decision : KycProviderDecision
  pub provider_reference_id : String
  pub failure_reason : Option String
  pub similarity_score : ℕ
  pub document_authenticity_score : ℕ
  pub face_match_score : ℕ
  pub liveness_score : ℕ
  pub ocr_name_matched : Bool
  pub verification_checks : List String
  pub privacy_consent_version : Option String
  pub privacy_consent_accepted_at : Option ℕ
  pub status : IdentityVerificationStatus
  pub verified_at : Option ℕ
  pub created_at : ℕ

pub record EnvironmentCheckResult : Type 0 where
  pub id : EnvironmentCheckItemId
  pub status : EnvironmentCheckStatus
  pub detail : Option String

pub record EnvironmentCheck : Type 0 where
  pub id : String
  pub candidate_id : String
  pub exam_id : String
  pub results : List EnvironmentCheckResult
  pub required_passed : Bool
  pub created_at : ℕ
