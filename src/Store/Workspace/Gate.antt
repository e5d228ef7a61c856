-- ===== src/Store/Workspace/Gate.antt =====
-- apps/api/src/services/platform-store.state.ts: the conditions under which a candidate works on an
-- exam.
use big_project.Common.{
  ℕ, ◌≤◌, ◌<◌, ◌≡◌, refl, ◌≢◌, ◌⊎◌, inl, inr, ◌↔◌, Bool, true, false, not, ◌&&◌, ◌||◌, Option, none,
  some, List, Memᴰ, any-Mem, any, optional, Bool-cases, arith,
}
use big_project.Common.Result.{ok}
use big_project.Shared.Invites.{CandidateInvite}
use big_project.Shared.Exams.{
  Exam, ExamStatus, draft, scheduled, active, ended, deleted, CandidateStatus, invited, ready,
  in_progress, completed,
}
use big_project.Shared.Checks.{
  EnvironmentCheck, IdentityVerification, IdentityVerificationStatus, pending, verified, failed,
}
use big_project.Shared.Proctoring.{
  ProctorDevice, ProctorDeviceRole, primary_pc, mobile_aux, ProctorDeviceStatus, waiting, connected,
  disconnected, permission_denied,
}
use big_project.Store.Devices.{is_mobile_aux, is_connected}
use big_project.Store.Workspace.{
  is_over, has_come, is_ahead, is_verified, exam_available, is_invited, environment_passed,
  identity_verified, mobile_aux_connected, assert_candidate_can_use_workspace,
}

-- The exam is going on, the candidate has confirmed the entry, and every check that the exam asks
-- for has been passed.
abbrev pub may_work : ℕ → CandidateInvite → Bool
may_work now invite =
    (exam_available invite.exam now && not (is_invited invite.candidate.status))
    && (environment_passed invite
        && ((not invite.exam.identity_verification_enabled || identity_verified invite)
            && (not invite.exam.mobile_camera_required || mobile_aux_connected invite)))

-- A candidate gets to the workspace exactly under the conditions of `may_work`.
pub assert_candidate_can_use_workspace_iff :
    (now : ℕ) (invite : CandidateInvite)
    → (assert_candidate_can_use_workspace now invite ≡ ok tt) ↔ (may_work now invite ≡ true)
unfolding assert_candidate_can_use_workspace
assert_candidate_can_use_workspace_iff now invite = (λ h. ground (arith, h), λ h. ground (arith, h))

-- The exam has begun, has not ended yet, and has neither been closed nor deleted.
abbrev pub IsGoingOn : ℕ → Exam → Type 0
IsGoingOn now exam =
    (exam.status ≢ ended)
    × (exam.status ≢ deleted)
    × ((at : ℕ) × (exam.start_at ≡ some at) × (at ≤ now))
    × ((at : ℕ) × (exam.end_at ≡ some at) × (now < at))

-- The exam is going on, the candidate has confirmed the entry and passed the check of the
-- environment and, where the exam asks for them, the check of the identity and the connection of
-- the second camera.
abbrev pub MayWork : ℕ → CandidateInvite → Type 0
MayWork now invite =
    IsGoingOn now invite.exam
    × (invite.candidate.status ≢ invited)
    × ((check : EnvironmentCheck) × (invite.environment_check ≡ some check)
        × (check.required_passed ≡ true))
    × ((invite.exam.identity_verification_enabled ≡ false)
        ⊎ ((verification : IdentityVerification) × (invite.identity_verification
              ≡ some verification)
            × (verification.status ≡ verified)))
    × ((invite.exam.mobile_camera_required ≡ false)
        ⊎ ((device : ProctorDevice) × Memᴰ device invite.proctor_devices
            × (device.role ≡ mobile_aux)
            × (device.status ≡ connected)))

not_over : (status : ExamStatus) → is_over status ≡ false → (status ≢ ended) × (status ≢ deleted)
not_over draft h = (λ e. ground arith, λ e. ground arith)
not_over scheduled h = (λ e. ground arith, λ e. ground arith)
not_over active h = (λ e. ground arith, λ e. ground arith)
not_over ended h = absurd (ground (arith, h))
not_over deleted h = absurd (ground (arith, h))

come_at : (at : Option ℕ) (now : ℕ) → has_come at now ≡ true → (t : ℕ) × (at ≡ some t) × (t ≤ now)
come_at none now h = absurd (ground (arith, h))
come_at (some t) now h = (t, refl, ground (arith, h))

ahead_at : (at : Option ℕ) (now : ℕ) → is_ahead at now ≡ true → (t : ℕ) × (at ≡ some t) × (now < t)
ahead_at none now h = absurd (ground (arith, h))
ahead_at (some t) now h = (t, refl, ground (arith, h))

not_invited : (status : CandidateStatus) → is_invited status ≡ false → status ≢ invited
not_invited invited h = absurd (ground (arith, h))
not_invited ready h = λ e. ground arith
not_invited in_progress h = λ e. ground arith
not_invited completed h = λ e. ground arith

given_with {ℓ} :
    {A : Type ℓ} (p : A → Bool) (o : Option A)
    → optional false p o ≡ true
    → (a : A) × (o ≡ some a) × (p a ≡ true)
given_with p none h = absurd (ground (arith, h))
given_with p (some a) h = (a, refl, h)

verified_status :
    (status : IdentityVerificationStatus) → is_verified status ≡ true → status ≡ verified
verified_status pending h = absurd (ground (arith, h))
verified_status verified h = refl
verified_status failed h = absurd (ground (arith, h))

aux_role : (role : ProctorDeviceRole) → is_mobile_aux role ≡ true → role ≡ mobile_aux
aux_role primary_pc h = absurd (ground (arith, h))
aux_role mobile_aux h = refl

connected_status : (status : ProctorDeviceStatus) → is_connected status ≡ true → status ≡ connected
connected_status waiting h = absurd (ground (arith, h))
connected_status connected h = refl
connected_status disconnected h = absurd (ground (arith, h))
connected_status permission_denied h = absurd (ground (arith, h))

aux_device :
    (devices : List ProctorDevice)
    → any (λ d. is_mobile_aux d.role && is_connected d.status) devices ≡ true
    → (device : ProctorDevice) × Memᴰ device devices
      × (device.role ≡ mobile_aux)
      × (device.status ≡ connected)
aux_device devices h =
    let found = any-Mem (λ d. is_mobile_aux d.role && is_connected d.status) devices h in
    let d = found.0 in
    let both = found.2 in
    (
      d,
      found.1,
      aux_role d.role (ground (arith, both)),
      connected_status d.status (ground (arith, both)),
    )

-- The conditions of `may_work` in full.
pub may_work-MayWork :
    (now : ℕ) (invite : CandidateInvite) → may_work now invite ≡ true → MayWork now invite
may_work-MayWork now invite h =
    let over = not_over invite.exam.status (ground (arith, h)) in
    let check = given_with (λ c. c.required_passed) invite.environment_check (ground (arith, h)) in
    (
      (
        over.0,
        over.1,
        come_at invite.exam.start_at now (ground (arith, h)),
        ahead_at invite.exam.end_at now (ground (arith, h)),
      ),
      not_invited invite.candidate.status (ground (arith, h)),
      check,
      elim (Bool-cases invite.exam.identity_verification_enabled) [
        | inr isnt ↦ inl isnt
        | inl is ↦
            let given =
              given_with (λ v. is_verified v.status) invite.identity_verification
                (ground (arith, h, is)) in
            inr (given.0, given.1, verified_status given.0.status given.2)
      ],
      elim (Bool-cases invite.exam.mobile_camera_required) [
        | inr isnt ↦ inl isnt
        | inl is ↦ inr (aux_device invite.proctor_devices (ground (arith, h, is)))
      ],
    )
