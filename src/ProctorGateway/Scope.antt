-- ===== src/ProctorGateway/Scope.antt =====
-- apps/api/src/modules/proctor.gateway.ts: whom a message can reach.
use big_project.Common.{
  String, ◌≡◌, refl, sym, ap, subst, ◌∙◌, ◌⊎◌, inl, inr, Bool, true, false, ◌&&◌, Option, arith,
  ◌=ₛ◌, Bool-cases,
}
use big_project.Common.Result.{ok, Result-cases}
use big_project.Store.Devices.{same_role}
use big_project.ProctorGateway.{
  ProctorSocketData, SignalPayload, Room, admin_room, candidate_room, Signal, webrtc_offer,
  request_offer, webrtc_answer, ice_candidate, is_admin_side, is_candidate_side, assert_can_relay,
  device_room, room_of, handle_signal,
}

-- The rooms that a candidate may reach: the proctors of the exam, and the candidate's own device.
abbrev pub IsOwn : ProctorSocketData → Room → Type 0
IsOwn data_of (admin_room exam_id) = data_of.exam_id =ₛ exam_id ≡ true
IsOwn data_of (candidate_room exam_id candidate_id device_role) =
    (data_of.exam_id =ₛ exam_id ≡ true)
    × ((data_of.candidate_id =ₛ candidate_id ≡ true)
        × (same_role data_of.device_role device_role ≡ true))

abbrev pub exam_of : Room → String
exam_of (admin_room exam_id) = exam_id
exam_of (candidate_room exam_id candidate_id device_role) = exam_id

relay_ok :
    (active : Option String → Bool) (data_of : ProctorSocketData) (payload : SignalPayload)
    → assert_can_relay active data_of payload ≡ ok tt
    → ((is_admin_side data_of.role ≡ true)
        × ((data_of.exam_id =ₛ payload.exam_id ≡ true) × (active data_of.admin_token ≡ true)))
      ⊎ ((is_candidate_side data_of.role ≡ true)
          × ((data_of.exam_id =ₛ payload.exam_id ≡ true)
              × ((data_of.candidate_id =ₛ payload.candidate_id ≡ true)
                  × (same_role data_of.device_role payload.device_role ≡ true))))
unfolding assert_can_relay
relay_ok active data_of payload h =
    elim (Bool-cases (is_admin_side data_of.role && data_of.exam_id =ₛ payload.exam_id)) [
      | inl is ↦ inl (ground (arith, is), (ground (arith, is), ground (arith, h, is)))
      | inr isnt ↦
          elim (Bool-cases (
            (is_candidate_side data_of.role && data_of.exam_id =ₛ payload.exam_id)
            && (data_of.candidate_id =ₛ payload.candidate_id
                && same_role data_of.device_role payload.device_role))) [
                  | inl own ↦ inr (
                    ground (arith, own),
                    (ground (arith, own), (ground (arith, own), ground (arith, own))),
                  )
                  | inr out ↦ absurd (ground (arith, h, isnt, out))
                ]
    ]

ice_of_admin :
    (data_of : ProctorSocketData) (payload : SignalPayload)
    → is_admin_side data_of.role ≡ true
    → room_of ice_candidate data_of payload ≡ device_room payload
ice_of_admin data_of payload is = rw (is) refl

ice_of_other :
    (data_of : ProctorSocketData) (payload : SignalPayload)
    → is_admin_side data_of.role ≡ false
    → room_of ice_candidate data_of payload ≡ admin_room payload.exam_id
ice_of_other data_of payload isnt = rw (isnt) refl

within_reach :
    (signal : Signal) (data_of : ProctorSocketData) (payload : SignalPayload)
    → data_of.exam_id =ₛ payload.exam_id ≡ true
    → data_of.candidate_id =ₛ payload.candidate_id ≡ true
    → same_role data_of.device_role payload.device_role ≡ true
    → IsOwn data_of (room_of signal data_of payload)
within_reach webrtc_offer data_of payload exam candidate role = exam
within_reach request_offer data_of payload exam candidate role = (exam, (candidate, role))
within_reach webrtc_answer data_of payload exam candidate role = (exam, (candidate, role))
within_reach ice_candidate data_of payload exam candidate role =
    elim (Bool-cases (is_admin_side data_of.role)) [
      | inl is ↦
          subst (IsOwn data_of) (sym (ice_of_admin data_of payload is)) (exam, (candidate, role))
      | inr isnt ↦ subst (IsOwn data_of) (sym (ice_of_other data_of payload isnt)) exam
    ]

same_exam :
    (signal : Signal) (data_of : ProctorSocketData) (payload : SignalPayload)
    → exam_of (room_of signal data_of payload) ≡ payload.exam_id
same_exam webrtc_offer data_of payload = refl
same_exam request_offer data_of payload = refl
same_exam webrtc_answer data_of payload = refl
same_exam ice_candidate data_of payload = elim (Bool-cases (is_admin_side data_of.role)) [
  | inl is ↦ rw (is) refl
  | inr isnt ↦ rw (isnt) refl
]

-- A message stays within the exam that its sender has joined. A proctor's session must be active
-- at that time, and a candidate reaches only the proctors of the exam and the room of the own
-- device.
pub handle_signal_scope :
    (active : Option String → Bool) (signal : Signal) (data_of : ProctorSocketData)
    (payload : SignalPayload) (room : Room)
    → handle_signal active signal data_of payload ≡ ok room
    → (data_of.exam_id =ₛ exam_of room ≡ true)
      × (((is_admin_side data_of.role ≡ true) × (active data_of.admin_token ≡ true))
          ⊎ ((is_candidate_side data_of.role ≡ true) × IsOwn data_of room))
unfolding handle_signal
handle_signal_scope active signal data_of payload room h =
    elim (Result-cases (assert_can_relay active data_of payload)) [
      | inl thrown ↦ absurd (ground (arith, h, thrown.1))
      | inr passed ↦
          let same : room_of signal data_of payload ≡ room = ground (arith, h, passed.1) in
          let exam : exam_of room ≡ payload.exam_id =
            ap exam_of (sym same) ∙ same_exam signal data_of payload in
          elim (relay_ok active data_of payload passed.1) [
            | inl side ↦ (
              subst (λ e. data_of.exam_id =ₛ e ≡ true) (sym exam) side.1.0,
              inl (side.0, side.1.1),
            )
            | inr side ↦ (
              subst (λ e. data_of.exam_id =ₛ e ≡ true) (sym exam) side.1.0,
              inr (
                side.0,
                subst (IsOwn data_of) same
                    (within_reach signal data_of payload side.1.0 side.1.1.0 side.1.1.1),
              ),
            )
          ]
    ]
