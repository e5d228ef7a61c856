-- ===== src/ProctorGateway.antt =====
-- apps/api/src/modules/proctor.gateway.ts: `ProctorGateway`, which relays the messages between the
-- proctors of an exam and the devices of its candidates. What the store and the authentication
-- service answer are arguments. The map from tokens to sets of sockets drops empty sets, so it is
-- the list of its pairs. A rejection is `forbidden`.
pub mod Scope
pub mod Revocation
mod Tests
use big_project.Common.{
  ℕ, zero, suc, ◌+◌, ◌-◌, ◌*◌, ◌/◌, ◌%◌, ◌≤◌, ◌<◌, min, max, String, ◌≡◌, refl, sym, ap, subst, ◌∙◌,
  ◌≢◌, ◌↔◌, ◌⊎◌, inl, inr, Bool, true, false, not, ◌&&◌, ◌||◌, Option, none, some, List, [], ◌∷◌,
  ◌++◌, map, arith, eq_iff, eq_refl, ◌=ₛ◌, ltb, leb, ◌==◌, if◌then◌else◌, optional, ltb→lt, lt→ltb,
  le→leb, Bool-cases, Option-cases, length, find, filter, any, all, head?, length-append,
  length-filter-le, find-passes, All, All-append, All-filter, filter-All, All-sort_descending,
  sort_descending, insert_descending, take, is_empty, before, includes_char,
}
use big_project.Common.Result.{
  Result, ok, throw, Exception, bad_request, unauthorized, forbidden, not_found, conflict,
  too_many_requests, service_unavailable, ◌>>=◌, ◌>>◌, throw_if, or_throw, Result-cases,
}
use big_project.Shared.Proctoring.{ProctorDeviceRole, primary_pc, mobile_aux}
use big_project.Shared.Invites.{CandidateInvite}
use big_project.Store.Devices.{same_role}

pub data ProctorSocketRole : Type 0 where
  proctor_side candidate_side : ProctorSocketRole

-- The fields are set together: those of a proctor, or those of a candidate.
pub record ProctorSocketData : Type 0 where
  pub role : Option ProctorSocketRole
  pub admin_token : Option String
  pub exam_id : String
  pub candidate_id : String
  pub invite_token : String
  pub device_role : ProctorDeviceRole

pub record JoinCandidatePayload : Type 0 where
  pub exam_id : String
  pub candidate_id : String
  pub invite_token : String
  pub device_role : ProctorDeviceRole

pub record SignalPayload : Type 0 where
  pub exam_id : String
  pub candidate_id : String
  pub device_role : ProctorDeviceRole

pub data Room : Type 0 where
  admin_room : String → Room
  candidate_room : String → String → ProctorDeviceRole → Room

-- The messages that are relayed.
pub data Signal : Type 0 where
  webrtc_offer request_offer webrtc_answer ice_candidate : Signal

pub record Client : Type 0 where
  pub id : String
  pub data_of : ProctorSocketData

-- `adminClientsByToken`, and the sockets that are connected.
pub record Gateway : Type 0 where
  pub admin_clients : List (String × String)
  pub connected : List String

abbrev pub is_admin_side : Option ProctorSocketRole → Bool
is_admin_side none = false
is_admin_side (some proctor_side) = true
is_admin_side (some candidate_side) = false

abbrev pub is_candidate_side : Option ProctorSocketRole → Bool
is_candidate_side none = false
is_candidate_side (some proctor_side) = false
is_candidate_side (some candidate_side) = true

-- `active` says of a token whether `requireActiveSession` accepts it.
unfoldable pub assert_can_relay :
    (Option String → Bool) → ProctorSocketData → SignalPayload → Result (Unit {0})
assert_can_relay active data_of payload =
    if is_admin_side data_of.role && data_of.exam_id =ₛ payload.exam_id
    then throw_if (not (active data_of.admin_token)) unauthorized
    else if (is_candidate_side data_of.role && data_of.exam_id =ₛ payload.exam_id)
        && (data_of.candidate_id =ₛ payload.candidate_id
            && same_role data_of.device_role payload.device_role)
    then ok tt
    else throw forbidden

abbrev pub device_room : SignalPayload → Room
device_room payload = candidate_room payload.exam_id payload.candidate_id payload.device_role

-- The room that a handler sends to.
abbrev pub room_of : Signal → ProctorSocketData → SignalPayload → Room
room_of webrtc_offer data_of payload = admin_room payload.exam_id
room_of request_offer data_of payload = device_room payload
room_of webrtc_answer data_of payload = device_room payload
room_of ice_candidate data_of payload =
    if is_admin_side data_of.role then device_room payload else admin_room payload.exam_id

-- `handleOffer`, `handleRequestOffer`, `handleAnswer` and `handleIceCandidate`.
unfoldable pub handle_signal :
    (Option String → Bool) → Signal → ProctorSocketData → SignalPayload → Result Room
unfolding assert_can_relay
handle_signal active signal data_of payload =
    assert_can_relay active data_of payload >> ok (room_of signal data_of payload)

-- `invite` is what the store answers for the token.
unfoldable pub assert_candidate_join :
    Result CandidateInvite → JoinCandidatePayload → Result (Unit {0})
assert_candidate_join invite payload = invite >>= (λ i.
    throw_if (not (i.exam.id =ₛ payload.exam_id) || not (i.candidate.id =ₛ payload.candidate_id))
      forbidden)

unfoldable pub handle_join_candidate :
    Result CandidateInvite → ProctorSocketData → JoinCandidatePayload → Result ProctorSocketData
unfolding assert_candidate_join
handle_join_candidate invite data_of payload =
    assert_candidate_join invite payload
    >> ok (record data_of {
      role = some candidate_side;
      exam_id = payload.exam_id;
      candidate_id = payload.candidate_id;
      invite_token = payload.invite_token;
      device_role = payload.device_role;
    })

abbrev pub is_pair : String → String → String × String → Bool
is_pair token id pair = pair.0 =ₛ token && pair.1 =ₛ id

unfoldable pub untrack_admin_client : Gateway → Client → Gateway
untrack_admin_client g client = elim client.data_of.admin_token [
  | none ↦ g
  | some token ↦ record g {
    admin_clients = filter (λ p. not (is_pair token client.id p)) g.admin_clients;
  }
]

unfoldable pub track_admin_client : Gateway → Client → Gateway
track_admin_client g client = elim client.data_of.admin_token [
  | none ↦ g
  | some token ↦
      if any (is_pair token client.id) g.admin_clients
      then g
      else record g { admin_clients = (token, client.id) ∷ g.admin_clients }
]

-- `session` is what `authenticateAdmin` and `getLiveProctorState` end in for the token.
unfoldable pub handle_join_admin :
    Gateway → Client → Result (Unit {0}) → String → String → (Gateway × Client) × Result Room
unfolding untrack_admin_client track_admin_client
handle_join_admin g client session token exam_id = elim session [
  | throw e ↦ ((g, client), throw e)
  | ok done ↦
      let joined : Client = record client {
        data_of = record client.data_of {
          role = some proctor_side;
          admin_token = some token;
          exam_id = exam_id;
        };
      } in
      ((track_admin_client (untrack_admin_client g client) joined, joined), ok (admin_room exam_id))
]

abbrev pub is_tracked : String → Gateway → String → Bool
is_tracked token g id = any (is_pair token id) g.admin_clients

-- A socket that is disconnected is untracked when its `handleDisconnect` runs, which finds it gone.
unfoldable pub disconnect_admin_clients : Gateway → String → Gateway
disconnect_admin_clients g token = record {
  admin_clients = filter (λ p. not (p.0 =ₛ token)) g.admin_clients;
  connected = filter (λ id. not (is_tracked token g id)) g.connected;
}
