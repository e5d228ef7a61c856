-- ===== src/ProctorGateway/Tests.antt =====
-- A phone of a candidate and two proctors at the gateway.
use big_project.Common.{◌≡◌, refl, ◌⊎◌, true, false, not, ◌&&◌, none, some, [], ◌∷◌, ◌=ₛ◌, any}
use big_project.Common.Result.{ok, throw, forbidden}
use big_project.Shared.Proctoring.{mobile_aux}
use big_project.ProctorGateway.{
  candidate_side, ProctorSocketData, SignalPayload, admin_room, webrtc_offer, Client, Gateway,
  is_admin_side, is_candidate_side, handle_signal, is_tracked, handle_join_admin,
  disconnect_admin_clients,
}
use big_project.ProctorGateway.Scope.{IsOwn, handle_signal_scope}
use big_project.ProctorGateway.Revocation.{disconnect_admin_clients-handle_join_admin}

abbrev phone : ProctorSocketData
phone = record {
  role = some candidate_side;
  admin_token = none;
  exam_id = "e1";
  candidate_id = "c1";
  invite_token = "token";
  device_role = mobile_aux;
}

abbrev payload : SignalPayload
payload = record { exam_id = "e1"; candidate_id = "c1"; device_role = mobile_aux }

relays : handle_signal (λ token. false) webrtc_offer phone payload ≡ ok (admin_room "e1")
unfolding handle_signal
relays = refl

-- The room of another exam is refused.
refuses :
    handle_signal (λ token. true) webrtc_offer phone (record payload { exam_id = "e2" })
    ≡ throw forbidden
unfolding handle_signal
refuses = refl

handle_signal_scope_example :
    ("e1" =ₛ "e1" ≡ true)
    × (((is_admin_side phone.role ≡ true) × (false ≡ true))
        ⊎ ((is_candidate_side phone.role ≡ true) × IsOwn phone (admin_room "e1")))
handle_signal_scope_example =
    handle_signal_scope (λ token. false) webrtc_offer phone payload (admin_room "e1") relays

abbrev newcomer : Client
newcomer = record { id = "s1"; data_of = record phone { role = none } }

abbrev gateway : Gateway
gateway = record { admin_clients = ("t2", "s2") ∷ []; connected = "s1" ∷ "s2" ∷ [] }

disconnect_admin_clients-handle_join_admin_example :
    let joined = (handle_join_admin gateway newcomer (ok tt) "t1" "e1").0.0 in
    let after = disconnect_admin_clients joined "t1" in
    (any (λ c. c =ₛ "s1") after.connected ≡ false)
    × ((any (λ c. c =ₛ "s2") after.connected
          ≡ (not (is_tracked "t1" joined "s2") && any (λ c. c =ₛ "s2") joined.connected))
        × (is_tracked "t2" after "s2" ≡ (not ("t2" =ₛ "t1") && is_tracked "t2" joined "s2")))
disconnect_admin_clients-handle_join_admin_example =
    disconnect_admin_clients-handle_join_admin gateway newcomer "t1" "e1" "t2" "s2"
