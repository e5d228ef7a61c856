-- ===== src/ProctorGateway/Revocation.antt =====
-- apps/api/src/modules/proctor.gateway.ts: a revoked session loses its sockets.
use big_project.Common.{
  String, ◌≡◌, refl, ap, inl, inr, Bool, true, false, not, ◌&&◌, some, List, [], ◌∷◌, arith, eq_iff,
  eq_refl, ◌=ₛ◌, Bool-cases, filter, any,
}
use big_project.Common.Result.{ok}
use big_project.ProctorGateway.{
  Gateway, Client, is_pair, is_tracked, untrack_admin_client, track_admin_client, handle_join_admin,
  disconnect_admin_clients,
}

still_there :
    (t : String → Bool) (id : String) (ids : List String)
    → any (λ c. c =ₛ id) (filter (λ c. not (t c)) ids) ≡ (not (t id) && any (λ c. c =ₛ id) ids)
still_there t id [] = ground (arith)
still_there t id (c ∷ cs) = elim (Bool-cases (c =ₛ id)) [
  | inr isnt ↦ ground (arith, still_there t id cs, isnt)
  | inl is ↦
      let same : c ≡ id = (eq_iff c id).0 is in
      let test : t c ≡ t id = ap t same in ground (arith, still_there t id cs, is, test)
]

pairs_left :
    (token other id : String) (pairs : List (String × String))
    → any (is_pair other id) (filter (λ p. not (p.0 =ₛ token)) pairs)
      ≡ (not (other =ₛ token) && any (is_pair other id) pairs)
pairs_left token other id [] = ground (arith)
pairs_left token other id (p ∷ ps) =
    ground
      (arith, pairs_left token other id ps, eq_iff p.0 token, eq_iff p.0 other, eq_iff other token)

tracked :
    (g : Gateway) (client : Client) (token : String)
    → client.data_of.admin_token ≡ some token
    → is_tracked token (track_admin_client g client) client.id ≡ true
unfolding track_admin_client
tracked g client token h = elim (Bool-cases (any (is_pair token client.id) g.admin_clients)) [
  | inl is ↦ rw (track_admin_client, h, is) is
  | inr isnt ↦ rw (track_admin_client, h, isnt) (ground (arith, eq_refl token, eq_refl client.id))
]

-- When a session is revoked, the sockets tracked under its token are disconnected, and no others;
-- the token tracks nobody any more, other tokens the same as before. A proctor who has joined with
-- the token is among those disconnected.
pub disconnect_admin_clients-handle_join_admin :
    (g : Gateway) (client : Client) (token exam_id other id : String)
    → let joined = (handle_join_admin g client (ok tt) token exam_id).0.0 in
      let after = disconnect_admin_clients joined token in
      (any (λ c. c =ₛ client.id) after.connected ≡ false)
      × ((any (λ c. c =ₛ id) after.connected
            ≡ (not (is_tracked token joined id) && any (λ c. c =ₛ id) joined.connected))
          × (is_tracked other after id ≡ (not (other =ₛ token) && is_tracked other joined id)))
unfolding disconnect_admin_clients handle_join_admin
disconnect_admin_clients-handle_join_admin g client token exam_id other id =
    let joined = (handle_join_admin g client (ok tt) token exam_id).0.0 in
    let own : is_tracked token joined client.id ≡ true =
      tracked (untrack_admin_client g client) (handle_join_admin g client (ok tt) token exam_id).0.1
        token refl in
    let gone = still_there (is_tracked token joined) client.id joined.connected in
    (
      ground (arith, gone, own),
      (
        still_there (is_tracked token joined) id joined.connected,
        pairs_left token other id joined.admin_clients,
      ),
    )
