-- ===== src/Store/Devices/Keys.antt =====
-- apps/api/src/services/platform-store.proctor.ts: a candidate has one device in a role at an exam.
use big_project.Common.{
  String, ◌≡◌, refl, subst, inl, inr, Bool, true, false, not, ◌&&◌, ◌||◌, Option, none, some, List,
  [], ◌∷◌, arith, eq_iff, eq_refl, Bool-cases, find, filter, all,
}
use big_project.Common.Result.{ok}
use big_project.Shared.Proctoring.{
  ProctorDeviceRole, primary_pc, mobile_aux, ProctorDevice, UpsertProctorDeviceInput,
}
use big_project.Shared.Invites.{CandidateInvite}
use big_project.Store.{Source}
use big_project.Store.Devices.{
  same_role, device_has_id, has_key, upserted_device, upsert_proctor_device,
}

abbrev pub key_of : ProctorDevice → ProctorDevice → Bool
key_of device = has_key device.candidate_id device.exam_id device.role

-- Neither the identifier nor the key of the other.
abbrev pub differs : ProctorDevice → ProctorDevice → Bool
differs device other = not (device_has_id device.id other) && not (key_of device other)

abbrev pub IsKeyed : List ProctorDevice → Type 0
IsKeyed [] = Unit
IsKeyed (device ∷ devices) = (all (differs device) devices ≡ true) × IsKeyed devices

all-filter :
    (p q : ProctorDevice → Bool) (devices : List ProctorDevice)
    → all p devices ≡ true
    → all p (filter q devices) ≡ true
all-filter p q [] h = refl
all-filter p q (d ∷ ds) h = ground (arith, all-filter p q ds)

filter-IsKeyed :
    (q : ProctorDevice → Bool) (devices : List ProctorDevice)
    → IsKeyed devices
    → IsKeyed (filter q devices)
filter-IsKeyed q [] h = tt
filter-IsKeyed q (d ∷ ds) h =
    ground (arith, filter-IsKeyed q ds h.1, all-filter (differs d) q ds h.0)

same_role_sym : (a b : ProctorDeviceRole) → same_role a b ≡ same_role b a
same_role_sym primary_pc primary_pc = refl
same_role_sym primary_pc mobile_aux = refl
same_role_sym mobile_aux primary_pc = refl
same_role_sym mobile_aux mobile_aux = refl

same_role_trans :
    (a b c : ProctorDeviceRole) → same_role a c ≡ true → same_role b c ≡ true → same_role b a ≡ true
same_role_trans primary_pc primary_pc c ha hb = refl
same_role_trans mobile_aux mobile_aux c ha hb = refl
same_role_trans primary_pc mobile_aux c ha hb = ground (arith, ha, hb)
same_role_trans mobile_aux primary_pc c ha hb = ground (arith, ha, hb)

same_role_refl : (a : ProctorDeviceRole) → same_role a a ≡ true
same_role_refl primary_pc = refl
same_role_refl mobile_aux = refl

same_key :
    (candidate_id exam_id : String) (role : ProctorDeviceRole) (d e : ProctorDevice)
    → has_key candidate_id exam_id role d ≡ true
    → has_key candidate_id exam_id role e ≡ true
    → key_of d e ≡ true
same_key candidate_id exam_id role d e hd he = ground (
  arith,
  eq_iff d.candidate_id candidate_id,
  eq_iff d.exam_id exam_id,
  eq_iff e.candidate_id candidate_id,
  eq_iff e.exam_id exam_id,
  eq_iff e.candidate_id d.candidate_id,
  eq_iff e.exam_id d.exam_id,
  same_role_trans d.role e.role role,
)

and_left : (a b : Bool) → a && b ≡ true → a ≡ true
and_left true b h = refl
and_left false b h = h

and_right : (a b : Bool) → a && b ≡ true → b ≡ true
and_right true b h = h
and_right false b h = ground (arith, h)

no_differs : (d e : ProctorDevice) → key_of d e ≡ true → ¬ (differs d e ≡ true)
no_differs d e key apart =
    let both = and_right (not (device_has_id d.id e)) (not (key_of d e)) apart in
    ground (arith, key, both)

no_other_key :
    (candidate_id exam_id : String) (role : ProctorDeviceRole) (d : ProctorDevice)
    (devices : List ProctorDevice)
    → has_key candidate_id exam_id role d ≡ true
    → all (differs d) devices ≡ true
    → all (λ e. not (has_key candidate_id exam_id role e)) devices ≡ true
no_other_key candidate_id exam_id role d [] hd h = refl
no_other_key candidate_id exam_id role d (e ∷ es) hd h =
    let rest =
      no_other_key candidate_id exam_id role d es hd
        (and_right (differs d e) (all (differs d) es) h) in
    elim (Bool-cases (has_key candidate_id exam_id role e)) [
      | inr isnt ↦ rw (isnt) rest
      | inl is ↦
          let key = same_key candidate_id exam_id role d e hd is in
          let apart = and_left (differs d e) (all (differs d) es) h in
          absurd (no_differs d e key apart)
    ]

weaken :
    (p q : ProctorDevice → Bool) (devices : List ProctorDevice)
    → all q devices ≡ true
    → all (λ d. p d || q d) devices ≡ true
weaken p q [] h = refl
weaken p q (d ∷ ds) h = ground (arith, weaken p q ds)

-- Only one device has a key.
no_other :
    (candidate_id exam_id : String) (role : ProctorDeviceRole) (found : ProctorDevice)
    (devices : List ProctorDevice)
    → IsKeyed devices
    → find (has_key candidate_id exam_id role) devices ≡ some found
    → all (λ d. device_has_id found.id d || not (has_key candidate_id exam_id role d)) devices
      ≡ true
no_other candidate_id exam_id role found [] h f = refl
no_other candidate_id exam_id role found (d ∷ ds) h f =
    elim (Bool-cases (has_key candidate_id exam_id role d)) [
      | inr isnt ↦ ground (arith, no_other candidate_id exam_id role found ds h.1, f, isnt)
      | inl is ↦
          let same : some d ≡ some found = ground (arith, f, is) in
          let others =
            weaken (device_has_id found.id) (λ e. not (has_key candidate_id exam_id role e)) ds
              (no_other_key candidate_id exam_id role d ds is h.0) in
          ground (arith, same, others, eq_refl found.id)
    ]

no_key :
    (candidate_id exam_id : String) (role : ProctorDeviceRole) (devices : List ProctorDevice)
    → find (has_key candidate_id exam_id role) devices ≡ none
    → all (λ d. not (has_key candidate_id exam_id role d)) devices ≡ true
no_key candidate_id exam_id role [] f = refl
no_key candidate_id exam_id role (d ∷ ds) f = ground (arith, no_key candidate_id exam_id role ds, f)

-- What stands before the rest of the list differs from it.
filter-differs :
    (device : ProctorDevice) (devices : List ProctorDevice)
    → all (λ d. device_has_id device.id d || not (key_of device d)) devices ≡ true
    → all (differs device) (filter (λ d. not (device_has_id device.id d)) devices) ≡ true
filter-differs device [] h = refl
filter-differs device (d ∷ ds) h =
    let rest = filter-differs device ds (
      and_right (device_has_id device.id d || not (key_of device d))
        (all (λ e. device_has_id device.id e || not (key_of device e)) ds) h) in
    elim (Bool-cases (device_has_id device.id d)) [
      | inl is ↦ rw (is) rest
      | inr isnt ↦ ground (arith, h, isnt, rest)
    ]

module _ (source : Source) (invite : CandidateInvite) (input : UpsertProctorDeviceInput) where
  stored_differs :
      (devices : List ProctorDevice) (existing : Option ProctorDevice)
      → IsKeyed devices
      → find (has_key invite.candidate.id invite.exam.id input.role) devices ≡ existing
      → let stored = upserted_device source invite input existing in
        all (λ d. device_has_id stored.id d || not (key_of stored d)) devices ≡ true
  stored_differs devices (some found) keyed h =
      no_other invite.candidate.id invite.exam.id input.role found devices keyed h
  stored_differs devices none keyed h =
      weaken (device_has_id source.new_id)
        (λ d. not (has_key invite.candidate.id invite.exam.id input.role d)) devices
        (no_key invite.candidate.id invite.exam.id input.role devices h)

  stored_has_key :
      (existing : Option ProctorDevice)
      → has_key invite.candidate.id invite.exam.id input.role
          (upserted_device source invite input existing)
        ≡ true
  stored_has_key existing =
      ground (arith, eq_refl invite.candidate.id, eq_refl invite.exam.id, same_role_refl input.role)

  -- Storing the state of a device keeps one device for each candidate, exam and role, under
  -- distinct identifiers, and the device is found under its key.
  pub upsert_proctor_device-IsKeyed :
      (devices after : List ProctorDevice) (device : ProctorDevice)
      → IsKeyed devices
      → upsert_proctor_device (ok none) source invite input devices ≡ ok (after, device)
      → IsKeyed after
        × (find (has_key invite.candidate.id invite.exam.id input.role) after ≡ some device)
  unfolding upsert_proctor_device
  upsert_proctor_device-IsKeyed devices after device keyed h =
      let stored =
        upserted_device source invite input
          (find (has_key invite.candidate.id invite.exam.id input.role) devices) in
      let list = stored ∷ filter (λ d. not (device_has_id stored.id d)) devices in
      let same : ◌≡◌ {A = List ProctorDevice × ProctorDevice} (list, stored) (after, device) =
        ground (arith, h) in
      subst
        (λ r.
          IsKeyed r.0
          × (find (has_key invite.candidate.id invite.exam.id input.role) r.0 ≡ some r.1))
        same
        (
          (
            filter-differs stored devices (
                stored_differs devices
                  (find (has_key invite.candidate.id invite.exam.id input.role) devices) keyed
                  refl),
            filter-IsKeyed (λ d. not (device_has_id stored.id d)) devices keyed,
          ),
          ground (
            arith,
            stored_has_key (find (has_key invite.candidate.id invite.exam.id input.role) devices),
          ),
        )
