-- ===== src/Store/Devices/Stale.antt =====
-- apps/api/src/services/platform-store.proctor.ts: devices without a heartbeat are disconnected.
use big_project.Common.{
  ℕ, ◌+◌, ◌-◌, String, ◌≡◌, refl, sym, ap, ◌∙◌, subst, inl, inr, Bool, true, false, not, ◌||◌, ◌&&◌,
  ltb, optional, Option, none, some, List, [], ◌∷◌, ◌++◌, map, arith, eq_refl, ◌=ₛ◌, ◌==◌,
  if◌then◌else◌, Bool-cases, length, filter, any, all,
}
use big_project.Shared.Proctoring.{
  ProctorEvent, ProctorDevice, ProctorDeviceStatus, waiting, connected, disconnected,
  permission_denied,
}
use big_project.Store.Devices.{
  is_connected, heartbeat_of, is_stale, disconnect, stale_event, mark_stale_in_memory,
  ProctorMemoryState,
}

abbrev among : List ProctorDevice → ProctorDevice → Bool
among devices device = any (λ item. item.id =ₛ device.id) devices

covers_more :
    (p : ProctorDevice → Bool) (x : ProctorDevice) (found devices : List ProctorDevice)
    → all (λ d. not (p d) || among found d) devices ≡ true
    → all (λ d. not (p d) || among (x ∷ found) d) devices ≡ true
covers_more p x found [] h = refl
covers_more p x found (d ∷ ds) h = ground (arith, covers_more p x found ds)

-- What passes the test is among what the filter keeps.
covers :
    (p : ProctorDevice → Bool) (devices : List ProctorDevice)
    → all (λ d. not (p d) || among (filter p devices) d) devices ≡ true
covers p [] = refl
covers p (d ∷ ds) =
    let rest = covers p ds in
    elim (Bool-cases (p d)) [
      | inr isnt ↦
          let same : filter p (d ∷ ds) ≡ filter p ds = rw (isnt) refl in
          subst (λ st. all (λ x. not (p x) || among st x) (d ∷ ds) ≡ true) (sym same)
            (ground (arith, rest, isnt))
      | inl is ↦
          let more = covers_more p d (filter p ds) ds rest in
          let same : filter p (d ∷ ds) ≡ d ∷ filter p ds = rw (is) refl in
          subst (λ st. all (λ x. not (p x) || among st x) (d ∷ ds) ≡ true) (sym same)
            (ground (arith, more, eq_refl d.id, is))
    ]

abbrev settle : ℕ → List ProctorDevice → ProctorDevice → ProctorDevice
settle now stale device = if among stale device then disconnect now device else device

none_stale :
    (exam_id : String) (stale_before now : ℕ) (stale devices : List ProctorDevice)
    → all (λ d. not (is_stale exam_id stale_before d) || among stale d) devices ≡ true
    → filter (is_stale exam_id stale_before) (map (settle now stale) devices) ≡ []
none_stale exam_id stale_before now stale [] h = refl
none_stale exam_id stale_before now stale (d ∷ ds) h =
    ground (arith, none_stale exam_id stale_before now stale ds, h)

length-map-append :
    (f : ProctorDevice → ProctorEvent) (devices : List ProctorDevice) (events : List ProctorEvent)
    → length (map f devices ++ events) ≡ length devices + length events
length-map-append f [] events = omega arith
length-map-append f (d ∷ ds) events = ground (arith, length-map-append f ds events)

no_length : (devices : List ProctorDevice) → length devices == 0 ≡ true → devices ≡ []
no_length [] h = refl
no_length (d ∷ ds) h = absurd (ground (arith, h))

module _ (timeout_ms now : ℕ) (event_id : String → String) (exam_id : String) where
  mark_nothing :
      (state : ProctorMemoryState)
      → filter (is_stale exam_id (now - timeout_ms)) state.proctor_devices ≡ []
      → mark_stale_in_memory timeout_ms event_id now exam_id state ≡ state
  unfolding mark_stale_in_memory
  mark_nothing state h = rw (mark_stale_in_memory, h) refl

  marked :
      (state : ProctorMemoryState)
      → let after = mark_stale_in_memory timeout_ms event_id now exam_id state in
        (filter (is_stale exam_id (now - timeout_ms)) after.proctor_devices ≡ [])
        × (length after.proctor_events
            ≡ length (filter (is_stale exam_id (now - timeout_ms)) state.proctor_devices)
              + length state.proctor_events)
  unfolding mark_stale_in_memory
  marked state =
      let stale = filter (is_stale exam_id (now - timeout_ms)) state.proctor_devices in
      elim (Bool-cases (length stale == 0)) [
        | inl is ↦ rw (mark_stale_in_memory, is) (no_length stale is, ground (arith, is))
        | inr isnt ↦
            rw (mark_stale_in_memory, isnt)
              (
                none_stale exam_id (now - timeout_ms) now stale state.proctor_devices
                    (covers (is_stale exam_id (now - timeout_ms)) state.proctor_devices),
                length-map-append (stale_event event_id now) stale state.proctor_events,
              )
      ]

-- A device of the exam that is connected and whose last heartbeat, if any, is longer ago than the
-- timeout. A device without a heartbeat counts as one of the year 1970.
abbrev pub is_silent : ℕ → ℕ → String → ProctorDevice → Bool
is_silent timeout_ms now exam_id device =
    (device.exam_id =ₛ exam_id && elim device.status [ connected ↦ true | _ ↦ false ])
    && ltb (optional 0 (λ at. at) device.last_heartbeat_at + timeout_ms) now

-- What becomes of a device among others: it is disconnected if it, or one of the same identifier, is
-- silent, and is left alone otherwise.
abbrev pub swept : ℕ → ℕ → String → List ProctorDevice → ProctorDevice → ProctorDevice
swept timeout_ms now exam_id devices device =
    if any (λ item. item.id =ₛ device.id && is_silent timeout_ms now exam_id item) devices
    then record device {
      status = disconnected;
      disconnected_at = some now;
      detail = some "heartbeat missed";
      updated_at = now;
    }
    else device

silent-stale :
    (timeout_ms now : ℕ) (exam_id : String) (device : ProctorDevice)
    → is_stale exam_id (now - timeout_ms) device ≡ is_silent timeout_ms now exam_id device
silent-stale timeout_ms now exam_id device = by_parts device.status device.last_heartbeat_at
  where
    by_heartbeat : (at : ℕ) → ltb at (now - timeout_ms) ≡ ltb (at + timeout_ms) now
    by_heartbeat at = ground arith

    by_parts :
        (status : ProctorDeviceStatus) (at : Option ℕ)
        → ((device.exam_id =ₛ exam_id && is_connected status)
            && ltb (heartbeat_of at) (now - timeout_ms))
          ≡ ((device.exam_id =ₛ exam_id && elim status [ connected ↦ true | _ ↦ false ])
              && ltb (optional 0 (λ t. t) at + timeout_ms) now)
    by_parts waiting none = ground arith
    by_parts waiting (some at) = ground arith
    by_parts connected none = ground (arith, by_heartbeat 0)
    by_parts connected (some at) = ground (arith, by_heartbeat at)
    by_parts disconnected none = ground arith
    by_parts disconnected (some at) = ground arith
    by_parts permission_denied none = ground arith
    by_parts permission_denied (some at) = ground arith

module _ (timeout_ms now : ℕ) (exam_id : String) where
  among_silent :
      (devices : List ProctorDevice) (device : ProctorDevice)
      → among (filter (is_stale exam_id (now - timeout_ms)) devices) device
        ≡ any (λ item. item.id =ₛ device.id && is_silent timeout_ms now exam_id item) devices
  among_silent [] device = refl
  among_silent (d ∷ ds) device =
      ground (arith, among_silent ds device, silent-stale timeout_ms now exam_id d)

  length_silent :
      (devices : List ProctorDevice)
      → length (filter (is_stale exam_id (now - timeout_ms)) devices)
        ≡ length (filter (is_silent timeout_ms now exam_id) devices)
  length_silent [] = refl
  length_silent (d ∷ ds) = ground (arith, length_silent ds, silent-stale timeout_ms now exam_id d)

  settle-swept :
      (all_devices devices : List ProctorDevice)
      → map (settle now (filter (is_stale exam_id (now - timeout_ms)) all_devices)) devices
        ≡ map (swept timeout_ms now exam_id all_devices) devices
  settle-swept all_devices [] = refl
  settle-swept all_devices (d ∷ ds) =
      let same = among_silent all_devices d in
      let rest = settle-swept all_devices ds in rw (same, rest) refl

  settle_nothing : (devices : List ProctorDevice) → map (settle now []) devices ≡ devices
  settle_nothing [] = refl
  settle_nothing (d ∷ ds) = ap (λ l. d ∷ l) (settle_nothing ds)

  devices_after :
      (event_id : String → String) (state : ProctorMemoryState)
      → (mark_stale_in_memory timeout_ms event_id now exam_id state).proctor_devices
        ≡ map (swept timeout_ms now exam_id state.proctor_devices) state.proctor_devices
  unfolding mark_stale_in_memory
  devices_after event_id state =
      let stale = filter (is_stale exam_id (now - timeout_ms)) state.proctor_devices in
      let goal = settle-swept state.proctor_devices state.proctor_devices in
      elim (Bool-cases (length stale == 0)) [
        | inl is ↦
            let nothing = no_length stale is in
            rw (mark_stale_in_memory, is)
              (sym (settle_nothing state.proctor_devices)
                ∙ ap (λ st. map (settle now st) state.proctor_devices) (sym nothing)
                ∙ goal)
        | inr isnt ↦ rw (mark_stale_in_memory, isnt) goal
      ]

-- Marking the stale devices of an exam disconnects exactly those of its connected devices whose
-- last heartbeat is longer ago than the timeout, and those of the same identifiers, and leaves all
-- others as they are. There is one new event for each such connected device, and marking again at
-- the same instant changes nothing.
pub mark_stale_in_memory-settles :
    (timeout_ms now : ℕ) (event_id : String → String) (exam_id : String)
    (state : ProctorMemoryState)
    → let after = mark_stale_in_memory timeout_ms event_id now exam_id state in
      (after.proctor_devices
        ≡ map (swept timeout_ms now exam_id state.proctor_devices) state.proctor_devices)
      × ((length after.proctor_events
            ≡ length (filter (is_silent timeout_ms now exam_id) state.proctor_devices)
              + length state.proctor_events)
          × (mark_stale_in_memory timeout_ms event_id now exam_id after ≡ after))
mark_stale_in_memory-settles timeout_ms now event_id exam_id state =
    let once = marked timeout_ms now event_id exam_id state in
    (
      devices_after timeout_ms now exam_id event_id state,
      (
        once.1
            ∙ ap (λ n. n + length state.proctor_events)
                (length_silent timeout_ms now exam_id state.proctor_devices),
        mark_nothing timeout_ms now event_id exam_id
            (mark_stale_in_memory timeout_ms event_id now exam_id state) once.0,
      ),
    )
