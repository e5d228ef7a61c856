-- ===== src/Store/Risk/Levels.antt =====
-- apps/api/src/services/platform-store.helpers.ts: how the risk score grows, and when the checks of
-- the environment are passed.
use big_project.Common.{ℕ, ◌+◌, ◌*◌, ◌≤◌, ◌≡◌, refl, ◌∙◌, List, [], ◌∷◌, ◌++◌, arith, length}
use big_project.Shared.Proctoring.{
  ProctorEventType, tab_hidden, tab_visible, window_blur, window_focus, copy, paste,
  fullscreen_exit, fullscreen_enter, primary_camera_connected, primary_camera_disconnected,
  primary_camera_permission_denied, mobile_camera_connected, mobile_camera_disconnected,
  mobile_camera_permission_denied, mobile_page_hidden, mobile_page_visible, mobile_page_left,
  mobile_network_offline, mobile_network_online, mobile_heartbeat_missed, ProctorRiskLevel, safe,
  warning, danger,
}
use big_project.Store.Risk.{event_score, add_scores, calculate_risk_score, calculate_risk_level}

event_score_bounds : (type : ProctorEventType) → (1 ≤ event_score type) × (event_score type ≤ 20)
unfolding event_score
event_score_bounds tab_hidden = (omega arith, omega arith)
event_score_bounds tab_visible = (omega arith, omega arith)
event_score_bounds window_blur = (omega arith, omega arith)
event_score_bounds window_focus = (omega arith, omega arith)
event_score_bounds copy = (omega arith, omega arith)
event_score_bounds paste = (omega arith, omega arith)
event_score_bounds fullscreen_exit = (omega arith, omega arith)
event_score_bounds fullscreen_enter = (omega arith, omega arith)
event_score_bounds primary_camera_connected = (omega arith, omega arith)
event_score_bounds primary_camera_disconnected = (omega arith, omega arith)
event_score_bounds primary_camera_permission_denied = (omega arith, omega arith)
event_score_bounds mobile_camera_connected = (omega arith, omega arith)
event_score_bounds mobile_camera_disconnected = (omega arith, omega arith)
event_score_bounds mobile_camera_permission_denied = (omega arith, omega arith)
event_score_bounds mobile_page_hidden = (omega arith, omega arith)
event_score_bounds mobile_page_visible = (omega arith, omega arith)
event_score_bounds mobile_page_left = (omega arith, omega arith)
event_score_bounds mobile_network_offline = (omega arith, omega arith)
event_score_bounds mobile_network_online = (omega arith, omega arith)
event_score_bounds mobile_heartbeat_missed = (omega arith, omega arith)

add_scores_start :
    (score : ℕ) (types : List ProctorEventType)
    → add_scores score types ≡ score + add_scores 0 types
add_scores_start score [] = omega arith
add_scores_start score (type ∷ types) = omega (
  arith,
  add_scores_start (score + event_score type) types,
  add_scores_start (0 + event_score type) types,
)

add_scores-append :
    (score : ℕ) (types more : List ProctorEventType)
    → add_scores score (types ++ more) ≡ add_scores (add_scores score types) more
add_scores-append score [] more = refl
add_scores-append score (type ∷ types) more =
    add_scores-append (score + event_score type) types more

add_scores_bounds :
    (types : List ProctorEventType)
    → (length types ≤ add_scores 0 types) × (add_scores 0 types ≤ 20 * length types)
add_scores_bounds [] = (omega arith, omega arith)
add_scores_bounds (type ∷ types) =
    let rest = add_scores_bounds types in
    let first = event_score_bounds type in
    let start = add_scores_start (0 + event_score type) types in
    (omega (arith, rest.0, first.0, start), omega (arith, rest.1, first.1, start))

abbrev pub rank : ProctorRiskLevel → ℕ
rank safe = 0
rank warning = 1
rank danger = 2

level_le : (a b : ℕ) → a ≤ b → rank (calculate_risk_level a) ≤ rank (calculate_risk_level b)
unfolding calculate_risk_level
level_le a b h = ground (arith, h)

-- The score of a sequence of events is the sum of the scores of its parts, so their order does not
-- matter, it lies between 1 and 20 for each event, and more events never lower the level.
pub calculate_risk_score-append :
    (types more : List ProctorEventType)
    → (calculate_risk_score (types ++ more)
        ≡ calculate_risk_score types + calculate_risk_score more)
      × (((length types ≤ calculate_risk_score types)
            × (calculate_risk_score types ≤ 20 * length types))
          × (rank (calculate_risk_level (calculate_risk_score types))
              ≤ rank (calculate_risk_level (calculate_risk_score (types ++ more)))))
unfolding calculate_risk_score calculate_risk_level
calculate_risk_score-append types more =
    let sum : add_scores 0 (types ++ more) ≡ add_scores 0 types + add_scores 0 more =
      add_scores-append 0 types more ∙ add_scores_start (add_scores 0 types) more in
    (
      sum,
      (
        add_scores_bounds types,
        level_le (add_scores 0 types) (add_scores 0 (types ++ more)) (omega (arith, sum)),
      ),
    )
