-- ===== src/ExamAdmin/Access.antt =====
-- apps/api/src/services/platform-store.exam-admin.ts: who reaches which exam, and what stays of the
-- exams when one is replaced.
use big_project.Common.{
  String, ◌≡◌, refl, inl, inr, Bool, true, false, Option, none, some, List, [], ◌∷◌, arith, eq_iff,
  if◌then◌else◌, Bool-cases, find, any,
}
use big_project.Common.Result.{ok, throw, Exception, not_found}
use big_project.Shared.{AuthSession}
use big_project.Shared.Exams.{Exam}
use big_project.ExamAdmin.Table.{has_id, replace}
use big_project.ExamAdmin.{
  is_deleted, is_within, can_access_exam, require_exam, assert_session_can_access_exam,
}

-- Whether a search has found an exam that the session may reach.
abbrev pub is_reachable : AuthSession → Option Exam → Bool
is_reachable session none = false
is_reachable session (some exam) = can_access_exam session exam

pub require_exam_unreachable :
    (session : AuthSession) (found : Option Exam)
    → is_reachable session found ≡ false
    → require_exam session found ≡ throw not_found
unfolding require_exam can_access_exam assert_session_can_access_exam
require_exam_unreachable session none h = refl
require_exam_unreachable session (some exam) h = ground (arith, h)

pub require_exam_reachable :
    (session : AuthSession) (found : Option Exam) (exam : Exam)
    → require_exam session found ≡ ok exam
    → (found ≡ some exam) × (can_access_exam session exam ≡ true)
unfolding require_exam can_access_exam assert_session_can_access_exam
require_exam_reachable session none exam h = ground (arith, h)
require_exam_reachable session (some found) exam h = elim (Bool-cases (is_deleted found.status)) [
  | inl is ↦ ground (arith, h, is)
  | inr isnt ↦ elim (Bool-cases (is_within session found.organization_id)) [
    | inl within ↦ ground (arith, h, isnt, within)
    | inr out ↦ ground (arith, h, isnt, out)
  ]
]

pub find-replace :
    (id : String) (exam : Exam) (exams : List Exam)
    → exam.id ≡ id
    → find (has_id id) (replace id exam exams) ≡ (if any (has_id id) exams then some exam else none)
find-replace id exam [] h = refl
find-replace id exam (x ∷ xs) h =
    ground (arith, find-replace id exam xs h, eq_iff x.id id, eq_iff exam.id id, h)

pub require_exam_throws :
    (session : AuthSession) (found : Option Exam) (e : Exception)
    → require_exam session found ≡ throw e
    → e ≡ not_found
unfolding require_exam assert_session_can_access_exam
require_exam_throws session none e h = ground (arith, h)
require_exam_throws session (some found) e h = ground (arith, h)
