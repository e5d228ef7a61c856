-- ===== src/ExamAdmin/Visible.antt =====
-- apps/api/src/services/platform-store.exam-admin.ts: which exams a session may see, and that
-- `canAccessExam` and `scopedExamWhere` say the same of it.
use big_project.Common.{
  String, ◌≡◌, refl, ap, ◌≢◌, inl, inr, true, false, some, List, arith, Bool-cases, Memᴰ, ◌⊎◌, ◌↔◌,
  sym, ◌∙◌, Option, none, not, ◌&&◌, optional, ◌=ₛ◌, ◌==◌, eq_iff,
}
use big_project.Shared.Exams.{Exam, ExamStatus, draft, scheduled, active, ended, deleted}
use big_project.Shared.{UserRole, admin, organization, proctor, candidate, AuthSession}
use big_project.AdminUsers.Table.{is_admin}
use big_project.ExamAdmin.Table.{matches, status_number}
use big_project.ExamAdmin.{can_access_exam, scoped_exam_where, is_within, is_deleted}

-- What a session may see of the exams: none that is deleted, and only its organization's unless its
-- user is an operator.
abbrev pub IsVisible : AuthSession → Exam → Type 0
IsVisible session exam =
    (exam.status ≢ deleted)
    × ((session.user.role ≡ admin) ⊎ (exam.organization_id ≡ session.organization.id))

-- A list of the visible exams of another list, and of no others.
abbrev pub ListsVisible : AuthSession → List Exam → List Exam → Type 0
ListsVisible session source found =
    (exam : Exam) → Memᴰ exam found ↔ (Memᴰ exam source × IsVisible session exam)

operator_or_not : (role : UserRole) → (role ≡ admin) ⊎ (is_admin role ≡ false)
operator_or_not admin = inl refl
operator_or_not organization = inr refl
operator_or_not proctor = inr refl
operator_or_not candidate = inr refl

not_deleted : (status : ExamStatus) → (is_deleted status ≡ false) ↔ (status ≢ deleted)
not_deleted draft = (λ h. ground arith, λ h. refl)
not_deleted scheduled = (λ h. ground arith, λ h. refl)
not_deleted active = (λ h. ground arith, λ h. refl)
not_deleted ended = (λ h. ground arith, λ h. refl)
not_deleted deleted = (λ h. ground (arith, h), λ h. absurd (h refl))

is_within_iff :
    (session : AuthSession) (id : String)
    → (is_within session id ≡ true) ↔ ((session.user.role ≡ admin) ⊎ (id ≡ session.organization.id))
is_within_iff session id =
    let e = eq_iff session.organization.id id in
    elim (operator_or_not session.user.role) [
      | inl is ↦ (λ h. inl is, λ h. rw (is) refl)
      | inr isnt ↦ (
        λ h. inr (sym (e.0 (ground (arith, h, isnt)))),
        λ h. elim h [
          | inl is ↦ absurd (ground (arith, is, isnt))
          | inr same ↦ rw (isnt) (e.1 (sym same))
        ],
      )
    ]

pub can_access_exam-IsVisible :
    (session : AuthSession) (exam : Exam)
    → (can_access_exam session exam ≡ true) ↔ IsVisible session exam
unfolding can_access_exam
can_access_exam-IsVisible session exam =
    let live = not_deleted exam.status in
    let within = is_within_iff session exam.organization_id in
    (
      λ h. (live.0 (ground (arith, h)), within.0 (ground (arith, h))),
      λ h. let a = live.1 h.0 in let b = within.1 h.1 in rw (can_access_exam, a, b) refl,
    )

matches_deleted :
    (exam : Exam) (id : Option String)
    → matches (record { status_not = deleted; organization_id = id }) exam
      ≡ (not (is_deleted exam.status) && optional true (λ i. exam.organization_id =ₛ i) id)
matches_deleted exam id = by_status exam.status
  where
    by_status :
        (status : ExamStatus)
        → (not (status_number status == 4) && optional true (λ i. exam.organization_id =ₛ i) id)
          ≡ (not (is_deleted status) && optional true (λ i. exam.organization_id =ₛ i) id)
    by_status draft = refl
    by_status scheduled = refl
    by_status active = refl
    by_status ended = refl
    by_status deleted = refl

-- The condition of the query selects what `canAccessExam` lets through.
pub scoped_exam_where-can_access_exam :
    (session : AuthSession) (exam : Exam)
    → matches (scoped_exam_where session) exam ≡ can_access_exam session exam
unfolding scoped_exam_where can_access_exam
scoped_exam_where-can_access_exam session exam = elim (Bool-cases (is_admin session.user.role)) [
  | inl is ↦ rw (scoped_exam_where, can_access_exam, is) (matches_deleted exam none)
  | inr isnt ↦
      let same : (exam.organization_id =ₛ session.organization.id)
          ≡ (session.organization.id =ₛ exam.organization_id) =
        ground (
          arith,
          eq_iff exam.organization_id session.organization.id,
          eq_iff session.organization.id exam.organization_id,
        ) in
      rw (scoped_exam_where, can_access_exam, isnt)
        (matches_deleted exam (some session.organization.id)
          ∙ ap (λ b. not (is_deleted exam.status) && b) same)
]
