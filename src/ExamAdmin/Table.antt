-- ===== src/ExamAdmin/Table.antt =====
-- What the administration of exams takes from the database client: reads, and writes whose laws
-- say what they do to the rows of the table of exams, latest created first.
use big_project.Common.{
  ℕ, String, ◌≡◌, ◌↔◌, Bool, true, not, ◌&&◌, Option, some, List, ◌∷◌, Memᴰ, map, ◌=ₛ◌, ◌==◌,
  if◌then◌else◌, optional, find,
}
use big_project.Shared.Exams.{Exam, ExamStatus, draft, scheduled, active, ended, deleted}

abbrev pub has_id : String → Exam → Bool
has_id id exam = exam.id =ₛ id

-- `exams.map((item) => item.id === id ? exam : item)`
abbrev pub replace : String → Exam → List Exam → List Exam
replace id exam exams = map (λ item. if has_id id item then exam else item) exams

-- The number of a status, by which two are compared.
abbrev pub status_number : ExamStatus → ℕ
status_number draft = 0
status_number scheduled = 1
status_number active = 2
status_number ended = 3
status_number deleted = 4

-- A condition of a query: `status: { not: … }`, and `organizationId: …` where it is given.
pub record ExamWhere : Type 0 where
  pub status_not : ExamStatus
  pub organization_id : Option String

-- The rows that the client documents a condition to select.
abbrev pub matches : ExamWhere → Exam → Bool
matches condition exam =
    not (status_number exam.status == status_number condition.status_not)
    && optional true (λ id. exam.organization_id =ₛ id) condition.organization_id

pub record ExamTable : Type 1 where
  pub Db : Type 0
  pub exams : Db → List Exam
  pub find_unique : Db → String → Option Exam
  pub find_many : Db → ExamWhere → List Exam
  pub create : Db → Exam → Db
  pub update : Db → String → (Exam → Exam) → Db
  pub find_unique_lem : (db : Db) (id : String) → find_unique db id ≡ find (has_id id) (exams db)
  pub find_many_lem :
      (db : Db) (condition : ExamWhere) (exam : Exam)
      → Memᴰ exam (find_many db condition)
        ↔ (Memᴰ exam (exams db) × (matches condition exam ≡ true))
  pub exams-create : (db : Db) (exam : Exam) → exams (create db exam) ≡ exam ∷ exams db
  pub exams-update :
      (db : Db) (id : String) (f : Exam → Exam) (exam : Exam)
      → find_unique db id ≡ some exam
      → exams (update db id f) ≡ replace id (f exam) (exams db)
