-- ===== src/Store/Tests.antt =====
-- A memory with one exam and one candidate at work, and runs of the parts of the store on it.
use big_project.Common.{ℕ, ◌+◌, ◌*◌, ◌/◌, ◌≤◌, ◌<◌, ◌≡◌, true, false, none, some, [], ◌∷◌, arith}
use native.Mathlib.Nat.{
  mul-div_right, zero-div, div-mul-le_self, le-div_iff_mul-le, div-eq_of_eq-mul_left,
}
use big_project.Shared.{organization, Organization, AuthSession}
use big_project.Shared.Exams.{Exam, active, Question, coding, easy, TestCase, Candidate, ready}
use big_project.Shared.Proctoring.{mobile_aux, connected, ProctorDevice}
use big_project.Shared.Checks.{EnvironmentCheck}
use big_project.Shared.Submissions.{CodeInput}
use big_project.Shared.Invites.{CandidateInvite}
use big_project.CodeRunner.Judge.{success, CodeRunnerResult}
use big_project.Store.{Memory, Source}
use big_project.Store.Portal.{invite_of}
use big_project.Store.Execution.{Texts, Numbers}

abbrev pub organization_a : Organization
organization_a = record { id = "A"; name = "A"; join_code = none; created_at = 0 }

abbrev pub exam_a : Exam
exam_a = record {
  id = "e1";
  organization_id = "A";
  title = "Final";
  description = "";
  start_at = some 1000;
  end_at = some 900000;
  duration_minutes = 10;
  status = active;
  languages = "python" ∷ [];
  proctoring_enabled = true;
  identity_verification_enabled = false;
  mobile_camera_required = true;
  screen_share_required = false;
  created_at = 1;
}

abbrev pub question_a : Question
question_a = record {
  id = "q1";
  exam_id = "e1";
  title = "Sum";
  description = "";
  type = coding;
  points = 10;
  difficulty = easy;
  time_limit_ms = 1000;
  memory_limit_mb = 64;
  choices = [];
  expected_answer = some "42";
  created_at = 2;
}

abbrev pub test_case_a : TestCase
test_case_a = record {
  id = "t1";
  question_id = "q1";
  input = "1";
  expected_output = "42";
  is_public = false;
  created_at = 3;
}

abbrev pub candidate_a : Candidate
candidate_a = record {
  id = "c1";
  exam_id = "e1";
  name = "Kim";
  email = "kim@x";
  status = ready;
  invite_token = "token";
  identity_privacy_consent_version = none;
  identity_privacy_consent_accepted_at = none;
  created_at = 4;
}

abbrev pub phone_a : ProctorDevice
phone_a = record {
  id = "d1";
  candidate_id = "c1";
  exam_id = "e1";
  role = mobile_aux;
  status = connected;
  connected_at = some 5000;
  disconnected_at = none;
  last_heartbeat_at = some 9000;
  detail = none;
  created_at = 5000;
  updated_at = 9000;
}

abbrev pub check_a : EnvironmentCheck
check_a = record {
  id = "k1";
  candidate_id = "c1";
  exam_id = "e1";
  results = [];
  required_passed = true;
  created_at = 6;
}

abbrev pub memory_a : Memory
memory_a = record {
  organization = organization_a;
  exams = exam_a ∷ [];
  questions = question_a ∷ [];
  candidates = candidate_a ∷ [];
  test_cases = test_case_a ∷ [];
  proctor_events = [];
  proctor_devices = phone_a ∷ [];
  proctor_actions = [];
  identity_verifications = [];
  environment_checks = check_a ∷ [];
  exam_sessions = [];
  code_drafts = [];
  code_executions = [];
  submissions = [];
}

abbrev pub source_a : Source
source_a = record { now = 10000; new_id = "n1"; new_token = "s1" }

abbrev pub source_b : Source
source_b = record { now = 70500; new_id = "n2"; new_token = "s2" }

abbrev pub invite_a : CandidateInvite
invite_a = invite_of memory_a candidate_a exam_a

abbrev pub input_a : CodeInput
input_a = record { question_id = "q1"; language = "python"; code = "print(42)" }

abbrev pub session_a : AuthSession
session_a = record {
  token = "t";
  user = record {
    id = "u";
    email = "u@x";
    name = "U";
    role = organization;
    organization_id = some "A";
    created_at = 0;
  };
  organization = organization_a;
  password_change_required = false;
}

abbrev pub texts_a : Texts
texts_a = record { trim = λ s. s; to_lower_case = λ s. s; collapse_spaces = λ s. s }

-- Two tests, both passed.
abbrev pub judged_a : CodeRunnerResult
judged_a = record {
  status = success;
  output = "";
  error = none;
  execution_time_ms = 3;
  memory_usage_mb = 0;
  passed_tests = 2;
  total_tests = 2;
  test_results = [];
}

-- Fixed-point numbers of three digits.
abbrev pub thousandths : ℕ → ℕ
thousandths n = n * 1000

pub divide_thousandths-le :
    (p q t : ℕ)
    → p ≤ q
    → 0 < t
    → thousandths p * 1000 / thousandths t ≤ thousandths q * 1000 / thousandths t
divide_thousandths-le p q t h some_t =
    let positive : 0 < thousandths t = omega (arith, some_t) in
    let low = div-mul-le_self (thousandths p * 1000) (thousandths t) in
    (le-div_iff_mul-le positive).1 (omega (arith, low, h))

pub times_thousandths-le : (x y z : ℕ) → x ≤ y → x * z / 1000 ≤ y * z / 1000
times_thousandths-le x y z h = let more : x * z ≤ y * z = grind (arith, h) in omega (arith, more)

pub times_thousandths : (a b : ℕ) → thousandths a * thousandths b / 1000 ≡ thousandths (a * b)
times_thousandths a b =
    let same : thousandths a * thousandths b ≡ thousandths (a * b) * 1000 = grind (arith) in
    div-eq_of_eq-mul_left (omega arith) same

abbrev pub numbers_a : Numbers
numbers_a = record {
  of_nat = thousandths;
  divide = λ x y. x * 1000 / y;
  times = λ x y. x * y / 1000;
  round = λ x. (x + 500) / 1000;
  divide_self = λ t h. mul-div_right 1000 (omega (arith, h));
  divide_zero = λ t h. zero-div (thousandths t);
  divide-le = divide_thousandths-le;
  times-of_nat = λ a b h. times_thousandths a b;
  times-le = times_thousandths-le;
  round-of_nat = λ n h. omega arith;
  round-le = λ x y h. omega (arith, h);
}
