-- ===== src/Store/Facade/Admission.antt =====
-- apps/api/src/services/platform-store.service.ts: what has been checked when something of a
-- candidate is stored.
use big_project.Common.{String, ◌≡◌, inl, inr, ◌⊎◌}
use big_project.Common.Result.{Result, ok, throw, Exception, Result-cases}
use big_project.Shared.Submissions.{CodeInput}
use big_project.Store.{Memory}
use big_project.Store.Facade.{Service, Call, save_candidate_draft, run_code, submit_code}
use big_project.Store.Facade.Gates.{IsAdmitted, answered-IsAdmitted}
use big_project.Store.Facade.Refusals.{
  work_of, AnswersOrKeeps, save_candidate_draft-run_code-submit_code-AnswersOrKeeps,
}

module _ (service : Service) (call : Call) (memory : Memory) (token : String)
    (input : CodeInput) where
  -- The candidate was admitted, or the call throws, and no work of any candidate is changed.
  abbrev pub IsGated {ℓ} : {T : Type ℓ} → Memory × Result T → Type ℓ
  IsGated run =
      IsAdmitted service call memory token input
      ⊎ (((e : Exception) × (run.1 ≡ throw e)) × (work_of run.0 ≡ work_of memory))

  decided {ℓ} :
      {T : Type ℓ} (run : Memory × Result T)
      → ((t : T) → run.1 ≡ ok t → IsAdmitted service call memory token input)
      → AnswersOrKeeps memory run
      → IsGated run
  decided run admits answers = elim (Result-cases run.1) [
    | inr done ↦ inl (admits done.0 done.1)
    | inl thrown ↦ elim answers [
      | inl given ↦ inl (admits given.0 given.1)
      | inr keeps ↦ inr (thrown, keeps)
    ]
  ]

  -- Nothing of a candidate is stored unless the candidate is admitted. Each of the three calls that
  -- save a draft, run code and submit an answer throws and leaves the drafts, runs, submissions and
  -- candidates as they are, or the candidate is admitted: the exam is going on, the candidate has
  -- confirmed the entry and passed every check that the exam asks for, the question is of the exam,
  -- every PAUSE and TERMINATE of a proctor has been followed by a RESUME, and a second of the session
  -- is left at least.
  pub save_candidate_draft-run_code-submit_code-IsGated :
      IsGated (save_candidate_draft service call memory token input)
      × IsGated (run_code service call memory token input)
      × IsGated (submit_code service call memory token input)
  save_candidate_draft-run_code-submit_code-IsGated =
      let answers =
        save_candidate_draft-run_code-submit_code-AnswersOrKeeps service call memory token input in
      let admits = answered-IsAdmitted service call memory token input in
      (
        decided (save_candidate_draft service call memory token input) (λ t h. admits (inl (t, h)))
            answers.0,
        decided (run_code service call memory token input) (λ t h. admits (inr (inl (t, h))))
            answers.1.0,
        decided (submit_code service call memory token input) (λ t h. admits (inr (inr (t, h))))
            answers.1.1,
      )
