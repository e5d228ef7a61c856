-- ===== src/OrganizationRequests/Review.antt =====
-- What a review does, and that it happens once.
use big_project.Common.{
  ℕ, String, ◌≡◌, refl, sym, ap, subst, ◌∙◌, ◌≢◌, ◌⊎◌, inl, inr, true, some, arith, Option-cases,
  Bool-cases, before,
}
use big_project.Common.Result.{Result, ok, throw, ◌>>=◌, Result-cases}
use big_project.Shared.{AuthSession}
use big_project.AdminUsers.Table.{is_admin}
use big_project.Auth.Table.{UserRow}
use big_project.OrganizationRequests.Table.{
  RequestStatus, pending, approved, rejected, RequestRow, RequestTables,
}
use big_project.OrganizationRequests.{
  ReviewInput, Action, approve, reject, Host, parse_review_input, can_review, is_in_scope,
  check_review, decide, join, commit_review, review_request, to_request,
}

to_request-ok :
    (answer : Result RequestRow) (decided : RequestRow)
    → answer >>= to_request ≡ ok decided
    → answer ≡ ok decided
to_request-ok (throw e) decided h = absurd (ground (arith, h))
to_request-ok (ok row) decided h = elim (Bool-cases (is_admin row.requested_role)) [
  | inl is ↦ absurd (ground (arith, h, is))
  | inr isnt ↦ ground (arith, h, isnt)
]

module _ (tables : RequestTables) (host : Host) where
  open tables use {Db, find_request, find_user, update_user, update_request}

  pub check_review_sound :
      (db : Db) (session : AuthSession) (id : String) (input : ReviewInput) (row : RequestRow)
      (action : Action)
      → check_review tables host db session id input ≡ ok (row, action)
      → (find_request db id ≡ some row)
        × (can_review session.user.role ≡ true)
        × (is_in_scope tables host session row ≡ true)
        × (row.status ≡ pending)
  unfolding check_review
  check_review_sound db session id input row action h =
      elim (Result-cases (parse_review_input host input)) [
        | inl (e, bad) ↦ absurd (ground arith)
        | inr (a, good) ↦ elim (Option-cases (find_request db id)) [
          | inl missing ↦ absurd (ground arith)
          | inr (found, here) ↦
              let same : found ≡ row = ground arith in
              (here ∙ ap some same, ground arith, ground arith, ground arith)
        ]
      ]

  -- What a decision does to the user of the request: an approval moves the user, a rejection leaves
  -- the user alone.
  abbrev pub Moved : Db → Db → RequestRow → RequestStatus → Type 0
  Moved before after row status =
      ((status ≡ approved)
        × ((u : UserRow) × (find_user before row.user_id ≡ some u)
            × (find_user after row.user_id ≡ some (join tables host row u))))
      ⊎ ((status ≡ rejected) × (find_user after row.user_id ≡ find_user before row.user_id))

  -- The request is decided, its user moved if it is approved, and no other user changed.
  abbrev pub Decided : Db → Db → RequestRow → RequestRow → Type 0
  Decided before after row decided =
      (find_request after row.id ≡ some decided)
      × Moved before after row decided.status
      × ((other : String) → row.user_id ≢ other → find_user after other ≡ find_user before other)

  pub commit_review-Decided :
      (db : Db) (session : AuthSession) (now : ℕ) (row current decided : RequestRow)
      (action : Action)
      → find_request db row.id ≡ some current
      → (commit_review tables host db session now row action).1 ≡ ok decided
      → Decided db (commit_review tables host db session now row action).0 row decided
  unfolding commit_review
  commit_review-Decided db session now row current decided (reject reason) here h =
      let f : RequestRow → RequestRow = decide tables host session now (reject reason) in
      let same : f current ≡ decided = ground arith in
      let run : (commit_review tables host db session now row (reject reason)).0
          ≡ update_request db row.id f =
        ground arith in
      (
        rw run (
            tables.find_request-update_request db row.id f current (λ r. refl) here ∙ ap some same),
        inr (rw (sym same) refl, rw run (tables.find_user-update_request db row.id row.user_id f)),
        λ other differs. rw run (tables.find_user-update_request db row.id other f),
      )
  commit_review-Decided db session now row current decided approve here h =
      elim (Option-cases (find_user db row.user_id)) [
        | inl gone ↦ absurd (ground arith)
        | inr (u, there) ↦
            let f : RequestRow → RequestRow = decide tables host session now approve in
            let moved : Db = update_user db row.user_id (join tables host row) in
            let kept : find_request moved row.id ≡ some current =
              tables.find_request-update_user db row.user_id row.id (join tables host row) ∙ here in
            let same : f current ≡ decided = ground arith in
            let run : (commit_review tables host db session now row approve).0
                ≡ update_request moved row.id f =
              ground arith in
            (
              rw run (
                  tables.find_request-update_request moved row.id f current (λ r. refl) kept
                  ∙ ap some same),
              inl (
                rw (sym same) refl,
                (
                  u,
                  there,
                  rw run (
                      tables.find_user-update_request moved row.id row.user_id f
                      ∙ tables.find_user-update_user db row.user_id (join tables host row) u
                          (λ v. refl) there),
                ),
              ),
              λ other differs. rw run (
                  tables.find_user-update_request moved row.id other f
                  ∙ tables.find_user-update_user_other db row.user_id other (join tables host row)
                      differs),
            )
      ]

  pub review_request_ok :
      (db : Db) (session : AuthSession) (now : ℕ) (id : String) (input : ReviewInput)
      (decided : RequestRow)
      → (review_request tables host db session now id input).1 ≡ ok decided
      → (row : RequestRow) × (find_request db id ≡ some row)
        × (row.id ≡ id)
        × (can_review session.user.role ≡ true)
        × (is_in_scope tables host session row ≡ true)
        × (row.status ≡ pending)
        × Decided db (review_request tables host db session now id input).0 row decided
  unfolding review_request
  review_request_ok db session now id input decided h =
      elim (Result-cases (check_review tables host db session id input)) [
        | inl (e, refused) ↦ absurd (ground arith)
        | inr ((row, action), checked) ↦
            let (here, may, scope, open_status) =
              check_review_sound db session id input row action checked in
            let own : row.id ≡ id = tables.find_request-id db id row here in
            let commit = commit_review tables host db session now row action in
            let run : review_request tables host db session now id input
                ≡ (commit.0, commit.1 >>= to_request) =
              rw (review_request, checked) refl in
            let answer : commit.1 ≡ ok decided =
              to_request-ok commit.1 decided (ap (λ x. x.1) (sym run) ∙ h) in
            let there : find_request db row.id ≡ some row = ap (find_request db) own ∙ here in
            let done = commit_review-Decided db session now row row decided action there answer in
            (
              row,
              here,
              own,
              may,
              scope,
              open_status,
              subst (λ x. Decided db x.0 row decided) (sym run) done,
            )
      ]

  -- A review that starts after a successful review of the same request has ended does not succeed,
  -- whoever the reviewer is.
  pub review_request_once :
      (db : Db) (first second : AuthSession) (now later : ℕ) (id : String)
      (input again : ReviewInput) (decided other : RequestRow)
      → (review_request tables host db first now id input).1 ≡ ok decided
      → (review_request tables host
          (review_request tables host db first now id input).0
          second
          later
          id
          again).1
        ≢ ok other
  review_request_once db first second now later id input again decided other h k =
      let after : Db = (review_request tables host db first now id input).0 in
      let (row, here, own, may, scope, open_status, done) =
        review_request_ok db first now id input decided h in
      let (row2, here2, own2, may2, scope2, open2, done2) =
        review_request_ok after second later id again other k in
      let stored : find_request after id ≡ some decided =
        ap (find_request after) (sym own) ∙ done.0 in
      let same : decided ≡ row2 = ground arith in
      let (stored2, moved, others) = done in
      elim moved [ inl (e, joined) ↦ ground arith | inr (e, kept) ↦ ground arith ]
