-- ===== src/OrganizationRequests/Race.antt =====
-- Two reviews of one request whose transactions follow both of their checks.
use big_project.Common.{ℕ, String, ◌≡◌, refl, ap, subst, ◌∙◌, inl, inr, some, arith}
use big_project.Common.Result.{ok}
use big_project.Shared.{AuthSession}
use big_project.Auth.Table.{UserRow}
use big_project.OrganizationRequests.Table.{rejected, RequestRow, RequestTables}
use big_project.OrganizationRequests.{
  ReviewInput, approve, reject, Host, check_review, decide, join, commit_review,
}
use big_project.OrganizationRequests.Review.{check_review_sound, commit_review-Decided}

module _ (tables : RequestTables) (host : Host) where
  open tables use {Db, find_request, find_user, update_user, update_request}

  -- The request is rejected, but its user has the role and the organization.
  abbrev pub Overwritten : Db → RequestRow → UserRow → Type 0
  Overwritten db row user =
      (decided : RequestRow) × (find_request db row.id ≡ some decided)
      × (decided.status ≡ rejected)
      × (find_user db row.user_id ≡ some (join tables host row user))

  race_lem :
      (db : Db) (first second : AuthSession) (now later : ℕ) (reason : String) (row : RequestRow)
      (user : UserRow)
      → find_request db row.id ≡ some row
      → find_user db row.user_id ≡ some user
      → Overwritten
          (commit_review tables host
            (commit_review tables host db first now row approve).0
            second
            later
            row
            (reject reason)).0
          row
          user
  unfolding commit_review
  race_lem db first second now later reason row user here there =
      let f : RequestRow → RequestRow = decide tables host first now approve in
      let g : RequestRow → RequestRow = decide tables host second later (reject reason) in
      let after : Db = (commit_review tables host db first now row approve).0 in
      let (found, moved, others) =
        commit_review-Decided tables host db first now row row (f row) approve here
          (rw (commit_review, there, here) refl) in
      let (found2, moved2, others2) =
        commit_review-Decided tables host after second later row (f row) (g (f row)) (reject reason)
          found (ground arith) in
      elim moved [
        | inr (e, kept) ↦ absurd (ground arith)
        | inl (e, (u, was, joined)) ↦ elim moved2 [
          | inl (e2, again) ↦ absurd (ground arith)
          | inr (e2, kept) ↦
              let same : u ≡ user = ground arith in
              (
                g (f row),
                found2,
                refl,
                kept ∙ joined ∙ ap (λ v. some (join tables host row v)) same,
              )
        ]
      ]

  -- Two reviews of one request that have both been checked before either is written are both
  -- written: after an approval and then a rejection the request is rejected, but its user has the
  -- role and the organization.
  pub review_race :
      (db : Db) (first second : AuthSession) (now later : ℕ) (id reason : String)
      (input again : ReviewInput) (row row2 : RequestRow) (user : UserRow)
      → check_review tables host db first id input ≡ ok (row, approve)
      → check_review tables host db second id again ≡ ok (row2, reject reason)
      → find_user db row.user_id ≡ some user
      → Overwritten
          (commit_review tables host
            (commit_review tables host db first now row approve).0
            second
            later
            row2
            (reject reason)).0
          row
          user
  review_race db first second now later id reason input again row row2 user c1 c2 there =
      let (here, may, scope, open_status) =
        check_review_sound tables host db first id input row approve c1 in
      let (here2, may2, scope2, open2) =
        check_review_sound tables host db second id again row2 (reject reason) c2 in
      let same : row ≡ row2 = ground arith in
      let own : find_request db row.id ≡ some row =
        ap (find_request db) (tables.find_request-id db id row here) ∙ here in
      subst
        (λ r.
          Overwritten
            (commit_review tables host (commit_review tables host db first now row approve).0 second
              later r (reject reason)).0
            row user)
        same (race_lem db first second now later reason row user own there)
