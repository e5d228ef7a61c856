-- ===== src/OrganizationRequests/Allowed.antt =====
-- Which requests a user may make.
use big_project.Common.{
  ℕ, String, ◌≡◌, ◌↔◌, Bool, true, ◌&&◌, Option, none, some, arith, ◌=ₛ◌, ltb, ◌==◌,
}
use big_project.Common.Result.{ok}
use big_project.Shared.{UserRole, admin, organization, proctor, candidate}
use big_project.Auth.{truthy}
use big_project.OrganizationRequests.{assert_request_allowed}

-- The rank of a role. An operator is in every organization, and asks for nothing.
abbrev pub rank : UserRole → ℕ
rank candidate = 0
rank proctor = 1
rank organization = 2
rank admin = 3

-- Nobody may ask for the rank of an operator. Without an organization one may ask to become a
-- candidate of any; with one, only for a higher rank in the same.
abbrev pub may_request : Option String → UserRole → String → UserRole → Bool
may_request own role organization_id requested = ltb (rank requested) 3 && elim (truthy own) [
  | none ↦ rank requested == 0
  | some id ↦ id =ₛ organization_id && ltb (rank role) (rank requested)
]

-- A request is allowed exactly to those who have no organization, to become a candidate, and to
-- the members of the organization, for a role of a higher rank than theirs. Nobody can ask for the
-- role of an operator.
pub assert_request_allowed_iff :
    (own : Option String) (role : UserRole) (organization_id : String) (requested : UserRole)
    → (assert_request_allowed own role organization_id requested ≡ ok tt)
      ↔ (may_request own role organization_id requested ≡ true)
unfolding assert_request_allowed
assert_request_allowed_iff own role organization_id requested = ground arith
