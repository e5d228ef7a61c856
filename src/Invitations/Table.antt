-- ===== src/Invitations/Table.antt =====
-- What the service for invitations takes from the database client: two tables. `updateMany` writes
-- the rows that pass a test, and leaves the others and the other table alone.
use big_project.Common.{ℕ, String, ◌≡◌, Bool, Option, List, ◌∷◌, map, ◌=ₛ◌, if◌then◌else◌}
use big_project.Shared.{UserRole}
use big_project.Auth.Table.{UserRow}

pub data InvitationStatus : Type 0 where
  pending accepted cancelled : InvitationStatus

pub record InvitationRow : Type 0 where
  pub id : String
  pub token : String
  pub organization_id : String
  pub invited_user_id : String
  pub requested_role : UserRole
  pub status : InvitationStatus
  pub invited_by_id : String
  pub created_at : ℕ
  pub accepted_at : Option ℕ

abbrev pub invitation_has_id : String → InvitationRow → Bool
invitation_has_id id row = row.id =ₛ id

abbrev pub update_where {ℓ} : {A : Type ℓ} → (A → Bool) → (A → A) → List A → List A
update_where p f xs = map (λ x. if p x then f x else x) xs

pub record InvitationTables : Type 1 where
  pub Db : Type 0
  pub users : Db → List UserRow
  pub invitations : Db → List InvitationRow
  pub update_users : Db → (UserRow → Bool) → (UserRow → UserRow) → Db
  pub update_invitations : Db → (InvitationRow → Bool) → (InvitationRow → InvitationRow) → Db
  pub create_invitation : Db → InvitationRow → Db
  pub users-update_users :
      (db : Db) (p : UserRow → Bool) (f : UserRow → UserRow)
      → users (update_users db p f) ≡ update_where p f (users db)
  pub users-update_invitations :
      (db : Db) (p : InvitationRow → Bool) (f : InvitationRow → InvitationRow)
      → users (update_invitations db p f) ≡ users db
  pub invitations-update_users :
      (db : Db) (p : UserRow → Bool) (f : UserRow → UserRow)
      → invitations (update_users db p f) ≡ invitations db
  pub invitations-update_invitations :
      (db : Db) (p : InvitationRow → Bool) (f : InvitationRow → InvitationRow)
      → invitations (update_invitations db p f) ≡ update_where p f (invitations db)
  pub invitations-create_invitation :
      (db : Db) (row : InvitationRow)
      → invitations (create_invitation db row) ≡ row ∷ invitations db
