-- ===== src/AdminUsers/Table.antt =====
-- What the service for managed accounts takes from the database client: reads, and writes whose
-- laws say what they do to the rows of the user table.
use big_project.Common.{
  ℕ, String, ◌≡◌, refl, sym, ap, ◌∙◌, ◌≢◌, Bool, true, false, not, Option, some, List, [], ◌∷◌, map,
  arith, eq_iff, ◌=ₛ◌, if◌then◌else◌, length, find, filter,
}
use big_project.Shared.{UserRole, admin, organization, proctor, candidate}
use big_project.Auth.Table.{UserRow}

abbrev pub is_admin : UserRole → Bool
is_admin admin = true
is_admin organization = false
is_admin proctor = false
is_admin candidate = false

abbrev pub has_id : String → UserRow → Bool
has_id id u = u.id =ₛ id

abbrev pub has_email : String → UserRow → Bool
has_email email u = u.email =ₛ email

abbrev pub update_at : String → (UserRow → UserRow) → UserRow → UserRow
update_at id f u = if has_id id u then f u else u

-- The rows of the administrators.
abbrev pub admins : List UserRow → List UserRow
admins = filter (λ u. is_admin u.role)

pub record AccountTable : Type 1 where
  pub Db : Type 0
  pub rows : Db → List UserRow
  pub find_by_id : Db → String → Option UserRow
  pub find_by_email : Db → String → Option UserRow
  pub count_admins : Db → ℕ
  pub update : Db → String → (UserRow → UserRow) → Db
  pub delete : Db → String → Db
  pub delete_invitations : Db → String → Db
  pub find_by_id_lem : (db : Db) (id : String) → find_by_id db id ≡ find (has_id id) (rows db)
  pub find_by_email_lem :
      (db : Db) (email : String) → find_by_email db email ≡ find (has_email email) (rows db)
  pub count_admins_lem : (db : Db) → count_admins db ≡ length (admins (rows db))
  pub rows-update :
      (db : Db) (id : String) (f : UserRow → UserRow)
      → rows (update db id f) ≡ map (update_at id f) (rows db)
  pub rows-delete :
      (db : Db) (id : String) → rows (delete db id) ≡ filter (λ u. not (has_id id u)) (rows db)
  pub rows-delete_invitations : (db : Db) (id : String) → rows (delete_invitations db id) ≡ rows db

find-update_at :
    (us : List UserRow) (id other : String) (f : UserRow → UserRow)
    → ((u : UserRow) → (f u).id ≡ u.id)
    → id ≢ other
    → find (has_id other) (map (update_at id f) us) ≡ find (has_id other) us
find-update_at [] id other f keeps differs = refl
find-update_at (u ∷ us) id other f keeps differs =
    let k = keeps u in
    ground (arith, find-update_at us id other f keeps differs, eq_iff u.id id, eq_iff u.id other)

find-update_at_same :
    (us : List UserRow) (id : String) (u : UserRow) (f : UserRow → UserRow)
    → ((u : UserRow) → (f u).id ≡ u.id)
    → find (has_id id) us ≡ some u
    → find (has_id id) (map (update_at id f) us) ≡ some (f u)
find-update_at_same [] id u f keeps h = absurd (ground (arith, h))
find-update_at_same (v ∷ us) id u f keeps h =
    let k = keeps v in ground (arith, find-update_at_same us id u f keeps, h, eq_iff v.id id)

module _ (table : AccountTable) where
  open table use {Db, rows, find_by_id, update}

  pub find_by_id-update_other :
      (db : Db) (id other : String) (f : UserRow → UserRow)
      → ((u : UserRow) → (f u).id ≡ u.id)
      → id ≢ other
      → find_by_id (update db id f) other ≡ find_by_id db other
  find_by_id-update_other db id other f keeps differs =
      table.find_by_id_lem (update db id f) other
      ∙ ap (find (has_id other)) (table.rows-update db id f)
      ∙ find-update_at (rows db) id other f keeps differs
      ∙ sym (table.find_by_id_lem db other)

  pub find_by_id-update_same :
      (db : Db) (id : String) (u : UserRow) (f : UserRow → UserRow)
      → ((u : UserRow) → (f u).id ≡ u.id)
      → find_by_id db id ≡ some u
      → find_by_id (update db id f) id ≡ some (f u)
  find_by_id-update_same db id u f keeps h =
      table.find_by_id_lem (update db id f) id
      ∙ ap (find (has_id id)) (table.rows-update db id f)
      ∙ find-update_at_same (rows db) id u f keeps (sym (table.find_by_id_lem db id) ∙ h)
