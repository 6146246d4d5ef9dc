-- ===== src/Relational/Users/Laws.antt =====
-- What user.go relies on of the database: the statements "user"/"select", "insert", "update" and "delete" of
-- sql/mysql/runtime.yaml on the directory of users. A statement that fails with an error of MySQL's own was
-- not carried out; one of which the answer was lost may have been.
use userservice.Prelude.{ℕ, String, ◌≡◌, ◌⊎◌, none, some, List, [], ◌∷◌}
use userservice.Flow.{ok, err}
use userservice.Shared.{User, mysql}
use userservice.Relational.{Conn}
use userservice.Relational.Scan.{Value, text, time, opt_text, scan_user}
use userservice.Relational.Users.{insert_user}
use userservice.Relational.Users.Directory.{Directory, set, IsFree, changed_row}

abbrev pub update_args : User → ℕ → List Value
update_args u t = text u.name ∷ opt_text u.email ∷ opt_text u.cell ∷ time t ∷ text u.uuid ∷ []

abbrev pub delete_args : String → ℕ → List Value
delete_args id t = time t ∷ text id ∷ []

-- Id and name are new, and the row is there; a row starts without a contact and not deleted.
abbrev pub Inserted : User → Directory → Directory → Type 0
Inserted u w w' =
    (w u.uuid ≡ none)
    × IsFree u.name u.uuid w
    × (w' ≡ set u.uuid (record u { contact = none; dtime = none }) w)

abbrev pub Updated : User → ℕ → Directory → Directory → Type 0
Updated u t w w' =
    (x : User) × (w u.uuid ≡ some x)
    × IsFree u.name u.uuid w
    × (w' ≡ set u.uuid (changed_row u t x) w)

abbrev pub Deleted : String → ℕ → Directory → Directory → Type 0
Deleted id t w w' = (x : User) × (w id ≡ some x) × (w' ≡ set id (record x { dtime = some t }) w)

pub record UserLaws {S : Type 0} (db : Conn S) (view : S → Directory) : Type 0 where
  pub query_view :
      (q : String) (args : List Value) (s : S) → view (db.query_row q args s).1 ≡ view s
  pub now_view : (s : S) → view (db.now s).1 ≡ view s
  pub uuid_view : (s : S) → view (db.uuidgen s).1 ≡ view s
  pub select_row :
      (id : String) (row : List Value) (s : S)
      → (db.query_row (db.sqls "user" "select") (text id ∷ []) s).0 ≡ ok row
      → (x : User) × (view s id ≡ some x) × (scan_user row ≡ some x)
  pub insert_ok :
      (u : User) (s : S)
      → (insert_user db u s).0 ≡ ok (ok 1)
      → Inserted u (view s) (view (insert_user db u s).1)
  pub insert_refused :
      (u : User) (message : String) (s : S)
      → (insert_user db u s).0 ≡ err (mysql message)
      → view (insert_user db u s).1 ≡ view s
  pub insert_any :
      (u : User) (s : S)
      → let w' = view (insert_user db u s).1 in (w' ≡ view s) ⊎ Inserted u (view s) w'
  pub update_ok :
      (u : User) (t : ℕ) (s : S)
      → (db.exec (db.sqls "user" "update") (update_args u t) s).0 ≡ ok (ok 1)
      → Updated u t (view s) (view (db.exec (db.sqls "user" "update") (update_args u t) s).1)
  pub update_any :
      (u : User) (t : ℕ) (s : S)
      → let w' = view (db.exec (db.sqls "user" "update") (update_args u t) s).1 in
        (w' ≡ view s) ⊎ Updated u t (view s) w'
  pub delete_ok :
      (id : String) (t : ℕ) (s : S)
      → (db.exec (db.sqls "user" "delete") (delete_args id t) s).0 ≡ ok (ok 1)
      → Deleted id t (view s) (view (db.exec (db.sqls "user" "delete") (delete_args id t) s).1)
  pub delete_any :
      (id : String) (t : ℕ) (s : S)
      → let w' = view (db.exec (db.sqls "user" "delete") (delete_args id t) s).1 in
        (w' ≡ view s) ⊎ Deleted id t (view s) w'
