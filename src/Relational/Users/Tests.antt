-- ===== src/Relational/Users/Tests.antt =====
-- Adding users to databases that refuse an insert.
use userservice.Prelude.{
  ℕ, suc, String, ◌≡◌, refl, arith, true, none, some, is_some, List, [], ◌∷◌, map, ◌==◌,
  if◌then◌else◌,
}
use userservice.Flow.{Result, ok, err, run}
use userservice.Shared.{
  Error, User, mysql, other, no_rows, user_not_deleted, email_valid, cell_valid,
}
use userservice.Relational.{Conn, affected}
use userservice.Relational.Scan.{scan_user}
use userservice.Relational.Contacts.{no_contact, contact_found, get_contact}
use userservice.Relational.Users.{
  update_user, delete_user, get_user, user_found, with_contact, verdict, insert_user, reported_or,
  inserted_or, add_user,
}
use userservice.Relational.Users.Directory.{
  Op, adds, updates, deletes, reads, gave, done, silent, found, failed, History, IsDirectory,
}
use userservice.Relational.Users.Calls.{answers, after}
use userservice.Relational.Users.Refinement.{users-History}
use userservice.Relational.Users.Memory as Table
use userservice.Relational.Users.Memory.{find, has_name, row_of, execute, select}
use userservice.Relational.Users.Memory.Laws.{db-laws}
use userservice.Relational.Users.Retries.{settled, retried, add_user-returns, add_user_forever}

-- A database that counts the ids it gave out, and answers its inserts.
abbrev answering : (ℕ → Result Error (Result Error ℕ)) → Conn ℕ
answering answer = record {
  query_row = λ statement args s. (err no_rows, s);
  query = λ statement args s. (err (other "no table"), s);
  exec = λ statement args s. (answer s, s);
  uuidgen = λ s. ("id", suc s);
  new_string = λ s. ("seed", s);
  now = λ s. (7, s);
  sqls = λ group name. name;
}

abbrev taken_id : String
taken_id = "Duplicate entry 'id' for key 'users.PRIMARY'"

abbrev taken_name : String
taken_name = "Duplicate entry 'users.PRIMARY' for key 'users.name'"

-- The first id is taken.
abbrev second_time : Conn ℕ
second_time = answering (λ n. if n == 1 then err (mysql taken_id) else ok (ok 1))

abbrev ann : User
ann = record {
  uuid = "";
  name = "users.PRIMARY";
  contact = none;
  email = some "ann@host";
  cell = none;
  mtime = 0;
  ctime = 0;
  dtime = none;
}

users_run : Unit {0}
unfolding run email_valid cell_valid insert_user reported_or inserted_or add_user verdict affected
users_run = tt

-- The second id is the user's.
second_id : add_user second_time 2 ann 0 ≡ (some ("id", none), 2)
unfolding users_run
second_id = refl

add_user-returns_example : is_some (add_user second_time 2 ann 0).0 ≡ true
unfolding users_run
add_user-returns_example =
    add_user-returns second_time 1 ann 0 refl
      (retried (taken_id, refl, refl) (settled (λ t. ground (arith, t))))

add_user_forever_example : (add_user (answering (λ n. err (mysql taken_name))) 5 ann 0).0 ≡ none
unfolding users_run
add_user_forever_example =
    add_user_forever (answering (λ n. err (mysql taken_name))) "users.PRIMARY" taken_name refl
      (λ u s e. refl) 5 ann 0 refl refl

-- On the table in memory.
abbrev eve : User
eve = record ann { name = "eve" }

abbrev ops : List Op
ops =
    adds eve
    ∷ updates (record eve { uuid = "fresh"; name = "eva" })
    ∷ adds eve
    ∷ deletes "fresh"
    ∷ deletes "nobody"
    ∷ reads "fresh"
    ∷ []

table_run : Unit {0}
unfolding users_run find has_name row_of execute select Table.db update_user delete_user get_user
    user_found with_contact get_contact no_contact contact_found scan_user
table_run = tt

-- An id that is taken twice over is asked for again until the fuel runs out; a user who is deleted is still
-- read.
table_answers :
    map (λ a. a.1) (answers Table.db 1 ops [])
    ≡ gave "fresh"
      ∷ done
      ∷ silent
      ∷ done
      ∷ failed user_not_deleted
      ∷ found (record eve {
        uuid = "fresh";
        name = "eva";
        mtime = 1000;
        ctime = 1000;
        dtime = some 1000;
      })
      ∷ []
unfolding table_run
table_answers = refl

empty-IsDirectory : IsDirectory (Table.view [])
unfolding find
empty-IsDirectory = record {
  keyed = λ id x e. ground (arith, e);
  unique = λ i j x y e f same. ground (arith, e);
}

users-History_example :
    History (Table.view []) (answers Table.db 1 ops []) (Table.view (after Table.db 1 ops []))
    × IsDirectory (Table.view (after Table.db 1 ops []))
users-History_example = users-History Table.db Table.view db-laws 1 ops [] empty-IsDirectory
