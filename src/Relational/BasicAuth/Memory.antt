-- ===== src/Relational/BasicAuth/Memory.antt =====
-- A table of users in memory with the two statements of basicauth.go: it shows that what the code
-- relies on can be met.
use userservice.Prelude.{
  ℕ, String, ◌<>◌, str_eq, eq_iff, ◌≡◌, refl, inl, inr, Option, none, some, List, [], ◌∷◌, arith,
  ltb, if◌then◌else◌, is_some, Option-cases,
}
use mathlib.Core.Option
use mathlib.Core.Path.{fun_ext}
use userservice.Flow.{Result, ok, err}
use userservice.Shared.{Error, BasicAuth, no_rows, other}
use userservice.Relational.{Conn}
use userservice.Relational.Scan.{Value, null, text, num, time, opt_time, scan_auth}
use userservice.Relational.BasicAuth.Laws.{
  Credentials, credentials, Table, put, update_args, IsForeign, AuthLaws,
}

find : String → List BasicAuth → Option BasicAuth
find id [] = none
find id (b ∷ bs) = if str_eq b.uuid id then some b else find id bs

pub record Changes : Type 0 where
  pub pass : String
  pub salt : String
  pub login_success : Option ℕ
  pub login_failure : Option ℕ
  pub failure_count : ℕ

write : String → Changes → List BasicAuth → List BasicAuth
write id c [] = []
write id c (b ∷ bs) =
    let rest = write id c bs in
    (if str_eq id b.uuid
      then record b {
        pass = c.pass;
        salt = c.salt;
        login_success = c.login_success;
        login_failure = c.login_failure;
        failure_count = c.failure_count;
      }
      else b)
    ∷ rest

-- A count that does not fit the column's type is an error.
row_of : Option BasicAuth → Result Error (List Value)
row_of none = err no_rows
row_of (some b) =
    if ltb b.failure_count 256
    then ok (
        text b.uuid
        ∷ text b.name
        ∷ text b.pass
        ∷ text b.salt
        ∷ opt_time b.login_success
        ∷ opt_time b.login_failure
        ∷ num b.failure_count
        ∷ time b.mtime
        ∷ time b.ctime
        ∷ [])
    else err (other "out of range")

time_of : Value → Option ℕ
time_of (time t) = some t
time_of _ = none

select : List Value → List BasicAuth → Result Error (List Value)
select (text id ∷ null ∷ []) bs = row_of (find id bs)
select _ bs = err (other "not a statement of this table")

-- The rows afterwards, and the number of rows affected.
update : List Value → List BasicAuth → Result Error (Result Error ℕ) × List BasicAuth
update (text pass ∷ text salt ∷ ls ∷ lf ∷ num n ∷ text id ∷ []) bs = (
  ok (ok (if is_some (find id bs) then 1 else 0)),
  write id
      (record {
        pass = pass;
        salt = salt;
        login_success = time_of ls;
        login_failure = time_of lf;
        failure_count = n;
      })
      bs,
)
update _ bs = (err (other "not a statement of this table"), bs)

unfoldable pub db : Conn (List BasicAuth)
unfolding find write row_of time_of select update
db = record {
  query_row = λ statement args s. (select args s, s);
  query = λ statement args s. (err (other "not a statement of this table"), s);
  exec = λ statement args s. update args s;
  uuidgen = λ s. ("fresh", s);
  new_string = λ s. ("1d0b0ab0-seed", s);
  now = λ s. (1000, s);
  sqls = λ group name. group <> "/" <> name;
}

unfoldable pub view : List BasicAuth → Table
unfolding find
view s id = Option.map credentials (find id s)

find-uuid : (id : String) (s : List BasicAuth) (b : BasicAuth) → find id s ≡ some b → b.uuid ≡ id
unfolding find
find-uuid id [] b h = cc
find-uuid id (c ∷ s) b h = ground (arith, find-uuid id s b, eq_iff c.uuid id)

changes : BasicAuth → Changes
changes x = record {
  pass = x.pass;
  salt = x.salt;
  login_success = x.login_success;
  login_failure = x.login_failure;
  failure_count = x.failure_count;
}

time_of-opt_time : (t : Option ℕ) → time_of (opt_time t) ≡ t
unfolding time_of
time_of-opt_time none = refl
time_of-opt_time (some t) = refl

view-write :
    (x : BasicAuth) (s : List BasicAuth) (id : String)
    → view (write x.uuid (changes x) s) id ≡ put x (view s) id
unfolding view write put changes
view-write x [] id = ground arith
view-write x (b ∷ s) id =
    ground (arith, view-write x s id, eq_iff x.uuid b.uuid, eq_iff b.uuid id, eq_iff x.uuid id)

view-update :
    (x : BasicAuth) (s : List BasicAuth) → view (update (update_args x) s).1 ≡ put x (view s)
unfolding update
view-update x s =
    rw (time_of-opt_time x.login_success, time_of-opt_time x.login_failure)
      (fun_ext λ id. unfold changes in view-write x s id)

row_of-scan :
    (o : Option BasicAuth) (row : List Value)
    → row_of o ≡ ok row
    → (b : BasicAuth) × (o ≡ some b) × (scan_auth row ≡ some b)
unfolding row_of scan_auth
row_of-scan none row h = cc
row_of-scan (some b) row h = (b, refl, ground arith)

row_of-error : (o : Option BasicAuth) (e : Error) → row_of o ≡ err e → IsForeign e
unfolding row_of
row_of-error none e h = ground arith
row_of-error (some b) e h = ground arith

selected_row :
    (id : String) (a : Credentials) (row : List Value) (s : List BasicAuth)
    → view s id ≡ some a
    → row_of (find id s) ≡ ok row
    → (b : BasicAuth) × (scan_auth row ≡ some b) × (credentials b ≡ a)
unfolding view
selected_row id a row s h q =
    let (b, found, scans) = row_of-scan (find id s) row q in (b, scans, ground (arith, found))

view_keyed : (s : List BasicAuth) (id : String) (a : Credentials) → view s id ≡ some a → a.uuid ≡ id
unfolding view
view_keyed s id a h = elim (Option-cases (find id s)) [
  | inl absent ↦ ground arith
  | inr (b, found) ↦ ground (arith, find-uuid id s b found)
]

pub db-laws : AuthLaws db view
unfolding db
db-laws = record {
  keyed = λ s id a h. view_keyed s id a h;
  select_view = λ id s. refl;
  select_row = λ id a row s h q. selected_row id a row s h q;
  select_error = λ id e s q. row_of-error (find id s) e q;
  update_ok = λ x s q. view-update x s;
  update_any = λ x s. inr (view-update x s);
  update_error = λ x e s q. cc;
  rows_error = λ x e s q. cc;
  now_view = λ s. refl;
  string_view = λ s. refl;
}
