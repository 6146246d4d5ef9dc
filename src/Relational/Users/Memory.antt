-- ===== src/Relational/Users/Memory.antt =====
-- A table of users in memory, the newest rows first, with four statements of user.go: it shows that what
-- the code relies on can be met.
pub mod Rows
pub mod Laws
use userservice.Prelude.{
  ℕ, String, ◌<>◌, str_eq, eq_iff, ◌≡◌, ◌≢◌, refl, sym, ap, ◌∙◌, ◌⊎◌, inl, inr, Bool, true, false,
  not, ◌&&◌, ◌||◌, Option, none, some, is_some, List, [], ◌∷◌, Bool-cases, Option-cases, arith,
  if◌then◌else◌,
}
use mathlib.Core.Option.{some-injective}
use mathlib.Core.Path.{fun_ext, subst}
use userservice.Flow.{Result, ok, err}
use userservice.Shared.{Error, User, no_rows, mysql, other}
use userservice.Relational.{Conn}
use userservice.Relational.Scan.{Value, null, text, time, opt_text, scan_user}
use userservice.Relational.Users.{insert_user}
use userservice.Relational.Users.Directory.{Directory, set, IsFree, changed_row}
use userservice.Relational.Users.Laws.{
  Inserted, Updated, Deleted, update_args, delete_args, UserLaws,
}

abbrev pub Rows : Type 0
Rows = List User

unfoldable pub find : String → Rows → Option User
find id [] = none
find id (x ∷ s) = if str_eq x.uuid id then some (record x { contact = none }) else find id s

-- Does a row of another id have the name?
unfoldable pub has_name : String → String → Rows → Bool
has_name name id [] = false
has_name name id (x ∷ s) = str_eq x.name name && not (str_eq x.uuid id) || has_name name id s

abbrev pub text_of : Value → Option String
text_of (text t) = some t
text_of _ = none

abbrev pub opt_time : Option ℕ → Value
opt_time none = null
opt_time (some t) = time t

unfoldable pub row_of : Option User → Result Error (List Value)
row_of none = err no_rows
row_of (some x) = ok (
    text x.uuid
    ∷ text x.name
    ∷ opt_text x.email
    ∷ opt_text x.cell
    ∷ time x.mtime
    ∷ time x.ctime
    ∷ opt_time x.dtime
    ∷ [])

-- A new row.
abbrev pub insert : User → Rows → Result Error (Result Error ℕ) × Rows
insert x s =
    if is_some (find x.uuid s)
    then (err (mysql "Duplicate entry for key 'users.PRIMARY'"), s)
    else if has_name x.name x.uuid s
    then (err (mysql "Duplicate entry for key 'users.name'"), s)
    else (ok (ok 1), x ∷ s)

-- A row in place of another.
abbrev pub replace :
    (User → User) → String → Option User → Rows → Result Error (Result Error ℕ) × Rows
replace f name none s = (ok (ok 0), s)
replace f name (some x) s =
    if has_name name x.uuid s
    then (err (mysql "Duplicate entry for key 'users.name'"), s)
    else (ok (ok 1), f x ∷ s)

-- A row that is deleted.
abbrev pub mark : ℕ → Option User → Rows → Result Error (Result Error ℕ) × Rows
mark t none s = (ok (ok 0), s)
mark t (some x) s = (ok (ok 1), record x { dtime = some t } ∷ s)

-- The values of an insert, an update or a delete, by their number.
unfoldable pub execute : List Value → Rows → Result Error (Result Error ℕ) × Rows
execute (text id ∷ text name ∷ e ∷ c ∷ text pass ∷ text salt ∷ time m ∷ time t ∷ []) s =
    insert
      (record {
        uuid = id;
        name = name;
        contact = none;
        email = text_of e;
        cell = text_of c;
        mtime = m;
        ctime = t;
        dtime = none;
      })
      s
execute (text name ∷ e ∷ c ∷ time t ∷ text id ∷ []) s =
    replace (λ x. record x { name = name; email = text_of e; cell = text_of c; mtime = t }) name
      (find id s) s
execute (time t ∷ text id ∷ []) s = mark t (find id s) s
execute _ s = (err (other "not a statement of this table"), s)

unfoldable pub select : String → List Value → Rows → Result Error (List Value)
select q (text id ∷ []) s = if str_eq q "user/select" then row_of (find id s) else err no_rows
select q _ s = err (other "not a statement of this table")

unfoldable pub db : Conn Rows
db = record {
  query_row = λ statement args s. (select statement args s, s);
  query = λ statement args s. (err (other "not a statement of this table"), s);
  exec = λ statement args s. execute args s;
  uuidgen = λ s. ("fresh", s);
  new_string = λ s. ("seed", s);
  now = λ s. (1000, s);
  sqls = λ group name. group <> "/" <> name;
}

abbrev pub view : Rows → Directory
view s id = find id s
