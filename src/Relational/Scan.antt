-- ===== src/Relational/Scan.antt =====
-- Columns and rows: the values that the driver takes and gives, and `Scan` into the structs of
-- shared/v1 for each statement that selects.
use userservice.Prelude.{ℕ, String, Option, none, some, List, [], ◌∷◌, ltb, if◌then◌else◌}
use userservice.Flow.{Result, ok, err}
use userservice.Shared.{Error, other, Address, BasicAuth, Contact, User}

-- A column's value, or a statement's argument.
pub data Value : Type 0 where
  null : Value
  text : String → Value
  num : ℕ → Value
  time : ℕ → Value

-- A nil pointer is stored as NULL.
abbrev pub opt_text : Option String → Value
opt_text none = null
opt_text (some s) = text s

abbrev pub opt_time : Option ℕ → Value
opt_time none = null
opt_time (some t) = time t

-- `Scan` into a field; a column of another kind is an error, and NULL fits pointers only.
abbrev scan_text : Value → Option String
scan_text (text s) = some s
scan_text _ = none

abbrev scan_opt_text : Value → Option (Option String)
scan_opt_text null = some none
scan_opt_text (text s) = some (some s)
scan_opt_text _ = none

abbrev scan_time : Value → Option ℕ
scan_time (time t) = some t
scan_time _ = none

abbrev scan_opt_time : Value → Option (Option ℕ)
scan_opt_time null = some none
scan_opt_time (time t) = some (some t)
scan_opt_time _ = none

-- a `uint8`
abbrev scan_uint8 : Value → Option ℕ
scan_uint8 (num n) = if ltb n 256 then some n else none
scan_uint8 _ = none

infixl 5 ◌>>=◌
abbrev pub ◌>>=◌ {ℓ κ} : {A : Type ℓ} {B : Type κ} → Option A → (A → Option B) → Option B
none >>= f = none
some a >>= f = f a

abbrev pub scan_error : Error
scan_error = other "sql: Scan error"

abbrev pub scanned : {A : Type 0} → Option A → Result Error A
scanned none = err scan_error
scanned (some a) = ok a

abbrev pub scan :
    {A : Type 0} → (List Value → Option A) → Result Error (List Value) → Result Error A
scan f (err e) = err e
scan f (ok row) = scanned (f row)

-- "basic-auth"/"select"
unfoldable pub scan_auth : List Value → Option BasicAuth
scan_auth (a ∷ b ∷ c ∷ d ∷ e ∷ f ∷ g ∷ h ∷ i ∷ []) = do
  uuid ← scan_text a
  name ← scan_text b
  pass ← scan_text c
  salt ← scan_text d
  login_success ← scan_opt_time e
  login_failure ← scan_opt_time f
  failure_count ← scan_uint8 g
  mtime ← scan_time h
  ctime ← scan_time i
  some (record {
    uuid = uuid;
    name = name;
    pass = pass;
    salt = salt;
    login_success = login_success;
    login_failure = login_failure;
    failure_count = failure_count;
    mtime = mtime;
    ctime = ctime;
  })
scan_auth _ = none

-- "user"/"select-all"
unfoldable pub scan_user_row : List Value → Option User
scan_user_row (a ∷ b ∷ c ∷ d ∷ e ∷ []) = do
  uuid ← scan_text a
  name ← scan_text b
  mtime ← scan_time c
  ctime ← scan_time d
  dtime ← scan_opt_time e
  some (record {
    uuid = uuid;
    name = name;
    contact = none;
    email = none;
    cell = none;
    mtime = mtime;
    ctime = ctime;
    dtime = dtime;
  })
scan_user_row _ = none

-- "user"/"select"
unfoldable pub scan_user : List Value → Option User
scan_user (a ∷ b ∷ c ∷ d ∷ e ∷ f ∷ g ∷ []) = do
  uuid ← scan_text a
  name ← scan_text b
  email ← scan_opt_text c
  cell ← scan_opt_text d
  mtime ← scan_time e
  ctime ← scan_time f
  dtime ← scan_opt_time g
  some (record {
    uuid = uuid;
    name = name;
    contact = none;
    email = email;
    cell = cell;
    mtime = mtime;
    ctime = ctime;
    dtime = dtime;
  })
scan_user _ = none

-- "address"/"select-all" and "address"/"select"
unfoldable pub scan_address : List Value → Option Address
scan_address (a ∷ b ∷ c ∷ d ∷ e ∷ f ∷ g ∷ h ∷ i ∷ []) = do
  uuid ← scan_text a
  street1 ← scan_text b
  street2 ← scan_text c
  city ← scan_text d
  state ← scan_text e
  country ← scan_text f
  zip ← scan_text g
  mtime ← scan_time h
  ctime ← scan_time i
  some (record {
    uuid = uuid;
    street1 = street1;
    street2 = street2;
    city = city;
    state = state;
    country = country;
    zip = zip;
    mtime = mtime;
    ctime = ctime;
  })
scan_address _ = none

-- "contact"/"select": the contact without its addresses, whose ids are beside it.
unfoldable pub scan_contact : List Value → Option (Contact × Option String × Option String)
scan_contact (a ∷ b ∷ c ∷ d ∷ e ∷ f ∷ []) = do
  first_name ← scan_text a
  last_name ← scan_text b
  billto ← scan_opt_text c
  shipto ← scan_opt_text d
  mtime ← scan_time e
  ctime ← scan_time f
  some (
    record {
      first_name = first_name;
      last_name = last_name;
      bill_to = none;
      ship_to = none;
      phone = none;
      mtime = mtime;
      ctime = ctime;
    },
    billto,
    shipto,
  )
scan_contact _ = none
