-- ===== src/Relational/BasicAuth/Laws.antt =====
-- What basicauth.go relies on of the database: the statements "basic-auth"/"select" and
-- "basic-auth"/"update" of sql/mysql/runtime.yaml, on a view of the users' rows.
use userservice.Prelude.{
  ℕ, String, str_eq, ◌≡◌, ◌≢◌, refl, ◌⊎◌, inl, inr, ◌∙◌, Option, none, some, List, [], ◌∷◌,
  if◌then◌else◌, arith,
}
use mathlib.Core.Option
use userservice.Flow.{Result, ok, err}
use userservice.Flow.Spec.{Does, does_weaken, call_then, finish_rule, run_rule}
use userservice.Shared.{Error, BasicAuth, bad_user_or_pass, max_failed_login, user_not_updated}
use userservice.Relational.{Conn, affected}
use userservice.Relational.Affected.{affected-none}
use userservice.Relational.Scan.{Value, null, text, num, opt_time, scan, scan_auth}
use userservice.Relational.BasicAuth.{get_auth_by_attrs, update_basic_auth, auth_result}

-- A user's row, without the times at which it was made and changed.
pub record Credentials : Type 0 where
  pub uuid : String
  pub name : String
  pub pass : String
  pub salt : String
  pub login_success : Option ℕ
  pub login_failure : Option ℕ
  pub failure_count : ℕ

abbrev pub credentials : BasicAuth → Credentials
credentials a = record {
  uuid = a.uuid;
  name = a.name;
  pass = a.pass;
  salt = a.salt;
  login_success = a.login_success;
  login_failure = a.login_failure;
  failure_count = a.failure_count;
}

-- The rows by their id.
abbrev pub Table : Type 0
Table = String → Option Credentials

-- "basic-auth"/"update"
abbrev pub updated : BasicAuth → Credentials → Credentials
updated x a = record a {
  pass = x.pass;
  salt = x.salt;
  login_success = x.login_success;
  login_failure = x.login_failure;
  failure_count = x.failure_count;
}

unfoldable pub put : BasicAuth → Table → Table
put x w id = if str_eq x.uuid id then Option.map (updated x) (w id) else w id

abbrev pub update_args : BasicAuth → List Value
update_args x =
    text x.pass
    ∷ text x.salt
    ∷ opt_time x.login_success
    ∷ opt_time x.login_failure
    ∷ num x.failure_count
    ∷ text x.uuid
    ∷ []

-- The driver's errors are none of the service's own.
abbrev pub IsForeign : Error → Type 0
IsForeign e = (e ≢ bad_user_or_pass) × (e ≢ max_failed_login)

-- A statement that failed may have been carried out or not.
pub record AuthLaws {S : Type 0} (db : Conn S) (view : S → Table) : Type 0 where
  pub keyed : (s : S) (id : String) (a : Credentials) → view s id ≡ some a → a.uuid ≡ id
  pub select_view :
      (id : String) (s : S)
      → view (db.query_row (db.sqls "basic-auth" "select") (text id ∷ null ∷ []) s).1 ≡ view s
  pub select_row :
      (id : String) (a : Credentials) (row : List Value) (s : S)
      → view s id ≡ some a
      → (db.query_row (db.sqls "basic-auth" "select") (text id ∷ null ∷ []) s).0 ≡ ok row
      → (b : BasicAuth) × (scan_auth row ≡ some b) × (credentials b ≡ a)
  pub select_error :
      (id : String) (e : Error) (s : S)
      → (db.query_row (db.sqls "basic-auth" "select") (text id ∷ null ∷ []) s).0 ≡ err e
      → IsForeign e
  pub update_ok :
      (x : BasicAuth) (s : S)
      → (db.exec (db.sqls "basic-auth" "update") (update_args x) s).0 ≡ ok (ok 1)
      → view (db.exec (db.sqls "basic-auth" "update") (update_args x) s).1 ≡ put x (view s)
  pub update_any :
      (x : BasicAuth) (s : S)
      → let w = view (db.exec (db.sqls "basic-auth" "update") (update_args x) s).1 in
        (w ≡ view s) ⊎ (w ≡ put x (view s))
  pub update_error :
      (x : BasicAuth) (e : Error) (s : S)
      → (db.exec (db.sqls "basic-auth" "update") (update_args x) s).0 ≡ err e
      → IsForeign e
  pub rows_error :
      (x : BasicAuth) (e : Error) (s : S)
      → (db.exec (db.sqls "basic-auth" "update") (update_args x) s).0 ≡ ok (err e)
      → IsForeign e
  pub now_view : (s : S) → view (db.now s).1 ≡ view s
  pub string_view : (s : S) → view (db.new_string s).1 ≡ view s

-- What `GetAuthByAttrs` by an id tells.
pub record Selected (id : String) (w : Table) (r : BasicAuth × Option Error) (w' : Table)
    : Type 0 where
  pub same : w' ≡ w
  pub row : (a : Credentials) → w id ≡ some a → r.1 ≡ none → credentials r.0 ≡ a
  pub error : (e : Error) → r.1 ≡ some e → IsForeign e

-- What `updateBasicAuth` tells.
pub record Updated (x : BasicAuth) (w : Table) (e : Option Error) (w' : Table) : Type 0 where
  pub done : e ≡ none → w' ≡ put x w
  pub any : (w' ≡ w) ⊎ (w' ≡ put x w)
  pub error : (f : Error) → e ≡ some f → IsForeign f

affected-some :
    (r : Result Error (Result Error ℕ)) (e : Error)
    → affected user_not_updated r ≡ some e
    → (r ≡ err e) ⊎ (r ≡ ok (err e)) ⊎ (e ≡ user_not_updated)
unfolding affected
affected-some (err x) e h = ground arith
affected-some (ok (err x)) e h = ground arith
affected-some (ok (ok n)) e h = ground arith

module _ {S : Type 0} (db : Conn S) (view : S → Table) (laws : AuthLaws db view) (w : Table) where
  selected :
      (id : String) (s : S)
      → view s ≡ w
      → (r : Result Error (List Value))
      → (db.query_row (db.sqls "basic-auth" "select") (text id ∷ null ∷ []) s).0 ≡ r
      → Selected id w (auth_result (scan scan_auth r)) w
  selected id s e (err x) q = record {
    same = refl;
    row = λ a h z. cc;
    error = λ f z. ground (arith, laws.select_error id x s q);
  }
  selected id s e (ok row) q = record {
    same = refl;
    row = λ a h z.
        let (b, scans, same) = laws.select_row id a row s (rw e h) q in rw (scans, same) refl;
    error = λ f z. ground arith;
  }

  select_rule :
      (id : String)
      → Does view w
          (db.query_row (db.sqls "basic-auth" "select") (text id ∷ null ∷ []))
          (λ r w'. (w' ≡ w) × Selected id w (auth_result (scan scan_auth r)) w)
  select_rule id = record { at = λ s e. (laws.select_view id s ∙ e, selected id s e _ refl) }

  pub get_auth_rule :
      (id : String) → Does view w (get_auth_by_attrs db (some id) none) (Selected id w)
  unfolding get_auth_by_attrs
  get_auth_rule id =
      run_rule _
        (call_then _ _ (does_weaken (select_rule id) (λ r w' (same, h). rw same (finish_rule _ h))))

  update_row_rule :
      (x : BasicAuth)
      → Does view w
          (db.exec (db.sqls "basic-auth" "update") (update_args x))
          (λ r w'. Updated x w (affected user_not_updated r) w')
  update_row_rule x = record {
    at = λ s e. record {
      done = λ z. rw (← e) (laws.update_ok x s (affected-none _ _ z));
      any = rw (← e) (laws.update_any x s);
      error = λ f z. elim (affected-some _ f z) [
        | inl p ↦ laws.update_error x f s p
        | inr (inl p) ↦ laws.rows_error x f s p
        | inr (inr p) ↦ ground arith
      ];
    };
  }

  pub update_rule : (x : BasicAuth) → Does view w (update_basic_auth db x) (Updated x w)
  unfolding update_basic_auth
  update_rule x =
      run_rule _ (call_then _ _ (does_weaken (update_row_rule x) (λ r w' h. finish_rule _ h)))

  pub now_rule : {G : ℕ → Table → Type 0} → ((t : ℕ) → G t w) → Does view w db.now G
  now_rule g = record { at = λ s e. rw (laws.now_view s, e) (g _) }

  pub string_rule :
      {G : String → Table → Type 0} → ((t : String) → G t w) → Does view w db.new_string G
  string_rule g = record { at = λ s e. rw (laws.string_view s, e) (g _) }
