-- ===== src/Relational/BasicAuth/Lockout.antt =====
-- Logins one after the other: the fourth wrong password locks the user out.
use userservice.Prelude.{◌+◌, String, ◌≡◌, ◌≢◌, refl, none, some, List, [], ◌∷◌, arith, length}
use userservice.Shared.{BasicAuth, bad_user_or_pass}
use userservice.Relational.{Conn}
use userservice.Relational.BasicAuth.{login, no_auth}
use userservice.Relational.BasicAuth.Laws.{Credentials, Table, AuthLaws}
use userservice.Relational.BasicAuth.Outcomes.{LoginOutcome}
use userservice.Relational.BasicAuth.Logins.{login_rule}

-- The body of a login request.
abbrev pub given : String → String → BasicAuth
given uid pass = record no_auth { uuid = uid; pass = pass }

module _ {S : Type 0} (db : Conn S) (uid : String) where
  -- The state after a login with each of the passwords in turn.
  unfoldable pub attempts : List String → S → S
  attempts [] s = s
  attempts (p ∷ ps) s = attempts ps (login db (given uid p) s).1

  -- Each of the logins is answered "bad username or password".
  abbrev pub Rejected : List String → S → Type 0
  Rejected [] s = Unit
  Rejected (p ∷ ps) s =
      ((login db (given uid p) s).0.1 ≡ some bad_user_or_pass)
      × Rejected ps (login db (given uid p) s).1

module _ {S : Type 0} (db : Conn S) (view : S → Table) (laws : AuthLaws db view)
    (uid : String) where
  outcome :
      (pass : String) (s : S) (a : Credentials)
      → view s uid ≡ some a
      → LoginOutcome
          (given uid pass)
          a
          (view s)
          (login db (given uid pass) s).0
          (view (login db (given uid pass) s).1)
  outcome pass s a h =
      (login_rule db view laws (view s) (given uid pass) a h (laws.keyed s uid a h)).at s refl

  counted :
      (ps : List String) (s : S) (a : Credentials)
      → view s uid ≡ some a
      → Rejected db uid ps s
      → (b : Credentials) × (view (attempts db uid ps s) uid ≡ some b)
        × (b.failure_count ≡ a.failure_count + length ps)
  unfolding attempts
  counted [] s a h r = (a, h, omega arith)
  counted (p ∷ ps) s a h (r, rs) =
      let (t, row) = ((outcome p s a h).wrong r).1 in
      let (b, found, count) = counted ps (login db (given uid p) s).1 _ row rs in
      (b, found, omega (arith, count))

  -- After rejected logins that bring the count of failures to 4, no login of the user succeeds,
  -- whatever the password, and a further one leaves the table as it is.
  pub lockout :
      (ps : List String) (s : S) (a : Credentials)
      → view s uid ≡ some a
      → Rejected db uid ps s
      → a.failure_count + length ps ≡ 4
      → (pass : String)
      → let t = attempts db uid ps s in
        ((login db (given uid pass) t).0.1 ≢ none) × (view (login db (given uid pass) t).1 ≡ view t)
  lockout ps s a h r four pass =
      let (b, found, count) = counted ps s a h r in
      let l = (outcome pass (attempts db uid ps s) b found).locked (omega (arith, count)) in
      (l.1, l.0)
