-- ===== src/Relational/Users/Retries.antt =====
-- `AddUser` calls itself when the database says that the id is taken: when that ends, and a message
-- with which it never does.
use userservice.Prelude.{
  ℕ, zero, suc, String, ◌≡◌, ◌≢◌, refl, not, true, false, ◌&&◌, Option, none, ap, ◌∙◌, is_some,
  arith,
}
use userservice.Flow.{Act, Result, ok, err, run}
use userservice.Shared.{Error, User, mysql, email_valid, cell_valid}
use userservice.Relational.{Conn}
use userservice.Relational.Users.{
  Verdict, again, report, verdict, has_substring, insert_user, reported_or, inserted_or, add_user,
}

-- The user can be reached.
abbrev pub IsReachable : User → Type 0
IsReachable u = (not (email_valid u.email) && not (cell_valid u.cell)) ≡ false

verdict_primary :
    (message : String)
    → has_substring message "users.PRIMARY" ≡ true
    → verdict (mysql message) ≡ again
unfolding verdict
verdict_primary message primary = rw primary

-- Nothing else is a reason to try again.
verdict_again :
    (e : Error)
    → verdict e ≡ again
    → (message : String) × (e ≡ mysql message) × (has_substring message "users.PRIMARY" ≡ true)
unfolding verdict
verdict_again (mysql message) v = (message, refl, ground (arith, v))
verdict_again e v = ground (arith, v)

module _ {S : Type 0} (db : Conn S) where
  -- The user as it is inserted at a state, and the state after the id and the time were read.
  abbrev pub stamped : User → S → User
  stamped u s =
      let (now, s1) = db.now s in
      let (id, s2) = db.uuidgen s1 in record u { uuid = id; mtime = now; ctime = now }

  abbrev pub drawn : S → S
  drawn s = (db.uuidgen (db.now s).1).1

  abbrev pub inserted : User → S → Result Error (Result Error ℕ) × S
  inserted u s = insert_user db (stamped u s) (drawn s)

  -- An insert that is answered with an error of MySQL whose message contains "users.PRIMARY": the key of
  -- the id, or a name in which the text stands.
  abbrev Taken : Result Error (Result Error ℕ) → Type 0
  Taken r =
      (message : String) × (r ≡ err (mysql message))
      × (has_substring message "users.PRIMARY" ≡ true)

  -- After `n` inserts that were answered so, the next one is answered otherwise.
  pub data Settles : ℕ → User → S → Type 0 where
    settled : {u : User} {s : S} → ¬ Taken (inserted u s).0 → Settles zero u s
    retried :
        {n : ℕ} {u : User} {s : S}
        → Taken (inserted u s).0
        → Settles n (stamped u s) (inserted u s).1
        → Settles (suc n) u s

  -- One call on a user that can be reached.
  pub add_user_step :
      (fuel : ℕ) (u : User) (s : S)
      → IsReachable u
      → add_user db (suc fuel) u s
        ≡ inserted_or db
            (add_user db fuel (stamped u s))
            (stamped u s).uuid
            (inserted u s).0
            (inserted u s).1
  unfolding add_user run
  add_user_step fuel u s reach = rw reach

  inserted_or_taken :
      (retry : Act S (Option (String × Option Error))) (id : String) (e : Error) (s : S)
      → verdict e ≡ again
      → inserted_or db retry id (err e) s ≡ retry s
  unfolding inserted_or reported_or
  inserted_or_taken retry id e s v = rw v

  add_user_again :
      (fuel : ℕ) (u : User) (s : S) (e : Error)
      → IsReachable u
      → (inserted u s).0 ≡ err e
      → verdict e ≡ again
      → add_user db (suc fuel) u s ≡ add_user db fuel (stamped u s) (inserted u s).1
  add_user_again fuel u s e reach eq v =
      add_user_step fuel u s reach
      ∙ ap
          (λ r.
            inserted_or db (add_user db fuel (stamped u s)) (stamped u s).uuid r (inserted u s).1)
          eq
      ∙ inserted_or_taken _ _ e _ v

  reported_or_fresh :
      (retry : Act S (Option (String × Option Error))) (id : String) (v : Verdict) (s : S)
      → v ≢ again
      → is_some (reported_or db retry id v s).0 ≡ true
  unfolding reported_or
  reported_or_fresh retry id again s fresh = absurd (fresh refl)
  reported_or_fresh retry id (report e) s fresh = refl

  inserted_or_fresh :
      (retry : Act S (Option (String × Option Error))) (id : String)
      (r : Result Error (Result Error ℕ)) (s : S)
      → ¬ Taken r
      → is_some (inserted_or db retry id r s).0 ≡ true
  unfolding inserted_or
  inserted_or_fresh retry id (ok rows) s fresh = refl
  inserted_or_fresh retry id (err e) s fresh =
      reported_or_fresh retry id (verdict e) s
        (λ v. let (message, e', primary) = verdict_again e v in fresh (message, ap err e', primary))

  -- A user that can be reached, and of whose inserts the first `n` are answered with MySQL's error on a
  -- message that contains "users.PRIMARY", and the next is answered otherwise: `AddUser` returns, within
  -- `n + 1` calls of itself.
  pub add_user-returns :
      (n : ℕ) (u : User) (s : S)
      → IsReachable u
      → Settles n u s
      → is_some (add_user db (suc n) u s).0 ≡ true
  add_user-returns n u s reach (settled fresh) =
      ap (λ r. is_some r.0) (add_user_step zero u s reach)
      ∙ inserted_or_fresh _ _ (inserted u s).0 _ fresh
  add_user-returns (suc n) u s reach (retried (message, eq, primary) rest) =
      ap (λ r. is_some r.0)
        (add_user_again (suc n) u s (mysql message) reach eq (verdict_primary message primary))
      ∙ add_user-returns n (stamped u s) (inserted u s).1 reach rest

  -- When every insert of a user of this name is answered with MySQL's duplicate key error on a
  -- message that contains `users.PRIMARY`, `AddUser` never returns, whatever the fuel.
  pub add_user_forever :
      (name message : String)
      → has_substring message "users.PRIMARY" ≡ true
      → ((u : User) (s : S) → u.name ≡ name → (insert_user db u s).0 ≡ err (mysql message))
      → (fuel : ℕ) (u : User) (s : S) → IsReachable u
      → u.name ≡ name
      → (add_user db fuel u s).0 ≡ none
  unfolding run add_user
  add_user_forever name message primary taken zero u s reach named = refl
  add_user_forever name message primary taken (suc fuel) u s reach named =
      ap (λ r. r.0)
        (add_user_again fuel u s (mysql message) reach (taken (stamped u s) (drawn s) named)
          (verdict_primary message primary))
      ∙ add_user_forever name message primary taken fuel (stamped u s) (inserted u s).1 reach named
