-- ===== src/Relational/Users/Calls.antt =====
-- The calls of user.go with their answers, and what UpdateUser, DeleteUser and GetUser keep of what the
-- directory promises.
use userservice.Prelude.{ℕ, String, ◌≡◌, refl, ◌⊎◌, inl, inr, Option, none, some, List, [], ◌∷◌}
use userservice.Flow.{Result, ok, err, run}
use userservice.Shared.{Error, User, Contact}
use userservice.Relational.{Conn}
use userservice.Relational.Affected.{affected-none}
use userservice.Relational.Scan.{Value, text, scan, scan_user}
use userservice.Relational.Contacts.{get_contact}
use userservice.Relational.Contacts.Reading.{get_contact_rule}
use userservice.Relational.Users.{
  add_user, update_user, delete_user, get_user, user_found, with_contact,
}
use userservice.Relational.Users.Directory.{
  Directory, Op, adds, updates, deletes, reads, Reply, gave, done, silent, found, failed, Allows,
  updated, deleted, read, nothing_done, answer_lost,
}
use userservice.Relational.Users.Laws.{UserLaws, Updated, Deleted}

-- An answer, or the error.
abbrev pub outcome : Reply → Option Error → Reply
outcome r none = r
outcome r (some e) = failed e

abbrev pub reply_of_add : Option (String × Option Error) → Reply
reply_of_add none = silent
reply_of_add (some (id, e)) = outcome (gave id) e

-- `GetUser` gives a user or an error.
abbrev pub reply_of_get : Option User × Option Error → Reply
reply_of_get (some u, none) = found u
reply_of_get (u, some e) = failed e
reply_of_get (none, none) = silent

module _ {S : Type 0} (db : Conn S) (fuel : ℕ) where
  -- A call of `Conn`, with its answer.
  abbrev pub perform : Op → S → Reply × S
  perform (adds u) s = let (r, s') = add_user db fuel u s in (reply_of_add r, s')
  perform (updates u) s = let (r, s') = update_user db u s in (outcome done r, s')
  perform (deletes id) s = let (r, s') = delete_user db id s in (outcome done r, s')
  perform (reads id) s = let (r, s') = get_user db id s in (reply_of_get r, s')

  -- Calls one after the other, with their answers.
  abbrev pub answers : List Op → S → List (Op × Reply)
  answers [] s = []
  answers (op ∷ ops) s = (op, (perform op s).0) ∷ answers ops (perform op s).1

  abbrev pub after : List Op → S → S
  after [] s = s
  after (op ∷ ops) s = after ops (perform op s).1

-- A statement that succeeded, or failed with or without its effect.
pub settled :
    (w w' : Directory) (op : Op) (r : Reply) (o : Option Error)
    → (o ≡ none → Allows w op r w')
    → (w' ≡ w) ⊎ Allows w op r w'
    → Allows w op (outcome r o) w'
settled w w' op r none good any = good refl
settled w w' op r (some e) good (inl same) = rw same (nothing_done w op e)
settled w w' op r (some e) good (inr effect) = answer_lost e effect

updated_by : (w w' : Directory) (u : User) (t : ℕ) → Updated u t w w' → Allows w (updates u) done w'
updated_by w w' u t (x, held, free, e) = rw e (updated w u x t held free)

deleted_by :
    (w w' : Directory) (id : String) (t : ℕ) → Deleted id t w w' → Allows w (deletes id) done w'
deleted_by w w' id t (x, held, e) = rw e (deleted w id x t held)

module _ {S : Type 0} (db : Conn S) (view : S → Directory) (laws : UserLaws db view) where
  pub update_user-Allows :
      (u : User) (s : S)
      → let (r, s') = update_user db u s in Allows (view s) (updates u) (outcome done r) (view s')
  unfolding update_user run
  update_user-Allows u s =
      let (t, s1) = db.now s in
      let w = view s in
      let w' = view (update_user db u s).1 in
      settled w w' _ _ _
        (λ fine.
          updated_by w w' u t
            (rw (laws.now_view s) at (laws.update_ok u t s1 (affected-none _ _ fine))))
        (elim (rw (laws.now_view s) at (laws.update_any u t s1)) [
          | inl same ↦ inl same
          | inr effect ↦ inr (updated_by w w' u t effect)
        ])

  pub delete_user-Allows :
      (id : String) (s : S)
      → let (r, s') = delete_user db id s in Allows (view s) (deletes id) (outcome done r) (view s')
  unfolding delete_user run
  delete_user-Allows id s =
      let (t, s1) = db.now s in
      let w = view s in
      let w' = view (delete_user db id s).1 in
      settled w w' _ _ _
        (λ fine.
          deleted_by w w' id t
            (rw (laws.now_view s) at (laws.delete_ok id t s1 (affected-none _ _ fine))))
        (elim (rw (laws.now_view s) at (laws.delete_any id t s1)) [
          | inl same ↦ inl same
          | inr effect ↦ inr (deleted_by w w' id t effect)
        ])

  -- The user that was read, with whatever the contact's reading gave.
  read_with :
      (w : Directory) (id : String) (x : User) (c : Option Contact × Option Error)
      → w id ≡ some x
      → Allows w (reads id) (reply_of_get (with_contact db x c)) w
  unfolding with_contact
  read_with w id x (c, none) held = read w id x c held
  read_with w id x (c, some e) held = nothing_done w (reads id) e

  user_found-Allows :
      (id : String) (w : Directory) (s : S)
      → view s ≡ w
      → (row : Result Error (List Value))
      → ((r : List Value) → row ≡ ok r → (x : User) × (w id ≡ some x) × (scan_user r ≡ some x))
      → let (r, s') = user_found db id (scan scan_user row) s in
        Allows w (reads id) (reply_of_get r) (view s')
  unfolding user_found run
  user_found-Allows id w s now (err e) rows = rw now (nothing_done w (reads id) e)
  user_found-Allows id w s now (ok row) rows =
      let (x, held, scanned) = rows row refl in
      let kept = (get_contact_rule db view laws.query_view w id).at s now in
      rw (scanned, kept) (read_with w id x (get_contact db id s).0 held)

  pub get_user-Allows :
      (id : String) (s : S)
      → let (r, s') = get_user db id s in Allows (view s) (reads id) (reply_of_get r) (view s')
  unfolding get_user run
  get_user-Allows id s =
      user_found-Allows id (view s) (db.query_row (db.sqls "user" "select") (text id ∷ []) s).1
        (laws.query_view _ _ s) (db.query_row (db.sqls "user" "select") (text id ∷ []) s).0
        (λ r e. laws.select_row id r s e)
