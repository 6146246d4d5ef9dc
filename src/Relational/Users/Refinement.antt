-- ===== src/Relational/Users/Refinement.antt =====
-- AddUser keeps what the directory of users promises, and so do all calls together.
use userservice.Prelude.{
  ℕ, zero, suc, String, ◌≡◌, refl, sym, ap, ◌∙◌, ◌⊎◌, inl, inr, not, ◌&&◌, Option, some, List, [],
  ◌∷◌, Bool-cases, arith,
}
use mathlib.Core.Path.{subst}
use userservice.Flow.{Act, Result, ok, err, run}
use userservice.Shared.{Error, User, mysql, undeliverable, user_not_added, email_valid, cell_valid}
use userservice.Relational.{Conn, affected}
use userservice.Relational.Affected.{affected-none}
use userservice.Relational.Users.{
  Verdict, again, report, verdict, reported_or, inserted_or, add_user,
}
use userservice.Relational.Users.Retries.{stamped, drawn, inserted, add_user_step}
use userservice.Relational.Users.Directory.{
  Directory, Op, adds, updates, deletes, reads, gave, new_row, Allows, added, nothing_done,
  no_answer, History, start, then, IsDirectory, Allows-IsDirectory,
}
use userservice.Relational.Users.Laws.{UserLaws, Inserted}
use userservice.Relational.Users.Calls.{
  reply_of_add, perform, answers, after, settled, update_user-Allows, delete_user-Allows,
  get_user-Allows,
}

-- `AddUser` tries again only on an error of MySQL's own.
verdict-again : (e : Error) → verdict e ≡ again → (message : String) × (e ≡ mysql message)
unfolding verdict
verdict-again (mysql message) v = (message, refl)
verdict-again e v = absurd (ground (arith, v))

module _ {S : Type 0} (db : Conn S) (view : S → Directory) (laws : UserLaws db view) where
  drawn-view : (s : S) → view (drawn db s) ≡ view s
  drawn-view s = laws.uuid_view (db.now s).1 ∙ laws.now_view s

  -- `u0` is the user as `AddUser` got it, `u` as it is after some tries.
  abbrev SameRow : User → User → Type 0
  SameRow u0 u = (u.name ≡ u0.name) × ((id : String) (t : ℕ) → new_row u id t ≡ new_row u0 id t)

  added_by :
      (u0 u : User) (w w' : Directory) (id : String) (t : ℕ)
      → SameRow u0 u
      → Inserted (record u { uuid = id; mtime = t; ctime = t }) w w'
      → Allows w (adds u0) (gave id) w'
  added_by u0 u w w' id t (name, row) (new, free, e) =
      rw (e, row id t) (added w u0 id t new (rw name at free))

  maybe_added :
      (u0 u : User) (w w' : Directory) (id : String) (t : ℕ)
      → SameRow u0 u
      → (w' ≡ w) ⊎ Inserted (record u { uuid = id; mtime = t; ctime = t }) w w'
      → (w' ≡ w) ⊎ Allows w (adds u0) (gave id) w'
  maybe_added u0 u w w' id t same (inl kept) = inl kept
  maybe_added u0 u w w' id t same (inr effect) = inr (added_by u0 u w w' id t same effect)

  -- The end of one try; `retry` is what another would come to.
  module _ (u0 u : User) (s : S) (retry : Act S (Option (String × Option Error)))
      (same : SameRow u0 u)
      (again_fine : view (inserted db u s).1 ≡ view s
        → Allows
            (view s)
            (adds u0)
            (reply_of_add (retry (inserted db u s).1).0)
            (view (retry (inserted db u s).1).1)) where
    either_way :
        (view (inserted db u s).1 ≡ view s)
        ⊎ Allows (view s) (adds u0) (gave (stamped db u s).uuid) (view (inserted db u s).1)
    either_way =
        maybe_added u0 u (view s) (view (inserted db u s).1) (stamped db u s).uuid
          (stamped db u s).mtime same
          (rw (drawn-view s) at (laws.insert_any (stamped db u s) (drawn db s)))

    reported :
        (x : Error) (v : Verdict)
        → (inserted db u s).0 ≡ err x
        → verdict x ≡ v
        → let (r, s') = reported_or db retry (stamped db u s).uuid v (inserted db u s).1 in
          Allows (view s) (adds u0) (reply_of_add r) (view s')
    unfolding reported_or
    reported x again e v =
        let (message, m) = verdict-again x v in
        again_fine
          (laws.insert_refused (stamped db u s) message (drawn db s) (e ∙ ap err m) ∙ drawn-view s)
    reported x (report e') e v =
        settled (view s) (view (inserted db u s).1) _ _ (some e') (λ z. ground (arith, z))
          either_way

    tried :
        (r : Result Error (Result Error ℕ))
        → (inserted db u s).0 ≡ r
        → let (x, s') = inserted_or db retry (stamped db u s).uuid r (inserted db u s).1 in
          Allows (view s) (adds u0) (reply_of_add x) (view s')
    unfolding inserted_or
    tried (ok rows) e =
        settled (view s) (view (inserted db u s).1) _ _ (affected user_not_added (ok rows))
          (λ fine.
            added_by u0 u (view s) (view (inserted db u s).1) (stamped db u s).uuid
              (stamped db u s).mtime same
              (rw (drawn-view s) at
                (laws.insert_ok (stamped db u s) (drawn db s) (e ∙ affected-none _ _ fine))))
          either_way
    tried (err x) e = reported x (verdict x) e refl

  add_user-tries :
      (fuel : ℕ) (u0 u : User) (s : S)
      → SameRow u0 u
      → let (r, s') = add_user db fuel u s in Allows (view s) (adds u0) (reply_of_add r) (view s')
  unfolding add_user run
  add_user-tries zero u0 u s same = no_answer (view s) u0
  add_user-tries (suc fuel) u0 u s same =
      elim (Bool-cases (not (email_valid u.email) && not (cell_valid u.cell))) [
        | inl unreachable ↦ rw unreachable (nothing_done (view s) (adds u0) undeliverable)
        | inr reachable ↦
            subst (λ x. Allows (view s) (adds u0) (reply_of_add x.0) (view x.1))
              (sym (add_user_step db fuel u s reachable))
              (tried u0 u s (add_user db fuel (stamped db u s)) same
                (λ kept.
                  rw kept at (add_user-tries fuel u0 (stamped db u s) (inserted db u s).1 same))
                (inserted db u s).0 refl)
      ]

  perform-Allows :
      (fuel : ℕ) (op : Op) (s : S)
      → let (r, s') = perform db fuel op s in Allows (view s) op r (view s')
  perform-Allows fuel (adds u) s = add_user-tries fuel u u s (refl, λ id t. refl)
  perform-Allows fuel (updates u) s = update_user-Allows db view laws u s
  perform-Allows fuel (deletes id) s = delete_user-Allows db view laws id s
  perform-Allows fuel (reads id) s = get_user-Allows db view laws id s

  -- Any calls of AddUser, UpdateUser, DeleteUser and GetUser, one after the other and on every outcome of
  -- the database, are answered as the directory of users allows: a call without an error has its effect
  -- on the directory and on it alone, and one with an error has it or none. Ids and names stay unique.
  pub users-History :
      (fuel : ℕ) (ops : List Op) (s : S)
      → IsDirectory (view s)
      → History (view s) (answers db fuel ops s) (view (after db fuel ops s))
        × IsDirectory (view (after db fuel ops s))
  users-History fuel [] s h = (start (view s), h)
  users-History fuel (op ∷ ops) s h =
      let allowed = perform-Allows fuel op s in
      let (rest, h') =
        users-History fuel ops (perform db fuel op s).1 (Allows-IsDirectory allowed h) in
      (then allowed rest, h')
