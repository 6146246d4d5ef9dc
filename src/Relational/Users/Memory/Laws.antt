-- ===== src/Relational/Users/Memory/Laws.antt =====
-- The table keeps what user.go relies on.
use userservice.Prelude.{
  ℕ, String, ◌≡◌, refl, sym, ap, ◌∙◌, ◌⊎◌, inl, inr, Option, none, some, List, [], ◌∷◌, arith,
}
use mathlib.Core.Path.{subst}
use userservice.Flow.{Result, ok}
use userservice.Shared.{Error, User}
use userservice.Relational.Scan.{Value, text, time, opt_text, scan_user}
use userservice.Relational.Users.{insert_user}
use userservice.Relational.Users.Directory.{changed_row}
use userservice.Relational.Users.Laws.{
  Inserted, Updated, Deleted, update_args, delete_args, UserLaws,
}
use userservice.Relational.Users.Memory.{
  Rows, find, opt_time, row_of, insert, replace, mark, execute, select, db, view,
}
use userservice.Relational.Users.Memory.Rows.{
  find_uuid, has_name-IsFree, text_of-opt_text, insert_fresh, insert_refused, insert_cases,
  replace_found, replace_cases, find_contact, shadowed,
}

bare : User → User
bare u = record u { contact = none; dtime = none }

insert_runs : (u : User) (s : Rows) → insert_user db u s ≡ insert (bare u) s
unfolding insert_user db execute bare
insert_runs u s = rw (text_of-opt_text u.email, text_of-opt_text u.cell) refl

insert-Inserted :
    (u : User) (s : Rows)
    → (insert (bare u) s).0 ≡ ok (ok 1)
    → Inserted u (view s) (view (insert (bare u) s).1)
unfolding find bare
insert-Inserted u s e =
    let (new, free, made) = insert_fresh (bare u) s e in
    (new, has_name-IsFree u.name u.uuid s free, rw made refl)

update_runs :
    (name : String) (email cell : Option String) (t : ℕ) (id : String) (s : Rows)
    → execute (text name ∷ opt_text email ∷ opt_text cell ∷ time t ∷ text id ∷ []) s
      ≡ replace
          (λ x. record x { name = name; email = email; cell = cell; mtime = t })
          name
          (find id s)
          s
unfolding execute
update_runs name none none t id s = refl
update_runs name none (some c) t id s = refl
update_runs name (some e) none t id s = refl
update_runs name (some e) (some c) t id s = refl

update-Updated :
    (u : User) (t : ℕ) (s : Rows)
    → (replace (changed_row u t) u.name (find u.uuid s) s).0 ≡ ok (ok 1)
    → Updated u t (view s) (view (replace (changed_row u t) u.name (find u.uuid s) s).1)
update-Updated u t s e =
    let (x, held, free, made) = replace_found (changed_row u t) u.name (find u.uuid s) s e in
    let key = find_uuid u.uuid s x held in
    (
      x,
      held,
      rw key at (has_name-IsFree u.name x.uuid s free),
      rw made (shadowed (changed_row u t x) u.uuid s key (find_contact u.uuid s x held)),
    )

insert_any :
    (u : User) (s : Rows)
    → let w' = view (insert_user db u s).1 in (w' ≡ view s) ⊎ Inserted u (view s) w'
insert_any u s = rw (insert_runs u s) (elim (insert_cases (bare u) s) [
  | inl same ↦ inl (ap view same)
  | inr fine ↦ inr (insert-Inserted u s fine)
])

update_ok :
    (u : User) (t : ℕ) (s : Rows)
    → (execute (update_args u t) s).0 ≡ ok (ok 1)
    → Updated u t (view s) (view (execute (update_args u t) s).1)
update_ok u t s q =
    let runs = update_runs u.name u.email u.cell t u.uuid s in
    rw runs (update-Updated u t s (rw runs at q))

update_any :
    (u : User) (t : ℕ) (s : Rows)
    → let w' = view (execute (update_args u t) s).1 in (w' ≡ view s) ⊎ Updated u t (view s) w'
update_any u t s =
    let runs = update_runs u.name u.email u.cell t u.uuid s in
    rw runs (elim (replace_cases (changed_row u t) u.name (find u.uuid s) s) [
      | inl same ↦ inl (ap view same)
      | inr fine ↦ inr (update-Updated u t s fine)
    ])

mark-Deleted :
    (id : String) (t : ℕ) (o : Option User) (s : Rows)
    → find id s ≡ o
    → let (r, s') = mark t o s in
      ((view s' ≡ view s) × (r ≡ ok (ok 0))) ⊎ Deleted id t (view s) (view s')
mark-Deleted id t none s e = inl (refl, refl)
mark-Deleted id t (some x) s e =
    inr (
      x,
      e,
      shadowed (record x { dtime = some t }) id s (find_uuid id s x e) (find_contact id s x e),
    )

delete_ok :
    (id : String) (t : ℕ) (s : Rows)
    → (execute (delete_args id t) s).0 ≡ ok (ok 1)
    → Deleted id t (view s) (view (execute (delete_args id t) s).1)
unfolding execute
delete_ok id t s e = elim (mark-Deleted id t (find id s) s refl) [
  | inl (same, none_there) ↦ absurd (ground (arith, e, none_there))
  | inr effect ↦ effect
]

delete_any :
    (id : String) (t : ℕ) (s : Rows)
    → let w' = view (execute (delete_args id t) s).1 in (w' ≡ view s) ⊎ Deleted id t (view s) w'
unfolding execute
delete_any id t s = elim (mark-Deleted id t (find id s) s refl) [
  | inl (same, none_there) ↦ inl same
  | inr effect ↦ inr effect
]

scanned :
    (id name : String) (email cell : Option String) (m c : ℕ) (d : Option ℕ)
    → scan_user
        (text id ∷ text name ∷ opt_text email ∷ opt_text cell ∷ time m ∷ time c ∷ opt_time d ∷ [])
      ≡ some (record {
        uuid = id;
        name = name;
        contact = none;
        email = email;
        cell = cell;
        mtime = m;
        ctime = c;
        dtime = d;
      })
unfolding scan_user
scanned id name none none m c none = refl
scanned id name none none m c (some d) = refl
scanned id name none (some b) m c none = refl
scanned id name none (some b) m c (some d) = refl
scanned id name (some a) none m c none = refl
scanned id name (some a) none m c (some d) = refl
scanned id name (some a) (some b) m c none = refl
scanned id name (some a) (some b) m c (some d) = refl

abbrev values : User → List Value
values x =
    text x.uuid
    ∷ text x.name
    ∷ opt_text x.email
    ∷ opt_text x.cell
    ∷ time x.mtime
    ∷ time x.ctime
    ∷ opt_time x.dtime
    ∷ []

ok_values : (a b : List Value) → Path (Result Error (List Value)) (ok a) (ok b) → a ≡ b
ok_values a b e = ground (arith, e)

row_of-scan :
    (id : String) (s : Rows) (o : Option User) (row : List Value)
    → find id s ≡ o
    → row_of o ≡ ok row
    → (x : User) × (find id s ≡ some x) × (scan_user row ≡ some x)
unfolding row_of
row_of-scan id s none row h q = cc
row_of-scan id s (some x) row h q = (
  x,
  h,
  subst (λ r. scan_user r ≡ some x) (ok_values (values x) row q)
      (scanned x.uuid x.name x.email x.cell x.mtime x.ctime x.dtime
        ∙ ap some (ap (λ k. record x { contact = k }) (sym (find_contact id s x h)))),
)

row_found :
    (id : String) (row : List Value) (s : Rows)
    → select "user/select" (text id ∷ []) s ≡ ok row
    → (x : User) × (view s id ≡ some x) × (scan_user row ≡ some x)
unfolding select
row_found id row s q = row_of-scan id s (find id s) row refl q

pub db-laws : UserLaws db view
unfolding db
db-laws = record {
  query_view = λ q args s. refl;
  now_view = λ s. refl;
  uuid_view = λ s. refl;
  select_row = λ id row s q. row_found id row s q;
  insert_ok = λ u s q. rw (insert_runs u s) (insert-Inserted u s (rw (insert_runs u s) at q));
  insert_refused = λ u m s q.
      rw (insert_runs u s) (ap view (insert_refused (bare u) s _ (rw (insert_runs u s) at q)));
  insert_any = λ u s. insert_any u s;
  update_ok = λ u t s q. update_ok u t s q;
  update_any = λ u t s. update_any u t s;
  delete_ok = λ id t s q. delete_ok id t s q;
  delete_any = λ id t s. delete_any id t s;
}
