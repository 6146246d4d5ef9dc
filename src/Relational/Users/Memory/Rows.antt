-- ===== src/Relational/Users/Memory/Rows.antt =====
-- The rows of the table: the newest of an id, and whether a name is free.
use userservice.Prelude.{
  String, str_eq, eq_iff, ◌≡◌, refl, sym, ap, ◌∙◌, ◌⊎◌, inl, inr, false, not, ◌&&◌, Option, none,
  some, [], ◌∷◌, Bool-cases, arith, if◌then◌else◌,
}
use mathlib.Core.Option.{some-injective}
use mathlib.Core.Path.{fun_ext}
use userservice.Flow.{ok, err}
use userservice.Shared.{Error, User}
use userservice.Relational.Scan.{opt_text}
use userservice.Relational.Users.Directory.{set, IsFree}
use userservice.Relational.Users.Memory.{Rows, find, has_name, text_of, insert, replace, view}

pub find_uuid : (id : String) (s : Rows) (x : User) → find id s ≡ some x → x.uuid ≡ id
unfolding find
find_uuid id [] x e = ground (arith, e)
find_uuid id (y ∷ s) x e = ground (arith, e, eq_iff y.uuid id, find_uuid id s x)

head_free :
    (x : User) (name id : String)
    → (str_eq x.name name && not (str_eq x.uuid id)) ≡ false
    → x.name ≡ name
    → x.uuid ≡ id
head_free x name id h e = ground (arith, h, e, eq_iff x.name name, eq_iff x.uuid id)

pub has_name-IsFree :
    (name id : String) (s : Rows) → has_name name id s ≡ false → IsFree name id (view s)
unfolding find has_name
has_name-IsFree name id [] h j y e same = ground (arith, e)
has_name-IsFree name id (x ∷ s) h j y e same = elim (Bool-cases (str_eq x.uuid j)) [
  | inl here ↦
      sym ((eq_iff x.uuid j).0 here)
      ∙ head_free x name id (ground (arith, h))
          (ap (λ u. u.name) (some-injective _ _ (rw here at e)) ∙ same)
  | inr there ↦ has_name-IsFree name id s (ground (arith, h)) j y (ground (arith, e, there)) same
]

pub text_of-opt_text : (o : Option String) → text_of (opt_text o) ≡ o
text_of-opt_text none = refl
text_of-opt_text (some t) = refl

pub insert_fresh :
    (x : User) (s : Rows)
    → (insert x s).0 ≡ ok (ok 1)
    → (find x.uuid s ≡ none) × (has_name x.name x.uuid s ≡ false) × ((insert x s).1 ≡ x ∷ s)
insert_fresh x s e = ground (arith, e)

pub insert_refused : (x : User) (s : Rows) (f : Error) → (insert x s).0 ≡ err f → (insert x s).1 ≡ s
insert_refused x s f e = ground (arith, e)

pub insert_cases : (x : User) (s : Rows) → ((insert x s).1 ≡ s) ⊎ ((insert x s).0 ≡ ok (ok 1))
insert_cases x s = ground arith

pub replace_found :
    (f : User → User) (name : String) (o : Option User) (s : Rows)
    → (replace f name o s).0 ≡ ok (ok 1)
    → (x : User) × (o ≡ some x)
      × (has_name name x.uuid s ≡ false)
      × ((replace f name o s).1 ≡ f x ∷ s)
replace_found f name none s e = ground (arith, e)
replace_found f name (some x) s e = (x, refl, ground (arith, e), ground (arith, e))

pub replace_cases :
    (f : User → User) (name : String) (o : Option User) (s : Rows)
    → ((replace f name o s).1 ≡ s) ⊎ ((replace f name o s).0 ≡ ok (ok 1))
replace_cases f name none s = inl refl
replace_cases f name (some x) s = ground arith

pub find_contact : (id : String) (s : Rows) (x : User) → find id s ≡ some x → x.contact ≡ none
unfolding find
find_contact id [] x e = ground (arith, e)
find_contact id (y ∷ s) x e = ground (arith, e, find_contact id s x)

-- A newer row stands in front of an older one.
pub shadowed :
    (x : User) (id : String) (s : Rows)
    → x.uuid ≡ id
    → x.contact ≡ none
    → view (x ∷ s) ≡ set id x (view s)
unfolding find
shadowed x id s key c = fun_ext (λ j.
    ap (λ y. if str_eq x.uuid j then some y else find j s)
      (ap (λ k. record x { contact = k }) (sym c))
    ∙ ap (λ i. if str_eq i j then some x else find j s) key)
