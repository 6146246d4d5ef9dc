-- ===== src/Relational/Users/Directory.antt =====
-- What the methods of user.go promise, without statements and rows: a directory of users by their ids, in
-- which no two have the same name.
use userservice.Prelude.{
  ℕ, String, str_eq, eq_iff, ◌≡◌, ◌≢◌, refl, sym, ap, ◌∙◌, ◌⊎◌, inl, inr, Option, none, some, List,
  [], ◌∷◌, Bool-cases, arith, if◌then◌else◌,
}
use userservice.Shared.{Error, User, Contact}

-- The users as they are stored, without their contacts.
abbrev pub Directory : Type 0
Directory = String → Option User

abbrev pub set : String → User → Directory → Directory
set id x w j = if str_eq id j then some x else w j

-- The calls, and what they answer. `silent` is a call that does not come back.
pub data Op : Type 0 where
  adds updates : User → Op
  deletes reads : String → Op

pub data Reply : Type 0 where
  gave : String → Reply
  done silent : Reply
  found : User → Reply
  failed : Error → Reply

-- A name that nobody has but, maybe, the user of the id.
abbrev pub IsFree : String → String → Directory → Type 0
IsFree name id w = (j : String) (y : User) → w j ≡ some y → y.name ≡ name → j ≡ id

abbrev pub new_row : User → String → ℕ → User
new_row u id t = record u { uuid = id; contact = none; mtime = t; ctime = t; dtime = none }

abbrev pub changed_row : User → ℕ → User → User
changed_row u t x = record x { name = u.name; email = u.email; cell = u.cell; mtime = t }

-- A call that fails may have had its effect, when the answer was lost.
pub data Allows : Directory → Op → Reply → Directory → Type 0 where
  added :
      (w : Directory) (u : User) (id : String) (t : ℕ)
      → w id ≡ none
      → IsFree u.name id w
      → Allows w (adds u) (gave id) (set id (new_row u id t) w)
  updated :
      (w : Directory) (u x : User) (t : ℕ)
      → w u.uuid ≡ some x
      → IsFree u.name u.uuid w
      → Allows w (updates u) done (set u.uuid (changed_row u t x) w)
  deleted :
      (w : Directory) (id : String) (x : User) (t : ℕ)
      → w id ≡ some x
      → Allows w (deletes id) done (set id (record x { dtime = some t }) w)
  read :
      (w : Directory) (id : String) (x : User) (c : Option Contact)
      → w id ≡ some x
      → Allows w (reads id) (found (record x { contact = c })) w
  nothing_done : (w : Directory) (op : Op) (e : Error) → Allows w op (failed e) w
  answer_lost :
      {w w' : Directory} {op : Op} {r : Reply} (e : Error)
      → Allows w op r w'
      → Allows w op (failed e) w'
  no_answer : (w : Directory) (u : User) → Allows w (adds u) silent w

pub data History : Directory → List (Op × Reply) → Directory → Type 0 where
  start : (w : Directory) → History w [] w
  then :
      {w w' w'' : Directory} {op : Op} {r : Reply} {trace : List (Op × Reply)}
      → Allows w op r w'
      → History w' trace w''
      → History w ((op, r) ∷ trace) w''

pub record IsDirectory (w : Directory) : Type 0 where
  pub keyed : (id : String) (x : User) → w id ≡ some x → x.uuid ≡ id
  pub unique : (i j : String) (x y : User) → w i ≡ some x → w j ≡ some y → x.name ≡ y.name → i ≡ j

set_row :
    (id j : String) (x y : User) (w : Directory)
    → set id x w j ≡ some y
    → ((j ≡ id) × (y ≡ x)) ⊎ ((id ≢ j) × (w j ≡ some y))
set_row id j x y w e = elim (Bool-cases (str_eq id j)) [
  | inl same ↦ inl (ground (arith, same, eq_iff id j), ground (arith, e, same))
  | inr other ↦ inr (λ q. ground (arith, other, eq_iff id j, q), ground (arith, e, other))
]

set-IsDirectory :
    (id : String) (x : User) (w : Directory)
    → x.uuid ≡ id
    → IsFree x.name id w
    → IsDirectory w
    → IsDirectory (set id x w)
set-IsDirectory id x w key free h = record {
  keyed = λ j y e. elim (set_row id j x y w e) [
    | inl (same, row) ↦ ap (λ u. u.uuid) row ∙ key ∙ sym same
    | inr (other, old) ↦ h.keyed j y old
  ];
  unique = λ i j y z e f same_name. elim (set_row id i x y w e) [
    | inl (at_i, row) ↦ elim (set_row id j x z w f) [
      | inl (at_j, _) ↦ at_i ∙ sym at_j
      | inr (other, old) ↦ at_i ∙ sym (free j z old (sym same_name ∙ ap (λ u. u.name) row))
    ]
    | inr (not_i, old_i) ↦ elim (set_row id j x z w f) [
      | inl (at_j, row) ↦ free i y old_i (same_name ∙ ap (λ u. u.name) row) ∙ sym at_j
      | inr (other, old) ↦ h.unique i j y z old_i old same_name
    ]
  ];
}

pub Allows-IsDirectory :
    {w w' : Directory} {op : Op} {r : Reply} → Allows w op r w' → IsDirectory w → IsDirectory w'
Allows-IsDirectory (added w u id t new free) h = set-IsDirectory id _ w refl free h
Allows-IsDirectory (updated w u x t held free) h =
    set-IsDirectory u.uuid _ w (h.keyed u.uuid x held) free h
Allows-IsDirectory (deleted w id x t held) h =
    set-IsDirectory id _ w (h.keyed id x held) (λ j y e name. h.unique j id y x e held name) h
Allows-IsDirectory (read w id x c held) h = h
Allows-IsDirectory (nothing_done w op e) h = h
Allows-IsDirectory (answer_lost e a) h = Allows-IsDirectory a h
Allows-IsDirectory (no_answer w u) h = h
