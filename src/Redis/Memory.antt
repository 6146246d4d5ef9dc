-- ===== src/Redis/Memory.antt =====
-- A redis server in memory, which never fails: it shows that what the code relies on can be met.
pub mod Server
use userservice.Prelude.{
  ℕ, zero, suc, ◌+◌, ◌-◌, ◌≤◌, ◌<◌, ℤ, pos, String, str_eq, eq_iff, ◌≡◌, ◌≢◌, refl, sym, ◌⊎◌, inl,
  inr, Bool, true, false, not, ◌&&◌, ◌||◌, Option, none, some, List, [], ◌∷◌, arith, ltb,
  if◌then◌else◌, length, contains, lookup,
}
use userservice.Flow.{Act, Result, ok, err}
use userservice.Redis.{RedisError, nil, Authn}
use userservice.Redis.Laws.{
  View, RedisLaws, or_else, set_fields, drop_fields, added, add_member, drop_members,
}

-- The fields of the hashes, the members of the sets, and the numbers of ids given out.
pub record Memory : Type 0 where
  pub fields : List (String × String × String)
  pub sets : List (String × String)
  pub ids : ℕ

find : String → String → List (String × String × String) → Option String
find k f [] = none
find k f ((j, g, x) ∷ m) = if str_eq j k && str_eq g f then some x else find k f m

any_field : String → List (String × String × String) → Bool
any_field k [] = false
any_field k ((j, g, x) ∷ m) = str_eq j k || any_field k m

store :
    String
    → List (String × String)
    → List (String × String × String)
    → List (String × String × String)
store k [] m = m
store k ((f, x) ∷ r) m = (k, f, x) ∷ store k r m

erase : String → List String → List (String × String × String) → List (String × String × String)
erase k fs [] = []
erase k fs ((j, g, x) ∷ m) =
    let rest = erase k fs m in if str_eq k j && contains g fs then rest else (j, g, x) ∷ rest

collect : String → List (String × String × String) → List (String × String)
collect k [] = []
collect k ((j, g, x) ∷ m) = let rest = collect k m in if str_eq j k then (g, x) ∷ rest else rest

member : String → String → List (String × String) → Bool
member k t [] = false
member k t ((j, u) ∷ m) = (str_eq j k && str_eq u t) || member k t m

size : String → List (String × String) → ℕ
size k [] = 0
size k ((j, u) ∷ m) = if str_eq j k then suc (size k m) else size k m

members : String → List (String × String) → List String
members k [] = []
members k ((j, u) ∷ m) = let rest = members k m in if str_eq j k then u ∷ rest else rest

remove : String → List String → List (String × String) → List (String × String)
remove k ts [] = []
remove k ts ((j, u) ∷ m) =
    let rest = remove k ts m in if str_eq k j && contains u ts then rest else (j, u) ∷ rest

find-store :
    (k j f : String) (r : List (String × String)) (m : List (String × String × String))
    → find j f (store k r m)
      ≡ (if str_eq k j then or_else (lookup f r) (find j f m) else find j f m)
unfolding find store lookup
find-store k j f [] m = ground arith
find-store k j f ((g, x) ∷ r) m = ground (arith, find-store k j f r m)

find-erase :
    (k j f : String) (fs : List String) (m : List (String × String × String))
    → find j f (erase k fs m) ≡ (if str_eq k j && contains f fs then none else find j f m)
unfolding find erase
find-erase k j f fs [] = ground arith
find-erase k j f fs ((i, g, x) ∷ m) =
    ground (arith, find-erase k j f fs m, eq_iff k i, eq_iff k j, eq_iff i j, eq_iff g f)

lookup-collect :
    (k f : String) (m : List (String × String × String)) → lookup f (collect k m) ≡ find k f m
unfolding find collect lookup
lookup-collect k f [] = refl
lookup-collect k f ((j, g, x) ∷ m) = ground (arith, lookup-collect k f m)

any_field_of_find :
    (k f x : String) (m : List (String × String × String))
    → find k f m ≡ some x
    → any_field k m ≡ true
unfolding find any_field
any_field_of_find k f x [] h = cc
any_field_of_find k f x ((j, g, y) ∷ m) h = ground (arith, any_field_of_find k f x m)

any_field-none :
    (k : String) (m : List (String × String × String))
    → ((f : String) → find k f m ≡ none)
    → any_field k m ≡ false
unfolding find any_field
any_field-none k [] h = refl
any_field-none k ((j, g, x) ∷ m) h =
    ground (arith, any_field-none k m (λ f. ground (arith, h f)), h g, eq_iff g g)

length-members : (k : String) (m : List (String × String)) → length (members k m) ≡ size k m
unfolding members size
length-members k [] = refl
length-members k ((j, u) ∷ m) = ground (arith, length-members k m)

contains-members :
    (k t : String) (m : List (String × String)) → contains t (members k m) ≡ member k t m
unfolding members member contains
contains-members k t [] = refl
contains-members k t ((j, u) ∷ m) = ground (arith, contains-members k t m)

member-remove :
    (k j t : String) (ts : List String) (m : List (String × String))
    → member j t (remove k ts m) ≡ (if str_eq k j && contains t ts then false else member j t m)
unfolding member remove
member-remove k j t ts [] = ground arith
member-remove k j t ts ((i, u) ∷ m) =
    ground (arith, member-remove k j t ts m, eq_iff k i, eq_iff k j, eq_iff i j, eq_iff u t)

size-remove-le :
    (k : String) (ts : List String) (m : List (String × String)) → size k (remove k ts m) ≤ size k m
unfolding size remove
size-remove-le k ts [] = omega arith
size-remove-le k ts ((i, u) ∷ m) = ground (arith, size-remove-le k ts m)

size-remove_ne :
    (k j : String) (ts : List String) (m : List (String × String))
    → k ≢ j
    → size j (remove k ts m) ≡ size j m
unfolding size remove
size-remove_ne k j ts [] ne = refl
size-remove_ne k j ts ((i, u) ∷ m) ne =
    ground (arith, size-remove_ne k j ts m ne, eq_iff k i, eq_iff i j)
