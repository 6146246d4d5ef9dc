-- ===== src/Redis/Laws.antt =====
-- What the validator relies on of a redis server, as the commands' documentation states it, on a
-- view of the server's data: the fields of each hash, and the members of each set with their number.
-- While a command runs no key expires; that a key has expired is a change of the view from outside.
use userservice.Prelude.{
  ℕ, suc, ◌+◌, ◌-◌, ◌≤◌, pos, String, str_eq, ◌≡◌, ◌≢◌, ◌⊎◌, Bool, true, false, ◌&&◌, Option, none,
  some, List, [], ◌∷◌, if◌then◌else◌, length, contains, lookup,
}
use userservice.Flow.{ok, err}
use userservice.Redis.{nil, Authn}

pub record View : Type 0 where
  pub hash : String → String → Option String
  pub has : String → String → Bool
  pub card : String → ℕ

abbrev pub or_else : Option String → Option String → Option String
or_else none o = o
or_else (some x) o = some x

-- HSET
abbrev pub set_fields : String → List (String × String) → View → View
set_fields k fields w = record w {
  hash = λ j f. if str_eq k j then or_else (lookup f fields) (w.hash j f) else w.hash j f;
}

-- HDEL; a hash without fields is no key.
abbrev pub drop_fields : String → List String → View → View
drop_fields k fields w = record w {
  hash = λ j f. if str_eq k j && contains f fields then none else w.hash j f;
}

-- SADD of one member: the reply, and the set.
abbrev pub added : String → String → View → ℕ
added k t w = if w.has k t then 0 else 1

abbrev pub add_member : String → String → View → View
add_member k t w = record w {
  has = λ j u. if str_eq k j && str_eq t u then true else w.has j u;
  card = λ j. if str_eq k j then w.card j + added k t w else w.card j;
}

-- SREM which removes `n` members.
abbrev pub drop_members : String → List String → ℕ → View → View
drop_members k ts n w = record w {
  has = λ j u. if str_eq k j && contains u ts then false else w.has j u;
  card = λ j. if str_eq k j then w.card j - n else w.card j;
}

-- A command that failed may have been carried out or not.
pub record RedisLaws {S : Type 0} (r : Authn S) (view : S → View) : Type 0 where
  pub exists_view : (k : String) (s : S) → view (r.exists k s).1 ≡ view s
  pub exists_hit :
      (k f x : String) (n : ℕ) (s : S)
      → (view s).hash k f ≡ some x
      → (r.exists k s).0 ≡ ok n
      → n ≢ 0
  pub exists_miss :
      (k : String) (n : ℕ) (s : S)
      → ((f : String) → (view s).hash k f ≡ none)
      → (view s).card k ≡ 0
      → (r.exists k s).0 ≡ ok n
      → n ≡ 0
  pub expire_view : (k : String) (n : ℕ) (s : S) → view (r.expire k (pos (suc n)) s).1 ≡ view s
  pub expire_hit :
      (k f x : String) (n : ℕ) (b : Bool) (s : S)
      → (view s).hash k f ≡ some x
      → (r.expire k (pos (suc n)) s).0 ≡ ok b
      → b ≡ true
  pub hdel_ok :
      (k : String) (fields : List String) (n : ℕ) (s : S)
      → (r.hdel k fields s).0 ≡ ok n
      → view (r.hdel k fields s).1 ≡ drop_fields k fields (view s)
  pub hdel_any :
      (k : String) (fields : List String) (s : S)
      → let w = view (r.hdel k fields s).1 in (w ≡ view s) ⊎ (w ≡ drop_fields k fields (view s))
  pub hget_view : (k f : String) (s : S) → view (r.hget k f s).1 ≡ view s
  pub hget_ok : (k f x : String) (s : S) → (r.hget k f s).0 ≡ ok x → (view s).hash k f ≡ some x
  pub hget_nil : (k f : String) (s : S) → (r.hget k f s).0 ≡ err nil → (view s).hash k f ≡ none
  pub hget_all_view : (k : String) (s : S) → view (r.hget_all k s).1 ≡ view s
  pub hget_all_ok :
      (k : String) (m : List (String × String)) (s : S)
      → (r.hget_all k s).0 ≡ ok m
      → (f : String) → lookup f m ≡ (view s).hash k f
  pub hset_ok :
      (k : String) (fields : List (String × String)) (n : ℕ) (s : S)
      → (r.hset k fields s).0 ≡ ok n
      → view (r.hset k fields s).1 ≡ set_fields k fields (view s)
  pub hset_any :
      (k : String) (fields : List (String × String)) (s : S)
      → let w = view (r.hset k fields s).1 in (w ≡ view s) ⊎ (w ≡ set_fields k fields (view s))
  pub sadd_ok :
      (k t : String) (n : ℕ) (s : S)
      → (r.sadd k (t ∷ []) s).0 ≡ ok n
      → (n ≡ added k t (view s)) × (view (r.sadd k (t ∷ []) s).1 ≡ add_member k t (view s))
  pub sadd_any :
      (k t : String) (s : S)
      → let w = view (r.sadd k (t ∷ []) s).1 in (w ≡ view s) ⊎ (w ≡ add_member k t (view s))
  pub smembers_view : (k : String) (s : S) → view (r.smembers k s).1 ≡ view s
  pub smembers_ok :
      (k : String) (ts : List String) (s : S)
      → (r.smembers k s).0 ≡ ok ts
      → (length ts ≡ (view s).card k) × ((t : String) → contains t ts ≡ (view s).has k t)
  -- SMEMBERS of a key that is not there is an empty list and no error.
  pub smembers_nil : (k : String) (s : S) → (r.smembers k s).0 ≢ err nil
  pub srem_ok :
      (k : String) (ts : List String) (n : ℕ) (s : S)
      → (r.srem k ts s).0 ≡ ok n
      → (n ≤ (view s).card k) × (view (r.srem k ts s).1 ≡ drop_members k ts n (view s))
  pub srem_any :
      (k : String) (ts : List String) (s : S)
      → let w = view (r.srem k ts s).1 in
        (w ≡ view s) ⊎ ((n : ℕ) × (w ≡ drop_members k ts n (view s)))
