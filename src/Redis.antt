-- ===== src/Redis.antt =====
-- The redis client that the validator holds: the interface `authn` of
-- internal/validation/validator.go, and what the code relies on of a redis server.
pub mod Laws
pub mod Rules
pub mod Memory
use userservice.Prelude.{ℕ, ℤ, String, Bool, List}
use userservice.Flow.{Act, Result}

-- `redis.Nil` is the reply for a key or a field that is not there.
pub data RedisError : Type 0 where
  nil : RedisError
  failed : String → RedisError

abbrev pub Reply : Type 0 → Type 0 → Type 0
Reply S A = Act S (Result RedisError A)

-- `S` is the world that holds the server's data.
pub record Authn (S : Type 0) : Type 0 where
  pub exists : String → Reply S ℕ
  pub expire : String → ℤ → Reply S Bool
  pub hdel : String → List String → Reply S ℕ
  pub hget : String → String → Reply S String
  pub hget_all : String → Reply S (List (String × String))
  pub hset : String → List (String × String) → Reply S ℕ
  pub sadd : String → List String → Reply S ℕ
  pub smembers : String → Reply S (List String)
  pub srem : String → List String → Reply S ℕ
