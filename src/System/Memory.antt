-- ===== src/System/Memory.antt =====
-- The table and the redis server in memory as one world, with the laws of each on its part.
use userservice.Prelude.{List}
use userservice.Flow.{Act}
use userservice.Shared.{BasicAuth}
use userservice.Redis.{Authn}
use userservice.Redis.Laws.{View, RedisLaws}
use userservice.Redis.Memory.{Memory}
use userservice.Redis.Memory.Server as Server
use userservice.Relational.{Conn}
use userservice.Relational.BasicAuth.Laws.{Table, AuthLaws}
use userservice.Relational.BasicAuth.Memory as Rows

pub record World : Type 0 where
  pub rows : List BasicAuth
  pub redis : Memory

abbrev on_rows : {A : Type 0} → Act (List BasicAuth) A → Act World A
on_rows m s = let (a, t) = m s.rows in (a, record s { rows = t })

abbrev on_redis : {A : Type 0} → Act Memory A → Act World A
on_redis m s = let (a, t) = m s.redis in (a, record s { redis = t })

unfoldable pub db : Conn World
db = record {
  query_row = λ q args. on_rows (Rows.db.query_row q args);
  query = λ q args. on_rows (Rows.db.query q args);
  exec = λ q args. on_rows (Rows.db.exec q args);
  uuidgen = on_rows Rows.db.uuidgen;
  new_string = on_rows Rows.db.new_string;
  now = on_rows Rows.db.now;
  sqls = Rows.db.sqls;
}

unfoldable pub table : World → Table
table s = Rows.view s.rows

pub db-laws : AuthLaws db table
unfolding db table
db-laws = record {
  keyed = λ s. Rows.db-laws.keyed s.rows;
  select_view = λ id s. Rows.db-laws.select_view id s.rows;
  select_row = λ id a row s. Rows.db-laws.select_row id a row s.rows;
  select_error = λ id e s. Rows.db-laws.select_error id e s.rows;
  update_ok = λ x s. Rows.db-laws.update_ok x s.rows;
  update_any = λ x s. Rows.db-laws.update_any x s.rows;
  update_error = λ x e s. Rows.db-laws.update_error x e s.rows;
  rows_error = λ x e s. Rows.db-laws.rows_error x e s.rows;
  now_view = λ s. Rows.db-laws.now_view s.rows;
  string_view = λ s. Rows.db-laws.string_view s.rows;
}

unfoldable pub client : Authn World
client = record {
  exists = λ k. on_redis (Server.client.exists k);
  expire = λ k t. on_redis (Server.client.expire k t);
  hdel = λ k fs. on_redis (Server.client.hdel k fs);
  hget = λ k f. on_redis (Server.client.hget k f);
  hget_all = λ k. on_redis (Server.client.hget_all k);
  hset = λ k r. on_redis (Server.client.hset k r);
  sadd = λ k ts. on_redis (Server.client.sadd k ts);
  smembers = λ k. on_redis (Server.client.smembers k);
  srem = λ k ts. on_redis (Server.client.srem k ts);
}

unfoldable pub view : World → View
view s = Server.view s.redis

pub client-laws : RedisLaws client view
unfolding client view
client-laws = record {
  exists_view = λ k s. Server.client-laws.exists_view k s.redis;
  exists_hit = λ k f x n s. Server.client-laws.exists_hit k f x n s.redis;
  exists_miss = λ k n s. Server.client-laws.exists_miss k n s.redis;
  expire_view = λ k n s. Server.client-laws.expire_view k n s.redis;
  expire_hit = λ k f x n b s. Server.client-laws.expire_hit k f x n b s.redis;
  hdel_ok = λ k fs n s. Server.client-laws.hdel_ok k fs n s.redis;
  hdel_any = λ k fs s. Server.client-laws.hdel_any k fs s.redis;
  hget_view = λ k f s. Server.client-laws.hget_view k f s.redis;
  hget_ok = λ k f x s. Server.client-laws.hget_ok k f x s.redis;
  hget_nil = λ k f s. Server.client-laws.hget_nil k f s.redis;
  hget_all_view = λ k s. Server.client-laws.hget_all_view k s.redis;
  hget_all_ok = λ k m s. Server.client-laws.hget_all_ok k m s.redis;
  hset_ok = λ k r n s. Server.client-laws.hset_ok k r n s.redis;
  hset_any = λ k r s. Server.client-laws.hset_any k r s.redis;
  sadd_ok = λ k t n s. Server.client-laws.sadd_ok k t n s.redis;
  sadd_any = λ k t s. Server.client-laws.sadd_any k t s.redis;
  smembers_view = λ k s. Server.client-laws.smembers_view k s.redis;
  smembers_ok = λ k ts s. Server.client-laws.smembers_ok k ts s.redis;
  smembers_nil = λ k s. Server.client-laws.smembers_nil k s.redis;
  srem_ok = λ k ts n s. Server.client-laws.srem_ok k ts n s.redis;
  srem_any = λ k ts s. Server.client-laws.srem_any k ts s.redis;
}
