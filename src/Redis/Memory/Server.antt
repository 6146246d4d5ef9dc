-- ===== src/Redis/Memory/Server.antt =====
-- The client of the server in memory, with the laws that it meets.
use userservice.Prelude.{
  ◌-◌, String, eq_iff, ◌≡◌, refl, inr, Bool, ◌||◌, Option, none, some, List, [], ◌∷◌, arith, ltb,
  if◌then◌else◌, length,
}
use userservice.Flow.{Result, ok, err}
use userservice.Redis.{RedisError, nil, Authn}
use userservice.Redis.Laws.{
  View, RedisLaws, set_fields, drop_fields, added, add_member, drop_members,
}
use userservice.Redis.Memory.{
  Memory, find, any_field, store, erase, collect, member, size, members, remove, find-store,
  find-erase, lookup-collect, any_field_of_find, any_field-none, length-members, contains-members,
  member-remove, size-remove-le, size-remove_ne,
}

holds : String → Memory → Bool
holds k s = any_field k s.fields || ltb 0 (size k s.sets)

fetch : Option String → Result RedisError String
fetch none = err nil
fetch (some x) = ok x

unfoldable pub client : Authn Memory
unfolding holds fetch find any_field store erase collect member size members remove
client = record {
  exists = λ k s. (ok (if holds k s then 1 else 0), s);
  expire = λ k age s. (ok (holds k s), s);
  hdel = λ k fs s. (ok (length fs), record s { fields = erase k fs s.fields });
  hget = λ k f s. (fetch (find k f s.fields), s);
  hget_all = λ k s. (ok (collect k s.fields), s);
  hset = λ k r s. (ok (length r), record s { fields = store k r s.fields });
  sadd = λ k ts s. elim ts [
    | [] ↦ (ok 0, s)
    | t ∷ _ ↦ if member k t s.sets then (ok 0, s) else (ok 1, record s { sets = (k, t) ∷ s.sets })
  ];
  smembers = λ k s. (ok (members k s.sets), s);
  srem = λ k ts s.
      (ok (size k s.sets - size k (remove k ts s.sets)), record s { sets = remove k ts s.sets });
}

unfoldable pub view : Memory → View
unfolding find member size
view s = record {
  hash = λ k f. find k f s.fields;
  has = λ k t. member k t s.sets;
  card = λ k. size k s.sets;
}

View-ext :
    {w w' : View}
    → ((k f : String) → w.hash k f ≡ w'.hash k f)
    → ((k t : String) → w.has k t ≡ w'.has k t)
    → ((k : String) → w.card k ≡ w'.card k)
    → w ≡ w'
View-ext h m c = λ i. record { hash = λ k f. h k f i; has = λ k t. m k t i; card = λ k. c k i }

hdel_lem :
    (k : String) (fs : List String) (s : Memory)
    → view (client.hdel k fs s).1 ≡ drop_fields k fs (view s)
unfolding view client
hdel_lem k fs s = View-ext (λ j f. find-erase k j f fs s.fields) (λ j t. refl) (λ j. refl)

hset_lem :
    (k : String) (r : List (String × String)) (s : Memory)
    → view (client.hset k r s).1 ≡ set_fields k r (view s)
unfolding view client
hset_lem k r s = View-ext (λ j f. find-store k j f r s.fields) (λ j t. refl) (λ j. refl)

sadd_lem :
    (k t : String) (s : Memory)
    → ((client.sadd k (t ∷ []) s).0 ≡ ok (added k t (view s)))
      × (view (client.sadd k (t ∷ []) s).1 ≡ add_member k t (view s))
unfolding view client
sadd_lem k t s = (
  ground arith,
  View-ext (λ j f. ground arith) (λ j u. ground (arith, eq_iff k j, eq_iff t u))
      (λ j. ground arith),
)

srem_lem :
    (k : String) (ts : List String) (s : Memory)
    → view (client.srem k ts s).1
      ≡ drop_members k ts (size k s.sets - size k (remove k ts s.sets)) (view s)
unfolding view client
srem_lem k ts s =
    View-ext (λ j f. refl) (λ j t. member-remove k j t ts s.sets)
      (λ j. ground (arith, eq_iff k j, size-remove_ne k j ts s.sets, size-remove-le k ts s.sets))

pub client-laws : RedisLaws client view
unfolding view client
client-laws = record {
  exists_view = λ k s. refl;
  exists_hit = λ k f x n s h q. ground (arith, any_field_of_find k f x s.fields h);
  exists_miss = λ k n s h c q. ground (arith, any_field-none k s.fields h);
  expire_view = λ k n s. refl;
  expire_hit = λ k f x n b s h q. ground (arith, any_field_of_find k f x s.fields h);
  hdel_ok = λ k fs n s q. hdel_lem k fs s;
  hdel_any = λ k fs s. inr (hdel_lem k fs s);
  hget_view = λ k f s. refl;
  hget_ok = λ k f x s q. ground arith;
  hget_nil = λ k f s q. ground arith;
  hget_all_view = λ k s. refl;
  hget_all_ok = λ k m s q f. ground (arith, lookup-collect k f s.fields);
  hset_ok = λ k r n s q. hset_lem k r s;
  hset_any = λ k r s. inr (hset_lem k r s);
  sadd_ok = λ k t n s q. (ground (arith, (sadd_lem k t s).0), (sadd_lem k t s).1);
  sadd_any = λ k t s. inr (sadd_lem k t s).1;
  smembers_view = λ k s. refl;
  smembers_ok = λ k ts s q.
      (ground (arith, length-members k s.sets), λ t. ground (arith, contains-members k t s.sets));
  smembers_nil = λ k s q. cc;
  srem_ok = λ k ts n s q. (ground arith, ground (arith, srem_lem k ts s));
  srem_any = λ k ts s. inr (_, srem_lem k ts s);
}
