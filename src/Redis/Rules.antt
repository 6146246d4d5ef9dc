-- ===== src/Redis/Rules.antt =====
-- Each command of redis as a step of a function: what must hold after it, for every reply.
use userservice.Prelude.{
  ℕ, suc, ◌≤◌, ℤ, pos, String, ◌≡◌, ◌≢◌, refl, inl, inr, ◌⊎◌, Bool, true, none, some, List, [], ◌∷◌,
  length, contains, lookup,
}
use userservice.Flow.{Result, ok, err}
use userservice.Flow.Spec.{Does, Replies}
use userservice.Redis.{RedisError, nil, Authn}
use userservice.Redis.Laws.{
  View, RedisLaws, set_fields, drop_fields, added, add_member, drop_members,
}

-- To show what holds after a call, split on its reply.
module _ {A : Type 0} (G : A → View → Type 0) (F : RedisError → View → Type 0) where
  replies :
      (r : Result RedisError A) (w : View)
      → ((a : A) → r ≡ ok a → G a w)
      → ((e : RedisError) → r ≡ err e → F e w)
      → Replies G F r w
  replies (ok a) w g f = g a refl
  replies (err e) w g f = f e refl

-- After a command that failed, and perhaps took effect.
either {ℓ} : {w v v' : View} (P : View → Type ℓ) → (w ≡ v) ⊎ (w ≡ v') → P v → P v' → P w
either P (inl e) p q = rw e p
either P (inr e) p q = rw e q

module _ {S : Type 0} (r : Authn S) (view : S → View) (laws : RedisLaws r view) (w : View) where
  pub exists_rule :
      {G : ℕ → View → Type 0} {F : RedisError → View → Type 0} (k : String)
      → ((n : ℕ)
          → ((f x : String) → w.hash k f ≡ some x → n ≢ 0)
          → (((f : String) → w.hash k f ≡ none) → w.card k ≡ 0 → n ≡ 0)
          → G n w)
      → ((e : RedisError) → F e w)
      → Does view w (r.exists k) (Replies G F)
  exists_rule {G} {F} k g h = record {
    at = λ s e.
        replies G F (r.exists k s).0 _
          (λ n q.
            rw (laws.exists_view k s, e)
              (g n (λ f x p. laws.exists_hit k f x n s (rw e p) q)
                (λ p c. laws.exists_miss k n s (rw e p) (rw e c) q)))
          (λ x q. rw (laws.exists_view k s, e) (h x));
  }

  pub expire_rule :
      {G : Bool → View → Type 0} {F : RedisError → View → Type 0} (k : String) (age : ℤ) (n : ℕ)
      → age ≡ pos (suc n)
      → ((b : Bool) → ((f x : String) → w.hash k f ≡ some x → b ≡ true) → G b w)
      → ((e : RedisError) → F e w)
      → Does view w (r.expire k age) (Replies G F)
  expire_rule {G} {F} k age n positive g h = rw positive (record {
    at = λ s e.
        replies G F (r.expire k (pos (suc n)) s).0 _
          (λ b q.
            rw (laws.expire_view k n s, e) (g b (λ f x p. laws.expire_hit k f x n b s (rw e p) q)))
          (λ x q. rw (laws.expire_view k n s, e) (h x));
  })

  pub hdel_rule :
      {G : ℕ → View → Type 0} {F : RedisError → View → Type 0} (k : String) (fields : List String)
      → ((n : ℕ) → G n (drop_fields k fields w))
      → ((e : RedisError) → F e w × F e (drop_fields k fields w))
      → Does view w (r.hdel k fields) (Replies G F)
  hdel_rule {G} {F} k fields g h = record {
    at = λ s e.
        replies G F (r.hdel k fields s).0 _ (λ n q. rw (laws.hdel_ok k fields n s q, e) (g n))
          (λ x q. either (F x) (laws.hdel_any k fields s) (rw e (h x).0) (rw e (h x).1));
  }

  pub hget_rule :
      {G : String → View → Type 0} {F : RedisError → View → Type 0} (k f : String)
      → ((x : String) → w.hash k f ≡ some x → G x w)
      → ((e : RedisError) → F e w)
      → Does view w (r.hget k f) (Replies G F)
  hget_rule {G} {F} k f g h = record {
    at = λ s e.
        replies G F (r.hget k f s).0 _
          (λ x q. rw (laws.hget_view k f s, e) (g x (rw (← e) (laws.hget_ok k f x s q))))
          (λ x q. rw (laws.hget_view k f s, e) (h x));
  }

  pub hget_all_rule :
      {G : List (String × String) → View → Type 0} {F : RedisError → View → Type 0} (k : String)
      → ((m : List (String × String)) → ((f : String) → lookup f m ≡ w.hash k f) → G m w)
      → ((e : RedisError) → F e w)
      → Does view w (r.hget_all k) (Replies G F)
  hget_all_rule {G} {F} k g h = record {
    at = λ s e.
        replies G F (r.hget_all k s).0 _
          (λ m q. rw (laws.hget_all_view k s, e) (g m (λ f. rw (← e) (laws.hget_all_ok k m s q f))))
          (λ x q. rw (laws.hget_all_view k s, e) (h x));
  }

  pub hset_rule :
      {G : ℕ → View → Type 0} {F : RedisError → View → Type 0} (k : String)
      (fields : List (String × String))
      → ((n : ℕ) → G n (set_fields k fields w))
      → ((e : RedisError) → F e w × F e (set_fields k fields w))
      → Does view w (r.hset k fields) (Replies G F)
  hset_rule {G} {F} k fields g h = record {
    at = λ s e.
        replies G F (r.hset k fields s).0 _ (λ n q. rw (laws.hset_ok k fields n s q, e) (g n))
          (λ x q. either (F x) (laws.hset_any k fields s) (rw e (h x).0) (rw e (h x).1));
  }

  pub sadd_rule :
      {G : ℕ → View → Type 0} {F : RedisError → View → Type 0} (k t : String)
      → G (added k t w) (add_member k t w)
      → ((e : RedisError) → F e w × F e (add_member k t w))
      → Does view w (r.sadd k (t ∷ [])) (Replies G F)
  sadd_rule {G} {F} k t g h = record {
    at = λ s e.
        replies G F (r.sadd k (t ∷ []) s).0 _
          (λ n q. let p = laws.sadd_ok k t n s q in rw (p.0, p.1, e) g)
          (λ x q. either (F x) (laws.sadd_any k t s) (rw e (h x).0) (rw e (h x).1));
  }

  pub smembers_rule :
      {G : List String → View → Type 0} {F : RedisError → View → Type 0} (k : String)
      → ((ts : List String)
          → length ts ≡ w.card k
          → ((t : String) → contains t ts ≡ w.has k t)
          → G ts w)
      → ((e : RedisError) → e ≢ nil → F e w)
      → Does view w (r.smembers k) (Replies G F)
  smembers_rule {G} {F} k g h = record {
    at = λ s e.
        replies G F (r.smembers k s).0 _
          (λ ts q.
            let p = laws.smembers_ok k ts s q in
            rw (laws.smembers_view k s, e) (g ts (rw (← e) p.0) (λ t. rw (← e) (p.1 t))))
          (λ x q. rw (laws.smembers_view k s, e) (h x (λ z. laws.smembers_nil k s (rw z at q))));
  }

  pub srem_rule :
      {G : ℕ → View → Type 0} {F : RedisError → View → Type 0} (k : String) (ts : List String)
      → ((n : ℕ) → n ≤ w.card k → G n (drop_members k ts n w))
      → ((e : RedisError) → F e w × ((n : ℕ) → F e (drop_members k ts n w)))
      → Does view w (r.srem k ts) (Replies G F)
  srem_rule {G} {F} k ts g h = record {
    at = λ s e.
        replies G F (r.srem k ts s).0 _
          (λ n q. let p = laws.srem_ok k ts n s q in rw (p.1, e) (g n (rw (← e) p.0)))
          (λ x q. elim (laws.srem_any k ts s) [
            | inl p ↦ rw (p, e) (h x).0
            | inr (n, p) ↦ rw (p, e) ((h x).1 n)
          ]);
  }
