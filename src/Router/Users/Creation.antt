-- ===== src/Router/Users/Creation.antt =====
-- `PostUser`: when a user is created, and when the call never returns.
use userservice.Prelude.{
  ℕ, String, eq_iff, unequal, ◌≡◌, ◌↔◌, ap, sym, ◌∙◌, ◌≢◌, refl, true, Option, none, some, [], ◌∷◌,
  arith,
}
use userservice.Flow.{ok, err, run}
use userservice.Flow.Spec.{
  Does, does_exactly, does_weaken, call_then, given_then, return_if_then, finish_rule, run_rule,
}
use userservice.Shared.{Error, User, mysql}
use userservice.Relational.{Conn}
use userservice.Relational.Users.{has_substring, insert_user, add_user}
use userservice.Relational.Users.Retries.{IsReachable, add_user_forever}
use userservice.Router.{
  Request, Served, answered, panicked, never_returned, send, success, succeeded, UserService,
  succeeds,
}
use userservice.Router.Users.{added, post_user}

added-succeeds :
    (escape : String → String) (o : Option (String × Option Error))
    → succeeds (added escape o) ≡ true
    → (id : String) × (id ≢ "") × (o ≡ some (id, none))
unfolding added send success
added-succeeds escape none h = ground arith
added-succeeds escape (some (id, none)) h = (id, λ e. ground (arith, eq_iff id ""), refl)
added-succeeds escape (some (id, some e)) h = ground arith

module _ {S : Type 0} (us : UserService S) (r : Request) where
  -- A user who can be reached, whom `AddUser` added under an id.
  pub data Created (s : S) : String → Type 0 where
    created :
        (body : String) (user : User) (id : String) (s1 : S)
        → r.body ≡ ok body
        → us.user_of_json body ≡ ok user
        → IsReachable user
        → id ≢ ""
        → us.userer.add_user user s ≡ (some (id, none), s1)
        → Created s id

  post_user_rule :
      (s : S)
      → Does
          (λ s'. s')
          s
          (post_user us r)
          (λ x s'. succeeds x ≡ true → (id : String) × Created s id)
  unfolding post_user send success
  post_user_rule s = run_rule _ (
      given_then _ _ _ (λ e b z. ground arith)
        (λ body b.
          given_then _ _ _ (λ e b z. ground arith)
            (λ user u.
              return_if_then _ _ _ (λ bad z. ground arith)
                (λ reach. call_then _ _ (
                  does_weaken (does_exactly _ s) (λ o s1 a. finish_rule _ (λ z.
                    let (id, ne, e) = added-succeeds us.escape_html o z in
                    (id, created body user id s1 b u reach ne (ground (arith, a, e))))))))))

  post_user_done :
      (s : S) (id : String)
      → Created s id
      → (post_user us r s).0 ≡ succeeded 201 (us.escape_html id ∷ [])
  unfolding run post_user added
  post_user_done s id (created body user i s1 b u reach ne a) = rw (b, u, reach, a, unequal ne) refl

  -- POST /user is answered with success exactly when the body is a user who can be reached and `AddUser`
  -- adds it under an id that is not empty; and the answer is 201 with a given text exactly when that text
  -- is the escaped id.
  pub post_user_iff :
      (s : S) (text : String)
      → ((succeeds (post_user us r s).0 ≡ true) ↔ ((id : String) × Created s id))
        × (((post_user us r s).0 ≡ succeeded 201 (text ∷ []))
            ↔ ((id : String) × Created s id × (us.escape_html id ≡ text)))
  unfolding send success
  post_user_iff s text =
      let sound = (post_user_rule s).at s refl in
      (
        (sound, λ q. ap succeeds (post_user_done s q.0 q.1)),
        (
          λ e.
              let (id, made) = sound (ap succeeds e) in
              (id, made, ap body_of (sym (post_user_done s id made) ∙ e)),
          λ q. post_user_done s q.0 q.1 ∙ ap (λ t. succeeded 201 (t ∷ [])) q.2,
        ),
      )
    where
      body_of : Served → String
      body_of (answered w) = elim w.body [ [] ↦ "" | t ∷ _ ↦ t ]
      body_of panicked = ""
      body_of never_returned = ""

  -- On a database that answers every insert of a user of the given name with a duplicate key error
  -- whose message contains "users.PRIMARY", POST /user of such a user never returns, whatever the fuel.
  pub post_user_forever :
      (db : Conn S) (fuel : ℕ) (body name message : String) (user : User) (s : S)
      → us.userer.add_user ≡ add_user db fuel
      → r.body ≡ ok body
      → us.user_of_json body ≡ ok user
      → IsReachable user
      → user.name ≡ name
      → has_substring message "users.PRIMARY" ≡ true
      → ((u : User) (t : S) → u.name ≡ name → (insert_user db u t).0 ≡ err (mysql message))
      → (post_user us r s).0 ≡ never_returned
  unfolding run post_user added
  post_user_forever db fuel body name message user s same b u reach named primary taken =
      rw (b, u, reach, same, add_user_forever db name message primary taken fuel user s reach named)
        refl
