-- ===== src/Router/Users/Statuses.antt =====
-- The statuses of the handlers of /user.
use userservice.Prelude.{ℕ, String, ◌≡◌, refl, true, Option, none, some, List, [], arith}
use userservice.Flow.Results.{
  Gives, Returns, run_gives, finish_returns, return_if_returns, call_returns, attempt_returns,
}
use userservice.Shared.{Error, User, Contact, user_exists, user_not_added}
use userservice.Http.{is_status}
use userservice.Router.{Request, UserService, send, success}
use userservice.Router.Statuses.{well_sent}
use userservice.Router.Users.{
  done, not_added, added, get_all_users, get_user, post_user, patch_user, delete_user, made_for,
  contact_for, create_contact,
}

pub done-well_sent :
    (code bad : ℕ) (messages : List String) (e : Option Error)
    → is_status code ≡ true
    → is_status bad ≡ true
    → well_sent (done code bad messages e) ≡ true
unfolding send success
done-well_sent code bad messages none good worse = good
done-well_sent code bad messages (some e) good worse = worse

not_added-is_status : (e : Error) → is_status (not_added e).0 ≡ true
unfolding not_added
not_added-is_status user_exists = refl
not_added-is_status user_not_added = refl
not_added-is_status e = refl

added-well_sent :
    (escape : String → String) (x : Option (String × Option Error))
    → well_sent (added escape x) ≡ true
unfolding added not_added send success
added-well_sent escape none = refl
added-well_sent escape (some (id, none)) = ground arith
added-well_sent escape (some (id, some e)) = not_added-is_status e

module _ {S : Type 0} (us : UserService S) (r : Request) where
  pub get_all_users-well_sent : Gives (get_all_users us r) (λ x. well_sent x ≡ true)
  unfolding get_all_users
  get_all_users-well_sent =
      run_gives _
        (call_returns _ _ (λ found. finish_returns _ (done-well_sent 200 400 _ found.1 refl refl)))

  pub get_user-well_sent : Gives (get_user us r) (λ x. well_sent x ≡ true)
  unfolding get_user
  get_user-well_sent =
      run_gives _
        (call_returns _ _ (λ found. finish_returns _ (done-well_sent 200 400 _ found.1 refl refl)))

  pub post_user-well_sent : Gives (post_user us r) (λ x. well_sent x ≡ true)
  unfolding post_user send
  post_user-well_sent = run_gives _ (
      attempt_returns _ _ _ (λ e. refl)
        (λ body.
          attempt_returns _ _ _ (λ e. refl)
            (λ user.
              return_if_returns _ _ _ (λ b. refl)
                (λ b. call_returns _ _ (λ x. finish_returns _ (added-well_sent _ x))))))

  pub patch_user-well_sent : Gives (patch_user us r) (λ x. well_sent x ≡ true)
  unfolding patch_user send
  patch_user-well_sent = run_gives _ (
      attempt_returns _ _ _ (λ e. refl)
        (λ body.
          attempt_returns _ _ _ (λ e. refl)
            (λ user.
              return_if_returns _ _ _ (λ b. refl)
                (λ b.
                  return_if_returns _ _ _ (λ b. refl)
                    (λ b.
                      call_returns _ _
                        (λ e. finish_returns _ (done-well_sent 204 500 [] e refl refl)))))))

  pub delete_user-well_sent : Gives (delete_user us r) (λ x. well_sent x ≡ true)
  unfolding delete_user
  delete_user-well_sent =
      run_gives _ (call_returns _ _ (λ e. finish_returns _ (done-well_sent 204 400 [] e refl refl)))

  made-well_sent :
      (user : Option User) (contact : Contact)
      → Returns (made_for us user contact) (λ x. well_sent x ≡ true)
  unfolding made_for
  made-well_sent none contact = finish_returns _ refl
  made-well_sent (some u) contact =
      call_returns _ _ (λ made. finish_returns _ (done-well_sent 200 500 _ made.1 refl refl))

  pub create_contact-well_sent : Gives (create_contact us r) (λ x. well_sent x ≡ true)
  unfolding create_contact contact_for send
  create_contact-well_sent = run_gives _ (
      return_if_returns _ _ _ (λ b. refl)
        (λ b. call_returns _ _ (λ found.
          return_if_returns _ _ _ (λ b. done-well_sent 200 400 [] found.1 refl refl)
            (λ b.
              attempt_returns _ _ _ (λ e. refl)
                (λ body.
                  attempt_returns _ _ _ (λ e. refl) (λ contact. made-well_sent found.0 contact))))))
