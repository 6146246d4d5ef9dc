-- ===== src/Router/Contacts/Statuses.antt =====
-- The statuses of the handler of /contact.
use userservice.Prelude.{◌≡◌, refl, true, []}
use userservice.Flow.Results.{Gives, run_gives, finish_returns, call_returns, attempt_returns}
use userservice.Router.{Request, UserService, send}
use userservice.Router.Statuses.{well_sent}
use userservice.Router.Users.Statuses.{done-well_sent}
use userservice.Router.Contacts.{patch_contact}

module _ {S : Type 0} (us : UserService S) (r : Request) where
  pub patch_contact-well_sent : Gives (patch_contact us r) (λ x. well_sent x ≡ true)
  unfolding patch_contact send
  patch_contact-well_sent = run_gives _ (
      attempt_returns _ _ _ (λ e. refl)
        (λ body.
          attempt_returns _ _ _ (λ e. refl)
            (λ contact.
              call_returns _ _ (λ e. finish_returns _ (done-well_sent 200 500 [] e refl refl)))))
