-- ===== src/Router/Addresses/Statuses.antt =====
-- The statuses of the handlers of /address.
use userservice.Prelude.{String, ◌≡◌, refl, true, Option, none, some, arith}
use userservice.Flow.Results.{Gives, run_gives, finish_returns, call_returns, attempt_returns}
use userservice.Shared.{Error}
use userservice.Router.{Request, UserService, send, success}
use userservice.Router.Statuses.{well_sent}
use userservice.Router.Addresses.{
  found_or, posted, patched, get_all_addresses, get_address, post_address, patch_address,
}

found_or-well_sent : (text : String) (e : Option Error) → well_sent (found_or text e) ≡ true
unfolding send success
found_or-well_sent text none = refl
found_or-well_sent text (some e) = refl

posted-well_sent :
    (escape : String → String) (x : String × Option Error) → well_sent (posted escape x) ≡ true
unfolding send success
posted-well_sent escape (id, none) = ground arith
posted-well_sent escape (id, some e) = refl

patched-well_sent : (e : Option Error) → well_sent (patched e) ≡ true
unfolding send success
patched-well_sent none = refl
patched-well_sent (some e) = refl

module _ {S : Type 0} (us : UserService S) (r : Request) where
  pub get_all_addresses-well_sent : Gives (get_all_addresses us r) (λ x. well_sent x ≡ true)
  unfolding get_all_addresses
  get_all_addresses-well_sent =
      run_gives _ (call_returns _ _ (λ found. finish_returns _ (found_or-well_sent _ found.1)))

  pub get_address-well_sent : Gives (get_address us r) (λ x. well_sent x ≡ true)
  unfolding get_address
  get_address-well_sent =
      run_gives _ (call_returns _ _ (λ found. finish_returns _ (found_or-well_sent _ found.1)))

  pub post_address-well_sent : Gives (post_address us r) (λ x. well_sent x ≡ true)
  unfolding post_address send
  post_address-well_sent = run_gives _ (
      attempt_returns _ _ _ (λ e. refl)
        (λ body.
          attempt_returns _ _ _ (λ e. refl)
            (λ address.
              call_returns _ _ (λ made. finish_returns _ (posted-well_sent us.escape_html made)))))

  pub patch_address-well_sent : Gives (patch_address us r) (λ x. well_sent x ≡ true)
  unfolding patch_address send
  patch_address-well_sent = run_gives _ (
      attempt_returns _ _ _ (λ e. refl)
        (λ body.
          attempt_returns _ _ _ (λ e. refl)
            (λ address. call_returns _ _ (λ e. finish_returns _ (patched-well_sent e)))))
