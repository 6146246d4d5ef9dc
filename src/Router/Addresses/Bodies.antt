-- ===== src/Router/Addresses/Bodies.antt =====
-- What `PatchAddress` changes: the address that the body names.
use userservice.Prelude.{String, ◌≡◌, ◌↔◌, refl, ap, true, Option, none, some, [], arith}
use mathlib.Core.Path.{subst}
use userservice.Flow.{ok, run}
use userservice.Flow.Spec.{
  Does, does_exactly, does_weaken, call_then, given_then, finish_rule, run_rule,
}
use userservice.Shared.{Error, Address}
use userservice.Router.{Request, UserService, send, success, succeeded, succeeds}
use userservice.Router.Addresses.{patched, patch_address}

patched-succeeds : (e : Option Error) → succeeds (patched e) ≡ true → e ≡ none
unfolding send success
patched-succeeds none h = refl
patched-succeeds (some e) h = ground arith

module _ {S : Type 0} (us : UserService S) (r : Request) where
  -- The body is an address, which `UpdateAddress` changed, under the id that the body gives.
  abbrev pub Patched : S → S → Type 0
  Patched s s' =
      (body : String) × (address : Address) × (r.body ≡ ok body)
      × (us.address_of_json body ≡ ok address)
      × (us.addresser.update_address address s ≡ (none, s'))

  patch_address_rule :
      (s : S) → Does (λ s'. s') s (patch_address us r) (λ x s'. succeeds x ≡ true → Patched s s')
  unfolding patch_address send success
  patch_address_rule s = run_rule _ (
      given_then _ _ _ (λ e b z. ground arith)
        (λ body b.
          given_then _ _ _ (λ e b z. ground arith)
            (λ address a. call_then _ _ (
              does_weaken (does_exactly _ s) (λ e s1 u.
                finish_rule _
                  (λ z. (body, address, b, a, ground (arith, u, patched-succeeds e z))))))))

  patch_address_done : (s s' : S) → Patched s s' → patch_address us r s ≡ (succeeded 204 [], s')
  unfolding run patch_address
  patch_address_done s s' (body, address, b, a, u) = rw (b, a, u) refl

  -- PATCH /address/{address_id} is answered with 204, in a given world, exactly when the body is an
  -- address and `UpdateAddress` changes it under the id in the body without an error, with that world as
  -- its outcome, whatever the id in the URL; and no other answer is one of success.
  pub patch_address_iff :
      (s s' : S)
      → ((patch_address us r s ≡ (succeeded 204 [], s')) ↔ Patched s s')
        × ((succeeds (patch_address us r s).0 ≡ true) ↔ Patched s (patch_address us r s).1)
  unfolding send success
  patch_address_iff s s' =
      let rule = (patch_address_rule s).at s refl in
      (
        (
          λ e. subst (Patched s) (ap (λ x. x.1) e) (rule (ap (λ x. succeeds x.0) e)),
          patch_address_done s s',
        ),
        (rule, λ q. ap (λ x. succeeds x.0) (patch_address_done s _ q)),
      )
