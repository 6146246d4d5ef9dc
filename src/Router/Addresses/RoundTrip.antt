-- ===== src/Router/Addresses/RoundTrip.antt =====
-- An address that POST /address made, at GET /address/{address_id}.
use userservice.Prelude.{
  String, eq_iff, unequal, ◌≡◌, ◌≢◌, ◌⊎◌, inl, inr, refl, ◌∙◌, ap, sym, true, Option, none, some,
  [], arith,
}
use userservice.Flow.{ok, run}
use userservice.Flow.Spec.{
  Does, does_exactly, does_weaken, call_then, given_then, finish_rule, run_rule,
}
use userservice.Shared.{Error, Address}
use userservice.Relational.{Conn}
use userservice.Relational.Addresses as Stored
use userservice.Relational.Addresses.Laws.{Table, AddressLaws}
use userservice.Relational.Addresses.RoundTrip.{Reads, stored, add_address-Reads, add_address_id}
use userservice.Http.{status_ok}
use userservice.Router.{
  Request, Served, UserService, answered, new_response, write, send, success, succeeds,
}
use userservice.Router.Addresses.{found_or, posted, get_address, post_address}

-- The answer with a new id.
abbrev pub accepted : (String → String) → String → Served
accepted escape id = answered (write (escape id) (success status_ok [] new_response))

posted-succeeds :
    (escape : String → String) (m : String × Option Error)
    → succeeds (posted escape m) ≡ true
    → (m.0 ≢ "") × (m.1 ≡ none)
unfolding send success
posted-succeeds escape (id, some e) h = ground arith
posted-succeeds escape (id, none) h = (λ e. ground (arith, eq_iff id ""), refl)

module _ {S : Type 0} (us : UserService S) (r : Request) where
  -- The body of a request was an address, which `AddAddress` added.
  abbrev pub Posted : S → Address → S → Type 0
  Posted s a s1 =
      (body : String) × (r.body ≡ ok body)
      × (us.address_of_json body ≡ ok a)
      × (id : String) × (id ≢ "")
      × (us.addresser.add_address a s ≡ ((id, none), s1))

  post_address_rule :
      (s : S)
      → Does
          (λ s'. s')
          s
          (post_address us r)
          (λ x s'. succeeds x ≡ true → (a : Address) × Posted s a s')
  unfolding post_address send success
  post_address_rule s = run_rule _ (
      given_then _ _ _ (λ e b z. ground arith)
        (λ body b.
          given_then _ _ _ (λ e b z. ground arith)
            (λ a u. call_then _ _ (
              does_weaken (does_exactly _ s) (λ m s1 e. finish_rule _ (λ z.
                let (ne, good) = posted-succeeds us.escape_html m z in
                (a, (body, b, u, m.0, ne, ground (arith, e, good)))))))))

  post_address_done :
      (s s1 : S) (a : Address) (made : Posted s a s1)
      → post_address us r s ≡ (accepted us.escape_html made.3, s1)
  unfolding run post_address
  post_address_done s s1 a (body, b, u, id, ne, e) = rw (b, u, e, unequal ne) refl

-- An address is shown, or what went wrong is.
abbrev pub Shows : {S : Type 0} → UserService S → Served → Address → Type 0
Shows us x a =
    (x ≡ found_or (us.json_of_address (some a)) none)
    ⊎ ((e : Error) × (x ≡ found_or (us.json_of_address none) (some e)))

module _ {S : Type 0} (us : UserService S) where
  get_address-Shows :
      (r : Request) (a : Address) (id : String) (s : S) (x : Option Address × Option Error)
      → r.url_param "address_id" ≡ id
      → (us.addresser.get_address id s).0 ≡ x
      → Reads x a
      → Shows us (get_address us r s).0 a
  unfolding run get_address
  get_address-Shows r a id s x same found (inl e) = inl (rw (same, found, e) refl)
  get_address-Shows r a id s x same found (inr (bad, e)) = inr (bad, rw (same, found, e) refl)

  -- On a connection whose statements are lawful: after POST /address answered with success, the body was
  -- an address, the answer has the id that was drawn for it, and GET /address/{address_id} with that id
  -- shows that address with the id and the time, or an error of the database.
  pub post_address-get_address :
      (db : Conn S) (view : S → Table) (laws : AddressLaws db view)
      → us.addresser.add_address ≡ Stored.add_address db
      → us.addresser.get_address ≡ Stored.get_address db
      → (r r' : Request) (s : S) → succeeds (post_address us r s).0 ≡ true
      → r'.url_param "address_id" ≡ (db.uuidgen (db.now s).1).0
      → let (x, s') = post_address us r s in
        (body : String) × (a : Address) × (r.body ≡ ok body)
        × (us.address_of_json body ≡ ok a)
        × (x ≡ accepted us.escape_html (db.uuidgen (db.now s).1).0)
        × Shows us (get_address us r' s').0 (stored db view laws a s)
  post_address-get_address db view laws add get r r' s good same =
      let (a, made) = (post_address_rule us r s).at s refl good in
      let (body, b, u, id, ne, e) = made in
      let done = ap (λ f. f a s) (sym add) ∙ e in
      let drawn = sym (ap (λ m. m.0.0) done) ∙ add_address_id db view laws a s in
      let read = add_address-Reads db view laws a s (ap (λ m. m.0.1) done) in
      (
        body,
        a,
        b,
        u,
        ap (λ m. m.0) (post_address_done us r s _ a made) ∙ ap (accepted us.escape_html) drawn,
        get_address-Shows r' (stored db view laws a s) _ (post_address us r s).1 _ same
            (ap (λ f. (f (stored db view laws a s).uuid (post_address us r s).1).0) get
              ∙ ap (λ m. (Stored.get_address db (stored db view laws a s).uuid m.1).0) (sym done))
            read,
      )
