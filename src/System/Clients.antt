-- ===== src/System/Clients.antt =====
-- `CheckValid` on one side, the handler of /valid on the other.
use userservice.Prelude.{
  ℕ, String, str_eq, len, ◌≡◌, ◌≢◌, refl, ap, ◌∙◌, Option, none, some, List, [], ◌∷◌, ◌==◌, false,
  Bool-cases, inl, inr, arith, if◌then◌else◌,
}
use userservice.Flow.{ok, run}
use userservice.Http.{Cookie}
use userservice.Shared.Client.{Client, Reply, nothing, valid_url, check_valid}
use userservice.Router.{
  Request, Served, UserService, send, success, status_of, cookies_of, location_of,
}
use userservice.Router.Sessions.{get_valid}

-- The request that the server makes of the client's.
abbrev pub asking : Option Cookie → Request
asking cookie = record {
  url_param = λ name. "";
  body = ok "";
  cookie = λ name. elim cookie [
    | none ↦ none
    | some c ↦ if str_eq c.name name then some c.value else none
  ];
  remote_addr = "";
  host = "";
}

-- The first of the cookies, as `format` writes it, or an empty text.
abbrev pub first_cookie : (Cookie → String) → List Cookie → String
first_cookie format [] = ""
first_cookie format (c ∷ cs) = format c

abbrev pub or_empty : Option String → String
or_empty none = ""
or_empty (some t) = t

-- What net/http delivers of an answer: its status and the headers that the handler set; it adds others,
-- of which nothing is said.
pub record Carries (format : Cookie → String) (served : Served) (reply : Reply) : Type 0 where
  pub status : status_of served ≡ some reply.status
  pub set_cookie : reply.header "Set-Cookie" ≡ first_cookie format (cookies_of served)
  pub location : reply.header "Location" ≡ or_empty (location_of served)

is_filled : (n : ℕ) → n ≢ 0 → (n == 0) ≡ false
is_filled n h = ground arith

module _ {S : Type 0} (client : Client S) (us : UserService S) (format : Cookie → String) where
  -- The answer of the handler to a request with the cookie.
  valid_served :
      (token : Cookie) (s : S)
      → token.name ≡ "us-authn"
      → let ((cookie, code), s') = us.validator.valid token.value s in
        let (served, s'') = get_valid us (asking (some token)) s in
        (status_of served ≡ some code)
        × (cookies_of served ≡ cookie ∷ [])
        × (location_of served ≡ (if code == 307 then some us.logon_url else none))
        × (s'' ≡ s')
  unfolding run get_valid send success
  valid_served token s name = elim (Bool-cases ((us.validator.valid token.value s).0.1 == 307)) [
    | inl away ↦ (rw (name, away) refl, rw (name, away) refl, rw (name, away) refl, rw name refl)
    | inr stays ↦
        (rw (name, stays) refl, rw (name, stays) refl, rw (name, stays) refl, rw name refl)
  ]

  bare_served :
      (s : S)
      → let (served, s') = get_valid us (asking none) s in
        (status_of served ≡ some 307) × (cookies_of served ≡ []) × (s' ≡ s)
  unfolding get_valid send
  bare_served s = (refl, refl, refl)

  -- What `CheckValid` makes of a reply without a cookie.
  bare_read :
      (host : String) (port : ℕ) (s : S) (reply : Reply)
      → client.new_request (valid_url host port) ≡ ok tt
      → client.send_request (valid_url host port) none s ≡ (ok reply, s)
      → reply.status ≡ 307
      → reply.header "Set-Cookie" ≡ ""
      → check_valid client host port none s ≡ (nothing 307, s)
  unfolding run check_valid
  bare_read host port s reply made sent status header = rw (made, sent, header, status) refl

  -- What `CheckValid` makes of a reply with a cookie.
  answer_read :
      (host : String) (port : ℕ) (token : Cookie) (s : S) (reply : Reply)
      → client.new_request (valid_url host port) ≡ ok tt
      → client.send_request (valid_url host port) (some token) s
        ≡ (ok reply, (us.validator.valid token.value s).1)
      → reply.status ≡ (us.validator.valid token.value s).0.1
      → reply.header "Set-Cookie" ≡ format (us.validator.valid token.value s).0.0
      → len (format (us.validator.valid token.value s).0.0) ≢ 0
      → client.parse_set_cookie (format (us.validator.valid token.value s).0.0)
        ≡ ok (us.validator.valid token.value s).0.0
      → check_valid client host port (some token) s ≡ (
        (
          some (us.validator.valid token.value s).0.0,
          some reply.header,
          (us.validator.valid token.value s).0.1,
        ),
        (us.validator.valid token.value s).1,
      )
  unfolding run check_valid
  answer_read host port token s reply made sent status header written read =
      rw (made, sent, header, is_filled _ written, read, status) refl

  -- When the client's request reaches the service and what comes back has the status and the headers
  -- Set-Cookie and Location of the handler's answer, and the validator's cookie is not written as an empty
  -- text and is read back as it was written: for a cookie named "us-authn" the client gets the cookie and
  -- the code that the validator gave for its value, with all headers that came back, among them the page
  -- of the login as the Location if that code is 307; without a cookie it gets 307 and neither cookie nor headers.
  pub check_valid-get_valid :
      (host : String) (port : ℕ) (token : Cookie) (s : S) (reply bare : Reply)
      → client.new_request (valid_url host port) ≡ ok tt
      → client.send_request (valid_url host port) (some token) s
        ≡ (ok reply, (get_valid us (asking (some token)) s).1)
      → Carries format (get_valid us (asking (some token)) s).0 reply
      → client.send_request (valid_url host port) none s
        ≡ (ok bare, (get_valid us (asking none) s).1)
      → Carries format (get_valid us (asking none) s).0 bare
      → len (format (us.validator.valid token.value s).0.0) ≢ 0
      → client.parse_set_cookie (format (us.validator.valid token.value s).0.0)
        ≡ ok (us.validator.valid token.value s).0.0
      → token.name ≡ "us-authn"
      → let ((cookie, code), s') = us.validator.valid token.value s in
        (check_valid client host port (some token) s ≡ ((some cookie, some reply.header, code), s'))
        × (reply.header "Location" ≡ (if code == 307 then us.logon_url else ""))
        × (check_valid client host port none s ≡ (nothing 307, s))
  check_valid-get_valid host port token s reply bare made sent carried sent' carried' written read
        name =
      let (status, cookies, location, world) = valid_served token s name in
      (
        answer_read host port token s reply made (sent ∙ ap (λ x. (ok reply, x)) world)
            (ground (arith, carried.status, status))
            (carried.set_cookie ∙ ap (first_cookie format) cookies) written read,
        carried.location ∙ ap or_empty location ∙ ground arith,
        bare_read host port s bare made (sent' ∙ ap (λ x. (ok bare, x)) (bare_served s).2)
            (ground (arith, carried'.status, (bare_served s).0))
            (carried'.set_cookie ∙ ap (first_cookie format) (bare_served s).1),
      )
