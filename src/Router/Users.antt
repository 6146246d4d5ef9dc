-- ===== src/Router/Users.antt =====
-- internal/router/user.go: the handlers of /user and /users.
pub mod Creation
pub mod Statuses
use userservice.Prelude.{
  ℕ, String, is_some, ◌<>◌, str_eq, not, ◌&&◌, Option, none, some, List, [], ◌∷◌, if◌then◌else◌,
}
use userservice.Flow.{
  Act, Proc, Result, ok, err, finish, call, attempt, return_if, ◌>>=◌, ◌>>◌, run,
}
use userservice.Http.{
  status_ok, status_created, status_no_content, status_bad_request, status_conflict,
  status_internal_server_error,
}
use userservice.Shared.{
  Contact, Error, User, error_text, user_exists, user_not_added, email_valid, cell_valid, Userer,
}
use userservice.Router.{
  Request, Served, panicked, never_returned, refused, succeeded, checked, Encoding, UserService,
  Handler,
}

-- The end of a handler that reports an error with its text.
abbrev pub done : ℕ → ℕ → List String → Option Error → Served
done code bad messages none = succeeded code messages
done code bad messages (some e) = refused bad (error_text e ∷ [])

-- What `PostUser` sends for an error of `AddUser`.
unfoldable pub not_added : Error → ℕ × List String
not_added user_exists = (status_bad_request, error_text user_exists ∷ [])
not_added user_not_added = (status_conflict, [])
not_added e = (status_internal_server_error, [])

-- The end of `PostUser`, by what `AddUser` returned.
unfoldable pub added : (String → String) → Option (String × Option Error) → Served
added escape none = never_returned
added escape (some (id, some e)) = refused (not_added e).0 (not_added e).1
added escape (some (id, none)) =
    if str_eq id ""
    then refused status_internal_server_error []
    else succeeded status_created (escape id ∷ [])

module _ {S : Type 0} (us : UserService S) where
  unfoldable pub get_all_users : Handler S
  get_all_users r = run do
    found ← call us.userer.get_all_users
    finish (done status_ok status_bad_request (us.json_of_users found.0 ∷ []) found.1)

  pub get_user : Handler S
  get_user r = run do
    found ← call (us.userer.get_user (r.url_param "user_id"))
    finish (done status_ok status_bad_request (us.json_of_user found.0 ∷ []) found.1)

  unfoldable pub post_user : Handler S
  post_user r = run do
    body ← checked r.body (λ _. refused status_bad_request [])
    user ← checked (us.user_of_json body) (λ _. refused status_bad_request [])
    return_if (not (email_valid user.email) && not (cell_valid user.cell))
        (refused status_bad_request ("no valid email or SMS provided" ∷ []))
    result ← call (us.userer.add_user user)
    finish (added us.escape_html result)

  pub patch_user : Handler S
  patch_user r = run do
    body ← checked r.body (λ _. refused status_bad_request [])
    user ←
        checked (us.user_of_json body)
          (λ _. refused status_bad_request (("couldn't unmarshal: '" <> body <> "'") ∷ []))
    let user' = record user { uuid = r.url_param "user_id" }
    return_if (str_eq user'.uuid "") (refused status_bad_request ("missing user id" ∷ []))
    return_if (not (email_valid user'.email) && not (cell_valid user'.cell))
        (refused status_bad_request ("no valid email or SMS provided" ∷ []))
    e ← call (us.userer.update_user user')
    finish (done status_no_content status_internal_server_error [] e)

  pub delete_user : Handler S
  delete_user r = run do
    e ← call (us.userer.delete_user (r.url_param "user_id"))
    finish (done status_no_content status_bad_request [] e)

  -- `CreateContact` of the users writes through its pointer, so a nil user is a panic.
  made_for : Option User → Contact → Proc S Served Served
  made_for none contact = finish panicked
  made_for (some u) contact = do
    made ← call (us.userer.create_contact u contact)
    finish (done status_ok status_internal_server_error (us.json_of_user (some made.0) ∷ []) made.1)

  contact_for : Request → Option User → Proc S Served Served
  unfolding made_for
  contact_for r user = do
    body ← checked r.body (λ _. refused status_bad_request [])
    contact ← checked (us.contact_of_json body) (λ _. refused status_bad_request [])
    made_for user contact

  pub create_contact : Handler S
  unfolding contact_for
  create_contact r = run do
    let uuid = r.url_param "user_id"
    return_if (str_eq uuid "") (refused status_bad_request [])
    found ← call (us.userer.get_user uuid)
    return_if (is_some found.1) (done status_ok status_bad_request [] found.1)
    contact_for r found.0
