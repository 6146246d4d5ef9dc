-- ===== src/Router/Contacts.antt =====
-- internal/router/contact.go: the handler of /contact.
pub mod Statuses
use userservice.Prelude.{◌<>◌, []}
use userservice.Flow.{finish, call, ◌>>=◌, run}
use userservice.Http.{status_ok, status_bad_request, status_internal_server_error}
use userservice.Router.{answered, new_response, write, send, refused, checked, UserService, Handler}
use userservice.Router.Users.{done}

module _ {S : Type 0} (us : UserService S) where
  pub patch_contact : Handler S
  patch_contact r = run do
    let userid = r.url_param "user_id"
    body ← checked r.body (λ _. refused status_bad_request [])
    contact ← checked (us.contact_of_json body) (λ _. answered (
        write ("couldn't unmarshal: '" <> us.escape_html body <> "'")
          (send status_bad_request [] new_response)))
    e ← call (us.contacter.update_contact userid contact)
    finish (done status_ok status_internal_server_error [] e)
