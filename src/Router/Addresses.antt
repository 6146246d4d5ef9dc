-- ===== src/Router/Addresses.antt =====
-- internal/router/address.go: the handlers of /address and /addresses.
pub mod Statuses
pub mod Bodies
pub mod RoundTrip
mod Tests
use userservice.Prelude.{String, ◌<>◌, str_eq, Option, none, some, [], if◌then◌else◌}
use userservice.Flow.{finish, call, ◌>>=◌, run}
use userservice.Http.{
  status_ok, status_no_content, status_bad_request, status_internal_server_error,
}
use userservice.Shared.{Error, error_text}
use userservice.Router.{
  Served, answered, new_response, write, send, success, refused, succeeded, checked, UserService,
  Handler,
}

-- These handlers write the body after the status is sent.
abbrev found_or : String → Option Error → Served
found_or text none = answered (write text (success status_ok [] new_response))
found_or text (some e) = answered (write (error_text e) (send status_bad_request [] new_response))

-- The end of `PostAddress`: each error has the same status.
abbrev posted : (String → String) → String × Option Error → Served
posted escape (id, some e) = refused status_internal_server_error []
posted escape (id, none) =
    if str_eq id ""
    then refused status_internal_server_error []
    else answered (write (escape id) (success status_ok [] new_response))

abbrev patched : Option Error → Served
patched none = succeeded status_no_content []
patched (some e) =
    answered (write (error_text e) (send status_internal_server_error [] new_response))

module _ {S : Type 0} (us : UserService S) where
  unfoldable pub get_all_addresses : Handler S
  get_all_addresses r = run do
    found ← call us.addresser.get_all_addresses
    finish (found_or (us.json_of_addresses found.0) found.1)

  unfoldable pub get_address : Handler S
  get_address r = run do
    found ← call (us.addresser.get_address (r.url_param "address_id"))
    finish (found_or (us.json_of_address found.0) found.1)

  pub post_address : Handler S
  post_address r = run do
    body ← checked r.body (λ _. refused status_bad_request [])
    address ← checked (us.address_of_json body) (λ _. refused status_bad_request [])
    made ← call (us.addresser.add_address address)
    finish (posted us.escape_html made)

  -- The id is that of the body; the one in the URL is not read.
  pub patch_address : Handler S
  patch_address r = run do
    body ← checked r.body (λ _. refused status_bad_request [])
    address ← checked (us.address_of_json body) (λ _. answered (
        write ("couldn't unmarshal: '" <> us.escape_html body <> "'")
          (send status_bad_request [] new_response)))
    e ← call (us.addresser.update_address address)
    finish (patched e)
