-- ===== src/Http.antt =====
-- What the service uses of HTTP: the status codes that the handlers send, and cookies.
use userservice.Prelude.{ℕ, ℤ, String, Bool, ◌&&◌, Option, ltb}

abbrev pub status_ok : ℕ
status_ok = 200

abbrev pub status_created : ℕ
status_created = 201

abbrev pub status_no_content : ℕ
status_no_content = 204

abbrev pub status_moved_permanently : ℕ
status_moved_permanently = 301

abbrev pub status_found : ℕ
status_found = 302

abbrev pub status_temporary_redirect : ℕ
status_temporary_redirect = 307

abbrev pub status_bad_request : ℕ
status_bad_request = 400

abbrev pub status_forbidden : ℕ
status_forbidden = 403

abbrev pub status_not_found : ℕ
status_not_found = 404

abbrev pub status_conflict : ℕ
status_conflict = 409

abbrev pub status_gone : ℕ
status_gone = 410

abbrev pub status_too_many_requests : ℕ
status_too_many_requests = 429

abbrev pub status_internal_server_error : ℕ
status_internal_server_error = 500

-- The codes that HTTP knows; `WriteHeader` panics on a code that no status has.
abbrev pub is_status : ℕ → Bool
is_status code = ltb 199 code && ltb code 600

-- `http.Cookie`, with the fields that the service sets. Times are in seconds; no expiry is Go's
-- zero time.
pub record Cookie : Type 0 where
  pub name : String
  pub value : String
  pub path : String
  pub expires : Option ℕ
  pub max_age : ℤ
  pub http_only : Bool
