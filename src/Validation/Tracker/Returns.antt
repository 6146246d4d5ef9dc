-- ===== src/Validation/Tracker/Returns.antt =====
-- What each return of the methods of `core` does with the method's tracker.
use userservice.Prelude.{
  ℕ, String, ◌≡◌, refl, Bool, true, false, ◌&&◌, Option, none, some, List, [], ◌∷◌, ◌++◌, map,
  arith, if◌then◌else◌,
}
use userservice.Metrics.{Prometheus, validator_metrics}
use userservice.Metrics.Laws.{Vec, Counts, PrometheusLaws}
use userservice.Validation.Tracker.{Use, fields, sc, err, tracked}
use userservice.Validation.Tracker.Chains.{errors, final_code, one_of, counted, tracked_once}

abbrev Chain : Type 0
Chain = List Use

-- A code, and the error.
abbrev failing : ℕ → String → Chain
failing code e = sc code ∷ err (some e) ∷ []

abbrev not_authorized : String
not_authorized = "not authorized"

-- In the order of the code. `e` is the text of redis' error, `code` that of `checkCount`, `Valid` or
-- `clearLogins`.
login_returns : String → ℕ → List Chain
login_returns e code =
    failing code "too many logins"
    ∷ failing 500 e
    ∷ failing 500 e
    ∷ failing 500 "no token was updated?"
    ∷ failing 500 e
    ∷ (sc 200 ∷ [])
    ∷ []

logout_returns : String → ℕ → List Chain
logout_returns e code =
    failing code not_authorized
    ∷ failing 500 e
    ∷ failing 403 not_authorized
    ∷ failing 500 e
    ∷ failing 500 e
    ∷ (sc 204 ∷ [])
    ∷ []

valid_returns : String → List Chain
valid_returns e =
    failing 500 e
    ∷ failing 307 "token doesn't exist"
    ∷ failing 500 e
    ∷ failing 307 "token doesn't exist"
    ∷ (sc 204 ∷ [])
    ∷ []

-- `wrong` is the text with the number of rows.
otp_returns : String → String → ℕ → List Chain
otp_returns e wrong code =
    failing code "too many logins"
    ∷ failing 500 e
    ∷ failing 500 e
    ∷ failing 500 e
    ∷ failing 500 wrong
    ∷ (sc 200 ∷ [])
    ∷ []

login_otp_returns : String → List Chain
login_otp_returns e =
    failing 500 e
    ∷ failing 500 not_authorized
    ∷ failing 400 not_authorized
    ∷ (sc 500 ∷ [])
    ∷ (sc 400 ∷ [])
    ∷ (sc 302 ∷ [])
    ∷ []

-- But for the last, of success, which leaves the tracker as it is.
complete_otp_returns : String → ℕ → List Chain
complete_otp_returns e code =
    failing 500 e ∷ failing 500 not_authorized ∷ failing 400 not_authorized ∷ (sc code ∷ []) ∷ []

clear_tokens_returns : String → List Chain
clear_tokens_returns e = (err (some e) ∷ []) ∷ [] ∷ []

clear_logins_returns : String → List Chain
clear_logins_returns e =
    failing 500 e
    ∷ failing 410 not_authorized
    ∷ failing 410 not_authorized
    ∷ failing 500 e
    ∷ failing 500 e
    ∷ (sc 410 ∷ [])
    ∷ []

check_count_returns : String → List Chain
check_count_returns e =
    failing 500 e
    ∷ (sc 200 ∷ [])
    ∷ failing 500 e
    ∷ (sc 429 ∷ [])
    ∷ (sc 500 ∷ err (some e) ∷ fields ∷ [])
    ∷ (sc 200 ∷ [])
    ∷ (sc 429 ∷ [])
    ∷ []

-- A return of a method, by the method's name, and whether the tracker is finished.
abbrev pub Return : Type 0
Return = String × Chain × Bool

abbrev named : String → List Chain → List Return
named fn cs = map (λ c. (fn, c, true)) cs

-- Every return, with the method's name.
unfoldable pub returns : String → String → ℕ → List Return
unfolding login_returns logout_returns valid_returns otp_returns login_otp_returns
    complete_otp_returns clear_tokens_returns clear_logins_returns check_count_returns
returns e wrong code =
    named "Login" (login_returns e code)
    ++ named "Logout" (logout_returns e code)
    ++ named "Valid" (valid_returns e)
    ++ named "OTP" (otp_returns e wrong code)
    ++ named "LoginOTP" (login_otp_returns e)
    ++ named "CompleteOTP" (complete_otp_returns e code)
    ++ ("CompleteOTP", [], false) ∷ []
    ++ named "clearTokens" (clear_tokens_returns e)
    ++ named "clearLogins" (clear_logins_returns e)
    ++ named "checkCount" (check_count_returns e)

-- At most one error, and no nil one.
abbrev at_most_one : List (Option String) → Bool
at_most_one [] = true
at_most_one (none ∷ es) = false
at_most_one (some e ∷ []) = true
at_most_one (some e ∷ f ∷ es) = false

abbrev all_proper : List Return → Bool
all_proper [] = true
all_proper (r ∷ rs) = at_most_one (errors r.1) && all_proper rs

abbrev pub Every : (Return → Type 0) → List Return → Type 0
Every P [] = Unit {0}
Every P (r ∷ rs) = P r × Every P rs

-- The methods with a return that leaves the tracker, once for each.
abbrev pub unfinished : List Return → List String
unfinished [] = []
unfinished ((fn, us, finishes) ∷ rs) =
    let rest = unfinished rs in if finishes then rest else fn ∷ rest

one_error :
    (es : List (Option String)) → at_most_one es ≡ true → (x : Option String) × (es ≡ one_of x)
one_error [] h = (none, refl)
one_error (none ∷ es) h = absurd (ground (arith, h))
one_error (some e ∷ []) h = (some e, refl)
one_error (some e ∷ f ∷ es) h = absurd (ground (arith, h))

module _ {V S : Type 0} (p : Prometheus V S) (view : V → Vec) (counts : S → Counts)
    (laws : PrometheusLaws p view counts) where
  -- A return gives the code that was set last, and its one error, if any; and it counts what it gives
  -- once, if it finishes the tracker.
  abbrev pub Counted : V → String → S → Return → Type 0
  Counted m cid s (fn, us, finishes) =
      (e : Option String) × (errors us ≡ one_of e)
      × (s' : S) × (tracked p m (some cid) fn us finishes s
          ≡ some (record { code = final_code 0 us; error = e }, s'))
      × (counts s' ≡ counted finishes fn e (counts s))

  Every-all_proper :
      (m : V) (cid : String) (s : S) (rs : List Return)
      → validator_metrics p ≡ some m
      → all_proper rs ≡ true
      → Every (Counted m cid s) rs
  Every-all_proper m cid s [] made h = tt
  Every-all_proper m cid s ((fn, us, finishes) ∷ rs) made h =
      let (e, one) = one_error (errors us) (ground (arith, h)) in
      let (s', ran, c) = tracked_once p view counts laws m cid fn us finishes e s made one in
      ((e, one, s', ran, c), Every-all_proper m cid s rs made (ground (arith, h)))

  -- With the counter that `NewValidator` makes and a context that has a cid, whatever the errors' texts
  -- and the codes of other methods: no return of a method of the validator panics in the tracker; each
  -- gives the code that was set last and its one error, if any, and increases one counter by one, that
  -- of the method with the error's text, or "ok", as its status; but one return of `CompleteOTP`, and no
  -- other, leaves the tracker and increases none.
  pub returns_counted :
      (m : V) (cid e wrong : String) (code : ℕ) (s : S)
      → validator_metrics p ≡ some m
      → Every (Counted m cid s) (returns e wrong code)
        × (unfinished (returns e wrong code) ≡ "CompleteOTP" ∷ [])
  unfolding returns
  returns_counted m cid e wrong code s made =
      (Every-all_proper m cid s (returns e wrong code) made refl, refl)
