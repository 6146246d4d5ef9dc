-- ===== src/Validation/Races.antt =====
-- Requests for sessions and pads that interleave: each counts the user's logins first and stores the new
-- one later, and other requests may come in between.
pub mod Bound
use userservice.Prelude.{
  ℕ, zero, suc, pos, ◌+◌, ◌≤◌, ◌<◌, String, str_eq, eq_iff, ◌≡◌, ◌≢◌, refl, sym, ap, ◌∙◌, List, [],
  ◌∷◌, ◌++◌, arith, ◌==◌, length, length-append, if◌then◌else◌, Bool-cases, inl, inr, unequal,
}
use userservice.Flow.{Act, Proc, finish, call, ◌>>=◌, run}
use userservice.Flow.Spec.{Does, does_weaken, call_then, finish_rule, run_rule}
use userservice.Http.{Cookie}
use userservice.Redis.Laws.{View}
use userservice.Validation.{
  Core, login, login_with, otp, otp_with, check_count, logout, valid, login_otp, complete_otp,
  logins_key,
}
use userservice.Validation.Laws.{CoreLaws, fresh_rule, cookie_rule}
use userservice.Validation.Count.{Pruned, Pruned-refl, Counted, check_count_rule}
use userservice.Validation.Keys.{Within, Grown, logins_key_injective}
use userservice.Validation.Logins as Logins
use userservice.Validation.Logout.{logout_rule}
use userservice.Validation.Sessions.{valid_rule}
use userservice.Validation.Pads as Pads
use userservice.Validation.Pads.{login_otp_rule}
use userservice.Validation.Completion.{complete_otp_rule}
use userservice.Validation.History.{Expired}

-- A request that was let through and has not stored anything yet.
pub data Pending : Type 0 where
  logs_in : (uid rmt : String) (cookie : Cookie) (k : ℕ) → cookie.max_age ≡ pos (suc k) → Pending
  asks_pad : (uid rmt page pad : String) → Pending

abbrev pub user_of : Pending → String
user_of (logs_in uid rmt cookie k age) = uid
user_of (asks_pad uid rmt page pad) = uid

-- How many of the requests are the user's.
abbrev pub count : String → List Pending → ℕ
count u [] = 0
count u (p ∷ ps) = (if str_eq (user_of p) u then 1 else 0) + count u ps

module _ {S : Type 0} (v : Core S) where
  -- The two halves of `Login` and of `OTP`.
  unfoldable pub counted_login : String → Act S (Cookie × ℕ)
  counted_login uid = run do
    id ← call v.new_string
    cookie ← call (v.login_cookie id)
    code ← call (check_count v (logins_key uid))
    finish (cookie, code)

  unfoldable pub counted_pad : String → Act S (String × ℕ)
  counted_pad uid =
      run
        do pad ← call v.new_string; code ← call (check_count v (logins_key uid)); finish (pad, code)

  abbrev pub store : Pending → S → S
  store (logs_in uid rmt cookie k age) s = (run (login_with v uid rmt cookie 200) s).1
  store (asks_pad uid rmt page pad) s = (run (otp_with v uid rmt page pad 200) s).1

  -- One half after the other is the whole.
  pub login_halves :
      (uid rmt : String) (s : S)
      → let ((cookie, code), s') = counted_login uid s in
        login v uid rmt s ≡ run (login_with v uid rmt cookie code) s'
  unfolding run login counted_login
  login_halves uid rmt s = refl

  pub otp_halves :
      (uid rmt page : String) (s : S)
      → let ((pad, code), s') = counted_pad uid s in
        otp v uid rmt page s ≡ run (otp_with v uid rmt page pad code) s'
  unfolding run otp counted_pad
  otp_halves uid rmt page s = refl

pub record Race (S : Type 0) : Type 0 where
  pub world : S
  pub pending : List Pending

module _ {S : Type 0} (v : Core S) (view : S → View) (n : ℕ) where
  -- One step of at most `n` requests at once; the other calls, and expiries, come in between whole.
  pub data Step : Race S → Race S → Type 0 where
    counts_login :
        (uid rmt : String) (k : ℕ) (s : S) (ps : List Pending)
        → length ps < n
        → (counted_login v uid s).0.1 ≡ 200
        → (age : (counted_login v uid s).0.0.max_age ≡ pos (suc k))
        → Step
            (record { world = s; pending = ps })
            (record {
              world = (counted_login v uid s).1;
              pending = logs_in uid rmt (counted_login v uid s).0.0 k age ∷ ps;
            })
    counts_pad :
        (uid rmt page : String) (s : S) (ps : List Pending)
        → length ps < n
        → (counted_pad v uid s).0.1 ≡ 200
        → Step
            (record { world = s; pending = ps })
            (record {
              world = (counted_pad v uid s).1;
              pending = asks_pad uid rmt page (counted_pad v uid s).0.0 ∷ ps;
            })
    refuses_login :
        (uid : String) (s : S) (ps : List Pending)
        → Step
            (record { world = s; pending = ps })
            (record { world = (counted_login v uid s).1; pending = ps })
    refuses_pad :
        (uid : String) (s : S) (ps : List Pending)
        → Step
            (record { world = s; pending = ps })
            (record { world = (counted_pad v uid s).1; pending = ps })
    stores :
        (p : Pending) (s : S) (ps qs : List Pending)
        → Step
            (record { world = s; pending = ps ++ p ∷ qs })
            (record { world = store v p s; pending = ps ++ qs })
    logs_out :
        (token : String) (s : S) (ps : List Pending)
        → Step
            (record { world = s; pending = ps })
            (record { world = (logout v token s).1; pending = ps })
    checks :
        (token : String) (s : S) (ps : List Pending)
        → Step
            (record { world = s; pending = ps })
            (record { world = (valid v token s).1; pending = ps })
    opens_pad :
        (pad : String) (s : S) (ps : List Pending)
        → Step
            (record { world = s; pending = ps })
            (record { world = (login_otp v pad s).1; pending = ps })
    uses_pad :
        (pad : String) (s : S) (ps : List Pending)
        → Step
            (record { world = s; pending = ps })
            (record { world = (complete_otp v pad s).1; pending = ps })
    expires :
        (s t : S) (ps : List Pending)
        → Expired (view s) (view t)
        → Step (record { world = s; pending = ps }) (record { world = t; pending = ps })

  pub data Reach (r : Race S) : Race S → Type 0 where
    here : Reach r r
    next : {t u : Race S} → Reach r t → Step t u → Reach r u
