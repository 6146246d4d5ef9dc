-- ===== src/Validation/History.antt =====
-- Histories of whole calls of the validator, with keys that expire in between: in every state that
-- they reach, no user has more than `maxLogins` logins.
use userservice.Prelude.{String, ◌≡◌, refl, some, arith}
use userservice.Redis.Laws.{View}
use userservice.Validation.{Core, login, logout, valid, otp, login_otp, complete_otp}
use userservice.Validation.Laws.{CoreLaws}
use userservice.Validation.Keys.{Within}
use userservice.Validation.Logins.{login_rule}
use userservice.Validation.Logout.{logout_rule}
use userservice.Validation.Sessions.{valid_rule}
use userservice.Validation.Pads.{otp_rule, login_otp_rule}
use userservice.Validation.Completion.{complete_otp_rule}

-- The calls of the interface `Validator`.
pub data Call : Type 0 where
  logs_in : String → String → Call
  logs_out : String → Call
  checks : String → Call
  asks_pad : String → String → String → Call
  opens_pad : String → Call
  uses_pad : String → Call

module _ {S : Type 0} (v : Core S) where
  abbrev pub after : Call → S → S
  after (logs_in uid rmt) s = (login v uid rmt s).1
  after (logs_out token) s = (logout v token s).1
  after (checks token) s = (valid v token s).1
  after (asks_pad uid rmt three02) s = (otp v uid rmt three02 s).1
  after (opens_pad pad) s = (login_otp v pad s).1
  after (uses_pad pad) s = (complete_otp v pad s).1

-- Hashes whose time is over are gone.
pub record Expired (w w' : View) : Type 0 where
  pub fields : (k f x : String) → w'.hash k f ≡ some x → w.hash k f ≡ some x
  pub sets : w'.has ≡ w.has
  pub sizes : w'.card ≡ w.card

module _ {S : Type 0} (v : Core S) (view : S → View) where
  pub data Step : S → S → Type 0 where
    calls : (s : S) (c : Call) → Step s (after v c s)
    expires : (s t : S) → Expired (view s) (view t) → Step s t

  pub data Reach (s : S) : S → Type 0 where
    here : Reach s s
    next : {t u : S} → Reach s t → Step t u → Reach s u

module _ {S : Type 0} (v : Core S) (view : S → View) (laws : CoreLaws v view) where
  after-Within :
      (c : Call) (s : S) → Within v.max_logins (view s) → Within v.max_logins (view (after v c s))
  after-Within (logs_in uid rmt) s h =
      ((login_rule v view laws (view s) uid rmt).at s refl).grown.within h
  after-Within (logs_out token) s h =
      λ u. omega (arith, h u, ((logout_rule v view laws (view s) token).at s refl).shrunk.fewer _)
  after-Within (checks token) s h = rw ((valid_rule v view laws (view s) token).at s refl).same h
  after-Within (asks_pad uid rmt three02) s h =
      ((otp_rule v view laws (view s) uid rmt three02).at s refl).grown.within h
  after-Within (opens_pad pad) s h = rw ((login_otp_rule v view laws (view s) pad).at s refl).same h
  after-Within (uses_pad pad) s h = λ u.
      omega (arith, h u, ((complete_otp_rule v view laws (view s) pad).at s refl).fewer.sizes _)

  Step-Within :
      {s t : S} → Step v view s t → Within v.max_logins (view s) → Within v.max_logins (view t)
  Step-Within (calls s c) h = after-Within c s h
  Step-Within (expires s t e) h = λ u. rw e.sizes (h u)

  -- Whatever calls are made one after the other and whatever expires in between, on every outcome
  -- of redis: if no user had more than `maxLogins` logins and pads, no user has more afterwards.
  pub Reach-Within :
      {s t : S} → Reach v view s t → Within v.max_logins (view s) → Within v.max_logins (view t)
  Reach-Within here h = h
  Reach-Within (next r st) h = Step-Within st (Reach-Within r h)
