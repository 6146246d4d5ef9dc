-- ===== src/Validation/Spent.antt =====
-- A pad that was completed, and the calls that may follow.
use userservice.Prelude.{
  String, ◌≡◌, ◌≢◌, refl, some, arith, contains, sym, ◌∙◌, eq_iff, Bool-cases, inl, inr, str_eq,
}
use mathlib.Core.Path.{subst}
use userservice.Redis.Laws.{View}
use userservice.Validation.{Core, logout, valid, login_otp, complete_otp, pad_key, userid}
use userservice.Validation.Laws.{CoreLaws}
use userservice.Validation.History.{Expired}
use userservice.Validation.Sessions.{valid_rule}
use userservice.Validation.Logout.{Shrunk, logout_rule}
use userservice.Validation.Pads.{Pad, login_otp_rule}
use userservice.Validation.Completion.{complete_otp_rule}

-- Calls one after the other, and expiries in between, that store no login and no pad.
pub data Storeless {S : Type 0} (v : Core S) (view : S → View) (s : S) : S → Type 0 where
  stays : Storeless v view s s
  logged_out :
      {t : S} (token : String) → Storeless v view s t → Storeless v view s (logout v token t).1
  checked : {t : S} (token : String) → Storeless v view s t → Storeless v view s (valid v token t).1
  opened : {t : S} (pad : String) → Storeless v view s t → Storeless v view s (login_otp v pad t).1
  completed :
      {t : S} (pad : String) → Storeless v view s t → Storeless v view s (complete_otp v pad t).1
  expired :
      {t : S} (u : S) → Storeless v view s t → Expired (view t) (view u) → Storeless v view s u

-- No field appears.
abbrev NoNew : View → View → Type 0
NoNew w w' = (k f x : String) → w'.hash k f ≡ some x → w.hash k f ≡ some x

Shrunk-NoNew : (k : String) (w w' : View) → Shrunk k w w' → NoNew w w'
Shrunk-NoNew k w w' h j f x e = elim (Bool-cases (str_eq k j)) [
  | inl same ↦
      subst (λ i. w'.hash i f ≡ some x → w.hash i f ≡ some x) (ground (arith, eq_iff k j, same))
        (λ q. h.fields f x q) e
  | inr other ↦ sym (h.others j f (λ q. ground (arith, eq_iff k j, q, other))) ∙ e
]

module _ {S : Type 0} (v : Core S) (view : S → View) (laws : CoreLaws v view) where
  Storeless-NoNew : {s t : S} → Storeless v view s t → NoNew (view s) (view t)
  Storeless-NoNew stays k f x h = h
  Storeless-NoNew (logged_out {t} token r) k f x h =
      Storeless-NoNew r k f x
        (Shrunk-NoNew _ _ _ ((logout_rule v view laws (view t) token).at t refl).shrunk k f x h)
  Storeless-NoNew (checked {t} token r) k f x h =
      Storeless-NoNew r k f x (rw (← ((valid_rule v view laws (view t) token).at t refl).same) h)
  Storeless-NoNew (opened {t} pad r) k f x h =
      Storeless-NoNew r k f x (rw (← ((login_otp_rule v view laws (view t) pad).at t refl).same) h)
  Storeless-NoNew (completed {t} pad r) k f x h =
      Storeless-NoNew r k f x
        (((complete_otp_rule v view laws (view t) pad).at t refl).fewer.fields k f x h)
  Storeless-NoNew (expired u r e) k f x h = Storeless-NoNew r k f x (e.fields k f x h)

  -- A pad that was in force and was completed is not completed again by a later call, whatever calls
  -- come in between, one after the other, that store no login and no pad, and whatever expires.
  pub complete_otp_once :
      (s t : S) (uid rmt page pad : String)
      → Pad uid rmt page pad (view s)
      → (complete_otp v pad s).0.1 ≡ 200
      → Storeless v view (complete_otp v pad s).1 t
      → (complete_otp v pad t).0.1 ≢ 200
  unfolding contains
  complete_otp_once s t uid rmt page pad held h later again =
      let r = (complete_otp_rule v view laws (view s) pad).at s refl in
      let r' = (complete_otp_rule v view laws (view t) pad).at t refl in
      let same : some uid ≡ some (complete_otp v pad s).0.0 = sym held.user ∙ r.user h in
      let gone = (r.ended h).hashes (pad_key pad) userid (ground (arith, same, held.listed)) refl in
      ground (arith, gone, Storeless-NoNew later (pad_key pad) userid _ (r'.user again))
