-- ===== src/Validation/Races/Bound.antt =====
-- What interleaved requests add to a user's logins: no more than one each.
use userservice.Prelude.{
  ℕ, suc, ◌+◌, ◌≤◌, ◌<◌, String, eq_iff, ◌≡◌, refl, List, [], ◌∷◌, ◌++◌, arith, length,
  length-append, inl,
}
use userservice.Flow.Spec.{Does, does_weaken, call_then, finish_rule, run_rule}
use userservice.Redis.Laws.{View}
use userservice.Validation.{Core, login_with, otp_with, logins_key}
use userservice.Validation.Laws.{CoreLaws, fresh_rule, cookie_rule}
use userservice.Validation.Count.{Pruned-refl, Counted, check_count_rule}
use userservice.Validation.Keys.{Within, Grown}
use userservice.Validation.Logins as Logins
use userservice.Validation.Logout.{logout_rule}
use userservice.Validation.Sessions.{valid_rule}
use userservice.Validation.Pads as Pads
use userservice.Validation.Pads.{login_otp_rule}
use userservice.Validation.Completion.{complete_otp_rule}
use userservice.Validation.Races.{
  Pending, logs_in, asks_pad, user_of, count, counted_login, counted_pad, store, Race, Step,
  counts_login, counts_pad, refuses_login, refuses_pad, stores, logs_out, checks, opens_pad,
  uses_pad, expires, Reach, here, next,
}

count-append : (u : String) (ps qs : List Pending) → count u (ps ++ qs) ≡ count u ps + count u qs
count-append u [] qs = omega arith
count-append u (p ∷ ps) qs = omega (arith, count-append u ps qs)

count-le : (u : String) (ps : List Pending) → count u ps ≤ length ps
count-le u [] = omega arith
count-le u (p ∷ ps) = ground (arith, count-le u ps)

module _ {S : Type 0} (v : Core S) (view : S → View) (laws : CoreLaws v view) where
  counted_login_rule :
      (uid : String) (w : View)
      → Does view w (counted_login v uid) (λ r. Counted v.max_logins (logins_key uid) w r.1)
  unfolding counted_login
  counted_login_rule uid w = run_rule _ (
      call_then _ _ (
        fresh_rule v view laws w (λ id. call_then _ _ (
          cookie_rule v view laws w id (λ c m value age. call_then _ _ (
            does_weaken (check_count_rule v view laws w (logins_key uid))
              (λ code w' counted. finish_rule _ counted)))))))

  counted_pad_rule :
      (uid : String) (w : View)
      → Does view w (counted_pad v uid) (λ r. Counted v.max_logins (logins_key uid) w r.1)
  unfolding counted_pad
  counted_pad_rule uid w = run_rule _ (
      call_then _ _ (
        fresh_rule v view laws w (λ id. call_then _ _ (
          does_weaken (check_count_rule v view laws w (logins_key uid))
            (λ code w' counted. finish_rule _ counted)))))

  -- Storing a request does not look at `maxLogins`: the rules for a larger one apply.
  abbrev roomy : ℕ → Core S
  roomy m = record v { max_logins = m }

  roomy-CoreLaws : (m : ℕ) → CoreLaws (roomy m) view
  roomy-CoreLaws m = record {
    redis = laws.redis;
    fresh_view = laws.fresh_view;
    cookie_view = laws.cookie_view;
    cookie_value = laws.cookie_value;
    cookie_age = laws.cookie_age;
  }

  room_for_one : (key : String) (w : View) → Counted (suc (w.card key)) key w 200 w
  room_for_one key w = record {
    pruned = Pruned-refl key w;
    room = λ _. omega arith;
    full = λ e. absurd (omega arith);
    codes = inl refl;
  }

  store-Grown :
      (p : Pending) (s : S)
      → Grown
          (suc ((view s).card (logins_key (user_of p))))
          (user_of p)
          (view s)
          (view (store v p s))
  unfolding login_with otp_with
  store-Grown (logs_in uid rmt c k age) s =
      let w = view s in
      let m = suc (w.card (logins_key uid)) in
      ((run_rule (login_with (roomy m) uid rmt c 200) (
          Logins.after_count (roomy m) view (roomy-CoreLaws m) w uid rmt c k age 200 w
            (room_for_one (logins_key uid) w))).at
        s refl).grown
  store-Grown (asks_pad uid rmt page pad) s =
      let w = view s in
      let m = suc (w.card (logins_key uid)) in
      ((run_rule (otp_with (roomy m) uid rmt page pad 200) (
          Pads.after_count (roomy m) view (roomy-CoreLaws m) w uid rmt page pad 200 w
            (room_for_one (logins_key uid) w))).at
        s refl).grown

  -- The logins of a user, and the requests of the user that are to be stored.
  abbrev IsBounded : ℕ → Race S → Type 0
  IsBounded n r =
      (length r.pending ≤ n)
      × ((u : String)
          → (view r.world).card (logins_key u) + count u r.pending + 1 ≤ v.max_logins + n)

  Counted-IsBounded :
      {n : ℕ} {s t : S} (p : Pending) (ps : List Pending)
      → length ps < n
      → Counted v.max_logins (logins_key (user_of p)) (view s) 200 (view t)
      → IsBounded n (record { world = s; pending = ps })
      → IsBounded n (record { world = t; pending = p ∷ ps })
  Counted-IsBounded p ps few counted (len, h) = (
    omega (arith, few),
    λ u. ground (
      arith,
      eq_iff (user_of p) u,
      few,
      h u,
      counted.room refl,
      counted.pruned.fewer (logins_key u),
      count-le u ps,
    ),
  )

  stored-IsBounded :
      {n : ℕ} (p : Pending) (s : S) (ps qs : List Pending)
      → IsBounded n (record { world = s; pending = ps ++ p ∷ qs })
      → IsBounded n (record { world = store v p s; pending = ps ++ qs })
  stored-IsBounded p s ps qs (len, h) = (
    omega (arith, len, length-append ps qs, length-append ps (p ∷ qs)),
    λ u. ground (
      arith,
      eq_iff (user_of p) u,
      h u,
      count-append u ps qs,
      count-append u ps (p ∷ qs),
      (store-Grown p s).one_more,
      (store-Grown p s).no_more u,
    ),
  )

  -- The sets get no larger.
  fewer-IsBounded :
      {n : ℕ} (s t : S) (ps : List Pending)
      → ((u : String) → (view t).card (logins_key u) ≤ (view s).card (logins_key u))
      → IsBounded n (record { world = s; pending = ps })
      → IsBounded n (record { world = t; pending = ps })
  fewer-IsBounded s t ps le (len, h) = (len, λ u. omega (arith, le u, h u))

  Step-IsBounded : {n : ℕ} {r r' : Race S} → Step v view n r r' → IsBounded n r → IsBounded n r'
  Step-IsBounded (counts_login uid rmt k s ps few good age) b =
      Counted-IsBounded (logs_in uid rmt (counted_login v uid s).0.0 k age) ps few
        (rw (← good) ((counted_login_rule uid (view s)).at s refl)) b
  Step-IsBounded (counts_pad uid rmt page s ps few good) b =
      Counted-IsBounded (asks_pad uid rmt page (counted_pad v uid s).0.0) ps few
        (rw (← good) ((counted_pad_rule uid (view s)).at s refl)) b
  Step-IsBounded (refuses_login uid s ps) b =
      fewer-IsBounded s _ ps (λ u. ((counted_login_rule uid (view s)).at s refl).pruned.fewer _) b
  Step-IsBounded (refuses_pad uid s ps) b =
      fewer-IsBounded s _ ps (λ u. ((counted_pad_rule uid (view s)).at s refl).pruned.fewer _) b
  Step-IsBounded (stores p s ps qs) b = stored-IsBounded p s ps qs b
  Step-IsBounded (logs_out token s ps) b =
      fewer-IsBounded s _ ps
        (λ u. ((logout_rule v view laws (view s) token).at s refl).shrunk.fewer _) b
  Step-IsBounded (checks token s ps) b =
      fewer-IsBounded s _ ps
        (λ u. rw ((valid_rule v view laws (view s) token).at s refl).same (omega arith)) b
  Step-IsBounded (opens_pad pad s ps) b =
      fewer-IsBounded s _ ps
        (λ u. rw ((login_otp_rule v view laws (view s) pad).at s refl).same (omega arith)) b
  Step-IsBounded (uses_pad pad s ps) b =
      fewer-IsBounded s _ ps
        (λ u. ((complete_otp_rule v view laws (view s) pad).at s refl).fewer.sizes _) b
  Step-IsBounded (expires s t ps e) b = fewer-IsBounded s t ps (λ u. rw e.sizes (omega arith)) b

  Reach-IsBounded : {n : ℕ} {r r' : Race S} → Reach v view n r r' → IsBounded n r → IsBounded n r'
  Reach-IsBounded here b = b
  Reach-IsBounded (next reach step) b = Step-IsBounded step (Reach-IsBounded reach b)

  -- When at most `n` requests for sessions or pads are between counting and storing at any time,
  -- and other calls and expiries come in between as they may, on every outcome of redis: if no user
  -- had more than `maxLogins` logins and pads and no request was under way, no user ever has more
  -- than `maxLogins + n - 1`.
  pub Reach-card :
      (n : ℕ) (s : S) (r : Race S)
      → 0 < n
      → Within v.max_logins (view s)
      → Reach v view n (record { world = s; pending = [] }) r
      → (u : String) → (view r.world).card (logins_key u) + 1 ≤ v.max_logins + n
  Reach-card n s r one within reach u =
      let b = Reach-IsBounded reach (omega arith, λ x. omega (arith, within x, one)) in
      omega (arith, b.1 u)
