-- ===== src/Validation/Keys.antt =====
-- The keys under which logins, tokens and pads are stored, and what the data promises of them.
use text.Mathlib.TextLemmas.{append_cancel_left}
use userservice.Prelude.{ℕ, ◌+◌, ◌≤◌, ◌<◌, String, eq_iff, ◌≡◌, ◌≢◌, Option, some, true, arith}
use userservice.Redis.Laws.{View, add_member}
use userservice.Validation.{logins_key, token_key, userid, remote}
use userservice.Validation.Count.{Pruned}

pub logins_key_injective : (a b : String) → logins_key a ≡ logins_key b → a ≡ b
unfolding logins_key
logins_key_injective a b e = append_cancel_left "logins:" a b e

-- No user has more than `most` logins.
abbrev pub Within : ℕ → View → Type 0
Within most w = (u : String) → w.card (logins_key u) ≤ most

pub Within-Pruned :
    {most : ℕ} {key : String} {w w' : View} → Pruned key w w' → Within most w → Within most w'
Within-Pruned {w} p h u = omega (arith, p.fewer (logins_key u), h u)

pub Within-add :
    {most : ℕ} (key t : String) (w : View)
    → w.card key < most
    → Within most w
    → Within most (add_member key t w)
Within-add key t w room h u = ground (arith, h u, eq_iff key (logins_key u))

-- What a call that may add one login of a user does to the sets: it keeps the bound, and touches no
-- other user's set.
pub record Grown (most : ℕ) (uid : String) (w w' : View) : Type 0 where
  pub within : Within most w → Within most w'
  pub others : (u t : String) → uid ≢ u → w'.has (logins_key u) t ≡ w.has (logins_key u) t
  pub one_more : w'.card (logins_key uid) ≤ w.card (logins_key uid) + 1
  pub no_more : (u : String) → uid ≢ u → w'.card (logins_key u) ≤ w.card (logins_key u)

module _ (most : ℕ) (uid : String) {w w' : View} (p : Pruned (logins_key uid) w w') where
  other_users : (u t : String) → uid ≢ u → w'.has (logins_key u) t ≡ w.has (logins_key u) t
  other_users u t ne = p.others _ t (λ e. ne (logins_key_injective uid u e))

  pub Grown-Pruned :
      (fields : String → String → Option String) → Grown most uid w (record w' { hash = fields })
  Grown-Pruned fields = record {
    within = Within-Pruned p;
    others = other_users;
    one_more = omega (arith, p.fewer (logins_key uid));
    no_more = λ u ne. p.fewer (logins_key u);
  }

  pub Grown-add :
      (fields : String → String → Option String) (t : String)
      → w'.card (logins_key uid) < most
      → Grown most uid w (add_member (logins_key uid) t (record w' { hash = fields }))
  Grown-add fields t room = record {
    within = λ h u. Within-add (logins_key uid) t w' room (Within-Pruned p h) u;
    others = λ u x ne. ground (
      arith,
      eq_iff (logins_key uid) (logins_key u),
      logins_key_injective uid u,
      other_users u x ne,
    );
    one_more = ground (arith, p.fewer (logins_key uid));
    no_more = λ u ne. ground (
      arith,
      eq_iff (logins_key uid) (logins_key u),
      logins_key_injective uid u,
      p.fewer (logins_key u),
    );
  }

-- A user's session under a token: who it is for, from where, and its place in the user's set.
pub record Session (uid rmt token : String) (w : View) : Type 0 where
  pub user : w.hash (token_key token) userid ≡ some uid
  pub address : w.hash (token_key token) remote ≡ some rmt
  pub listed : w.has (logins_key uid) (token_key token) ≡ true
