-- ===== src/Relational/Affected.antt =====
-- The check of the rows that a statement changed, as the methods of `Conn` end with it.
use userservice.Prelude.{ℕ, ◌≡◌, none, arith}
use userservice.Flow.{Result, ok, err}
use userservice.Shared.{Error}
use userservice.Relational.{affected}

-- No error means that one row was changed.
pub affected-none :
    (f : Error) (r : Result Error (Result Error ℕ)) → affected f r ≡ none → r ≡ ok (ok 1)
unfolding affected
affected-none f (err x) h = cc
affected-none f (ok (err x)) h = cc
affected-none f (ok (ok n)) h = ground arith
