-- ===== src/Relational/Logging/Methods.antt =====
-- The methods of internal/relational that begin with `logging`, end with what it gave back on every
-- return, and call no other method: those of address.go, and `UpdateContact`.
use userservice.Prelude.{String, ◌≡◌, Option, none, some, List, [], ◌∷◌}
use userservice.Flow.{Act}
use userservice.Shared.{Error, Address, Contact}
use userservice.Metrics.{Prometheus}
use userservice.Metrics.Laws.{Vec, Counts, bump, PrometheusLaws}
use userservice.Relational.{Conn}
use userservice.Relational.Addresses.{get_all_addresses, get_address, add_address, update_address}
use userservice.Relational.Contacts.{update_contact}
use userservice.Relational.Logging.{logging, outcome}

-- A method whose result is an error alone.
abbrev pub only_error : {S : Type 0} → Act S (Option Error) → Act S (Unit {0} × Option Error)
only_error f s = let (e, s') = f s in ((tt, e), s')

module _ {V T S : Type 0} (p : Prometheus V T) (m : V) where
  -- `done, log := db.logging(fn, …)` before a method's body, and `done(err, log)` for its error; none is a
  -- panic.
  logged :
      {A : Type 0} → String → Act S (A × Option Error) → S → T → Option ((A × Option Error) × S × T)
  logged fn f s t = elim (logging p m fn) [
    | none ↦ none
    | some finish ↦
        let ((a, e), s') = f s in
        elim (finish e t) [ none ↦ none | some r ↦ some ((a, r.0), s', r.1) ]
  ]

module _ {V T S : Type 0} (p : Prometheus V T) (m : V) (db : Conn S) where
  pub logged_get_all_addresses : S → T → Option ((List Address × Option Error) × S × T)
  logged_get_all_addresses = logged p m "GetAllAddresses" (get_all_addresses db)

  pub logged_get_address : String → S → T → Option ((Option Address × Option Error) × S × T)
  logged_get_address id = logged p m "GetAddress" (get_address db id)

  pub logged_add_address : Address → S → T → Option ((String × Option Error) × S × T)
  logged_add_address a = logged p m "AddAddress" (add_address db a)

  pub logged_update_address : Address → S → T → Option ((Unit {0} × Option Error) × S × T)
  logged_update_address a = logged p m "UpdateAddress" (only_error (update_address db a))

  pub logged_update_contact : String → Contact → S → T → Option ((Unit {0} × Option Error) × S × T)
  logged_update_contact id c = logged p m "UpdateContact" (only_error (update_contact db id c))

module _ {V T S : Type 0} (p : Prometheus V T) (view : V → Vec) (counts : T → Counts)
    (laws : PrometheusLaws p view counts) where
  -- The result and the database are those of the method without its log, and one counter is increased
  -- by one, that of the name with the error's text, or "none", as its status.
  abbrev pub CountedAs :
      {A : Type 0}
      → String
      → Act S (A × Option Error)
      → S
      → T
      → Option ((A × Option Error) × S × T)
      → Type 0
  CountedAs fn f s t r =
      (t' : T) × (r ≡ some ((f s).0, (f s).1, t'))
      × (counts t' ≡ bump "database" ("mysql" ∷ "data" ∷ fn ∷ outcome (f s).0.1 ∷ []) (counts t))
