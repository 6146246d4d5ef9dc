-- ===== src/Relational/Reading.antt =====
-- The lists that `GetAllUsers` and `GetAllAddresses` read, of the rows that the driver delivers.
use userservice.Prelude.{
  ◌≡◌, refl, sym, ap, ◌∙◌, Option, none, some, List, [], ◌∷◌, ◌++◌, map, arith, Bool, true, ◌&&◌,
  ◌↔◌, is_some, Option-cases, inl, inr,
}
use mathlib.Core.List.{map-append, append_assoc, append-nil}
use userservice.Flow.{Result, ok, err, run}
use userservice.Shared.{Error}
use userservice.Relational.{Conn, Rows, scan_rows}
use userservice.Relational.Scan.{Value, scan_error, scan_user_row, scan_address}
use userservice.Relational.Users.{all_users, get_all_users}
use userservice.Relational.Addresses.{all_addresses, get_all_addresses}

module _ {A : Type 0} (f : List Value → Option A) where
  scan_rows-good :
      (row : List Value) (rows : List (List Value)) (read : List A) (a : A)
      → f row ≡ some a
      → scan_rows f (row ∷ rows) read ≡ scan_rows f rows (read ++ a ∷ [])
  unfolding scan_rows
  scan_rows-good row rows read a e = rw (scan_rows, e) refl

  scan_rows-bad :
      (row : List Value) (rows : List (List Value)) (read : List A)
      → f row ≡ none
      → (scan_rows f (row ∷ rows) read).1 ≡ some scan_error
  unfolding scan_rows
  scan_rows-bad row rows read e = rw (scan_rows, e) refl

  -- Without an error every row was scanned, in order.
  scan_rows-all :
      (rows : List (List Value)) (read : List A)
      → (scan_rows f rows read).1 ≡ none
      → map some (scan_rows f rows read).0 ≡ map some read ++ map f rows
  scan_rows-all [] read h = unfold scan_rows in sym (append-nil (map some read))
  scan_rows-all (row ∷ rows) read h = elim (Option-cases (f row)) [
    | inl bad ↦ cc (scan_rows-bad row rows read bad, h)
    | inr (a, good) ↦
        let e = scan_rows-good row rows read a good in
        ap (λ r. map some r.0) e
        ∙ scan_rows-all rows (read ++ a ∷ []) (ap (λ r. r.1) (sym e) ∙ h)
        ∙ ap (λ l. l ++ map f rows) (map-append some read (a ∷ []))
        ∙ append_assoc (map some read) (some a ∷ []) (map f rows)
        ∙ ap (λ o. map some read ++ (o ∷ map f rows)) (sym good)
  ]

  abbrev pub all_scan : List (List Value) → Bool
  all_scan [] = true
  all_scan (row ∷ rows) = is_some (f row) && all_scan rows

  scan_rows-fine :
      (rows : List (List Value)) (read : List A)
      → all_scan rows ≡ true
      → (scan_rows f rows read).1 ≡ none
  unfolding scan_rows
  scan_rows-fine [] read h = refl
  scan_rows-fine (row ∷ rows) read h = elim (Option-cases (f row)) [
    | inl bad ↦ ground (arith, bad, h)
    | inr (a, good) ↦
        ap (λ r. r.1) (scan_rows-good row rows read a good)
        ∙ scan_rows-fine rows (read ++ a ∷ []) (ground (arith, good, h))
  ]

  scan_rows-scans :
      (rows : List (List Value)) (read : List A)
      → (scan_rows f rows read).1 ≡ none
      → all_scan rows ≡ true
  scan_rows-scans [] read h = refl
  scan_rows-scans (row ∷ rows) read h = elim (Option-cases (f row)) [
    | inl bad ↦ cc (scan_rows-bad row rows read bad, h)
    | inr (a, good) ↦ rw good (
        scan_rows-scans rows (read ++ a ∷ [])
          (ap (λ r. r.1) (sym (scan_rows-good row rows read a good)) ∙ h))
  ]

module _ {S : Type 0} (db : Conn S) (s : S) where
  -- The query was answered with rows, of which every one that the driver delivered scans, and these were
  -- read, in order. Rows that a broken connection kept back are not among them: `Rows.ended_by` is not
  -- looked at.
  abbrev pub ReadDelivered :
      {A : Type 0} → (List Value → Option A) → Result Error Rows → List A → Type 0
  ReadDelivered f r read =
      (rows : Rows) × (r ≡ ok rows)
      × (all_scan f rows.rows ≡ true)
      × (map some read ≡ map f rows.rows)

  all_users-ReadDelivered :
      (r : Result Error Rows)
      → ((all_users db r).1 ≡ none) ↔ ReadDelivered scan_user_row r (all_users db r).0
  unfolding all_users
  all_users-ReadDelivered (err e) = (λ h. ground (arith, h), λ h. ground (arith, h.1))
  all_users-ReadDelivered (ok rows) = (
    λ h. (
      rows,
      refl,
      scan_rows-scans scan_user_row rows.rows [] h,
      scan_rows-all scan_user_row rows.rows [] h,
    ),
    λ h. scan_rows-fine scan_user_row rows.rows [] (ground (arith, h.1, h.2)),
  )

  all_addresses-ReadDelivered :
      (r : Result Error Rows)
      → ((all_addresses r).1 ≡ none) ↔ ReadDelivered scan_address r (all_addresses r).0
  unfolding all_addresses
  all_addresses-ReadDelivered (err e) = (λ h. ground (arith, h), λ h. ground (arith, h.1))
  all_addresses-ReadDelivered (ok rows) = (
    λ h. (
      rows,
      refl,
      scan_rows-scans scan_address rows.rows [] h,
      scan_rows-all scan_address rows.rows [] h,
    ),
    λ h. scan_rows-fine scan_address rows.rows [] (ground (arith, h.1, h.2)),
  )

  -- `GetAllUsers` reports no error exactly when its query was answered and every row that the driver
  -- delivered scans, and then the list holds these rows, in order, and no other. An error that ended the
  -- iteration is not reported, so they may be fewer than the rows of the table.
  pub get_all_users-ReadDelivered :
      ((get_all_users db s).0.1 ≡ none)
      ↔ ReadDelivered scan_user_row
          (db.query (db.sqls "user" "select-all") [] s).0
          (get_all_users db s).0.0
  unfolding run get_all_users
  get_all_users-ReadDelivered = all_users-ReadDelivered _

  -- `GetAllAddresses` likewise.
  pub get_all_addresses-ReadDelivered :
      ((get_all_addresses db s).0.1 ≡ none)
      ↔ ReadDelivered scan_address
          (db.query (db.sqls "address" "select-all") [] s).0
          (get_all_addresses db s).0.0
  unfolding run get_all_addresses
  get_all_addresses-ReadDelivered = all_addresses-ReadDelivered _
