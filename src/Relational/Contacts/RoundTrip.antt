-- ===== src/Relational/Contacts/RoundTrip.antt =====
-- A contact that was changed, read back with its addresses.
use userservice.Prelude.{
  String, eq_iff, ◌≡◌, ◌≢◌, refl, ap, ◌∙◌, Option, none, some, is_some, true, false, List, [], ◌∷◌,
  arith,
}
use userservice.Flow.{Result, ok, err, run}
use userservice.Flow.Spec.{Does, does_weaken, call_then, return_if_then, finish_rule, run_rule}
use userservice.Shared.{Error, no_rows, Address, Contact}
use userservice.Relational.{Conn}
use userservice.Relational.Affected.{affected-none}
use userservice.Relational.Scan.{Value, text, scan, scan_address, scan_contact}
use userservice.Relational.Addresses.{address_result, get_address}
use userservice.Relational.Contacts.{
  address_id, no_contact, fetch_address, contact_found, get_contact, update_contact,
}
use userservice.Relational.Contacts.Laws.{Row, Table, scanned_row, changed, change, ContactLaws}

-- An error, or a contact with the fields of the row and the addresses that it names.
pub data Shown (row : Row) : Option Contact × Option Error → Type 0 where
  failed : {o : Option Contact} {e : Error} → Shown row (o, some e)
  shown :
      {x : Contact}
      → x.first_name ≡ row.first_name
      → x.last_name ≡ row.last_name
      → address_id x.bill_to ≡ row.billto
      → address_id x.ship_to ≡ row.shipto
      → x.mtime ≡ row.mtime
      → x.ctime ≡ row.ctime
      → Shown row (some x, none)

failed_if :
    (row : Row) (o : Option Contact) (e : Option Error) → is_some e ≡ true → Shown row (o, e)
failed_if row o none h = ground arith
failed_if row o (some e) h = failed

-- The address that an id names, unless there was an error.
abbrev Named : Option String → Option Address × Option Error → Type 0
Named o x = x.1 ≡ none → address_id x.0 ≡ o

shown_if :
    (row : Row) (bill ship : Option Address × Option Error)
    → Named row.billto bill
    → is_some bill.1 ≡ false
    → Named row.shipto ship
    → Shown row (some (record (scanned_row row).0 { bill_to = bill.0; ship_to = ship.0 }), ship.1)
shown_if row (bill, some e) ship b good p = ground arith
shown_if row (bill, none) (ship, none) b good p = shown refl refl (b refl) (p refl) refl refl
shown_if row (bill, none) (ship, some e) b good p = failed

module _ {S : Type 0} (db : Conn S) (view : S → Table) (laws : ContactLaws db view) where
  result-Named :
      (id : String) (row : List Value) (s : S)
      → (db.query_row (db.sqls "address" "select") (text id ∷ []) s).0 ≡ ok row
      → (o : Option Address) → scan_address row ≡ o
      → Named (some id) (address_result (scan scan_address (ok row)))
  unfolding address_result
  result-Named id row s q none e = rw e (λ h. ground arith)
  result-Named id row s q (some a) e = rw e (λ h. ap some (laws.select_address id a row s q e))

  address-Named :
      (id : String) (s : S) (r : Result Error (List Value))
      → (db.query_row (db.sqls "address" "select") (text id ∷ []) s).0 ≡ r
      → Named (some id) (address_result (scan scan_address r))
  unfolding address_result
  address-Named id s (err e) q h = ground arith
  address-Named id s (ok row) q h = result-Named id row s q _ refl h

  fetched : (o : Option String) → Does (λ s. tt {0}) tt (fetch_address db o) (λ x _. Named o x)
  unfolding fetch_address run get_address
  fetched none = record { at = λ s e h. refl }
  fetched (some id) = record { at = λ s e. address-Named id s _ refl }

  found-Shown :
      (row : Row)
      → Does (λ s. tt {0}) tt (contact_found db (ok (scanned_row row))) (λ x _. Shown row x)
  unfolding contact_found
  found-Shown row = run_rule _ (
      call_then _ _ (
        does_weaken (fetched row.billto) (λ bill _ b.
          return_if_then _ _ _ (failed_if row _ bill.1) (λ good. call_then _ _ (
            does_weaken (fetched row.shipto)
              (λ ship _ p. finish_rule _ (shown_if row bill ship b good p)))))))

  result-Shown :
      (id : String) (row : Row) (s s1 : S)
      → view s id ≡ some row
      → (r : Result Error (List Value))
      → (db.query_row (db.sqls "contact" "select") (text id ∷ []) s).0 ≡ r
      → Shown row (contact_found db (scan scan_contact r) s1).0
  unfolding contact_found run no_contact
  result-Shown id row s s1 h (err no_rows) q = ground (arith, h, laws.select_missing id s q)
  result-Shown id row s s1 h (err e) q = failed
  result-Shown id row s s1 h (ok values) q =
      rw (laws.select_row id row values s h q) ((found-Shown row).at s1 refl)

  get_contact-Shown :
      (id : String) (row : Row) (s : S) → view s id ≡ some row → Shown row (get_contact db id s).0
  unfolding run get_contact
  get_contact-Shown id row s h = result-Shown id row s _ h _ refl

  update_contact-view :
      (id : String) (c : Contact) (s : S)
      → (update_contact db id c s).0 ≡ none
      → view (update_contact db id c s).1 ≡ change id c (db.now s).0 (view s)
  unfolding run update_contact
  update_contact-view id c s h =
      laws.update_ok id c (db.now s).0 (db.now s).1 (affected-none _ _ h)
      ∙ ap (change id c (db.now s).0) (laws.now_view s)

  -- A user's contact that was changed without an error is read back with the names and the addresses that
  -- were given, the time of the change and the time at which it was made, unless the database fails; the
  -- contact of every other user is as it was.
  pub update_contact-get_contact :
      (id : String) (c : Contact) (row : Row) (s : S)
      → view s id ≡ some row
      → (update_contact db id c s).0 ≡ none
      → (j : String) → id ≢ j
      → let s' = (update_contact db id c s).1 in
        Shown (changed c (db.now s).0 row) (get_contact db id s').0 × (view s' j ≡ view s j)
  update_contact-get_contact id c row s held h j ne = (
    get_contact-Shown id _ (update_contact db id c s).1
        (ap (λ w. w id) (update_contact-view id c s h) ∙ ground (arith, eq_iff id id, held)),
    ap (λ w. w j) (update_contact-view id c s h) ∙ ground (arith, eq_iff id j, ne),
  )
