-- ===== src/Relational/Addresses/RoundTrip.antt =====
-- An address that was added or changed, read back.
use userservice.Prelude.{
  String, eq_iff, ◌≡◌, ◌≢◌, refl, ap, ◌∙◌, ◌⊎◌, inl, inr, Option, none, some, List, [], ◌∷◌, arith,
}
use userservice.Flow.{Result, ok, err, run}
use userservice.Shared.{Error, Address}
use userservice.Relational.{Conn}
use userservice.Relational.Affected.{affected-none}
use userservice.Relational.Scan.{Value, text, scan, scan_address}
use userservice.Relational.Addresses.{address_result, get_address, add_address, update_address}
use userservice.Relational.Addresses.Laws.{Table, put, change, AddressLaws}

-- The address is read, or the database fails.
abbrev pub Reads : Option Address × Option Error → Address → Type 0
Reads r a = (r ≡ (some a, none)) ⊎ ((e : Error) × (r ≡ (none, some e)))

module _ {S : Type 0} (db : Conn S) (view : S → Table) (laws : AddressLaws db view) where
  scanned-Reads :
      (id : String) (a : Address) (s : S)
      → view s id ≡ some a
      → (r : Result Error (List Value))
      → (db.query_row (db.sqls "address" "select") (text id ∷ []) s).0 ≡ r
      → Reads (address_result (scan scan_address r)) a
  unfolding address_result
  scanned-Reads id a s h (err e) q = inr (e, refl)
  scanned-Reads id a s h (ok row) q = inl (rw (laws.select_row id a row s h q) refl)

  get_address-Reads :
      (id : String) (a : Address) (s : S) → view s id ≡ some a → Reads (get_address db id s).0 a
  unfolding run get_address
  get_address-Reads id a s h = scanned-Reads id a s h _ refl

  -- The address as it is stored: with the id that was drawn and the time.
  abbrev pub stored : Address → S → Address
  stored a s =
      let (now, s1) = db.now s in
      let (id, s2) = db.uuidgen s1 in record a { uuid = id; mtime = now; ctime = now }

  add_address-view :
      (a : Address) (s : S)
      → (add_address db a s).0.1 ≡ none
      → view (add_address db a s).1 ≡ put (stored a s) (view s)
  unfolding run add_address
  add_address-view a s h =
      laws.insert_ok (stored a s) (db.uuidgen (db.now s).1).1 (affected-none _ _ h)
      ∙ ap (put (stored a s)) (laws.uuid_view (db.now s).1 ∙ laws.now_view s)

  pub add_address-Reads :
      (a : Address) (s : S)
      → (add_address db a s).0.1 ≡ none
      → Reads (get_address db (stored a s).uuid (add_address db a s).1).0 (stored a s)
  add_address-Reads a s h =
      get_address-Reads (stored a s).uuid (stored a s) (add_address db a s).1 (
        ap (λ w. w (stored a s).uuid) (add_address-view a s h)
        ∙ ground (arith, eq_iff (stored a s).uuid (stored a s).uuid))

  pub add_address_id : (a : Address) (s : S) → (add_address db a s).0.0 ≡ (stored a s).uuid
  unfolding run add_address
  add_address_id a s = refl

  -- An address that was added is read back under the id that `AddAddress` returned, with the fields that
  -- were given and the time, unless the database fails; every other row is as it was.
  pub add_address-get_address :
      (a : Address) (s : S)
      → (add_address db a s).0.1 ≡ none
      → (j : String) → (add_address db a s).0.0 ≢ j
      → let ((id, _), s') = add_address db a s in
        Reads (get_address db id s').0 (stored a s) × (view s' j ≡ view s j)
  unfolding run add_address
  add_address-get_address a s h j ne = (
    add_address-Reads a s h,
    ap (λ w. w j) (add_address-view a s h) ∙ ground (arith, eq_iff (stored a s).uuid j, ne),
  )

  update_address-view :
      (a : Address) (s : S)
      → (update_address db a s).0 ≡ none
      → view (update_address db a s).1 ≡ change (record a { mtime = (db.now s).0 }) (view s)
  unfolding run update_address
  update_address-view a s h =
      laws.update_ok (record a { mtime = (db.now s).0 }) (db.now s).1 (affected-none _ _ h)
      ∙ ap (change (record a { mtime = (db.now s).0 })) (laws.now_view s)

  -- An address that was changed is read back with the fields that were given, the time of the change and
  -- the time at which it was made, unless the database fails; every other row is as it was.
  pub update_address-get_address :
      (a b : Address) (s : S)
      → view s a.uuid ≡ some b
      → (update_address db a s).0 ≡ none
      → (j : String) → a.uuid ≢ j
      → let s' = (update_address db a s).1 in
        Reads (get_address db a.uuid s').0 (record a { mtime = (db.now s).0; ctime = b.ctime })
        × (view s' j ≡ view s j)
  update_address-get_address a b s held h j ne = (
    get_address-Reads a.uuid _ (update_address db a s).1 (
        ap (λ w. w a.uuid) (update_address-view a s h)
        ∙ ground (arith, eq_iff a.uuid a.uuid, held)),
    ap (λ w. w j) (update_address-view a s h) ∙ ground (arith, eq_iff a.uuid j, ne),
  )
