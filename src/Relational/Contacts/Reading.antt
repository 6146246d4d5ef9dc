-- ===== src/Relational/Contacts/Reading.antt =====
-- Reading a contact with its addresses only asks the database.
use userservice.Prelude.{String, ◌≡◌, refl, ◌∙◌, Option, none, some, List}
use userservice.Flow.{Result, ok, err}
use userservice.Flow.Spec.{
  Does, does_weaken, call_then, call_rule, return_if_then, finish_rule, run_rule,
}
use userservice.Shared.{Error, Contact}
use userservice.Relational.{Conn}
use userservice.Relational.Scan.{Value, scan, scan_contact}
use userservice.Relational.Addresses.{get_address}
use userservice.Relational.Contacts.{fetch_address, contact_found, get_contact}

module _ {S V : Type 0} (db : Conn S) (view : S → V)
    (query_view : (q : String) (args : List Value) (s : S)
      → view (db.query_row q args s).1 ≡ view s)
    (w : V) where
  pub query_rule :
      (q : String) (args : List Value) → Does view w (db.query_row q args) (λ _ w'. w' ≡ w)
  query_rule q args = record { at = λ s e. query_view q args s ∙ e }

  get_address_rule : (id : String) → Does view w (get_address db id) (λ _ w'. w' ≡ w)
  unfolding get_address
  get_address_rule id =
      run_rule _ (
        call_then _ _ (record { at = λ s e. (finish_rule {view = view} _ (query_view _ _ s ∙ e)) }))

  fetch_address_rule : (o : Option String) → Does view w (fetch_address db o) (λ _ w'. w' ≡ w)
  unfolding fetch_address
  fetch_address_rule none = run_rule _ (finish_rule _ refl)
  fetch_address_rule (some id) = get_address_rule id

  contact_found_rule :
      (r : Result Error (Contact × Option String × Option String))
      → Does view w (contact_found db r) (λ _ w'. w' ≡ w)
  unfolding contact_found
  contact_found_rule (err e) = run_rule _ (finish_rule _ refl)
  contact_found_rule (ok (c, billto, shipto)) = run_rule _ (
      call_then _ _ (
        does_weaken (fetch_address_rule billto) (λ bill w' e.
          return_if_then _ _ _ (λ _. e)
            (λ _.
              call_then _ _ (
                rw e
                  (does_weaken (fetch_address_rule shipto) (λ ship w'' e'. finish_rule _ e')))))))

  pub get_contact_rule : (id : String) → Does view w (get_contact db id) (λ _ w'. w' ≡ w)
  unfolding get_contact
  get_contact_rule id = run_rule _ (
      call_then _ _ (
        does_weaken (query_rule _ _)
          (λ row w' e. rw e (call_rule _ (contact_found_rule (scan scan_contact row))))))
