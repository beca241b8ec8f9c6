-- ===== src/Seller/Sessions/Vetted/Runs.antt =====
-- Every seller's past stays true over any overlapping requests to seller-service:
-- services/seller-service/app/services/seller_service.py.
use ecommerce_platform.Base.{
  false, if◌then◌else◌, ◌⊎◌, ◌||◌, true, All, ◌==◌, [], inl, none, ℕ, inr, Option, Bool, ◌∷◌, ◌&&◌,
  not, refl, Option-cases, Bool-cases, List, some, ◌≡◌,
}
use ecommerce_platform.Base.Text.{is_blank, is_empty, has_at}
use ecommerce_platform.Seller.{
  String, SellerEvent, moves, invalid, registered, registered_event, plan_registration,
}
use ecommerce_platform.Seller.Table.{Database, Seller, find_seller, find_key}
use ecommerce_platform.Seller.Service.{Loaded, load, emit}
use ecommerce_platform.Seller.Service.Register.{
  is_some, SellerRegisterRequest, register_seller, insert_seller, new_seller,
}
use ecommerce_platform.Seller.Sessions.{
  Request, Event, System, init, happen, run, handle, assign, with_request, write_pending, register,
  read, write, send_documents, begin_review, reinstate, review_result, accept, suspend, ban, locate,
}
use ecommerce_platform.Seller.Sessions.Grows.{Grows, Grows-refl}
use ecommerce_platform.Seller.Sessions.Vetted.{Vetted, All-Grows}
use ecommerce_platform.Seller.Sessions.Vetted.Applied.{Kept, emit-Grows}
use ecommerce_platform.Seller.Sessions.Vetted.Loaded.{IsLoaded, IsLoaded-Grows, load-IsLoaded}
use ecommerce_platform.Seller.Sessions.Vetted.Handled.{
  submit_documents-Kept, start_review-Kept, record_review_result-Kept, accept_contract-Kept,
  suspend_seller-Kept, reinstate_seller-Kept, ban_seller-Kept, set_location-Kept,
}

pub handle-Kept :
    (db : Database) (l : Loaded) (h : IsLoaded db l) (rows : All (Vetted db) db.sellers)
    (commits : Bool) (request : Request)
    → Kept db (handle commits l request db).1
unfolding handle
handle-Kept db l h rows commits (send_documents request) =
    submit_documents-Kept db l h rows commits request
handle-Kept db l h rows commits begin_review = start_review-Kept db l h rows commits
handle-Kept db l h rows commits reinstate = reinstate_seller-Kept db l h rows commits
handle-Kept db l h rows commits (review_result approve reason) =
    record_review_result-Kept db l h rows commits approve reason
handle-Kept db l h rows commits (accept version) = accept_contract-Kept db l h rows commits version
handle-Kept db l h rows commits (suspend reason) = suspend_seller-Kept db l h rows commits reason
handle-Kept db l h rows commits (ban reason) = ban_seller-Kept db l h rows commits reason
handle-Kept db l h rows commits (locate given) = set_location-Kept db l h rows commits given

pub registration_cases :
    (legal_name display_name contact_email : String)
    → (plan_registration legal_name display_name contact_email ≡ invalid)
      ⊎ ((text : String) × (plan_registration legal_name display_name contact_email
            ≡ moves registered registered_event text))
unfolding plan_registration
registration_cases legal_name display_name contact_email = go (
    is_blank legal_name
    || is_blank display_name
    || is_empty contact_email
    || not (has_at contact_email))
  where
    go :
        (b : Bool)
        → ((if b
              then invalid
              else moves registered registered_event "registered; documents required before review")
            ≡ invalid)
          ⊎ ((text : String) × ((if b
                  then invalid
                  else moves registered registered_event
                      "registered; documents required before review")
                ≡ moves registered registered_event text))
    go true = inl refl
    go false = inr ("registered; documents required before review", refl)

module _ (db : Database) (rows : All (Vetted db) db.sellers) where
  pub unchanged : Kept db db
  unchanged = (Grows-refl db, rows)

  module _ (seller : Seller) (event : SellerEvent)
      (vetted : (after : Database) → Vetted after seller) where
    inserted-Kept :
        (keys : List (ℕ × Option ℕ))
        → Kept db (emit seller event (record db { sellers = seller ∷ db.sellers; keys = keys }))
    unfolding emit
    inserted-Kept keys =
        let after = emit seller event (record db { sellers = seller ∷ db.sellers; keys = keys }) in
        let g : Grows db after = record {
          docs = λ t id h. h;
          events = (emit-Grows seller event db db.sellers).events;
        } in
        (g, (vetted after, All-Grows db after db.sellers g rows))

    insert_seller-Kept :
        (commits : Bool) (key : ℕ) → Kept db (insert_seller commits key seller event db).1
    unfolding insert_seller
    insert_seller-Kept commits key =
        elim (Bool-cases (commits && not (is_some (find_seller seller.id db.sellers)))) [
          | inr e ↦ rw (insert_seller, e) unchanged
          | inl e ↦ rw (insert_seller, e) (inserted-Kept ((key, some seller.id) ∷ db.keys))
        ]

  pub register-Kept :
      (commits : Bool) (id : ℕ) (request : SellerRegisterRequest) (key : ℕ)
      → Kept db (register_seller commits id request key db).1
  unfolding register_seller new_seller
  register-Kept commits id request key = elim (Option-cases (find_key key db.keys)) [
    | inr (result, e) ↦ rw (register_seller, e) unchanged
    | inl e ↦
        elim (registration_cases request.legal_name request.display_name request.contact_email) [
          | inl refused ↦ rw (register_seller, e, refused) unchanged
          | inr (text, planned) ↦
              rw (register_seller, e, planned)
                (insert_seller-Kept (new_seller id request registered) registered_event
                  (λ after. (tt, tt)) commits key)
        ]
  ]

pub record IsTrue (s : System) : Type 0 where
  pub rows : All (Vetted s.db) s.db.sellers
  pub pending :
      (worker : ℕ) (l : Loaded) (r : Request) → s.pending worker ≡ some (l, r) → IsLoaded s.db l

-- What a worker has read is true after a change that keeps every past.
module _ (s : System) (h : IsTrue s) (after : Database) (g : Grows s.db after) where
  pub pending-cleared :
      (at : ℕ) (worker : ℕ) (l : Loaded) (r : Request)
      → assign s.pending at none worker ≡ some (l, r)
      → IsLoaded after l
  pending-cleared at worker l r e = elim (Bool-cases (at == worker)) [
    | inl same ↦ let absent : none ≡ some (l, r) = rw same at e in cc absent
    | inr other ↦ IsLoaded-Grows s.db after l g (h.pending worker l r (rw other at e))
  ]

pub with_request-load :
    (request r : Request) (o : Option Loaded) (l : Loaded)
    → with_request request o ≡ some (l, r)
    → o ≡ some l
with_request-load request r none l e = cc e
with_request-load request r (some m) l e = cc e

pub write-Kept :
    (s : System) (h : IsTrue s) (commits : Bool) (worker : ℕ) (p : Option (Loaded × Request))
    → s.pending worker ≡ p
    → Kept s.db (write_pending commits p s.db)
unfolding handle
write-Kept s h commits worker none e = unchanged s.db h.rows
write-Kept s h commits worker (some (l, r)) e =
    handle-Kept s.db l (h.pending worker l r e) h.rows commits r

pub happen-IsTrue : (e : Event) (s : System) → IsTrue s → IsTrue (happen e s)
unfolding happen
happen-IsTrue (register commits id request key) s h =
    let (g, rows) = register-Kept s.db h.rows commits id request key in
    record {
      rows = rows;
      pending = λ worker l r e.
          IsLoaded-Grows s.db (register_seller commits id request key s.db).1 l g
            (h.pending worker l r e);
    }
happen-IsTrue (read at id request) s h = record {
  rows = h.rows;
  pending = λ worker l r e. elim (Bool-cases (at == worker)) [
    | inl same ↦
        load-IsLoaded s.db id l h.rows (with_request-load request r (load id s.db) l (rw same at e))
    | inr other ↦ h.pending worker l r (rw other at e)
  ];
}
happen-IsTrue (write at commits) s h =
    let (g, rows) = write-Kept s h commits at (s.pending at) refl in
    record {
      rows = rows;
      pending = pending-cleared s h (write_pending commits (s.pending at) s.db) g at;
    }

pub run-IsTrue : (es : List Event) (s : System) → IsTrue s → IsTrue (run es s)
unfolding run
run-IsTrue [] s h = h
run-IsTrue (e ∷ es) s h = run-IsTrue es (happen e s) (happen-IsTrue e s h)

pub init-IsTrue : IsTrue init
init-IsTrue = record { rows = tt; pending = λ worker l r e. cc e }
