-- ===== src/Seller/Sessions/Replay.antt =====
-- A registration that is sent again: register_seller of
-- services/seller-service/app/services/seller_service.py.
use ecommerce_platform.Base.{
  sym, inr, ◌&&◌, Bool-cases, ==_refl, Option, false, ◌≡◌, List, ◌∙◌, none, not, some, ==_iff, ℕ,
  true, inl, Option-cases, ◌==◌, refl, ◌∷◌, ◌⊎◌, if◌then◌else◌, [], Bool, ap,
}
use mathlib.Core.Path.{subst}
use ecommerce_platform.Base.Http.{ok, http_error}
use ecommerce_platform.Seller.{SellerEvent, registered, registered_event}
use ecommerce_platform.Seller.Table.{Database, Seller, save, find_seller, find_key, document_types}
use ecommerce_platform.Seller.Service.{Loaded, SellerResponse, load, emit, to_response}
use ecommerce_platform.Seller.Service.Register.{
  SellerRegisterRequest, register_seller, insert_seller, new_seller, is_some, replay,
}
use ecommerce_platform.Seller.Sessions.{
  System, Request, Event, run, happen, handle, write_pending, register, read, write,
}
use ecommerce_platform.Seller.Sessions.Shape.{find-save, handle-Shape, saved}
use ecommerce_platform.Seller.Sessions.Vetted.Runs.{registration_cases}
use ecommerce_platform.Seller.Sessions.Vetted.Loaded.{find_seller-id}

-- The key is bound to a seller that is there.
abbrev Bound : ℕ → ℕ → Database → Type 0
Bound key id db =
    (find_key key db.keys ≡ some (some id)) × (is_some (find_seller id db.sellers) ≡ true)

save-is_some :
    (id : ℕ) (loaded new : Seller) (ss : List Seller)
    → is_some (find_seller id ss) ≡ true
    → is_some (find_seller id (save loaded new ss)) ≡ true
save-is_some id loaded new ss h =
    rw (find-save id loaded new ss) (go (loaded.id == id) (find_seller id ss) h)
  where
    go :
        (b : Bool) (o : Option Seller)
        → is_some o ≡ true
        → is_some (if b then saved loaded new o else o) ≡ true
    go true none h = h
    go true (some s) h = refl
    go false o h = h

handle-Bound :
    (commits : Bool) (l : Loaded) (request : Request) (key id : ℕ) (db : Database)
    → Bound key id db
    → Bound key id (handle commits l request db).1
handle-Bound commits l request key id db (k, s) =
    let (keys, sellers) = handle-Shape commits l request db in
    (
      ap (λ ks. find_key key ks) keys ∙ k,
      elim sellers [
        | inl same ↦ ap (λ ss. is_some (find_seller id ss)) same ∙ s
        | inr (new, same) ↦
            ap (λ ss. is_some (find_seller id ss)) same ∙ save-is_some id l.seller new db.sellers s
      ],
    )

write-Bound :
    (commits : Bool) (p : Option (Loaded × Request)) (key id : ℕ) (db : Database)
    → Bound key id db
    → Bound key id (write_pending commits p db)
unfolding handle
write-Bound commits none key id db h = h
write-Bound commits (some (l, r)) key id db h = handle-Bound commits l r key id db h

insert-Bound :
    (commits : Bool) (other : ℕ) (seller : Seller) (event : SellerEvent) (key id : ℕ)
    (db : Database)
    → find_key other db.keys ≡ none
    → Bound key id db
    → Bound key id (insert_seller commits other seller event db).1
unfolding insert_seller emit
insert-Bound commits other seller event key id db new (k, s) =
    elim (Bool-cases (commits && not (is_some (find_seller seller.id db.sellers)))) [
      | inr e ↦ rw (insert_seller, e) (k, s)
      | inl e ↦
          rw (insert_seller, e)
            (key_kept (Bool-cases (other == key)), seller_kept (Bool-cases (seller.id == id)))
    ]
  where
    key_kept :
        ((other == key) ≡ true) ⊎ ((other == key) ≡ false)
        → find_key key ((other, some seller.id) ∷ db.keys) ≡ some (some id)
    key_kept (inl same) =
        let clash : none ≡ some (some id) =
          sym new
          ∙ subst (λ n. find_key n db.keys ≡ some (some id)) (sym ((==_iff other key).0 same)) k in
        cc clash
    key_kept (inr differs) = rw differs k

    seller_kept :
        ((seller.id == id) ≡ true) ⊎ ((seller.id == id) ≡ false)
        → is_some (find_seller id (seller ∷ db.sellers)) ≡ true
    seller_kept (inl same) = rw same refl
    seller_kept (inr differs) = rw differs s

register-Bound :
    (commits : Bool) (new : ℕ) (request : SellerRegisterRequest) (other key id : ℕ) (db : Database)
    → Bound key id db
    → Bound key id (register_seller commits new request other db).1
unfolding register_seller
register-Bound commits new request other key id db h =
    elim (Option-cases (find_key other db.keys)) [
      | inr (result, e) ↦ rw (register_seller, e) h
      | inl e ↦
          elim (registration_cases request.legal_name request.display_name request.contact_email) [
            | inl refused ↦ rw (register_seller, e, refused) h
            | inr (text, planned) ↦
                rw (register_seller, e, planned)
                  (insert-Bound commits other (new_seller new request registered) registered_event
                    key id db e h)
          ]
    ]

run-Bound :
    (events : List Event) (key id : ℕ) (s : System)
    → Bound key id s.db
    → Bound key id (run events s).db
unfolding run happen
run-Bound [] key id s h = h
run-Bound (register commits new request other ∷ es) key id s h =
    run-Bound es key id (happen (register commits new request other) s)
      (register-Bound commits new request other key id s.db h)
run-Bound (read worker seller request ∷ es) key id s h =
    run-Bound es key id (happen (read worker seller request) s) h
run-Bound (write worker commits ∷ es) key id s h =
    run-Bound es key id (happen (write worker commits) s)
      (write-Bound commits (s.pending worker) key id s.db h)

inserted-Bound :
    (commits : Bool) (key : ℕ) (seller : Seller) (event : SellerEvent) (db : Database)
    (view : SellerResponse)
    → (insert_seller commits key seller event db).0 ≡ ok view
    → (view.id ≡ seller.id) × Bound key seller.id (insert_seller commits key seller event db).1
unfolding insert_seller emit to_response
inserted-Bound commits key seller event db view h =
    elim (Bool-cases (commits && not (is_some (find_seller seller.id db.sellers)))) [
      | inr e ↦ let failed : http_error 500 ≡ ok view = rw (insert_seller, e) at h in cc failed
      | inl e ↦
          let made : ok (to_response seller []) ≡ ok view = rw (insert_seller, e) at h in
          let equal : to_response seller [] ≡ view = cc made in
          (
            ap (λ (v : SellerResponse). v.id) (sym equal),
            rw (insert_seller, e) (rw (==_refl key) refl, rw (==_refl seller.id) refl),
          )
    ]

replayed-Bound :
    (key id : ℕ) (db : Database)
    → Bound key id db
    → (view : SellerResponse) × (view.id ≡ id)
      × ((commits : Bool) (new : ℕ) (request : SellerRegisterRequest)
          → register_seller commits new request key db ≡ (ok view, db))
unfolding register_seller replay load to_response
replayed-Bound key id db (k, s) = elim (Option-cases (find_seller id db.sellers)) [
  | inl e ↦ let absent : false ≡ true = rw e at s in cc absent
  | inr (seller, e) ↦ (
    to_response seller (document_types id db.documents),
    find_seller-id id db.sellers seller e,
    λ commits new request. rw (register_seller, k, replay, load, e) refl,
  )
]

registered_made :
    (id : ℕ) (request : SellerRegisterRequest) (key : ℕ) (db : Database) (view : SellerResponse)
    → find_key key db.keys ≡ none
    → (register_seller true id request key db).0 ≡ ok view
    → (view.id ≡ id) × Bound key id (register_seller true id request key db).1
unfolding register_seller new_seller
registered_made id request key db view new made =
    elim (registration_cases request.legal_name request.display_name request.contact_email) [
      | inl refused ↦
          let failed : http_error 422 ≡ ok view = rw (register_seller, new, refused) at made in
          cc failed
      | inr (text, planned) ↦
          let seller = new_seller id request registered in
          let inserted : (insert_seller true key seller registered_event db).0 ≡ ok view =
            rw (register_seller, new, planned) at made in
          rw (register_seller, new, planned)
            (inserted-Bound true key seller registered_event db view inserted)
    ]

-- A registration under a new key that succeeds is remembered: after any sequence of requests,
-- overlapping in any way, each registration with its key answers with the seller that it created,
-- whatever it carries, and changes nothing.
pub registration_replayed :
    (id : ℕ) (request : SellerRegisterRequest) (key : ℕ) (s : System) (view : SellerResponse)
    → find_key key s.db.keys ≡ none
    → (register_seller true id request key s.db).0 ≡ ok view
    → (events : List Event) (commits : Bool) (id' : ℕ) (request' : SellerRegisterRequest)
    → let db' = (run (register true id request key ∷ events) s).db in
      (again : SellerResponse) × (again.id ≡ view.id)
      × (register_seller commits id' request' key db' ≡ (ok again, db'))
unfolding run happen
registration_replayed id request key s view new made events commits id' request' =
    let (same, bound) = registered_made id request key s.db view new made in
    let start = happen (register true id request key) s in
    let (again, e, every) =
      replayed-Bound key id (run events start).db (run-Bound events key id start bound) in
    (again, e ∙ sym same, every commits id' request')
