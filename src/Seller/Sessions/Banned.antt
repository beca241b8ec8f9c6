-- ===== src/Seller/Sessions/Banned.antt =====
-- A ban, where no request comes between another's read and its writes: ban_seller of
-- services/seller-service/app/services/seller_service.py.
use mathlib.Core.Path.{subst}
use ecommerce_platform.Seller.{
  may_receive_orders, SellerEvent, may_list_products, registered, registered_event,
}
use ecommerce_platform.Seller.Service.Register.{
  SellerRegisterRequest, register_seller, insert_seller, new_seller, is_some,
}
use ecommerce_platform.Seller.Service.Queries.{SellerPermission, get_permission, permission}
use ecommerce_platform.Seller.Sessions.Serial.{Call, enrol, act, serve_all}
use ecommerce_platform.Seller.Sessions.Vetted.Runs.{registration_cases}
use ecommerce_platform.Base.{
  List, [], ==_iff, ◌&&◌, ◌∷◌, sym, Option-cases, not, ◌==◌, true, Bool-cases, false, ℕ, Bool, some,
  refl, inr, ◌⊎◌, ◌≡◌, inl,
}
use ecommerce_platform.Base.Http.{ok, http_error}
use ecommerce_platform.Seller.{banned}
use ecommerce_platform.Seller.Table.{find_key, document_types, find_seller, Seller, Database}
use ecommerce_platform.Seller.Service.{load, emit}
use ecommerce_platform.Seller.Sessions.{serve, register_seller, serve, Location, Request, locate}
use ecommerce_platform.Seller.Sessions.Refused.{banned-Refuses, IsBanned, act-IsBanned}

insert-IsBanned :
    (commits : Bool) (key id : ℕ) (seller : Seller) (event : SellerEvent) (db : Database)
    → IsBanned id db
    → IsBanned id (insert_seller commits key seller event db).1
unfolding insert_seller emit
insert-IsBanned commits key id seller event db (s, f, b) = elim (Bool-cases (seller.id == id)) [
  | inl mine ↦
      let taken : find_seller seller.id db.sellers ≡ some s =
        subst (λ n. find_seller n db.sellers ≡ some s) (sym ((==_iff seller.id id).0 mine)) f in
      elim commits as (λ c. IsBanned id (insert_seller c key seller event db).1) [
        | false ↦ (s, f, b)
        | true ↦ rw (insert_seller, taken) (s, f, b)
      ]
  | inr new ↦ elim (Bool-cases (commits && not (is_some (find_seller seller.id db.sellers)))) [
    | inl e ↦ rw (insert_seller, e) (s, rw new f, b)
    | inr e ↦ rw (insert_seller, e) (s, f, b)
  ]
]

enrol-IsBanned :
    (commits : Bool) (new : ℕ) (request : SellerRegisterRequest) (key : ℕ) (db : Database) (id : ℕ)
    → IsBanned id db
    → IsBanned id (register_seller commits new request key db).1
unfolding register_seller
enrol-IsBanned commits new request key db id h = elim (Option-cases (find_key key db.keys)) [
  | inr (result, e) ↦ rw (register_seller, e) h
  | inl e ↦
      elim (registration_cases request.legal_name request.display_name request.contact_email) [
        | inl refused ↦ rw (register_seller, e, refused) h
        | inr (text, planned) ↦
            rw (register_seller, e, planned)
              (insert-IsBanned commits key id (new_seller new request registered) registered_event
                db h)
      ]
]

serve_all-IsBanned :
    (calls : List Call) (db : Database) (id : ℕ) → IsBanned id db → IsBanned id (serve_all calls db)
unfolding serve_all
serve_all-IsBanned [] db id h = h
serve_all-IsBanned (enrol commits new request key ∷ more) db id h =
    serve_all-IsBanned more (register_seller commits new request key db).1 id
      (enrol-IsBanned commits new request key db id h)
serve_all-IsBanned (act commits other request ∷ more) db id h =
    serve_all-IsBanned more (serve commits other request db).1 id
      (act-IsBanned commits other request db id h)

pub banned_serve :
    (commits : Bool) (request : Request) (db : Database) (id : ℕ)
    → IsBanned id db
    → (serve commits id request db ≡ (http_error 409, db))
      ⊎ ((given : Location) × (request ≡ locate given))
unfolding serve load
banned_serve commits request db id (s, f, b) =
    rw (serve, load, f)
      (banned-Refuses commits (record { seller = s; documents = document_types id db.documents })
        request db b)

banned_permission :
    (db : Database) (id : ℕ)
    → IsBanned id db
    → (p : SellerPermission) × (get_permission id db ≡ ok p)
      × (p.may_list ≡ false)
      × (p.may_receive ≡ false)
unfolding get_permission permission may_list_products may_receive_orders
banned_permission db id (s, f, b) =
    (permission s, rw (get_permission, f) refl, rw b refl, rw b refl)

-- Once a seller's row is banned it is so for good, in any sequence of requests where each one's
-- writes follow its read before any other request: after it get_permission answers that the
-- seller may neither list products nor receive orders, and each further request about the
-- seller is answered 409 and changes nothing, unless it sets the shop's location.
pub banned_is_final :
    (calls : List Call) (db : Database) (id : ℕ) (s : Seller) (commits : Bool) (request : Request)
    → find_seller id db.sellers ≡ some s
    → s.status ≡ some banned
    → let db' = serve_all calls db in
      ((p : SellerPermission) × (get_permission id db' ≡ ok p)
        × (p.may_list ≡ false)
        × (p.may_receive ≡ false))
      × ((serve commits id request db' ≡ (http_error 409, db'))
          ⊎ ((given : Location) × (request ≡ locate given)))
banned_is_final calls db id s commits request f b =
    let h = serve_all-IsBanned calls db id (s, f, b) in
    (
      banned_permission (serve_all calls db) id h,
      banned_serve commits request (serve_all calls db) id h,
    )
