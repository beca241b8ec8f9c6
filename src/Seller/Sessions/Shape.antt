-- ===== src/Seller/Sessions/Shape.antt =====
-- What a request to seller-service may change of the rows and the keys:
-- services/seller-service/app/services/seller_service.py.
use ecommerce_platform.Base.{
  ◌∙◌, ap, ◌⊎◌, ◌++◌, true, false, Bool-cases, ==_iff, inr, inl, refl, ◌≡◌, if◌then◌else◌, none,
  Option, Bool, List, arith, ◌∷◌, ◌==◌, some, ℕ, [],
}
use ecommerce_platform.Seller.{
  Decision, moves, invalid, not_allowed, plan_document_submission, plan_review_start,
  plan_review_result, plan_contract_acceptance, plan_suspension, plan_reinstatement, plan_ban,
}
use ecommerce_platform.Seller.Service.{
  Loaded, apply, emit, start_review, record_review_result, accept_contract, suspend_seller,
  reinstate_seller, ban_seller, set_location, changed_location, or_else, detail,
}
use ecommerce_platform.Seller.Service.Documents.{submit_documents, as_dict, keys_of, put_documents}
use ecommerce_platform.Seller.Sessions.{
  Location, Request, handle, send_documents, begin_review, reinstate, review_result, accept,
  suspend, ban, locate,
}
use mathlib.Core.Path.{subst}
use ecommerce_platform.Seller.{moves, String, Decision, not_allowed}
use ecommerce_platform.Seller.Table.{Database, Seller, save, update_row, find_seller}
use ecommerce_platform.Seller.Service.{
  suspend_seller, accept_contract, changed_location, record_review_result, or_else, start_review,
  Loaded, set_location, emit, apply,
}
use ecommerce_platform.Seller.Service.Documents.{submit_documents}

-- A seller's row after a save.
abbrev pub saved : Seller → Seller → Option Seller → Option Seller
saved loaded new none = none
saved loaded new (some s) = some (update_row loaded new s)

update_row-id : (loaded new s : Seller) → (update_row loaded new s).id ≡ s.id
unfolding update_row
update_row-id loaded new s = refl

pub find-save :
    (id : ℕ) (loaded new : Seller) (ss : List Seller)
    → find_seller id (save loaded new ss)
      ≡ (if loaded.id == id then saved loaded new (find_seller id ss) else find_seller id ss)
unfolding save
find-save id loaded new [] = ground arith
find-save id loaded new (s ∷ ss) = elim (Bool-cases (s.id == loaded.id)) [
  | inl e ↦
      let same : s.id ≡ loaded.id = (==_iff s.id loaded.id).0 e in
      elim (Bool-cases (s.id == id)) [
        | inl f ↦
            let g : (loaded.id == id) ≡ true = subst (λ n. (n == id) ≡ true) same f in
            rw (e, update_row-id loaded new s, f, g) refl
        | inr f ↦
            let g : (loaded.id == id) ≡ false = subst (λ n. (n == id) ≡ false) same f in
            rw (e, update_row-id loaded new s, f, g) refl
      ]
  | inr e ↦ elim (Bool-cases (s.id == id)) [
    | inl f ↦ let g : (loaded.id == id) ≡ false = ground arith in rw (e, f, g) refl
    | inr f ↦ rw (e, f) (find-save id loaded new ss)
  ]
]

-- Every request leaves the keys, and saves its own row or none.
abbrev pub Shape : Seller → Database → Database → Type 0
Shape loaded before after =
    (after.keys ≡ before.keys)
    × ((after.sellers ≡ before.sellers)
        ⊎ ((new : Seller) × (after.sellers ≡ save loaded new before.sellers)))

module _ (loaded seller : Seller) (reason : Option String) (written db : Database)
    (keys : written.keys ≡ db.keys) (sellers : written.sellers ≡ db.sellers) where
  apply-Shape :
      (commits : Bool) (decision : Decision)
      → Shape loaded db (apply commits loaded seller decision reason written db).1
  unfolding apply emit
  apply-Shape true (moves status event text) =
      let seller' : Seller = record seller {
        status = some status;
        status_reason = or_else reason seller.status_reason;
      } in
      (keys, inr (seller', ap (λ ss. save loaded seller' ss) sellers))
  apply-Shape false (moves status event text) = (refl, inl refl)
  apply-Shape commits invalid = (refl, inl refl)
  apply-Shape commits not_allowed = (refl, inl refl)

set_location-Shape :
    (commits : Bool) (l : Loaded) (given : Location) (db : Database)
    → Shape l.seller db (set_location commits l given db).1
unfolding set_location emit
set_location-Shape true l given db =
    (refl, inr (record l.seller { location = changed_location given l.seller.location }, refl))
set_location-Shape false l given db = (refl, inl refl)

pub handle-Shape :
    (commits : Bool) (l : Loaded) (request : Request) (db : Database)
    → Shape l.seller db (handle commits l request db).1
unfolding handle submit_documents start_review record_review_result accept_contract suspend_seller
    reinstate_seller ban_seller
handle-Shape commits l (send_documents request) db =
    let incoming = as_dict request [] in
    apply-Shape l.seller l.seller (some "")
      (record db { documents = put_documents l.seller.id incoming db.documents }) db refl refl
      commits (plan_document_submission l.seller.status (l.documents ++ keys_of incoming))
handle-Shape commits l begin_review db =
    apply-Shape l.seller l.seller none db db refl refl commits (plan_review_start l.seller.status)
handle-Shape commits l reinstate db =
    apply-Shape l.seller l.seller (some "") db db refl refl commits
      (plan_reinstatement l.seller.status)
handle-Shape commits l (review_result approve reason) db =
    let text = elim reason as (λ _. String) [ none ↦ "" | some r ↦ r ] in
    let decision = plan_review_result l.seller.status approve text in
    apply-Shape l.seller l.seller (if approve then none else some (detail decision)) db db refl refl
      commits decision
handle-Shape commits l (accept version) db =
    apply-Shape l.seller (record l.seller { accepted_contract_version = some version }) none db db
      refl refl commits (plan_contract_acceptance l.seller.status version)
handle-Shape commits l (suspend reason) db =
    let decision = plan_suspension l.seller.status reason in
    apply-Shape l.seller l.seller (some (detail decision)) db db refl refl commits decision
handle-Shape commits l (ban reason) db =
    let decision = plan_ban l.seller.status reason in
    apply-Shape l.seller l.seller (some (detail decision)) db db refl refl commits decision
handle-Shape commits l (locate given) db = set_location-Shape commits l given db

-- Another seller's row is not touched.
pub Shape-other :
    (id : ℕ) (loaded : Seller) (before after : Database)
    → Shape loaded before after
    → (loaded.id == id) ≡ false
    → find_seller id after.sellers ≡ find_seller id before.sellers
Shape-other id loaded before after (k, inl same) e = ap (λ ss. find_seller id ss) same
Shape-other id loaded before after (k, inr (new, same)) e =
    ap (λ ss. find_seller id ss) same ∙ rw (find-save id loaded new before.sellers, e) refl
