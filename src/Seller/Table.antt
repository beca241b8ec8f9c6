-- ===== src/Seller/Table.antt =====
-- The tables of seller-service: services/seller-service/app/models.py. The phone number, the country
-- and the timestamps are left out, and so are a document's own id and time.
use Prim.Native.String.{String}
use ecommerce_platform.Base.Int.{ℤ, ◌==ℤ◌}
use ecommerce_platform.Base.{
  ◌∷◌, Bool, Option, false, ◌==◌, [], some, if◌then◌else◌, none, ℕ, List, true,
}
use ecommerce_platform.Base.Text.{same_string}
use ecommerce_platform.Seller.{
  SellerStatus, DocumentType, SellerEvent, registered, documents_submitted, under_review, approved,
  active, rejected, suspended, banned,
}

-- The columns that set_location writes.
pub record Location : Type 0 where
  pub latitude : Option String
  pub longitude : Option String
  pub address_line : Option String
  pub city : Option String
  pub district : Option String

pub record Seller : Type 0 where
  pub id : ℕ
  pub legal_name : String
  pub display_name : String
  pub contact_email : String
  pub status : Option SellerStatus
  pub status_reason : Option String
  pub accepted_contract_version : Option ℤ
  pub location : Location

pub record SellerDocument : Type 0 where
  pub seller_id : ℕ
  pub document_type : DocumentType
  pub media_id : ℕ

-- An outbox row with its payload; the address line is not in it.
pub record OutboxMessage : Type 0 where
  pub event : SellerEvent
  pub seller_id : ℕ
  pub display_name : String
  pub status : Option SellerStatus
  pub status_reason : Option String
  pub accepted_contract_version : Option ℤ
  pub city : Option String
  pub district : Option String
  pub latitude : Option String
  pub longitude : Option String
  pub may_list : Bool

-- The newest seller stands first.
pub record Database : Type 0 where
  pub sellers : List Seller
  pub documents : List SellerDocument
  pub outbox : List OutboxMessage
  pub keys : List (ℕ × Option ℕ)

abbrev pub empty : Database
empty = record { sellers = []; documents = []; outbox = []; keys = [] }

-- select(Seller).where(Seller.id == seller_id)
abbrev pub find_seller : ℕ → List Seller → Option Seller
find_seller id [] = none
find_seller id (s ∷ ss) = let rest = find_seller id ss in if s.id == id then some s else rest

-- select(IdempotencyKey).where(IdempotencyKey.key == key)
abbrev pub find_key : ℕ → List (ℕ × Option ℕ) → Option (Option ℕ)
find_key k [] = none
find_key k ((j, r) ∷ ks) = let rest = find_key k ks in if j == k then some r else rest

-- _document_types
unfoldable pub document_types : ℕ → List SellerDocument → List DocumentType
document_types id [] = []
document_types id (d ∷ ds) =
    let rest = document_types id ds in if d.seller_id == id then d.document_type ∷ rest else rest

abbrev pub status_code : Option SellerStatus → ℕ
status_code none = 0
status_code (some registered) = 1
status_code (some documents_submitted) = 2
status_code (some under_review) = 3
status_code (some approved) = 4
status_code (some active) = 5
status_code (some rejected) = 6
status_code (some suspended) = 7
status_code (some banned) = 8

abbrev pub same_status : Option SellerStatus → Option SellerStatus → Bool
same_status a b = status_code a == status_code b

abbrev pub same_text : Option String → Option String → Bool
same_text none none = true
same_text (some a) (some b) = same_string a b
same_text _ _ = false

abbrev pub same_version : Option ℤ → Option ℤ → Bool
same_version none none = true
same_version (some a) (some b) = a ==ℤ b
same_version _ _ = false

-- An UPDATE writes a column only if its value has changed since the row was loaded.
abbrev pub column {ℓ} : {A : Type ℓ} → (A → A → Bool) → A → A → A → A
column same loaded new current = if same loaded new then current else new

abbrev pub update_location : Location → Location → Location → Location
update_location loaded new current = record {
  latitude = column same_text loaded.latitude new.latitude current.latitude;
  longitude = column same_text loaded.longitude new.longitude current.longitude;
  address_line = column same_text loaded.address_line new.address_line current.address_line;
  city = column same_text loaded.city new.city current.city;
  district = column same_text loaded.district new.district current.district;
}

unfoldable pub update_row : Seller → Seller → Seller → Seller
update_row loaded new current = record current {
  status = column same_status loaded.status new.status current.status;
  status_reason = column same_text loaded.status_reason new.status_reason current.status_reason;
  accepted_contract_version =
      column same_version loaded.accepted_contract_version new.accepted_contract_version
        current.accepted_contract_version;
  location = update_location loaded.location new.location current.location;
}

unfoldable pub save : Seller → Seller → List Seller → List Seller
unfolding update_row
save loaded new [] = []
save loaded new (s ∷ ss) =
    let rest = save loaded new ss in
    if s.id == loaded.id then update_row loaded new s ∷ ss else s ∷ rest
