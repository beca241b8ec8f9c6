-- ===== src/Seller/Sessions/Vetted.antt =====
-- What a seller's row shows of its past, whatever requests overlap:
-- services/seller-service/app/services/seller_service.py with the rules of seller_rules.py.
pub mod Applied
pub mod Handled
pub mod Listed
pub mod Planned
pub mod Loaded
pub mod Runs
use ecommerce_platform.Base.{
  All, none, sym, inr, Bool-cases, some, [], ◌==◌, Option, arith, ==_iff, true, List, ◌∙◌, ℕ, Bool,
  inl, ◌∷◌, ◌≡◌,
}
use ecommerce_platform.Base.Int.{◌==ℤ◌, ℤ, pos}
use ecommerce_platform.Seller.{
  trade_licence, national_id, SellerStatus, Decision, moves, invalid, not_allowed, registered,
  documents_submitted, under_review, approved, active, rejected, suspended, banned,
  review_started_event, approved_event, activated_event,
}
use ecommerce_platform.Seller.Table.{
  Database, Seller, save, update_row, column, same_status, same_version,
}
use ecommerce_platform.Seller.Sessions.Grows.{told, complete, sent, Grows}

-- What must have happened for a seller to have this status.
abbrev pub Earned : Option SellerStatus → ℕ → Database → Type 0
Earned none id db = Unit
Earned (some registered) id db = Unit
Earned (some documents_submitted) id db = complete id db ≡ true
Earned (some under_review) id db =
    (complete id db ≡ true) × (told review_started_event id db ≡ true)
Earned (some rejected) id db = (complete id db ≡ true) × (told review_started_event id db ≡ true)
Earned (some approved) id db =
    (complete id db ≡ true)
    × (told review_started_event id db ≡ true)
    × (told approved_event id db ≡ true)
Earned (some active) id db =
    (complete id db ≡ true)
    × (told review_started_event id db ≡ true)
    × (told approved_event id db ≡ true)
Earned (some suspended) id db =
    (complete id db ≡ true)
    × (told review_started_event id db ≡ true)
    × (told approved_event id db ≡ true)
Earned (some banned) id db = Unit

-- What must have happened for a seller to have accepted a version.
abbrev pub Accepted : Option ℤ → ℕ → Database → Type 0
Accepted none id db = Unit
Accepted (some v) id db = ((v ==ℤ pos 1) ≡ true) × (told activated_event id db ≡ true)

abbrev pub Vetted : Database → Seller → Type 0
Vetted db s = Earned s.status s.id db × Accepted s.accepted_contract_version s.id db

complete-Grows :
    (before after : Database) (id : ℕ)
    → Grows before after
    → complete id before ≡ true
    → complete id after ≡ true
complete-Grows before after id g h = ground (arith, g.docs national_id id, g.docs trade_licence id)

pub Earned-Grows :
    (before after : Database) (status : Option SellerStatus) (id : ℕ)
    → Grows before after
    → Earned status id before
    → Earned status id after
Earned-Grows before after none id g h = tt
Earned-Grows before after (some registered) id g h = tt
Earned-Grows before after (some documents_submitted) id g h = complete-Grows before after id g h
Earned-Grows before after (some under_review) id g (c, r) =
    (complete-Grows before after id g c, g.events review_started_event id r)
Earned-Grows before after (some rejected) id g (c, r) =
    (complete-Grows before after id g c, g.events review_started_event id r)
Earned-Grows before after (some approved) id g (c, r, a) = (
  complete-Grows before after id g c,
  g.events review_started_event id r,
  g.events approved_event id a,
)
Earned-Grows before after (some active) id g (c, r, a) = (
  complete-Grows before after id g c,
  g.events review_started_event id r,
  g.events approved_event id a,
)
Earned-Grows before after (some suspended) id g (c, r, a) = (
  complete-Grows before after id g c,
  g.events review_started_event id r,
  g.events approved_event id a,
)
Earned-Grows before after (some banned) id g h = tt

pub Accepted-Grows :
    (before after : Database) (version : Option ℤ) (id : ℕ)
    → Grows before after
    → Accepted version id before
    → Accepted version id after
Accepted-Grows before after none id g h = tt
Accepted-Grows before after (some v) id g (e, t) = (e, g.events activated_event id t)

pub Vetted-Grows :
    (before after : Database) (s : Seller) → Grows before after → Vetted before s → Vetted after s
Vetted-Grows before after s g (e, a) = (
  Earned-Grows before after s.status s.id g e,
  Accepted-Grows before after s.accepted_contract_version s.id g a,
)

pub All-Grows :
    (before after : Database) (ss : List Seller)
    → Grows before after
    → All (Vetted before) ss
    → All (Vetted after) ss
All-Grows before after [] g h = tt
All-Grows before after (s ∷ ss) g (h, t) =
    (Vetted-Grows before after s g h, All-Grows before after ss g t)

either {ℓ κ} :
    {A : Type ℓ} (P : A → Type κ) (same : A → A → Bool) (loaded new current : A)
    → P new
    → P current
    → P (column same loaded new current)
either P same loaded new current n c = elim (Bool-cases (same loaded new)) [
  | inl e ↦ rw e c
  | inr e ↦ rw e n
]

update_row-Vetted :
    (db : Database) (loaded new s : Seller)
    → new.id ≡ s.id
    → Vetted db new
    → Vetted db s
    → Vetted db (update_row loaded new s)
unfolding update_row
update_row-Vetted db loaded new s same (e, a) (f, b) = (
  either (λ v. Earned v s.id db) same_status loaded.status new.status s.status (rw same at e) f,
  either (λ v. Accepted v s.id db) same_version loaded.accepted_contract_version
      new.accepted_contract_version s.accepted_contract_version (rw same at a) b,
)

-- A save keeps every row's past true, if the saved values have theirs.
pub save-Vetted :
    (db : Database) (loaded new : Seller) (ss : List Seller)
    → new.id ≡ loaded.id
    → Vetted db new
    → All (Vetted db) ss
    → All (Vetted db) (save loaded new ss)
unfolding save
save-Vetted db loaded new [] same n h = tt
save-Vetted db loaded new (s ∷ ss) same n (h, t) = elim (Bool-cases (s.id == loaded.id)) [
  | inl e ↦
      rw e (update_row-Vetted db loaded new s (same ∙ sym ((==_iff s.id loaded.id).0 e)) n h, t)
  | inr e ↦ rw e (h, save-Vetted db loaded new ss same n t)
]
