-- ===== src/Reviews/Sessions/Rulings.antt =====
-- Which state a review keeps when requests to reviews-service are served one after another:
-- services/reviews-service/app/services/review_service.py.
use ecommerce_platform.Base.Int.{ℤ}
use ecommerce_platform.Base.{
  true, ◌∷◌, ℕ, [], Bool-cases, Option-cases, arith, ◌∙◌, inl, refl, Bool, some, List, ap, ==_iff,
  Option, inr, ◌≡◌, sym, ◌==◌, ◌⊎◌, false, none,
}
use mathlib.Core.Path.{subst}
use ecommerce_platform.Base.Http.{Response}
use ecommerce_platform.Reviews.{ModerationState, may_edit, removed, cleared}
use ecommerce_platform.Reviews.Table.{Review, Database, find_review}
use ecommerce_platform.Reviews.Service.{
  Purchase, Submission, Draft, answer, draft, Commit, committed, broken, Edit, optional_rating,
  breaks_unique, publish, submit_review, edited, save_edit, edit_review, put_review, or_else,
  or_keep,
}
use ecommerce_platform.Reviews.Service.Moderation.{Report, report_review}
use ecommerce_platform.Reviews.Sessions.Sound.{find-id}

-- Requests that are served one after another, rulings left out.
pub data Call : Type 0 where
  submit : Commit → ℕ → ℤ → Response Purchase → Submission → Call
  revise : Commit → ℕ → ℤ → Edit → Call
  complain : Commit → Commit → Report → Call

unfoldable pub serve : Call → Database → Database
unfolding submit_review edit_review report_review
serve (submit commit id now fetched request) db = (submit_review commit id now fetched request db).1
serve (revise commit id now e) db = (edit_review commit id now e db).1
serve (complain first second report) db = (report_review first second report db).1

unfoldable pub serve_all : List Call → Database → Database
unfolding serve
serve_all [] db = db
serve_all (c ∷ cs) db = serve_all cs (serve c db)

-- A moderator has removed or cleared the review that is found.
abbrev pub is_ruled : ModerationState → Bool
is_ruled removed = true
is_ruled cleared = true
is_ruled _ = false

-- The review is found, in this state.
abbrev pub Stands : ModerationState → ℕ → Database → Type 0
Stands state id db =
    (r : Review) × (find_review id db.reviews ≡ some r) × (r.moderation_state ≡ state)

pub publish-Stands :
    (state : ModerationState) (id : ℕ) (commit : Commit) (d : Draft) (db : Database)
    → Stands state id db
    → Stands state id (publish commit d db).1
unfolding publish
publish-Stands state id commit (answer response) db h = h
publish-Stands state id commit (draft new key) db (r, f, s) =
    elim (Bool-cases (breaks_unique new key db)) [
      | inl e ↦ rw (publish, e) (r, f, s)
      | inr e ↦ elim commit as (λ c. Stands state id (publish c (draft new key) db).1) [
        | broken ↦ rw (publish, e) (r, f, s)
        | committed ↦ elim (Bool-cases (new.id == id)) [
          | inl taken ↦
              let there : find_review new.id db.reviews ≡ some r =
                subst (λ n. find_review n db.reviews ≡ some r) (sym ((==_iff new.id id).0 taken))
                  f in
              let clash : false ≡ true = sym e ∙ rw there (ground arith) in cc clash
          | inr other ↦ rw (publish, e) (r, rw other f, s)
        ]
      ]
    ]

pub find-put_review :
    (id : ℕ) (new : Review) (rs : List Review)
    → (find_review id (put_review new rs) ≡ find_review id rs)
      ⊎ ((new.id ≡ id) × (find_review id (put_review new rs) ≡ some new))
find-put_review id new [] = inl refl
find-put_review id new (x ∷ xs) = elim (Bool-cases (x.id == new.id)) [
  | inl e ↦ elim (Bool-cases (new.id == id)) [
    | inl d ↦ inr ((==_iff new.id id).0 d, rw (e, d) refl)
    | inr d ↦
        let differs : (x.id == id) ≡ false = rw ((==_iff x.id new.id).0 e) d in
        inl (rw (e, d, differs) refl)
  ]
  | inr e ↦ elim (Bool-cases (x.id == id)) [
    | inl d ↦ inl (rw (e, d) refl)
    | inr d ↦ elim (find-put_review id new xs) [
      | inl same ↦ inl (rw (e, d) same)
      | inr (here, there) ↦ inr (here, rw (e, d) there)
    ]
  ]
]

edited_state :
    (edit : Edit) (r new : Review) (p s : Option (Option ℤ))
    → edited edit r p s ≡ some new
    → (new.moderation_state ≡ r.moderation_state) × (new.id ≡ r.id)
edited_state edit r new none s h = cc h
edited_state edit r new (some p) none h = cc h
edited_state edit r new (some p) (some s) h =
    let made : Review = record r {
      product_rating = or_else p r.product_rating;
      seller_rating = or_keep s r.seller_rating;
      title = or_keep edit.title r.title;
      body = or_keep edit.body r.body;
    } in
    let equal : made ≡ new = cc h in
    subst (λ (n : Review). (n.moderation_state ≡ r.moderation_state) × (n.id ≡ r.id)) equal
      (refl, refl)

save_edit-Stands :
    (state : ModerationState) (id : ℕ) (commit : Commit) (q : Review) (o : Option Review)
    (db : Database)
    → find_review q.id db.reviews ≡ some q
    → ((new : Review)
        → o ≡ some new
        → (new.moderation_state ≡ q.moderation_state) × (new.id ≡ q.id))
    → Stands state id db
    → Stands state id (save_edit commit o db).1
save_edit-Stands state id commit q none db own kept h = h
save_edit-Stands state id broken q (some new) db own kept h = h
save_edit-Stands state id committed q (some new) db own kept (r, f, s) =
    elim (find-put_review id new db.reviews) [
      | inl same ↦ (r, same ∙ f, s)
      | inr (here, there) ↦
          let (same_as, same_id) = kept new refl in
          let q_found : find_review id db.reviews ≡ some q =
            subst (λ n. find_review n db.reviews ≡ some q) (sym same_id ∙ here) own in
          let both : some q ≡ some r = sym q_found ∙ f in
          let equal : q ≡ r = cc both in
          (new, there, same_as ∙ ap (λ (y : Review). y.moderation_state) equal ∙ s)
    ]

pub edit_review-Stands :
    (state : ModerationState) (id : ℕ) (commit : Commit) (other : ℕ) (now : ℤ) (edit : Edit)
    (db : Database)
    → Stands state id db
    → Stands state id (edit_review commit other now edit db).1
unfolding edit_review
edit_review-Stands state id commit other now edit db h =
    elim (Option-cases (find_review other db.reviews)) [
      | inl e ↦ rw (edit_review, e) h
      | inr (q, e) ↦ elim (Bool-cases (q.buyer_id == edit.buyer_id)) [
        | inr b ↦ rw (edit_review, e, b) h
        | inl b ↦ elim (Bool-cases (may_edit q.created_at now)) [
          | inr m ↦ rw (edit_review, e, b, m) h
          | inl m ↦
              let own : find_review q.id db.reviews ≡ some q =
                subst (λ n. find_review n db.reviews ≡ some q) (sym (find-id other db.reviews q e))
                  e in
              let p = optional_rating edit.product_rating in
              let t = optional_rating edit.seller_rating in
              rw (edit_review, e, b, m)
                (save_edit-Stands state id commit q (edited edit q p t) db own
                  (λ new k. edited_state edit q new p t k) h)
        ]
      ]
    ]
