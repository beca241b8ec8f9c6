-- ===== src/Reviews/Sessions/Sound/Edited.antt =====
-- An edit keeps the invariant: edit_review of
-- services/reviews-service/app/services/review_service.py.
use ecommerce_platform.Reviews.Sessions.Sound.{
  put_review-Fine, put_review-IsOnce, Rated, Fine, IsSound, SameKey, find-Fine, find-id,
}
use ecommerce_platform.Reviews.Service.{
  edited, save_edit, edit_review, Edit, or_else, or_keep, Commit, committed, broken,
  optional_rating,
}
use ecommerce_platform.Reviews.{may_edit, is_rating}
use ecommerce_platform.Base.Int.{ℤ}
use ecommerce_platform.Base.{
  ◌==◌, ◌≡◌, List, none, inr, true, Option, Option-cases, inl, sym, refl, ℕ, some, Bool-cases,
}
use mathlib.Core.Path.{subst}
use ecommerce_platform.Reviews.Table.{Review, ReviewReport, Database, find_review}
use ecommerce_platform.Reviews.Sessions.Sound.Submitted.{optional-Rated}

-- An edit keeps the purchase, the product and the state, and its ratings are checked.
edited-Fine :
    (edit : Edit) (r new : Review) (p s : Option (Option ℤ)) (reports : List ReviewReport)
    → edited edit r p s ≡ some new
    → ((o : Option ℤ) → p ≡ some o → Rated o)
    → ((o : Option ℤ) → s ≡ some o → Rated o)
    → Fine reports r
    → Fine reports new × SameKey new r × (new.id ≡ r.id)
edited-Fine edit r new none s reports h rp rs fine = cc h
edited-Fine edit r new (some p) none reports h rp rs fine = cc h
edited-Fine edit r new (some p) (some s) reports h rp rs (fp, fs, fh) =
    let made : Review = record r {
      product_rating = or_else p r.product_rating;
      seller_rating = or_keep s r.seller_rating;
      title = or_keep edit.title r.title;
      body = or_keep edit.body r.body;
    } in
    let equal : made ≡ new = cc h in
    subst (λ (n : Review). Fine reports n × SameKey n r × (n.id ≡ r.id)) equal
      ((product-Rated p (rp p refl) fp, seller-Rated s (rs s refl) fs, fh), (refl, refl), refl)
  where
    product-Rated :
        (o : Option ℤ)
        → Rated o
        → is_rating r.product_rating ≡ true
        → is_rating (or_else o r.product_rating) ≡ true
    product-Rated none h k = k
    product-Rated (some n) h k = h

    seller-Rated :
        (o : Option ℤ) → Rated o → Rated r.seller_rating → Rated (or_keep o r.seller_rating)
    seller-Rated none h k = k
    seller-Rated (some n) h k = h

save_edit-IsSound :
    (commit : Commit) (edit : Edit) (r : Review) (db : Database)
    → find_review r.id db.reviews ≡ some r
    → IsSound db
    → IsSound
        (save_edit commit
          (edited edit r (optional_rating edit.product_rating) (optional_rating edit.seller_rating))
          db).1
save_edit-IsSound commit edit r db f (fine, once) =
    go commit
      (edited edit r (optional_rating edit.product_rating) (optional_rating edit.seller_rating))
      refl
  where
    go :
        (c : Commit) (o : Option Review)
        → edited edit r (optional_rating edit.product_rating) (optional_rating edit.seller_rating)
          ≡ o
        → IsSound (save_edit c o db).1
    go c none e = (fine, once)
    go broken (some new) e = (fine, once)
    go committed (some new) e =
        let (k, (o, p), i) =
          edited-Fine edit r new (optional_rating edit.product_rating)
            (optional_rating edit.seller_rating) db.reports e (optional-Rated edit.product_rating)
            (optional-Rated edit.seller_rating) (find-Fine db.reports r.id db.reviews r fine f) in
        let f' : find_review new.id db.reviews ≡ some r = rw i f in
        (
          put_review-Fine db.reports new db.reviews k fine,
          put_review-IsOnce new r db.reviews f' (o, p) once,
        )

pub edit_review-IsSound :
    (commit : Commit) (id : ℕ) (now : ℤ) (edit : Edit) (db : Database)
    → IsSound db
    → IsSound (edit_review commit id now edit db).1
unfolding edit_review
edit_review-IsSound commit id now edit db h = elim (Option-cases (find_review id db.reviews)) [
  | inl e ↦ rw (edit_review, e) h
  | inr (r, e) ↦ elim (Bool-cases (r.buyer_id == edit.buyer_id)) [
    | inr b ↦ rw (edit_review, e, b) h
    | inl b ↦ elim (Bool-cases (may_edit r.created_at now)) [
      | inr m ↦ rw (edit_review, e, b, m) h
      | inl m ↦
          let found : find_review r.id db.reviews ≡ some r =
            subst (λ n. find_review n db.reviews ≡ some r) (sym (find-id id db.reviews r e)) e in
          rw (edit_review, e, b, m) (save_edit-IsSound commit edit r db found h)
    ]
  ]
]
