-- ===== src/Reviews/Ratings.antt =====
-- What a pile of ratings adds up to: aggregate_ratings and distribution of
-- services/reviews-service/app/services/review_rules.py.
use ecommerce_platform.Base.{
  length, ◌*◌, ap, sym, if◌then◌else◌, some, none, ◌∙◌, ◌==◌, ==_iff, false, ◌+◌, [], inl, Option,
  suc, true, ◌∷◌, List, zero, ℕ, All, refl, Bool-cases, inr, ◌≡◌, ◌||◌, arith, Bool,
}
use ecommerce_platform.Base.Int.{
  +ℤ_parts, eq_of_parts, pos_part, zero-+ℤ, neg_part, +ℤ-zero, ℤ, pos, ◌+ℤ◌, ◌==ℤ◌, ◌≤ℤ◌, sum,
  int_laws,
}
use ecommerce_platform.Reviews.{
  is_rating, present, no_stars, count_star, count_stars, aggregate_ratings, distribution, mean,
}

-- How many ratings the counts hold, and what they add up to.
abbrev pub total : List (ℤ × ℕ) → ℕ
total [] = 0
total ((star, n) ∷ more) = n + total more

abbrev pub times : ℕ → ℤ → ℤ
times zero star = pos 0
times (suc n) star = star +ℤ times n star

abbrev pub weigh : List (ℤ × ℕ) → ℤ
weigh [] = pos 0
weigh ((star, n) ∷ more) = times n star +ℤ weigh more

abbrev has_star : ℤ → List (ℤ × ℕ) → Bool
has_star r [] = false
has_star r ((star, n) ∷ more) = star ==ℤ r || has_star r more

-- Every rating that is given is a number of stars.
abbrev pub IsRated : List (Option ℤ) → Type 0
IsRated rs = All (λ r. is_rating r ≡ true) (present rs)

rating_has_star : (r : ℤ) → is_rating r ≡ true → has_star r no_stars ≡ true
rating_has_star r h = ground arith

has-count_star :
    (q r : ℤ) (counts : List (ℤ × ℕ)) → has_star q (count_star r counts) ≡ has_star q counts
has-count_star q r [] = refl
has-count_star q r ((star, n) ∷ more) = elim (Bool-cases (star ==ℤ r)) [
  | inl e ↦ rw e refl
  | inr e ↦ rw (e, has-count_star q r more) refl
]

total-count_star :
    (r : ℤ) (counts : List (ℤ × ℕ))
    → has_star r counts ≡ true
    → total (count_star r counts) ≡ suc (total counts)
total-count_star r [] h = cc h
total-count_star r ((star, n) ∷ more) h = elim (Bool-cases (star ==ℤ r)) [
  | inl e ↦ rw e (omega arith)
  | inr e ↦
      let rest : has_star r more ≡ true = rw e at h in
      rw e (omega (arith, total-count_star r more rest))
]

==ℤ_equal : (a b : ℤ) → (a ==ℤ b) ≡ true → a ≡ b
==ℤ_equal a b h = eq_of_parts a b ((==_iff (pos_part a + neg_part b) (pos_part b + neg_part a)).0 h)

weigh-count_star :
    (r : ℤ) (counts : List (ℤ × ℕ))
    → has_star r counts ≡ true
    → weigh (count_star r counts) ≡ r +ℤ weigh counts
weigh-count_star r [] h = cc h
weigh-count_star r ((star, n) ∷ more) h = elim (Bool-cases (star ==ℤ r)) [
  | inl e ↦ rw (e, ==ℤ_equal star r e) (omega int_laws)
  | inr e ↦
      let rest : has_star r more ≡ true = rw e at h in
      rw (e, weigh-count_star r more rest) (omega int_laws)
]

-- The counts have every star.
abbrev Full : List (ℤ × ℕ) → Type 0
Full counts = (q : ℤ) → is_rating q ≡ true → has_star q counts ≡ true

Full-count_star : (r : ℤ) (counts : List (ℤ × ℕ)) → Full counts → Full (count_star r counts)
Full-count_star r counts full q h = has-count_star q r counts ∙ full q h

total-count_stars :
    (rs : List (Option ℤ)) (counts : List (ℤ × ℕ))
    → IsRated rs
    → Full counts
    → total (count_stars rs counts) ≡ length (present rs) + total counts
total-count_stars [] counts h full = omega arith
total-count_stars (none ∷ rs) counts h full = total-count_stars rs counts h full
total-count_stars (some r ∷ rs) counts (h, hs) full =
    let rest = total-count_stars rs (count_star r counts) hs (Full-count_star r counts full) in
    let one = total-count_star r counts (full r h) in omega (arith, rest, one)

weigh-count_stars :
    (rs : List (Option ℤ)) (counts : List (ℤ × ℕ))
    → IsRated rs
    → Full counts
    → weigh (count_stars rs counts) ≡ sum (present rs) +ℤ weigh counts
unfolding sum
weigh-count_stars [] counts h full = sym (zero-+ℤ (weigh counts))
weigh-count_stars (none ∷ rs) counts h full = weigh-count_stars rs counts h full
weigh-count_stars (some r ∷ rs) counts (h, hs) full =
    weigh-count_stars rs (count_star r counts) hs (Full-count_star r counts full)
    ∙ ap (λ t. sum (present rs) +ℤ t) (weigh-count_star r counts (full r h))
    ∙ regroup r (sum (present rs)) (weigh counts)
  where
    regroup : (a b c : ℤ) → b +ℤ (a +ℤ c) ≡ a +ℤ b +ℤ c
    regroup a b c = omega int_laws

rating_in_range : (r : ℤ) → is_rating r ≡ true → (pos 1 ≤ℤ r) × (r ≤ℤ pos 5)
rating_in_range r h = ground arith

sum_in_range :
    (rs : List ℤ)
    → All (λ r. is_rating r ≡ true) rs
    → (pos (length rs) ≤ℤ sum rs) × (sum rs ≤ℤ pos (5 * length rs))
unfolding sum
sum_in_range [] h = (omega arith, omega arith)
sum_in_range (r ∷ rs) (h, hs) =
    let (low, high) = rating_in_range r h in
    let (lows, highs) = sum_in_range rs hs in
    let parts = +ℤ_parts r (sum rs) in
    (omega (arith, low, lows, parts), omega (arith, high, highs, parts))

mean_of :
    (rs : List ℤ)
    → mean rs ≡ record {
      average = if length rs == 0 then none else some (sum rs, length rs);
      count = length rs;
    }
unfolding mean
mean_of [] = refl
mean_of (r ∷ rs) =
    let some_given : (suc (length rs) == 0) ≡ false = ground arith in rw some_given refl

no_weight : weigh no_stars ≡ pos 0
unfolding ◌+ℤ◌
no_weight = refl

-- The summary of ratings that are all from 1 to 5.
pub ratings_add_up :
    (rs : List (Option ℤ))
    → IsRated rs
    → let counts = distribution rs in
      let n = (aggregate_ratings rs).count in
      (total counts ≡ n)
      × ((aggregate_ratings rs).average ≡ (if n == 0 then none else some (weigh counts, n)))
      × (pos n ≤ℤ weigh counts)
      × (weigh counts ≤ℤ pos (5 * n))
unfolding distribution aggregate_ratings
ratings_add_up rs h =
    let t = total-count_stars rs no_stars h rating_has_star in
    let w : weigh (count_stars rs no_stars) ≡ sum (present rs) =
      weigh-count_stars rs no_stars h rating_has_star
      ∙ ap (λ t. sum (present rs) +ℤ t) no_weight
      ∙ +ℤ-zero (sum (present rs)) in
    let (low, high) = sum_in_range (present rs) h in
    rw (mean_of (present rs), w) (omega (arith, t), refl, low, high)
