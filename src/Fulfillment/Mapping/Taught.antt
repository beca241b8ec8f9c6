-- ===== src/Fulfillment/Mapping/Taught.antt =====
-- What build_index of services/fulfillment-service/app/services/courier_rules.py makes of a mapping.
use ecommerce_platform.Base.{
  ◌↔◌, List, ==_refl, ◌∙◌, ap, sym, true, false, some, none, ℕ, [], ◌∷◌, ◌==◌, ◌≡◌, ◌⊎◌, elem,
  arith, refl, inl, inr, Bool-cases, Option-cases, ==_iff,
}
use mathlib.Core.Path.{subst}
use ecommerce_platform.Fulfillment.{CourierStatus}
use ecommerce_platform.Fulfillment.Shipments.{map_status}
use ecommerce_platform.Fulfillment.Mapping.{
  add_words, build_from, build_index, Mapping, Index, number_of, is_same, add_word,
}

same_status : (c d : CourierStatus) → is_same c d ≡ true → c ≡ d
unfolding is_same number_of
same_status c d h = ground arith

-- The mapping gives the word to the status.
abbrev pub Taught : ℕ → CourierStatus → Mapping → Type 0
Taught w c [] = ⊥
Taught w c ((o, ws) ∷ mapping) = ((o ≡ some c) × (elem w ws ≡ true)) ⊎ Taught w c mapping

same_index : (i j : Index) → some i ≡ some j → j ≡ i
same_index i j h = cc

-- What a word that is accepted does to the index.
abbrev Added : CourierStatus → ℕ → Index → Index → Type 0
Added c w index index' =
    (((w == 0) ≡ true) × (index' ≡ index))
    ⊎ ((map_status index w ≡ some c) × (index' ≡ index))
    ⊎ ((map_status index w ≡ none) × (index' ≡ (w, c) ∷ index))

add_word-Added :
    (c : CourierStatus) (w : ℕ) (index index' : Index)
    → add_word c w index ≡ some index'
    → Added c w index index'
unfolding add_word
add_word-Added c w index index' h = elim (Bool-cases (w == 0)) [
  | inl e ↦ inl (e, same_index index index' (rw (add_word, e) at h))
  | inr e ↦ elim (Option-cases (map_status index w)) [
    | inl f ↦ inr (inr (f, same_index ((w, c) ∷ index) index' (rw (add_word, e, f) at h)))
    | inr (d, f) ↦ elim (Bool-cases (is_same d c)) [
      | inl s ↦ inr (
          inl (
            f ∙ ap some (same_status d c s),
            same_index index index' (rw (add_word, e, f, s) at h),
          ))
      | inr s ↦ (let g : none ≡ some index' = rw (add_word, e, f, s) at h in cc)
    ]
  ]
]

keeps :
    (c d : CourierStatus) (w v : ℕ) (index index' : Index)
    → Added c w index index'
    → map_status index v ≡ some d
    → map_status index' v ≡ some d
keeps c d w v index index' (inl (e, same)) m = rw same m
keeps c d w v index index' (inr (inl (f, same))) m = rw same m
keeps c d w v index index' (inr (inr (f, more))) m = elim (Bool-cases (w == v)) [
  | inr e ↦ rw (more, e) m
  | inl e ↦
      let g : none ≡ some d =
        sym (subst (λ x. map_status index x ≡ none) ((==_iff w v).0 e) f) ∙ m in
      cc
]

adds :
    (c : CourierStatus) (w : ℕ) (index index' : Index)
    → Added c w index index'
    → (w == 0) ≡ false
    → map_status index' w ≡ some c
adds c w index index' (inl (e, same)) n = (let f : true ≡ false = sym e ∙ n in cc)
adds c w index index' (inr (inl (f, same))) n = rw same f
adds c w index index' (inr (inr (f, more))) n = rw (more, ==_refl w) refl

only :
    (c d : CourierStatus) (w v : ℕ) (index index' : Index)
    → Added c w index index'
    → map_status index' v ≡ some d
    → (map_status index v ≡ some d) ⊎ ((w ≡ v) × (some c ≡ some d))
only c d w v index index' (inl (e, same)) m = inl (rw same at m)
only c d w v index index' (inr (inl (f, same))) m = inl (rw same at m)
only c d w v index index' (inr (inr (f, more))) m = elim (Bool-cases (w == v)) [
  | inr e ↦ inl (rw (more, e) at m)
  | inl e ↦ inr ((==_iff w v).0 e, rw (more, e) at m)
]

keeps_words :
    (c d : CourierStatus) (v : ℕ) (ws : List ℕ) (index index' : Index)
    → add_words c ws index ≡ some index'
    → map_status index v ≡ some d
    → map_status index' v ≡ some d
unfolding add_words
keeps_words c d v [] index index' h m = rw (same_index index index' h) m
keeps_words c d v (w ∷ ws) index index' h m = elim (Option-cases (add_word c w index)) [
  | inl e ↦ (let g : none ≡ some index' = rw (add_words, e) at h in cc)
  | inr (i, e) ↦
      keeps_words c d v ws i index' (rw (add_words, e) at h)
        (keeps c d w v index i (add_word-Added c w index i e) m)
]

adds_words :
    (c : CourierStatus) (v : ℕ) (ws : List ℕ) (index index' : Index)
    → add_words c ws index ≡ some index'
    → (v == 0) ≡ false
    → elem v ws ≡ true
    → map_status index' v ≡ some c
unfolding add_words
adds_words c v [] index index' h n m = cc
adds_words c v (w ∷ ws) index index' h n m = elim (Option-cases (add_word c w index)) [
  | inl e ↦ (let g : none ≡ some index' = rw (add_words, e) at h in cc)
  | inr (i, e) ↦
      let more = rw (add_words, e) at h in
      elim (Bool-cases (w == v)) [
        | inr other ↦ adds_words c v ws i index' more n (rw other at m)
        | inl own ↦ keeps_words c c v ws i index' more (
            adds c v index i
              (subst (λ x. Added c x index i) ((==_iff w v).0 own) (add_word-Added c w index i e))
              n)
      ]
]

later_word : (w v : ℕ) (ws : List ℕ) → elem v ws ≡ true → elem v (w ∷ ws) ≡ true
later_word w v ws h = ground arith

first_word : (w v : ℕ) (ws : List ℕ) → w ≡ v → elem v (w ∷ ws) ≡ true
first_word w v ws h = ground arith

only_words :
    (c d : CourierStatus) (v : ℕ) (ws : List ℕ) (index index' : Index)
    → add_words c ws index ≡ some index'
    → map_status index' v ≡ some d
    → (map_status index v ≡ some d) ⊎ ((some c ≡ some d) × (elem v ws ≡ true))
unfolding add_words
only_words c d v [] index index' h m = inl (rw (same_index index index' h) at m)
only_words c d v (w ∷ ws) index index' h m = elim (Option-cases (add_word c w index)) [
  | inl e ↦ (let g : none ≡ some index' = rw (add_words, e) at h in cc)
  | inr (i, e) ↦ elim (only_words c d v ws i index' (rw (add_words, e) at h) m) [
    | inr (same, among) ↦ inr (same, later_word w v ws among)
    | inl before ↦ elim (only c d w v index i (add_word-Added c w index i e) before) [
      | inl known ↦ inl known
      | inr (own, same) ↦ inr (same, first_word w v ws own)
    ]
  ]
]

keeps_all :
    (d : CourierStatus) (v : ℕ) (mapping : Mapping) (index index' : Index)
    → build_from mapping index ≡ some index'
    → map_status index v ≡ some d
    → map_status index' v ≡ some d
unfolding build_from
keeps_all d v [] index index' h m = rw (same_index index index' h) m
keeps_all d v ((none, ws) ∷ mapping) index index' h m = cc
keeps_all d v ((some c, ws) ∷ mapping) index index' h m =
    elim (Option-cases (add_words c ws index)) [
      | inl e ↦ (let g : none ≡ some index' = rw (build_from, e) at h in cc)
      | inr (i, e) ↦
          keeps_all d v mapping i index' (rw (build_from, e) at h)
            (keeps_words c d v ws index i e m)
    ]

teaches :
    (d : CourierStatus) (v : ℕ) (mapping : Mapping) (index index' : Index)
    → build_from mapping index ≡ some index'
    → (v == 0) ≡ false
    → Taught v d mapping
    → map_status index' v ≡ some d
unfolding build_from
teaches d v [] index index' h n t = absurd t
teaches d v ((none, ws) ∷ mapping) index index' h n t = cc
teaches d v ((some c, ws) ∷ mapping) index index' h n t =
    elim (Option-cases (add_words c ws index)) [
      | inl e ↦ (let g : none ≡ some index' = rw (build_from, e) at h in cc)
      | inr (i, e) ↦
          let more = rw (build_from, e) at h in
          elim t [
            | inr there ↦ teaches d v mapping i index' more n there
            | inl (same, among) ↦
                keeps_all d v mapping i index' more (adds_words c v ws index i e n among ∙ same)
          ]
    ]

only-Taught :
    (d : CourierStatus) (v : ℕ) (mapping : Mapping) (index index' : Index)
    → build_from mapping index ≡ some index'
    → map_status index' v ≡ some d
    → (map_status index v ≡ some d) ⊎ Taught v d mapping
unfolding build_from
only-Taught d v [] index index' h m = inl (rw (same_index index index' h) at m)
only-Taught d v ((none, ws) ∷ mapping) index index' h m = cc
only-Taught d v ((some c, ws) ∷ mapping) index index' h m =
    elim (Option-cases (add_words c ws index)) [
      | inl e ↦ (let g : none ≡ some index' = rw (build_from, e) at h in cc)
      | inr (i, e) ↦ elim (only-Taught d v mapping i index' (rw (build_from, e) at h) m) [
        | inr there ↦ inr (inr there)
        | inl before ↦ elim (only_words c d v ws index i e before) [
          | inl known ↦ inl known
          | inr (same, among) ↦ inr (inl (same, among))
        ]
      ]
    ]

-- An index that is built from a mapping says of a word, the empty one apart, exactly what the mapping
-- says: the word maps to a status if and only if the mapping lists it under that status. In
-- particular no word is listed under two.
pub build_index-Taught :
    (mapping : Mapping) (index : Index) (word : ℕ) (c : CourierStatus)
    → build_index mapping ≡ some index
    → (word == 0) ≡ false
    → (map_status index word ≡ some c) ↔ Taught word c mapping
unfolding build_index
build_index-Taught mapping index word c h n = (
  λ m. elim (only-Taught c word mapping [] index h m) [ inr there ↦ there | inl nowhere ↦ cc ],
  λ t. teaches c word mapping [] index h n t,
)
