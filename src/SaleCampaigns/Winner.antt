-- ===== src/SaleCampaigns/Winner.antt =====
-- Which campaign item wins.
use new_sopet_backend.Prelude.{
  leb, ℕ, ◌≡◌, ◌⊎◌, inl, inr, refl, sym, ◌∙◌, ap, Bool, true, false, not, ◌&&◌, ◌||◌, Option, none,
  some, List, [], ◌∷◌, if◌then◌else◌, keep, find, any, every, arith, Bool-cases,
}
use new_sopet_backend.Prelude.Int.{ℤ, pos, negsuc, eq_ℤ, lt_ℤ}
use new_sopet_backend.SaleCampaigns.{
  CampaignItem, ranks_before, insert_ranked, rank, of_product, of_variant, of_no_variant, first_of,
  select_winning_campaign_item,
}

abbrev pub IsIn : CampaignItem → List CampaignItem → Type 0
IsIn w [] = ⊥
IsIn w (x ∷ xs) = (w ≡ x) ⊎ IsIn w xs

-- `w` has the higher priority, or the same and a date that is not earlier.
abbrev pub outranks : CampaignItem → CampaignItem → Bool
outranks w c =
    lt_ℤ c.priority w.priority || (eq_ℤ c.priority w.priority && leb c.created_at w.created_at)

-- `w` outranks an item that passes the test.
abbrev pub beats : (CampaignItem → Bool) → CampaignItem → CampaignItem → Bool
beats p w c = not (p c) || outranks w c

-- The best of the items that pass a test: nothing if none does.
abbrev pub IsBest : (CampaignItem → Bool) → List CampaignItem → Option CampaignItem → Type 0
IsBest p items none = any p items ≡ false
IsBest p items (some w) = IsIn w items × (p w ≡ true) × (every (beats p w) items ≡ true)

abbrev Sorted : List CampaignItem → Type 0
Sorted [] = Unit
Sorted (x ∷ xs) = (every (ranks_before x) xs ≡ true) × Sorted xs

ranks_before_trans :
    (x y z : CampaignItem)
    → ranks_before x y ≡ true
    → ranks_before y z ≡ true
    → ranks_before x z ≡ true
ranks_before_trans x y z h k = go x.priority y.priority z.priority h k
  where
    go :
        (a b c : ℤ)
        → (if eq_ℤ a b then leb y.created_at x.created_at else lt_ℤ b a) ≡ true
        → (if eq_ℤ b c then leb z.created_at y.created_at else lt_ℤ c b) ≡ true
        → (if eq_ℤ a c then leb z.created_at x.created_at else lt_ℤ c a) ≡ true
    go (pos a) (pos b) (pos c) h k = ground (arith, h, k)
    go (pos a) (pos b) (negsuc c) h k = refl
    go (pos a) (negsuc b) (pos c) h k = cc
    go (pos a) (negsuc b) (negsuc c) h k = refl
    go (negsuc a) (pos b) c h k = cc
    go (negsuc a) (negsuc b) (pos c) h k = cc
    go (negsuc a) (negsuc b) (negsuc c) h k = ground (arith, h, k)

ranks_before_total : (x y : CampaignItem) → ranks_before x y ≡ false → ranks_before y x ≡ true
ranks_before_total x y h = go x.priority y.priority h
  where
    go :
        (a b : ℤ)
        → (if eq_ℤ a b then leb y.created_at x.created_at else lt_ℤ b a) ≡ false
        → (if eq_ℤ b a then leb x.created_at y.created_at else lt_ℤ a b) ≡ true
    go (pos a) (pos b) h = ground (arith, h)
    go (pos a) (negsuc b) h = cc
    go (negsuc a) (pos b) h = refl
    go (negsuc a) (negsuc b) h = ground (arith, h)

every_trans :
    (x y : CampaignItem) (zs : List CampaignItem)
    → ranks_before x y ≡ true
    → every (ranks_before y) zs ≡ true
    → every (ranks_before x) zs ≡ true
every_trans x y [] h k = refl
every_trans x y (z ∷ zs) h k = ground (arith, ranks_before_trans x y z h, every_trans x y zs h)

every-insert_ranked :
    (f : CampaignItem → Bool) (a : CampaignItem) (xs : List CampaignItem)
    → every f (insert_ranked a xs) ≡ (f a && every f xs)
unfolding insert_ranked
every-insert_ranked f a [] = ground arith
every-insert_ranked f a (x ∷ xs) = ground (arith, every-insert_ranked f a xs)

every-rank : (f : CampaignItem → Bool) (xs : List CampaignItem) → every f (rank xs) ≡ every f xs
unfolding rank
every-rank f [] = refl
every-rank f (x ∷ xs) = every-insert_ranked f x (rank xs) ∙ ap (λ b. f x && b) (every-rank f xs)

insert_ranked-Sorted :
    (a : CampaignItem) (xs : List CampaignItem) → Sorted xs → Sorted (insert_ranked a xs)
unfolding insert_ranked
insert_ranked-Sorted a [] s = (refl, tt)
insert_ranked-Sorted a (x ∷ xs) s = elim (Bool-cases (ranks_before a x)) [
  | inl first ↦ rw first (ground (arith, every_trans a x xs first s.0), s)
  | inr later ↦
      let back : ranks_before x a ≡ true = ranks_before_total a x later in
      rw later (
        rw (every-insert_ranked (ranks_before x) a xs) (rw back s.0),
        insert_ranked-Sorted a xs s.1,
      )
]

rank-Sorted : (xs : List CampaignItem) → Sorted (rank xs)
unfolding rank
rank-Sorted [] = tt
rank-Sorted (x ∷ xs) = insert_ranked-Sorted x (rank xs) (rank-Sorted xs)

any-insert_ranked :
    (f : CampaignItem → Bool) (a : CampaignItem) (xs : List CampaignItem)
    → any f (insert_ranked a xs) ≡ (f a || any f xs)
unfolding insert_ranked
any-insert_ranked f a [] = ground arith
any-insert_ranked f a (x ∷ xs) = ground (arith, any-insert_ranked f a xs)

any-rank : (f : CampaignItem → Bool) (xs : List CampaignItem) → any f (rank xs) ≡ any f xs
unfolding rank
any-rank f [] = refl
any-rank f (x ∷ xs) = any-insert_ranked f x (rank xs) ∙ ap (λ b. f x || b) (any-rank f xs)

insert_ranked-IsIn :
    (w a : CampaignItem) (xs : List CampaignItem) → IsIn w (insert_ranked a xs) → IsIn w (a ∷ xs)
unfolding insert_ranked
insert_ranked-IsIn w a [] h = h
insert_ranked-IsIn w a (x ∷ xs) h = elim (Bool-cases (ranks_before a x)) [
  | inl first ↦ rw first at h
  | inr later ↦ elim (rw later at h) [
    | inl here ↦ inr (inl here)
    | inr there ↦ elim (insert_ranked-IsIn w a xs there) [
      | inl here ↦ inl here
      | inr deeper ↦ inr (inr deeper)
    ]
  ]
]

rank-IsIn : (w : CampaignItem) (xs : List CampaignItem) → IsIn w (rank xs) → IsIn w xs
unfolding rank
rank-IsIn w [] h = h
rank-IsIn w (x ∷ xs) h = elim (insert_ranked-IsIn w x (rank xs) h) [
  | inl here ↦ inl here
  | inr there ↦ inr (rank-IsIn w xs there)
]

ranks_before-outranks : (x y : CampaignItem) → ranks_before x y ≡ true → outranks x y ≡ true
ranks_before-outranks x y h = go x.priority y.priority h
  where
    go :
        (a b : ℤ)
        → (if eq_ℤ a b then leb y.created_at x.created_at else lt_ℤ b a) ≡ true
        → (lt_ℤ b a || (eq_ℤ b a && leb y.created_at x.created_at)) ≡ true
    go (pos a) (pos b) h = ground (arith, h)
    go (pos a) (negsuc b) h = refl
    go (negsuc a) (pos b) h = cc
    go (negsuc a) (negsuc b) h = ground (arith, h)

every-beats :
    (p : CampaignItem → Bool) (w : CampaignItem) (xs : List CampaignItem)
    → every (ranks_before w) xs ≡ true
    → every (beats p w) xs ≡ true
every-beats p w [] h = refl
every-beats p w (x ∷ xs) h = ground (arith, ranks_before-outranks w x, every-beats p w xs)

outranks_refl : (x : CampaignItem) → outranks x x ≡ true
outranks_refl x = go x.priority
  where
    go : (a : ℤ) → (lt_ℤ a a || (eq_ℤ a a && leb x.created_at x.created_at)) ≡ true
    go (pos a) = ground arith
    go (negsuc a) = ground arith

-- The first item of a ranked list that passes the test is the best.
find-IsBest :
    (p : CampaignItem → Bool) (xs : List CampaignItem) → Sorted xs → IsBest p xs (find p xs)
find-IsBest p [] s = refl
find-IsBest p (x ∷ xs) s = elim (Bool-cases (p x)) [
  | inl this ↦ rw this (inl refl, this, (ground (arith, every-beats p x xs s.0, outranks_refl x)))
  | inr next ↦ rw next (go (find p xs) (find-IsBest p xs s.1) next)
]
  where
    go : (o : Option CampaignItem) → IsBest p xs o → p x ≡ false → IsBest p (x ∷ xs) o
    go none b n = ground arith
    go (some w) b n = (inr b.0, b.1, ground arith)

keep-IsIn :
    (q : CampaignItem → Bool) (w : CampaignItem) (xs : List CampaignItem)
    → IsIn w (keep q xs)
    → IsIn w xs × (q w ≡ true)
keep-IsIn q w [] h = absurd h
keep-IsIn q w (x ∷ xs) h = elim (Bool-cases (q x)) [
  | inl this ↦ elim (rw this at h) [
    | inl here ↦ (inl here, cc (here, this))
    | inr there ↦ let (i, t) = keep-IsIn q w xs there in (inr i, t)
  ]
  | inr next ↦ let (i, t) = keep-IsIn q w xs (rw next at h) in (inr i, t)
]

module _ (q p : CampaignItem → Bool) where
  abbrev pub both : CampaignItem → Bool
  both i = q i && p i

  any-keep : (xs : List CampaignItem) → any p (keep q xs) ≡ any both xs
  any-keep [] = refl
  any-keep (x ∷ xs) = ground (arith, any-keep xs)

  every-keep :
      (w : CampaignItem) (xs : List CampaignItem)
      → every (beats p w) (keep q xs) ≡ every (beats both w) xs
  every-keep w [] = refl
  every-keep w (x ∷ xs) = ground (arith, every-keep w xs)

  ranked-IsBest : (xs : List CampaignItem) → IsBest both xs (find p (rank (keep q xs)))
  ranked-IsBest xs =
      go (find p (rank (keep q xs))) (find-IsBest p (rank (keep q xs)) (rank-Sorted (keep q xs)))
    where
      go : (o : Option CampaignItem) → IsBest p (rank (keep q xs)) o → IsBest both xs o
      go none b = sym (any-rank p (keep q xs) ∙ any-keep xs) ∙ b
      go (some w) b =
          let (i, t) = keep-IsIn q w xs (rank-IsIn w (keep q xs) b.0) in
          (i, ground arith, sym (every-rank (beats p w) (keep q xs) ∙ every-keep w xs) ∙ b.2)

IsIn-any :
    (p : CampaignItem → Bool) (w : CampaignItem) (xs : List CampaignItem)
    → IsIn w xs
    → p w ≡ true
    → any p xs ≡ true
IsIn-any p w [] h t = absurd h
IsIn-any p w (x ∷ xs) (inl here) t = let this : p x ≡ true = cc in ground arith
IsIn-any p w (x ∷ xs) (inr there) t = ground (arith, IsIn-any p w xs there t)

-- The items that may win: those of the variant if there are any, else those of the product alone.
abbrev pub wanted : List CampaignItem → ℕ → Option ℕ → CampaignItem → Bool
wanted items product_id none = both (of_product product_id) of_no_variant
wanted items product_id (some v) =
    if any (both (of_product product_id) (of_variant v)) items
    then both (of_product product_id) (of_variant v)
    else both (of_product product_id) of_no_variant

-- The winner is one of the items, for the product, and for the variant if any item is for that, else
-- for every variant. No other such item has a higher priority, or the same and a later date. There is no
-- winner only where there is no such item.
pub select_winning_campaign_item_lem :
    (items : List CampaignItem) (product_id : ℕ) (variant_id : Option ℕ)
    → IsBest
        (wanted items product_id variant_id)
        items
        (select_winning_campaign_item items product_id variant_id)
unfolding select_winning_campaign_item
select_winning_campaign_item_lem items product_id none =
    ranked-IsBest (of_product product_id) of_no_variant items
select_winning_campaign_item_lem items product_id (some v) =
    go (find (of_variant v) (rank (keep (of_product product_id) items)))
      (ranked-IsBest (of_product product_id) (of_variant v) items)
  where
    exact : CampaignItem → Bool
    exact = both (of_product product_id) (of_variant v)

    other : CampaignItem → Bool
    other = both (of_product product_id) of_no_variant

    go :
        (o : Option CampaignItem)
        → IsBest exact items o
        → IsBest
            (if any exact items then exact else other)
            items
            (first_of o (find of_no_variant (rank (keep (of_product product_id) items))))
    go none b = rw b (ranked-IsBest (of_product product_id) of_no_variant items)
    go (some w) b = rw (IsIn-any exact w items b.0 b.1) b
