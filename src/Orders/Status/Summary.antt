-- ===== src/Orders/Status/Summary.antt =====
-- Tests over a list of item statuses, reduced to which statuses occur in it.
use new_sopet_backend.Prelude.{
  ◌≡◌, refl, Bool, not, ◌&&◌, ◌||◌, List, [], ◌∷◌, arith, every, any, keep,
}
use new_sopet_backend.Orders.Status.{FulfillmentStatus, same_item}

abbrev pub occurs : FulfillmentStatus → List FulfillmentStatus → Bool
occurs s = any (λ t. same_item t s)

abbrev pub some_of : (FulfillmentStatus → Bool) → List FulfillmentStatus → Bool
some_of p xs =
    (p FulfillmentStatus.pending && occurs FulfillmentStatus.pending xs)
    || (p FulfillmentStatus.processing && occurs FulfillmentStatus.processing xs)
    || (p FulfillmentStatus.on_hold && occurs FulfillmentStatus.on_hold xs)
    || (p FulfillmentStatus.shipped && occurs FulfillmentStatus.shipped xs)
    || (p FulfillmentStatus.delivered && occurs FulfillmentStatus.delivered xs)
    || (p FulfillmentStatus.cancelled && occurs FulfillmentStatus.cancelled xs)

-- `some` asks for the statuses that occur.
pub any-occurs :
    (p : FulfillmentStatus → Bool) (xs : List FulfillmentStatus) → any p xs ≡ some_of p xs
any-occurs p [] = ground arith
any-occurs p (FulfillmentStatus.pending ∷ xs) = ground (arith, any-occurs p xs)
any-occurs p (x ∷ xs) = ground (arith, any-occurs p xs)

pub every-any :
    (p : FulfillmentStatus → Bool) (xs : List FulfillmentStatus)
    → every p xs ≡ not (any (λ s. not (p s)) xs)
every-any p [] = refl
every-any p (x ∷ xs) = ground (arith, every-any p xs)

pub any-keep :
    (p q : FulfillmentStatus → Bool) (xs : List FulfillmentStatus)
    → any p (keep q xs) ≡ any (λ s. q s && p s) xs
any-keep p q [] = refl
any-keep p q (x ∷ xs) = ground (arith, any-keep p q xs)
