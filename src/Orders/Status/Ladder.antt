-- ===== src/Orders/Status/Ladder.antt =====
-- The derived header status depends only on which item statuses occur.
use new_sopet_backend.Prelude.{
  ◌≡◌, refl, Bool, true, false, not, ◌&&◌, ◌||◌, List, [], ◌∷◌, arith, if◌then◌else◌, every, any,
  keep,
}
use new_sopet_backend.Orders.Status.{
  OrderStatus, pending_payment, paid, FulfillmentStatus, pending, same_order, same_item,
  is_terminal_order, derive_from_progressing, derive_from_active, derive_order_status,
}
use new_sopet_backend.Orders.Status.Summary.{occurs, any-occurs, every-any}

-- The ladder over the statuses that occur: pending, processing, on hold, shipped, delivered.
unfoldable pub header : Bool → Bool → Bool → Bool → Bool → OrderStatus
header pe pr ho sh de =
    if not (pe || pr || sh || de)
    then (if ho then OrderStatus.on_hold else paid)
    else if not (pe || pr || sh)
    then OrderStatus.delivered
    else if not (pe || pr)
    then OrderStatus.shipped
    else if pr || sh || de
    then OrderStatus.processing
    else paid

-- The ladder of the progressing statuses, were held and cancelled ones among them.
progressing_header : Bool → Bool → Bool → Bool → Bool → Bool → OrderStatus
progressing_header pe pr ho sh de ca =
    if not (pe || pr || ho || sh || ca)
    then (if de then OrderStatus.delivered else paid)
    else if not (pe || pr || ho || ca)
    then OrderStatus.shipped
    else if pr || sh || de
    then OrderStatus.processing
    else paid

abbrev delivered? : FulfillmentStatus → Bool
delivered? s = same_item s FulfillmentStatus.delivered

abbrev out? : FulfillmentStatus → Bool
out? s = same_item s FulfillmentStatus.shipped || same_item s FulfillmentStatus.delivered

abbrev moving? : FulfillmentStatus → Bool
moving? s =
    same_item s FulfillmentStatus.processing
    || same_item s FulfillmentStatus.shipped
    || same_item s FulfillmentStatus.delivered

every-delivered :
    (xs : List FulfillmentStatus)
    → every delivered? xs
      ≡ not (
          occurs pending xs
          || occurs FulfillmentStatus.processing xs
          || occurs FulfillmentStatus.on_hold xs
          || occurs FulfillmentStatus.shipped xs
          || occurs FulfillmentStatus.cancelled xs)
every-delivered xs = rw (every-any, any-occurs (λ s. not (delivered? s)) xs) (ground arith)

every-out :
    (xs : List FulfillmentStatus)
    → every out? xs
      ≡ not (
          occurs pending xs
          || occurs FulfillmentStatus.processing xs
          || occurs FulfillmentStatus.on_hold xs
          || occurs FulfillmentStatus.cancelled xs)
every-out xs = rw (every-any, any-occurs (λ s. not (out? s)) xs) (ground arith)

derive_from_progressing-header :
    (xs : List FulfillmentStatus)
    → derive_from_progressing xs
      ≡ progressing_header
          (occurs pending xs)
          (occurs FulfillmentStatus.processing xs)
          (occurs FulfillmentStatus.on_hold xs)
          (occurs FulfillmentStatus.shipped xs)
          (occurs FulfillmentStatus.delivered xs)
          (occurs FulfillmentStatus.cancelled xs)
unfolding derive_from_progressing progressing_header
derive_from_progressing-header [] = refl
derive_from_progressing-header (pending ∷ xs) =
    ground (arith, every-delivered xs, every-out xs, any-occurs moving? xs)
derive_from_progressing-header (x ∷ xs) =
    ground (arith, every-delivered xs, every-out xs, any-occurs moving? xs)

abbrev not_held? : FulfillmentStatus → Bool
not_held? s = not (same_item s FulfillmentStatus.on_hold)

abbrev not_cancelled? : FulfillmentStatus → Bool
not_cancelled? s = not (same_item s FulfillmentStatus.cancelled)

same_item-eq : (x t : FulfillmentStatus) → same_item x t ≡ true → x ≡ t
same_item-eq x t h = ground arith

-- What occurs after a filter.
occurs-keep :
    (t : FulfillmentStatus) (q : FulfillmentStatus → Bool) (xs : List FulfillmentStatus)
    → occurs t (keep q xs) ≡ (q t && occurs t xs)
occurs-keep t q [] = ground arith
occurs-keep t q (x ∷ xs) = ground (arith, occurs-keep t q xs, same_item-eq x t)

every-held :
    (xs : List FulfillmentStatus)
    → every (λ s. same_item s FulfillmentStatus.on_hold) xs
      ≡ not (
          occurs pending xs
          || occurs FulfillmentStatus.processing xs
          || occurs FulfillmentStatus.shipped xs
          || occurs FulfillmentStatus.delivered xs
          || occurs FulfillmentStatus.cancelled xs)
every-held xs = rw (every-any, any-occurs not_held? xs) (ground arith)

-- After the filter that takes the held items out.
derive_from_kept :
    (xs : List FulfillmentStatus)
    → derive_from_progressing (keep not_held? xs)
      ≡ progressing_header
          (occurs pending xs)
          (occurs FulfillmentStatus.processing xs)
          false
          (occurs FulfillmentStatus.shipped xs)
          (occurs FulfillmentStatus.delivered xs)
          (occurs FulfillmentStatus.cancelled xs)
derive_from_kept xs = rw derive_from_progressing-header (simp occurs-keep)

derive_from_active-header :
    (xs : List FulfillmentStatus)
    → occurs FulfillmentStatus.cancelled xs ≡ false
    → derive_from_active xs
      ≡ header
          (occurs pending xs)
          (occurs FulfillmentStatus.processing xs)
          (occurs FulfillmentStatus.on_hold xs)
          (occurs FulfillmentStatus.shipped xs)
          (occurs FulfillmentStatus.delivered xs)
unfolding derive_from_active header progressing_header
derive_from_active-header [] h = refl
derive_from_active-header (pending ∷ xs) h =
    ground (arith, every-held xs, derive_from_kept (pending ∷ xs))
derive_from_active-header (x ∷ xs) h = ground (arith, every-held xs, derive_from_kept (x ∷ xs))

-- The derived status is a closed form of which statuses occur among the items: their order and
-- number, and the cancelled ones, do not matter. Terminal and unpaid orders keep their status.
pub derive_order_status-header :
    (current : OrderStatus) (xs : List FulfillmentStatus)
    → derive_order_status current xs ≡ (
        if is_terminal_order current || same_order current pending_payment
        then current
        else header
            (occurs pending xs)
            (occurs FulfillmentStatus.processing xs)
            (occurs FulfillmentStatus.on_hold xs)
            (occurs FulfillmentStatus.shipped xs)
            (occurs FulfillmentStatus.delivered xs))
unfolding derive_order_status
derive_order_status-header current xs =
    let active : List FulfillmentStatus = keep not_cancelled? xs in
    ground (
      arith,
      derive_from_active-header active (occurs-keep FulfillmentStatus.cancelled not_cancelled? xs),
      occurs-keep pending not_cancelled? xs,
      occurs-keep FulfillmentStatus.processing not_cancelled? xs,
      occurs-keep FulfillmentStatus.on_hold not_cancelled? xs,
      occurs-keep FulfillmentStatus.shipped not_cancelled? xs,
      occurs-keep FulfillmentStatus.delivered not_cancelled? xs,
    )

-- The derived status is stable: deriving it again from the same items gives the same status.
pub derive_order_status_twice :
    (current : OrderStatus) (xs : List FulfillmentStatus)
    → derive_order_status (derive_order_status current xs) xs ≡ derive_order_status current xs
unfolding header
derive_order_status_twice current xs = ground (
  arith,
  derive_order_status-header current xs,
  derive_order_status-header (derive_order_status current xs) xs,
)

-- Held items do not block the others: while some item is neither held nor cancelled, taking the
-- held items out leaves the derived status as it is.
pub derive_order_status-keep :
    (current : OrderStatus) (xs : List FulfillmentStatus)
    → any (λ s. not_held? s && not_cancelled? s) xs ≡ true
    → derive_order_status current (keep not_held? xs) ≡ derive_order_status current xs
unfolding header
derive_order_status-keep current xs h =
    rw
      (
        derive_order_status-header current (keep not_held? xs),
        derive_order_status-header current xs,
      )
      (simp occurs-keep (ground (arith, any-occurs (λ s. not_held? s && not_cancelled? s) xs)))
