-- ===== src/Payments/Access.antt =====
-- modules/payments/payments.service.ts: who may pay for an order and see its payments.
use new_sopet_backend.Prelude.{ℕ, Bool, true, false, Option, none, some, ◌==◌, find}
use new_sopet_backend.Prelude.Text.{Text}
use new_sopet_backend.Prelude.Result.{Result, ok, err, ◌>>=◌}
use new_sopet_backend.Orders.PayToken.{is_absent, assert_guest_pay_token_access}
use new_sopet_backend.Orders.Tracking
use new_sopet_backend.Orders.Fulfillment.{Order, Payment, World}
use new_sopet_backend.Payments.{Config, latest_payment, expire_pending_qr_payment_if_needed}

-- The `code` of the exceptions that the service throws; a guest token has its own.
pub data PayError : Type 0 where
  order_not_found forbidden payment_not_found order_not_payable : PayError
  payment_held_portion_blocked omise_not_configured omise_error : PayError
  storefront_url_not_configured customer_required payment_method_not_found : PayError
  omise_customer_not_found card_token_required bank_transfer_not_configured : PayError
  not_bank_transfer invalid_order_status payment_not_confirmable : PayError
  guest_token : Tracking.Error → PayError

-- Who calls: a customer who is logged in, or a guest with a token.
pub record Payer : Type 0 where
  pub customer_id : Option ℕ
  pub guest_pay_token : Option Text

abbrev pub owns : Order → ℕ → Bool
owns o c = elim o.customer_id [ none ↦ false | some d ↦ d == c ]

abbrev pub as_pay_error : Result Tracking.Error (Unit {0}) → Order → Result PayError Order
as_pay_error (ok u) o = ok o
as_pay_error (err e) o = err (guest_token e)

unfoldable pub check_payer : (Text → Text) → ℕ → Payer → Order → Result PayError Order
check_payer sha256 now payer o = elim payer.customer_id [
  | some c ↦ elim (owns o c) [ true ↦ ok o | false ↦ err forbidden ]
  | none ↦ elim (is_absent o.guest_phone) [
    | true ↦ err forbidden
    | false ↦
        as_pay_error
          (assert_guest_pay_token_access sha256 o.guest_pay_token_hash o.guest_pay_token_expires_at
            payer.guest_pay_token now)
          o
  ]
]

unfoldable pub order_by_id : ℕ → World → Result PayError Order
order_by_id order_id w = elim (find (λ (o : Order). o.id == order_id) w.orders) [
  | none ↦ err order_not_found
  | some o ↦ ok o
]

unfoldable pub assert_can_pay_for_order :
    (Text → Text) → ℕ → Payer → ℕ → World → Result PayError Order
assert_can_pay_for_order sha256 now payer order_id w = do
  o ← order_by_id order_id w
  check_payer sha256 now payer o

unfoldable pub find_payment : ℕ → World → Result PayError Payment
find_payment id w = elim (find (λ (p : Payment). p.id == id) w.payments) [
  | none ↦ err payment_not_found
  | some p ↦ ok p
]

unfoldable pub assert_can_access_payment :
    (Text → Text) → ℕ → Payer → ℕ → World → Result PayError (Unit {0})
assert_can_access_payment sha256 now payer id w = do
  p ← find_payment id w
  o ← assert_can_pay_for_order sha256 now payer p.order_id w
  ok tt

-- A payment is read together with its expiry.
unfoldable pub find_by_id :
    (Text → Text) → Config → ℕ → Payer → ℕ → World → Result PayError (World × Payment)
find_by_id sha256 c now payer id w = do
  p ← find_payment id w
  o ← assert_can_pay_for_order sha256 now payer p.order_id w
  ok (expire_pending_qr_payment_if_needed c now p w)

unfoldable pub find_latest_by_order_id :
    (Text → Text) → Config → ℕ → Payer → ℕ → World → Result PayError (World × Payment)
find_latest_by_order_id sha256 c now payer order_id w = do
  o ← assert_can_pay_for_order sha256 now payer order_id w
  elim (latest_payment order_id w.payments) [
    | none ↦ err payment_not_found
    | some p ↦ ok (expire_pending_qr_payment_if_needed c now p w)
  ]
