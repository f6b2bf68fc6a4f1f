-- ===== src/Payments/Charge.antt =====
-- modules/payments/payments.service.ts: `createCharge`.
-- Outside: the gateway (`POST /charges`, `none` where it throws), the settings of the bank transfer, and
-- the tables of cards and of customers, which are only read. `new_id` is the id that the database gives
-- the row, and `id_text` spells it.
use new_sopet_backend.Prelude.{
  ℕ, Bool, true, false, not, ◌&&◌, Option, none, some, [], ◌∷◌, ◌++◌, if◌then◌else◌, any,
}
use new_sopet_backend.Prelude.Text.{Text}
use new_sopet_backend.Prelude.Result.{Result, ok, err, ◌>>=◌, ◌>>◌, throw_if}
use new_sopet_backend.Orders.Status.{PaymentMethod, pending_payment, same_order}
use new_sopet_backend.Orders.Fulfillment.{
  Order, PaymentStatus, Payment, World, save_in, is_held, fail_pending,
}
use new_sopet_backend.Orders.Rows.{charge}
use new_sopet_backend.Payments.{
  Config, is_pending, is_failed, compute_qr_expires_at, latest_payment,
}
use new_sopet_backend.Payments.Access.{
  PayError, order_not_payable, payment_held_portion_blocked, omise_not_configured, omise_error,
  customer_required, payment_method_not_found, omise_customer_not_found, card_token_required,
  bank_transfer_not_configured, Payer, order_by_id, assert_can_pay_for_order,
}
use new_sopet_backend.Payments.Checkout.{
  CheckoutPaymentMethod, is_non_omise, to_order_payment_method, Platform, platform_type,
  ChargeSource, promptpay_until, card, truemoney_jumpapp, shopeepay_jumpapp, omise_return_uri,
}
use new_sopet_backend.Payments.Webhook.{
  ChargeStatus, is_successful, is_failed_charge, mark_order_paid,
}

pub record ChargeBody : Type 0 where
  pub amount : ℕ  -- satang
  pub source : ChargeSource
  pub return_uri : Option Text

pub record CreatedCharge : Type 0 where
  pub id : ℕ
  pub status : ChargeStatus

pub record Services : Type 0 where
  pub config : Config
  pub sha256 : Text → Text
  pub id_text : ℕ → Text
  pub post_charge : ChargeBody → Option CreatedCharge
  pub storefront_url : Option Text
  pub bank_transfer_configured : Bool
  pub saved_card : ℕ → ℕ → Option Text  -- of the method and the customer
  pub omise_customer : ℕ → Option Text

pub record CreateCharge : Type 0 where
  pub order_id : ℕ
  pub payment_method : CheckoutPaymentMethod
  pub omise_token : Option Text
  pub saved_payment_method_id : Option ℕ
  pub payer : Payer
  pub platform : Option Platform

-- `latestPayment && it is neither pending nor failed`
abbrev pub is_settled : Option Payment → Bool
is_settled none = false
is_settled (some p) = not (is_pending p.status) && not (is_failed p.status)

unfoldable pub assert_order_payable_for_create : Order → Option Payment → Result PayError (Unit {0})
assert_order_payable_for_create o latest = do
  throw_if (not (same_order o.status pending_payment)) order_not_payable
  throw_if (is_settled latest) order_not_payable
  throw_if (any is_held o.items) payment_held_portion_blocked

unfoldable pub saved_card_source : Services → ℕ → Option ℕ → Result PayError ChargeSource
saved_card_source s method none = err customer_required
saved_card_source s method (some customer) = elim (s.saved_card method customer) [
  | none ↦ err payment_method_not_found
  | some token ↦ elim (s.omise_customer customer) [
    | none ↦ err omise_customer_not_found
    | some profile ↦ ok (card (some profile) token)
  ]
]

unfoldable pub card_source : Services → CreateCharge → Result PayError ChargeSource
card_source s d = elim d.saved_payment_method_id [
  | some method ↦ saved_card_source s method d.payer.customer_id
  | none ↦ elim d.omise_token [ some token ↦ ok (card none token) | none ↦ err card_token_required ]
]

-- The source of the charge, and whether the customer has to come back from the gateway.
unfoldable pub charge_source : Services → ℕ → CreateCharge → Result PayError (ChargeSource × Bool)
charge_source s now d = elim d.payment_method [
  | CheckoutPaymentMethod.promptpay ↦
      ok (promptpay_until (compute_qr_expires_at s.config now), false)
  | CheckoutPaymentMethod.credit_card ↦ do source ← card_source s d; ok (source, true)
  | CheckoutPaymentMethod.truemoney ↦ ok (truemoney_jumpapp (platform_type d.platform), true)
  | _ ↦ ok (shopeepay_jumpapp (platform_type d.platform), true)
]

unfoldable pub charge_body : Services → ℕ → ℕ → CreateCharge → Order → Result PayError ChargeBody
charge_body s now new_id d o = do
  src ← charge_source s now d
  elim src.1 [
    | false ↦ ok record { amount = o.total; source = src.0; return_uri = none }
    | true ↦ do
      uri ← omise_return_uri s.storefront_url (s.id_text new_id)
      ok record { amount = o.total; source = src.0; return_uri = some uri }
  ]

abbrev pub same_method : PaymentMethod → PaymentMethod → Bool
same_method PaymentMethod.promptpay PaymentMethod.promptpay = true
same_method PaymentMethod.credit_card PaymentMethod.credit_card = true
same_method PaymentMethod.cod PaymentMethod.cod = true
same_method PaymentMethod.bank_transfer PaymentMethod.bank_transfer = true
same_method PaymentMethod.truemoney PaymentMethod.truemoney = true
same_method PaymentMethod.shopeepay PaymentMethod.shopeepay = true
same_method _ _ = false

-- The order takes the method and the reference of its new payment, and a change of method is noted.
unfoldable pub insert_payment : Order → Payment → World → World
insert_payment o p w = record w {
  payments = w.payments ++ p ∷ [];
  orders =
      save_in
        (record o {
          payment_method = p.payment_method;
          payment_reference = elim p.omise_charge_id [ none ↦ none | some id ↦ some (charge id) ];
        })
        w.orders;
  method_changed =
      if same_method o.payment_method p.payment_method
      then w.method_changed
      else w.method_changed ++ o.id ∷ [];
}

-- The row of the new payment; the two saves of a charged one are one transaction.
abbrev pub new_payment : ℕ → ℕ → PaymentMethod → Order → Payment
new_payment now new_id method o = record {
  id = new_id;
  order_id = o.id;
  amount = o.total;
  payment_method = method;
  status = PaymentStatus.pending;
  expires_at = none;
  omise_charge_id = none;
  created_at = now;
}

abbrev pub qr_expiry : Config → ℕ → CheckoutPaymentMethod → Option ℕ
qr_expiry c now CheckoutPaymentMethod.promptpay = some (compute_qr_expires_at c now)
qr_expiry c now _ = none

abbrev pub charged_payment :
    Config → ℕ → ℕ → CheckoutPaymentMethod → Order → CreatedCharge → Payment
charged_payment c now new_id method o ch =
    record (new_payment now new_id (to_order_payment_method method) o) {
      status = if is_failed_charge ch.status then PaymentStatus.failed else PaymentStatus.pending;
      expires_at = qr_expiry c now method;
      omise_charge_id = some ch.id;
    }

abbrev pub charged_order : Order → CheckoutPaymentMethod → CreatedCharge → Order
charged_order o method ch = record o {
  payment_method = to_order_payment_method method;
  payment_reference = some (charge ch.id);
}

-- With `paidImmediately`, once the transaction has ended.
unfoldable pub after_charge :
    Services → ℕ → ℕ → CreateCharge → Order → CreatedCharge → World → World
after_charge s now new_id d o ch w =
    let p = charged_payment s.config now new_id d.payment_method o ch in
    let charged = insert_payment o p w in
    if is_successful ch.status
    then mark_order_paid now (charged_order o d.payment_method ch) p ch.id charged
    else charged

abbrev pub is_transfer : CheckoutPaymentMethod → Bool
is_transfer CheckoutPaymentMethod.bank_transfer = true
is_transfer _ = false

unfoldable pub insert_non_omise :
    Services → ℕ → ℕ → CreateCharge → Order → World → Result PayError World
insert_non_omise s now new_id d o w = do
  throw_if (is_transfer d.payment_method && not s.bank_transfer_configured)
      bank_transfer_not_configured
  ok (insert_payment o (new_payment now new_id (to_order_payment_method d.payment_method) o) w)

unfoldable pub insert_charged :
    Services → ℕ → ℕ → CreateCharge → Order → World → Result PayError World
insert_charged s now new_id d o w = do
  throw_if (not s.config.has_secret_key) omise_not_configured
  body ← charge_body s now new_id d o
  elim (s.post_charge body) [
    | none ↦ err omise_error
    | some ch ↦ ok (after_charge s now new_id d o ch w)
  ]

-- The pending payments of the order fail, and the new one is made.
unfoldable pub replace_payment :
    Services → ℕ → ℕ → CreateCharge → Order → World → Result PayError World
replace_payment s now new_id d o w =
    let superseded = record w { payments = fail_pending o.id w.payments } in
    elim (is_non_omise d.payment_method) [
      | true ↦ insert_non_omise s now new_id d o superseded
      | false ↦ insert_charged s now new_id d o superseded
    ]

-- The checks run before the gateway is called and again under the lock, on the same rows here.
unfoldable pub create_charge : Services → ℕ → ℕ → CreateCharge → World → Result PayError World
create_charge s now new_id d w = do
  allowed ← assert_can_pay_for_order s.sha256 now d.payer d.order_id w
  assert_order_payable_for_create allowed (latest_payment d.order_id w.payments)
  o ← order_by_id d.order_id w
  assert_order_payable_for_create o (latest_payment d.order_id w.payments)
  replace_payment s now new_id d o w
