-- ===== src/Payments/Checkout.antt =====
-- common/utils/checkout-payment.util.ts, modules/payments/build-omise-return-uri.ts, and the helpers of
-- modules/payments/payments.service.ts that turn a checkout method into a charge.
use new_sopet_backend.Prelude.{
  ℕ, Bool, true, false, ◌||◌, Option, none, some, [], ◌∷◌, ◌++◌, ◌==◌, if◌then◌else◌,
}
use new_sopet_backend.Prelude.Text.{Text, codes, trim, text_eq, is_empty}
use new_sopet_backend.Prelude.Result.{Result, ok, err}
use new_sopet_backend.Orders.Status.{PaymentMethod}
use new_sopet_backend.Payments.Access.{PayError, storefront_url_not_configured}

pub data CheckoutPaymentMethod : Type 0 where
  promptpay credit_card cod bank_transfer truemoney shopeepay : CheckoutPaymentMethod

-- `none` is the exception `Unsupported payment method`.
unfoldable pub normalize_checkout_payment_method : Text → Option CheckoutPaymentMethod
normalize_checkout_payment_method t =
    if text_eq t (codes "card") || text_eq t (codes "credit_card")
    then some credit_card
    else if text_eq t (codes "promptpay")
    then some promptpay
    else if text_eq t (codes "cod")
    then some cod
    else if text_eq t (codes "bank_transfer")
    then some bank_transfer
    else if text_eq t (codes "truemoney")
    then some truemoney
    else if text_eq t (codes "shopeepay")
    then some shopeepay
    else none

abbrev pub is_non_omise : CheckoutPaymentMethod → Bool
is_non_omise cod = true
is_non_omise bank_transfer = true
is_non_omise _ = false

abbrev pub to_order_payment_method : CheckoutPaymentMethod → PaymentMethod
to_order_payment_method promptpay = PaymentMethod.promptpay
to_order_payment_method credit_card = PaymentMethod.credit_card
to_order_payment_method bank_transfer = PaymentMethod.bank_transfer
to_order_payment_method truemoney = PaymentMethod.truemoney
to_order_payment_method shopeepay = PaymentMethod.shopeepay
to_order_payment_method cod = PaymentMethod.cod

pub data Platform : Type 0 where
  ios android web : Platform

abbrev pub platform_type : Option Platform → Option Platform
platform_type (some ios) = some ios
platform_type (some android) = some android
platform_type _ = none

-- The source of a charge, or the card that it is made on.
pub data ChargeSource : Type 0 where
  promptpay_until : ℕ → ChargeSource  -- `expires_at`
  card : Option Text → Text → ChargeSource  -- the customer, the card
  truemoney_jumpapp shopeepay_jumpapp : Option Platform → ChargeSource

-- `storefrontUrl.replace(/\/$/, '')`; 47 is the slash.
abbrev pub strip_slash : Text → Text
strip_slash [] = []
strip_slash (c ∷ []) = if c == 47 then [] else c ∷ []
strip_slash (c ∷ d ∷ ds) = c ∷ strip_slash (d ∷ ds)

-- `none` is the exception `STOREFRONT_URL_EMPTY`.
unfoldable pub build_omise_return_uri : Text → Text → Option Text
build_omise_return_uri storefront_url payment_id =
    let origin = strip_slash storefront_url in
    if is_empty origin then none else some (origin ++ codes "/payment/" ++ payment_id)

unfoldable pub omise_return_uri : Option Text → Text → Result PayError Text
omise_return_uri none payment_id = err storefront_url_not_configured
omise_return_uri (some url) payment_id =
    if is_empty (trim url)
    then err storefront_url_not_configured
    else elim (build_omise_return_uri url payment_id) [
      | none ↦ err storefront_url_not_configured
      | some uri ↦ ok uri
    ]
