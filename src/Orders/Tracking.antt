-- ===== src/Orders/Tracking.antt =====
-- The validators of modules/orders/order-fulfillment.util.ts: tracking numbers, providers and URLs,
-- and the uniformity of a store's items.
-- `new URL` belongs to the JavaScript runtime and is a parameter.
pub mod Valid
use new_sopet_backend.Prelude.{
  Option, none, some, List, [], ◌==◌, ltb, if◌then◌else◌, length, every, not,
}
use new_sopet_backend.Prelude.Text.{Text, codes, trim, text_eq, is_empty}
use new_sopet_backend.Prelude.Result.{Result, ok, err, ◌>>=◌, ◌>>◌, throw_if}
use new_sopet_backend.Orders.Status.{FulfillmentStatus, same_item}

-- The `code` of the exceptions that the fulfillment code throws.
pub data Error : Type 0 where
  order_not_found forbidden_store forbidden_order multi_vendor_order : Error
  changed_by_not_uuid : Error  -- of the database
  hold_transition_forbidden hold_cancel_forbidden : Error
  bank_transfer_admin_only invalid_order_status : Error
  no_store_items invalid_fulfillment_state : Error
  tracking_url_too_long tracking_url_invalid tracking_url_insecure tracking_url_required : Error
  tracking_number_required tracking_number_too_long : Error
  fulfillment_provider_required fulfillment_provider_too_long : Error
  guest_pay_token_required guest_pay_token_expired guest_pay_token_invalid : Error
  order_not_fully_shipped order_already_cancelled hold_restore_snapshot_missing : Error

pub record Url : Type 0 where
  pub protocol : Text
  pub href : Text

-- `new URL(text)`; `none` is the exception.
abbrev pub UrlParser : Type 0
UrlParser = Text → Option Url

-- The text behind `trackingUrl ?? ''`.
abbrev pub text_or_empty : Option Text → Text
text_or_empty none = []
text_or_empty (some t) = t

unfoldable pub check_protocol : Option Url → Result Error (Option Text)
check_protocol none = err tracking_url_invalid
check_protocol (some url) =
    if text_eq url.protocol (codes "https:") then ok (some url.href) else err tracking_url_insecure

unfoldable pub validate_optional_tracking_url : UrlParser → Option Text → Result Error (Option Text)
unfolding check_protocol
validate_optional_tracking_url parse tracking_url =
    let trimmed = trim (text_or_empty tracking_url) in
    if is_empty trimmed
    then ok none
    else if ltb 2048 (length trimmed)
    then err tracking_url_too_long
    else check_protocol (parse trimmed)

abbrev pub require_text : Option Text → Result Error Text
require_text none = err tracking_url_required
require_text (some t) = if is_empty t then err tracking_url_required else ok t

unfoldable pub validate_tracking_url : UrlParser → Text → Result Error Text
validate_tracking_url parse tracking_url = do
  normalized ← validate_optional_tracking_url parse (some tracking_url)
  require_text normalized

unfoldable pub validate_tracking_number : Text → Result Error Text
validate_tracking_number tracking_number =
    let trimmed = trim tracking_number in
    if is_empty trimmed
    then err tracking_number_required
    else if ltb 100 (length trimmed)
    then err tracking_number_too_long
    else ok trimmed

unfoldable pub validate_fulfillment_provider : Text → Result Error Text
validate_fulfillment_provider provider =
    let trimmed = trim provider in
    if is_empty trimmed
    then err fulfillment_provider_required
    else if ltb 100 (length trimmed)
    then err fulfillment_provider_too_long
    else ok trimmed

unfoldable pub assert_vendor_items_uniform :
    List FulfillmentStatus → FulfillmentStatus → Result Error (Unit {0})
assert_vendor_items_uniform statuses expected = do
  throw_if (length statuses == 0) no_store_items
  throw_if (not (every (λ s. same_item s expected) statuses)) invalid_fulfillment_state
