-- ===== src/Payouts/Tests.antt =====
-- Payouts of one store, and the theorems at concrete tables.
use new_sopet_backend.Prelude.{
  ℕ, ◌≡◌, refl, true, false, none, some, List, [], ◌∷◌, arith, find, ◌==◌, any,
}
use new_sopet_backend.Prelude.Result.{ok, err, ◌>>=◌, throw_if}
use new_sopet_backend.Orders.Status.{OrderStatus, promptpay, bank_transfer, FulfillmentStatus}
use new_sopet_backend.Commission.{
  effective_rate, commission_satang, to_satang, from_satang, from_satang_ℤ, has_snapshot,
  consume_payout, consume_loop, consume_prior_payouts, lifetime_product, uncovered_shipping,
  unpaid_shipping_for_remaining_product, breakdown, finalize_breakdown, net_fits, bisect,
  largest_post_product, take_post_net, consume_to_amount,
}
use new_sopet_backend.Payouts.{
  pending, completed, omise, manual, Payout, monthly, Store, SoldOrder, Sales, Settings,
  is_pending_payout,
}
use new_sopet_backend.Payouts.Sold.{
  is_sold_order, sum_eligible_item_subtotal, sum_store_promotion_discounts,
  calculate_eligible_product_buckets, order_slice, list_eligible_order_slices,
}
use new_sopet_backend.Payouts.Owed.{
  load_prior_payouts_for_consume, unpaid_buckets, compute_unpaid_breakdown, available_balance,
  calculate_pending_payout_amount,
}
use new_sopet_backend.Payouts.Requests.{
  refresh_store_recipient_status, assert_recipient_ready_for_transfer, after_transfer, transfer_new,
  refuse_transfer, create_for_store, create_omise_payout, refuse_request, request_payout,
  trigger_payout, refuse_trigger, request_manual_payout,
}
use new_sopet_backend.Payouts.Insert.{
  PayoutError, Omise, PayoutTables, omise_recipient_not_connected, commission_formula_mismatch,
  commission_formula_holds, insert_snapshot_payout, create_pending, rate_of,
}
use new_sopet_backend.Payouts.Schedule.{
  build_rail_summary, is_due, is_payable, run_scheduled_one, run_scheduled_loop,
  run_scheduled_payouts,
}
use new_sopet_backend.Payouts.Settle.{
  pay, next_status, update_transfer, handle_omise_transfer_webhook, PayoutEvent, requested,
  triggered, transfer_event, scheduled_run, answer_event, answer_all,
}
use new_sopet_backend.Payouts.OneOpen.{Sound, answer_all-Sound}
use new_sopet_backend.Payouts.Closed.{answer_all-closed}
use new_sopet_backend.Payouts.Amount.{IsPaid, create_pending-IsPaid, create_pending-succeeds}
use new_sopet_backend.Payouts.Summary.{request_manual_payout-can_request}

abbrev an_order : ℕ → ℕ → ℕ → SoldOrder
an_order id paid_at subtotal = record {
  order = record {
    id = id;
    status = OrderStatus.paid;
    previous_status = none;
    payment_method = promptpay;
    customer_id = some 9;
    guest_phone = none;
    guest_pay_token_hash = none;
    guest_pay_token_expires_at = none;
    paid_at = some paid_at;
    subtotal = subtotal;
    discount_amount = 0;
    shipping_fee = 0;
    total = subtotal;
    payment_reference = none;
    created_at = paid_at;
    items =
        record {
          id = id;
          store_id = 7;
          variant_id = id;
          quantity = 1;
          subtotal = subtotal;
          fulfillment_status = FulfillmentStatus.delivered;
          previous_fulfillment_status = none;
          hold_started_at = none;
          tracking_number = none;
          fulfillment_provider = none;
          tracking_url = none;
          shipped_at = none;
          delivered_at = none;
          updated_at = 0;
        }
        ∷ [];
    store_shippings = [];
  };
  is_vendor_import = false;
}

-- An order of 10 baht before the commission went live, and one of 500 baht after it.
abbrev sales : Sales
sales = record { orders = an_order 1 50 1000 ∷ an_order 2 150 50000 ∷ []; usages = [] }

abbrev settings : Settings
settings = record { go_live_at = some 100; default_rate_percent = 7; min_payout_amount = 1000000 }

abbrev a_store : Store
a_store = record {
  id = 7;
  commission_rate = none;
  omise_recipient_id = some 70;
  is_recipient_active = true;
  is_approved = true;
  payout_schedule = monthly;
  payout_schedule_paused = false;
}

abbrev gateway : Omise
gateway = record {
  has_credentials = true;
  get_recipient = λ r. some true;
  create_transfer = λ r n. some record { id = 90; paid = false; sent = false; has_failed = false };
  get_transfer = λ n. some record { id = 90; paid = true; sent = true; has_failed = false };
}

abbrev start : PayoutTables
start = record { stores = a_store ∷ []; payouts = []; next_id = 1 }

start-Sound : Sound start
start-Sound = record { keys = tt; one = λ s r. omega arith }

-- A request, a second one while its transfer is on the way, its end, and a run of the scheduler.
abbrev events : List (Omise × PayoutEvent)
events =
    (gateway, requested sales 7)
    ∷ (gateway, triggered sales 7 (some 10000) true)
    ∷ (
      gateway,
      transfer_event
          (record { key = pay; is_transfer = true; id = 90; paid = true; has_failed = false }),
    )
    ∷ (gateway, scheduled_run sales (record { day = 2; date = 1 }))
    ∷ []

answer_all-Sound_example : Sound (answer_all settings events start)
answer_all-Sound_example = answer_all-Sound settings events start start-Sound

-- The balance of 510 baht less 35 of commission is paid once.
one_payout :
    find (λ (p : Payout). p.id == 1) (answer_all settings events start).payouts
    ≡ some record {
      id = 1;
      store_id = 7;
      amount = 4750000;
      net_amount = 4750000;
      commission_rate = some 7;
      product_sold = some 5100000;
      shipping_fees = some 0;
      commission_amount = some 350000;
      status = completed;
      settlement_rail = omise;
      transfer_reference = some 90;
    }
unfolding answer_all answer_event request_payout trigger_payout refuse_request refuse_trigger
    create_omise_payout create_for_store refuse_transfer transfer_new after_transfer
    assert_recipient_ready_for_transfer refresh_store_recipient_status create_pending
    insert_snapshot_payout commission_formula_holds ◌>>=◌ throw_if is_sold_order
    sum_eligible_item_subtotal sum_store_promotion_discounts calculate_eligible_product_buckets
    order_slice list_eligible_order_slices load_prior_payouts_for_consume unpaid_buckets
    compute_unpaid_breakdown calculate_pending_payout_amount effective_rate commission_satang
    to_satang from_satang from_satang_ℤ has_snapshot consume_payout consume_loop
    consume_prior_payouts lifetime_product uncovered_shipping unpaid_shipping_for_remaining_product
    breakdown finalize_breakdown net_fits bisect largest_post_product take_post_net
    consume_to_amount handle_omise_transfer_webhook update_transfer next_status
    run_scheduled_payouts run_scheduled_loop run_scheduled_one is_due is_payable build_rail_summary
one_payout = refl

abbrev paid_payout : Payout
paid_payout = record {
  id = 1;
  store_id = 7;
  amount = 4750000;
  net_amount = 4750000;
  commission_rate = some 7;
  product_sold = some 5100000;
  shipping_fees = some 0;
  commission_amount = some 350000;
  status = completed;
  settlement_rail = omise;
  transfer_reference = some 90;
}

abbrev later : PayoutTables
later = record { stores = a_store ∷ []; payouts = paid_payout ∷ []; next_id = 2 }

later-Sound : Sound later
later-Sound = record { keys = (refl, refl, tt); one = λ s r. ground arith }

answer_all-closed_example :
    find (λ (p : Payout). p.id == 1) (answer_all settings events later).payouts ≡ some paid_payout
answer_all-closed_example =
    answer_all-closed settings events later 1 paid_payout later-Sound refl refl

abbrev a_payout : Payout
a_payout = record {
  id = 1;
  store_id = 7;
  amount = 500000;
  net_amount = 500000;
  commission_rate = some 7;
  product_sold = some 530100;
  shipping_fees = some 0;
  commission_amount = some 30100;
  status = pending;
  settlement_rail = omise;
  transfer_reference = none;
}

a_payout_created : create_pending settings sales 1 a_store omise (some 500000) [] ≡ ok a_payout
unfolding create_pending insert_snapshot_payout commission_formula_holds ◌>>=◌ throw_if
    is_sold_order sum_eligible_item_subtotal sum_store_promotion_discounts
    calculate_eligible_product_buckets order_slice list_eligible_order_slices
    load_prior_payouts_for_consume unpaid_buckets compute_unpaid_breakdown effective_rate
    commission_satang to_satang from_satang from_satang_ℤ consume_loop consume_prior_payouts
    lifetime_product uncovered_shipping unpaid_shipping_for_remaining_product breakdown
    finalize_breakdown net_fits bisect largest_post_product take_post_net consume_to_amount
a_payout_created = refl

-- A request for less than half a satang makes an open payout of nothing.
abbrev no_payout : Payout
no_payout = record a_payout {
  amount = 0;
  net_amount = 0;
  product_sold = some 0;
  commission_amount = some 0;
}

nothing_paid : create_pending settings sales 1 a_store omise (some 49) [] ≡ ok no_payout
unfolding create_pending insert_snapshot_payout commission_formula_holds ◌>>=◌ throw_if
    is_sold_order sum_eligible_item_subtotal sum_store_promotion_discounts
    calculate_eligible_product_buckets order_slice list_eligible_order_slices
    load_prior_payouts_for_consume unpaid_buckets compute_unpaid_breakdown effective_rate
    commission_satang to_satang from_satang from_satang_ℤ consume_loop consume_prior_payouts
    lifetime_product uncovered_shipping unpaid_shipping_for_remaining_product breakdown
    finalize_breakdown net_fits bisect largest_post_product take_post_net consume_to_amount
nothing_paid = refl

balance_of_store : available_balance settings a_store omise sales [] ≡ 4750000
unfolding is_sold_order sum_eligible_item_subtotal sum_store_promotion_discounts
    calculate_eligible_product_buckets order_slice list_eligible_order_slices
    load_prior_payouts_for_consume unpaid_buckets compute_unpaid_breakdown effective_rate
    commission_satang to_satang from_satang from_satang_ℤ consume_loop consume_prior_payouts
    lifetime_product uncovered_shipping unpaid_shipping_for_remaining_product breakdown
    finalize_breakdown
balance_of_store = refl

rate_of_store : rate_of settings a_store ≡ 7
unfolding effective_rate
rate_of_store = refl

create_pending-IsPaid_example :
    IsPaid 1 a_store omise 500000 (available_balance settings a_store omise sales []) a_payout
    × (any (is_pending_payout 7 omise) [] ≡ false)
create_pending-IsPaid_example =
    create_pending-IsPaid settings sales 1 a_store omise (some 500000) [] a_payout
      (omega (arith, rate_of_store)) a_payout_created

create_pending-succeeds_example :
    (p : Payout) × (create_pending settings sales 1 a_store omise (some 500000) [] ≡ ok p)
    × IsPaid 1 a_store omise 500000 (available_balance settings a_store omise sales []) p
create_pending-succeeds_example =
    create_pending-succeeds settings sales 1 a_store omise (some 500000) []
      (omega (arith, rate_of_store)) refl refl (omega (arith, balance_of_store))

-- An order that was paid by bank transfer, and the request for its manual payout.
abbrev transfer_sales : Sales
transfer_sales = record {
  orders =
      record {
        order = record (an_order 2 150 50000).order { payment_method = bank_transfer };
        is_vendor_import = false;
      }
      ∷ [];
  usages = [];
}

request_manual_payout-can_request_example :
    let summary = build_rail_summary settings a_store manual transfer_sales [] in
    (summary.can_request_payout ≡ true
      → (p : Payout) × (request_manual_payout settings transfer_sales 7 start
          ≡ (record start { payouts = p ∷ []; next_id = 2 }, ok p))
        × (p.amount ≡ summary.available_balance)
        × IsPaid 1 a_store manual summary.available_balance summary.available_balance p)
    × (summary.can_request_payout ≡ false
        → (e : PayoutError) × (request_manual_payout settings transfer_sales 7 start
            ≡ (start, err e)))
request_manual_payout-can_request_example =
    request_manual_payout-can_request settings transfer_sales 7 a_store start refl
      (omega (arith, rate_of_store)) tt

can_request_manual :
    (build_rail_summary settings a_store manual transfer_sales []).can_request_payout ≡ true
unfolding answer_all answer_event request_payout trigger_payout refuse_request refuse_trigger
    create_omise_payout create_for_store refuse_transfer transfer_new after_transfer
    assert_recipient_ready_for_transfer refresh_store_recipient_status create_pending
    insert_snapshot_payout commission_formula_holds ◌>>=◌ throw_if is_sold_order
    sum_eligible_item_subtotal sum_store_promotion_discounts calculate_eligible_product_buckets
    order_slice list_eligible_order_slices load_prior_payouts_for_consume unpaid_buckets
    compute_unpaid_breakdown calculate_pending_payout_amount effective_rate commission_satang
    to_satang from_satang from_satang_ℤ has_snapshot consume_payout consume_loop
    consume_prior_payouts lifetime_product uncovered_shipping unpaid_shipping_for_remaining_product
    breakdown finalize_breakdown net_fits bisect largest_post_product take_post_net
    consume_to_amount handle_omise_transfer_webhook update_transfer next_status
    run_scheduled_payouts run_scheduled_loop run_scheduled_one is_due is_payable build_rail_summary
can_request_manual = refl

-- A store without a recipient: its flag is set, and its request fails.
abbrev no_recipient : Store
no_recipient = record a_store { omise_recipient_id = none }

omise_flag_without_recipient :
    ((build_rail_summary settings no_recipient omise sales []).can_request_payout ≡ true)
    × ((request_payout settings sales gateway 7 (record start { stores = no_recipient ∷ [] })).1
        ≡ err omise_recipient_not_connected)
unfolding answer_all answer_event request_payout trigger_payout refuse_request refuse_trigger
    create_omise_payout create_for_store refuse_transfer transfer_new after_transfer
    assert_recipient_ready_for_transfer refresh_store_recipient_status create_pending
    insert_snapshot_payout commission_formula_holds ◌>>=◌ throw_if is_sold_order
    sum_eligible_item_subtotal sum_store_promotion_discounts calculate_eligible_product_buckets
    order_slice list_eligible_order_slices load_prior_payouts_for_consume unpaid_buckets
    compute_unpaid_breakdown calculate_pending_payout_amount effective_rate commission_satang
    to_satang from_satang from_satang_ℤ has_snapshot consume_payout consume_loop
    consume_prior_payouts lifetime_product uncovered_shipping unpaid_shipping_for_remaining_product
    breakdown finalize_breakdown net_fits bisect largest_post_product take_post_net
    consume_to_amount handle_omise_transfer_webhook update_transfer next_status
    run_scheduled_payouts run_scheduled_loop run_scheduled_one is_due is_payable build_rail_summary
omise_flag_without_recipient = (refl, refl)

-- At a rate of a half, a payout within the older bucket takes a satang of the newer one for nothing, and
-- the check of the commission refuses it.
half_rate_refused :
    create_pending settings
      (record { orders = an_order 1 50 1000 ∷ an_order 2 150 1 ∷ []; usages = [] })
      1
      (record a_store { commission_rate = some 50 })
      omise
      (some 50000)
      []
    ≡ err commission_formula_mismatch
unfolding create_pending insert_snapshot_payout commission_formula_holds ◌>>=◌ throw_if
    is_sold_order sum_eligible_item_subtotal sum_store_promotion_discounts
    calculate_eligible_product_buckets order_slice list_eligible_order_slices
    load_prior_payouts_for_consume unpaid_buckets compute_unpaid_breakdown effective_rate
    commission_satang to_satang from_satang from_satang_ℤ consume_loop consume_prior_payouts
    lifetime_product uncovered_shipping unpaid_shipping_for_remaining_product breakdown
    finalize_breakdown net_fits bisect largest_post_product take_post_net consume_to_amount
half_rate_refused = refl
