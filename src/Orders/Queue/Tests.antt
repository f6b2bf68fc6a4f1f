-- ===== src/Orders/Queue/Tests.antt =====
-- Runs of the action queue, and its theorem at a concrete order.
use new_sopet_backend.Prelude.{◌≡◌, refl, true, false, some, none, [], ◌∷◌}
use new_sopet_backend.Orders.Status.{
  paid, pending_payment, bank_transfer, promptpay, FulfillmentStatus, pending,
}
use new_sopet_backend.Orders.Queue.{
  QueueOrder, is_actionable, store_statuses, is_vendor_order_actionable, exists_item,
  vendor_action_queue_filter, normalize_vendor_orders_page, normalize_vendor_orders_limit,
}
use new_sopet_backend.Orders.Queue.Filter.{vendor_action_queue_filter-eq-is_vendor_order_actionable}

abbrev waiting : QueueOrder
waiting = record {
  status = paid;
  payment_method = promptpay;
  items =
      record { store_id = 1; fulfillment_status = pending }
      ∷ record { store_id = 2; fulfillment_status = FulfillmentStatus.shipped }
      ∷ [];
}

runs :
    (is_vendor_order_actionable waiting 1 ≡ true)
    × (is_vendor_order_actionable waiting 2 ≡ false)
    × (is_vendor_order_actionable waiting 3 ≡ false)
    × (is_vendor_order_actionable
          (record waiting { status = pending_payment; payment_method = bank_transfer })
          1
        ≡ false)
    × (normalize_vendor_orders_page (some 0) ≡ 1)
    × (normalize_vendor_orders_limit (some 80) ≡ 50)
    × (normalize_vendor_orders_limit none ≡ 20)
unfolding is_vendor_order_actionable is_actionable store_statuses normalize_vendor_orders_page
    normalize_vendor_orders_limit
runs = (refl, refl, refl, refl, refl, refl, refl)

vendor_action_queue_filter-eq-is_vendor_order_actionable_example :
    vendor_action_queue_filter waiting 1 ≡ is_vendor_order_actionable waiting 1
unfolding exists_item
vendor_action_queue_filter-eq-is_vendor_order_actionable_example =
    vendor_action_queue_filter-eq-is_vendor_order_actionable waiting 1 refl
