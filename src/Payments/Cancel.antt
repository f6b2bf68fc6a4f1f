-- ===== src/Payments/Cancel.antt =====
-- modules/payments/payments.service.ts: which charges are cancelled at the gateway before an order gets
-- a new one (`cancelPendingOmiseChargesForOrder`), and how one is (`cancelOmiseChargeBestEffort`).
use new_sopet_backend.Prelude.{
  Bool, false, not, ◌&&◌, ◌||◌, Option, none, some, List, [], ◌∷◌, ◌==◌, if◌then◌else◌, any, keep,
  find, length,
}
use new_sopet_backend.Orders.Status.{PaymentMethod, promptpay}
use new_sopet_backend.Orders.Fulfillment.{Order, Payment, World}
use new_sopet_backend.Orders.Rows.{PaymentReference, charge, bank_transfer_by}
use new_sopet_backend.Payments.{Config, is_pending_payment_of, is_promptpay, is_null}

abbrev pub same_reference : PaymentReference → PaymentReference → Bool
same_reference (charge m) (charge n) = m == n
same_reference (bank_transfer_by m) (bank_transfer_by n) = m == n
same_reference _ _ = false

-- A `Map` from charges to methods, in the order of insertion.
abbrev pub Targets : Type 0
Targets = List (PaymentReference × PaymentMethod)

abbrev pub has_target : PaymentReference → Targets → Bool
has_target r ts = any (λ (t : PaymentReference × PaymentMethod). same_reference t.0 r) ts

abbrev pub set_target : PaymentReference → PaymentMethod → Targets → Targets
set_target r method [] = (r, method) ∷ []
set_target r method ((q, old) ∷ ts) =
    let rest = set_target r method ts in
    if same_reference q r then (q, method) ∷ ts else (q, old) ∷ rest

-- The loop over the pending payments.
unfoldable pub collect_targets : List Payment → Targets → Targets
collect_targets [] ts = ts
collect_targets (p ∷ ps) ts = elim p.omise_charge_id [
  | none ↦ collect_targets ps ts
  | some id ↦ collect_targets ps (set_target (charge id) p.payment_method ts)
]

abbrev pub first_method : List Payment → PaymentMethod
first_method [] = promptpay
first_method (p ∷ ps) = p.payment_method

-- The method of the payment that the reference is taken to be of.
unfoldable pub matching_method : List Payment → PaymentMethod
matching_method ps = elim (find (λ (p : Payment). is_null p.omise_charge_id) ps) [
  | some p ↦ p.payment_method
  | none ↦ elim (find (λ (p : Payment). is_promptpay p.payment_method) ps) [
    | some p ↦ p.payment_method
    | none ↦ first_method ps
  ]
]

unfoldable pub add_reference : Option PaymentReference → List Payment → Targets → Targets
add_reference none ps ts = ts
add_reference (some r) ps ts =
    if (any (λ (p : Payment). is_null p.omise_charge_id) ps || length ts == 0)
      && not (has_target r ts)
    then set_target r (matching_method ps) ts
    else ts

unfoldable pub charge_targets : Config → Order → World → Targets
charge_targets c o w =
    let pending = keep (is_pending_payment_of o.id) w.payments in
    if length pending == 0 || not c.has_secret_key
    then []
    else add_reference o.payment_reference pending (collect_targets pending [])

-- What the gateway answers to `/expire` and to `/reverse`, and whether the time ran out meanwhile.
pub record CancelAnswers : Type 0 where
  pub expired : Bool
  pub timed_out : Bool
  pub reversed : Bool

pub data CancelResult : Type 0 where
  cancelled failed_open : CancelResult

unfoldable pub cancel_omise_charge_best_effort :
    Config → PaymentMethod → CancelAnswers → CancelResult
cancel_omise_charge_best_effort c method a =
    if not c.has_secret_key
    then failed_open
    else if a.expired
    then cancelled
    else if is_promptpay method || a.timed_out
    then failed_open
    else if a.reversed
    then cancelled
    else failed_open
