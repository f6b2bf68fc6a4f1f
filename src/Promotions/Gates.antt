-- ===== src/Promotions/Gates.antt =====
-- The gates of a promotion on who asks for it: the usage limit per customer, members only, and new
-- customers only with the memo of a request.
use new_sopet_backend.Prelude.{
  ℕ, ◌+◌, ◌*◌, Bool, false, not, ◌&&◌, ◌||◌, Option, none, some, List, [], ◌∷◌, ◌==◌, ltb, leb,
  if◌then◌else◌, find, any, count,
}
use new_sopet_backend.Prelude.Text.{Text, codes, text_eq, trim, is_empty}
use new_sopet_backend.Orders.Status.{OrderStatus, paid, same_order}
use new_sopet_backend.Promotions.Model.{
  Fields, get, is_true, positive_integer, plain_object, Promotion, Customer, PlacedOrder,
  PromotionUsage, Tables, Identity, Reason, guest, account_age, order_history,
  promotion_customer_limit,
}

-- `PAID_PATH_ORDER_STATUSES`
abbrev pub is_paid_path : OrderStatus → Bool
is_paid_path s =
    same_order s paid
    || same_order s OrderStatus.processing
    || same_order s OrderStatus.shipped
    || same_order s OrderStatus.delivered

-- `column = :value` on a nullable column.
abbrev pub is_id : Option ℕ → ℕ → Bool
is_id none n = false
is_id (some m) n = m == n

abbrev pub is_text : Option Text → Text → Bool
is_text none t = false
is_text (some s) t = text_eq s t

-- The text behind `guestPhone?.trim()`.
abbrev pub trimmed : Option Text → Text
trimmed none = []
trimmed (some t) = trim t

-- Which orders the usage count joins: the customer's, else the phone's; `none` if nobody is known.
abbrev pub usage_orders : Identity → Option (PlacedOrder → Bool)
usage_orders c = elim c.customer_id [
  | some id ↦ some (λ (o : PlacedOrder). is_id o.customer_id id)
  | none ↦
      if is_empty (trimmed c.guest_phone)
      then none
      else some (λ (o : PlacedOrder). is_text o.guest_phone (trimmed c.guest_phone))
]

abbrev pub usage_count_of : Tables → ℕ → (PlacedOrder → Bool) → ℕ
usage_count_of t id belongs =
    count
      (λ (u : PromotionUsage).
        u.promotion_id == id && any (λ (o : PlacedOrder). o.id == u.order_id && belongs o) t.orders)
      t.usages

unfoldable pub evaluate_customer_usage_limit : Tables → Promotion → Identity → Option Reason
evaluate_customer_usage_limit t promotion c =
    if promotion.usage_per_customer == 0 then none else elim (usage_orders c) [
      | none ↦ none
      | some belongs ↦
          if leb promotion.usage_per_customer (usage_count_of t promotion.id belongs)
          then some promotion_customer_limit
          else none
    ]

-- Whether `conditions[key]` is an object with `enabled: true`, with its fields.
abbrev pub enabled : Text → Fields → Option Fields
enabled key conditions = elim (plain_object (get key conditions)) [
  | none ↦ none
  | some fields ↦ if is_true (get (codes "enabled") fields) then some fields else none
]

unfoldable pub evaluate_logged_in_only_gate : Promotion → Identity → Option Reason
evaluate_logged_in_only_gate promotion c =
    elim (enabled (codes "loggedInOnly") promotion.conditions) [
      | none ↦ none
      | some _ ↦ elim c.customer_id [ some id ↦ none | none ↦ some guest ]
    ]

-- What the gate knows of a customer: when it was created, if it exists, and how many orders it paid.
pub record GateEntry : Type 0 where
  pub created_at : Option ℕ
  pub paid_path_count : ℕ

abbrev pub find_customer : Tables → ℕ → Option Customer
find_customer t id = find (λ (c : Customer). c.id == id && not c.deleted) t.customers

abbrev pub count_paid_path : Tables → ℕ → ℕ
count_paid_path t id =
    count (λ (o : PlacedOrder). is_id o.customer_id id && is_paid_path o.status) t.orders

unfoldable pub read_entry : Tables → ℕ → GateEntry
read_entry t id = elim (find_customer t id) [
  | none ↦ record { created_at = none; paid_path_count = 0 }
  | some c ↦ record { created_at = some c.created_at; paid_path_count = count_paid_path t id }
]

abbrev pub day_ms : ℕ
day_ms = 24 * 60 * 60 * 1000

-- The answer of the gate for a customer that exists, as both branches of the source give it.
abbrev pub judge : Option ℕ → ℕ → ℕ → ℕ → Option Reason
judge none created_at paid_count now = some account_age
judge (some days) created_at paid_count now =
    if ltb (created_at + days * day_ms) now
    then some account_age
    else if ltb 0 paid_count
    then some order_history
    else none

abbrev pub judge_entry : Option ℕ → GateEntry → ℕ → Option Reason
judge_entry days entry now = elim entry.created_at [
  | none ↦ some guest
  | some created_at ↦ judge days created_at entry.paid_path_count now
]

abbrev pub Memo : Type 0
Memo = List (ℕ × GateEntry)

abbrev pub recall : ℕ → Memo → Option GateEntry
recall id [] = none
recall id ((k, e) ∷ memo) = let rest = recall id memo in if k == id then some e else rest

-- The branch with a cache: the entry is read from the tables once.
unfoldable pub gate_with_memo : Tables → Option ℕ → ℕ → ℕ → Memo → Option Reason × Memo
gate_with_memo t days id now memo = elim (recall id memo) [
  | some entry ↦ (judge_entry days entry now, memo)
  | none ↦ let entry = read_entry t id in (judge_entry days entry now, (id, entry) ∷ memo)
]

-- The branch without a cache.
unfoldable pub gate_without_memo : Tables → Option ℕ → ℕ → ℕ → Option Reason
gate_without_memo t days id now = elim (find_customer t id) [
  | none ↦ some guest
  | some c ↦ judge days c.created_at (count_paid_path t id) now
]

-- With `none` for a cache that is not passed.
unfoldable pub evaluate_new_customer_gates :
    Tables → Promotion → Identity → ℕ → Option Memo → Option Reason × Option Memo
evaluate_new_customer_gates t promotion c now memo =
    elim (enabled (codes "newCustomer") promotion.conditions) [
      | none ↦ (none, memo)
      | some fields ↦ elim c.customer_id [
        | none ↦ (some guest, memo)
        | some id ↦
            let days = positive_integer (get (codes "nDays") fields) in
            elim memo [
              | none ↦ (gate_without_memo t days id now, none)
              | some m ↦ let (reason, m') = gate_with_memo t days id now m in (reason, some m')
            ]
      ]
    ]
