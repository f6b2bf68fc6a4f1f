-- ===== src/Payouts/Insert.antt =====
-- modules/payouts/payouts.service.ts: the tables, and the insertion of a payout with its snapshot.
-- A handler returns the tables and its reply; an exception may leave rows that were saved before it. The
-- transfers belong to Omise and are parameters. Settings is what the configuration gives.
use new_sopet_backend.Prelude.{
  ℕ, ◌-◌, Bool, not, Option, none, some, List, [], ◌∷◌, ◌==◌, ltb, if◌then◌else◌, any, find,
}
use new_sopet_backend.Prelude.Result.{Result, ok, ◌>>◌, throw_if}
use new_sopet_backend.Commission.{
  UnpaidBuckets, Breakdown, effective_rate, commission_satang, to_satang, consume_to_amount,
}
use new_sopet_backend.Payouts.{
  pending, PayoutSettlementRail, Payout, Store, Sales, Settings, is_pending_payout,
}
use new_sopet_backend.Payouts.Owed.{unpaid_buckets, at_least_zero, available_balance}

pub data PayoutError : Type 0 where
  store_not_found payout_already_pending insufficient_balance payout_below_minimum : PayoutError
  invalid_payout_amount commission_formula_mismatch payout_not_pending payout_mismatch : PayoutError
  payout_not_found payout_wrong_rail no_pending_manual_payout omise_not_configured : PayoutError
  omise_recipient_not_connected omise_recipient_not_ready omise_transfer_failed : PayoutError

pub record OmiseTransfer : Type 0 where
  pub id : ℕ
  pub paid : Bool
  pub sent : Bool
  pub has_failed : Bool  -- a `failure_code`

-- The client of the gateway; `none` is an exception. A recipient is verified and active, or not.
pub record Omise : Type 0 where
  pub has_credentials : Bool
  pub get_recipient : ℕ → Option Bool
  pub create_transfer : ℕ → ℕ → Option OmiseTransfer  -- the recipient, satang
  pub get_transfer : ℕ → Option OmiseTransfer

-- With the id that the next row gets.
pub record PayoutTables : Type 0 where
  pub stores : List Store
  pub payouts : List Payout
  pub next_id : ℕ

abbrev pub Answer : Type 0
Answer = PayoutTables × Result PayoutError Payout

abbrev pub find_store : ℕ → PayoutTables → Option Store
find_store id t = find (λ (s : Store). s.id == id) t.stores

abbrev pub save_store : Store → List Store → List Store
save_store s [] = []
save_store s (r ∷ rs) = let rest = save_store s rs in if r.id == s.id then s ∷ rest else r ∷ rest

abbrev pub save_payout : Payout → List Payout → List Payout
save_payout p [] = []
save_payout p (q ∷ qs) = let rest = save_payout p qs in if q.id == p.id then p ∷ rest else q ∷ rest

-- `assertCommissionFormula`
unfoldable pub commission_formula_holds : Breakdown → UnpaidBuckets → ℕ → Bool
commission_formula_holds b unpaid rate =
    to_satang b.commission_amount
    == commission_satang (to_satang b.product_sold - to_satang unpaid.unpaid_pre) rate

-- `params.amount ?? unpaidFull.net`
abbrev pub or_all : Option ℕ → ℕ → ℕ
or_all none net = net
or_all (some n) net = n

abbrev pub snapshot : ℕ → ℕ → PayoutSettlementRail → Breakdown → Payout
snapshot new_id store_id rail b = record {
  id = new_id;
  store_id = store_id;
  amount = at_least_zero b.net;
  net_amount = at_least_zero b.net;
  commission_rate = some b.commission_rate;
  product_sold = some b.product_sold;
  shipping_fees = some b.shipping_fees;
  commission_amount = some b.commission_amount;
  status = pending;
  settlement_rail = rail;
  transfer_reference = none;
}

abbrev pub rate_of : Settings → Store → ℕ
rate_of c store = effective_rate store.commission_rate c.default_rate_percent

-- `at_least_zero` reads the net of the breakdown as an amount.
unfoldable pub insert_snapshot_payout :
    Settings
    → Sales
    → ℕ
    → Store
    → PayoutSettlementRail
    → Option ℕ
    → List Payout
    → Result PayoutError Payout
insert_snapshot_payout c sales new_id store rail amount ps = do
  let net = available_balance c store rail sales ps
  let unpaid = unpaid_buckets c store.id rail sales ps
  throw_if (or_all amount net == 0) invalid_payout_amount
  throw_if (ltb net (or_all amount net)) insufficient_balance
  throw_if
      (not (
        commission_formula_holds (consume_to_amount unpaid (or_all amount net) (rate_of c store))
          unpaid (rate_of c store)))
      commission_formula_mismatch
  ok (
      snapshot new_id store.id rail
        (consume_to_amount unpaid (or_all amount net) (rate_of c store)))

-- The transaction around it.
unfoldable pub create_pending :
    Settings
    → Sales
    → ℕ
    → Store
    → PayoutSettlementRail
    → Option ℕ
    → List Payout
    → Result PayoutError Payout
create_pending c sales new_id store rail amount ps = do
  throw_if (any (is_pending_payout store.id rail) ps) payout_already_pending
  insert_snapshot_payout c sales new_id store rail amount ps
