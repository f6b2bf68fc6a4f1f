-- ===== src/Payouts/Steps.antt =====
-- modules/payouts/payouts.service.ts: how a request, a settlement or an event changes the tables.
pub mod Requests
pub mod Events
use new_sopet_backend.Prelude.{
  ℕ, suc, ◌≡◌, refl, ap, Bool, true, false, inl, inr, Option, some, List, [], ◌∷◌, ◌++◌, ◌==◌, any,
  find, if◌then◌else◌, Bool-cases, ==_iff,
}
use new_sopet_backend.Payouts.{Payout, Store, is_open_status, is_pending_payout}
use new_sopet_backend.Payouts.Insert.{PayoutTables, save_payout}

-- A transfer or a settlement leaves a row with its id, store and rail.
pub record Moved (p q : Payout) : Type 0 where
  pub id : q.id ≡ p.id
  pub store : q.store_id ≡ p.store_id
  pub rail : q.settlement_rail ≡ p.settlement_rail

-- A new row, whose store has no open payout on its rail.
abbrev pub IsNew : ℕ → List Payout → Payout → Type 0
IsNew n ps p = (p.id ≡ n) × (any (is_pending_payout p.store_id p.settlement_rail) ps ≡ false)

-- Each may refresh the stores, and adds one new row or writes one open row.
pub data Step : PayoutTables → PayoutTables → Type 0 where
  kept : (t : PayoutTables) (ss : List Store) → Step t (record t { stores = ss })
  added :
      (t : PayoutTables) (ss : List Store) (p : Payout)
      → IsNew t.next_id t.payouts p
      → Step t (record { stores = ss; payouts = t.payouts ++ p ∷ []; next_id = suc t.next_id })
  saved :
      (t : PayoutTables) (ss : List Store) (test : Payout → Bool) (p q : Payout)
      → find test t.payouts ≡ some p
      → is_open_status p.status ≡ true
      → Moved p q
      → Step t (record { stores = ss; payouts = save_payout q t.payouts; next_id = t.next_id })

pub data Steps : PayoutTables → PayoutTables → Type 0 where
  halt : (t : PayoutTables) → Steps t t
  further : (t u v : PayoutTables) → Step t u → Steps u v → Steps t v

abbrev pub once : (t u : PayoutTables) → Step t u → Steps t u
once t u s = further t u u s (halt u)

-- A second write of a row is what counts.
pub save_payout_again :
    (p q : Payout) (ps : List Payout)
    → p.id ≡ q.id
    → save_payout q (save_payout p ps) ≡ save_payout q ps
save_payout_again p q [] e = refl
save_payout_again p q (x ∷ xs) e = elim (Bool-cases (x.id == p.id)) [
  | inl own ↦
      let here : (x.id == q.id) ≡ true = cc (own, e) in
      let now : (p.id == q.id) ≡ true = (==_iff p.id q.id).1 e in
      rw (own, here, now) (ap (λ (r : List Payout). q ∷ r) (save_payout_again p q xs e))
  | inr other ↦
      let not_here : (x.id == q.id) ≡ false = cc (other, e) in
      rw (other, not_here) (ap (λ (r : List Payout). x ∷ r) (save_payout_again p q xs e))
]
