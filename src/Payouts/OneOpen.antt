-- ===== src/Payouts/OneOpen.antt =====
-- The rows of modules/payouts/payouts.service.ts: their keys, and the open ones of a store on a rail.
use new_sopet_backend.Prelude.{
  ℕ, suc, ◌≡◌, ◌≤◌, refl, sym, ap, ◌∙◌, Bool, true, false, ◌&&◌, ◌||◌, inl, inr, some, List, [],
  ◌∷◌, ◌++◌, arith, ◌==◌, ltb, any, count, count-append, count-none, find-any, find, subst,
  Bool-cases, ==_iff,
}
use new_sopet_backend.Payouts.{
  PayoutSettlementRail, omise, manual, Payout, Store, Settings, is_rail, is_open_status,
  is_pending_payout,
}
use new_sopet_backend.Payouts.Insert.{Omise, PayoutTables, save_payout}
use new_sopet_backend.Payouts.Settle.{PayoutEvent, answer_event, answer_all}
use new_sopet_backend.Payouts.Steps.{Moved, IsNew, Step, kept, added, saved, Steps, halt, further}
use new_sopet_backend.Payouts.Steps.Events.{answer_event-Steps}

abbrev pub OneOpenRows : List Payout → Type 0
OneOpenRows ps =
    (store_id : ℕ) (rail : PayoutSettlementRail) → count (is_pending_payout store_id rail) ps ≤ 1

-- The primary key of the payouts, whose ids are below the next one.
abbrev pub Keys : ℕ → List Payout → Type 0
Keys n [] = Unit
Keys n (p ∷ ps) = (any (λ (q : Payout). q.id == p.id) ps ≡ false) × (ltb p.id n ≡ true) × Keys n ps

pub record Sound (t : PayoutTables) : Type 0 where
  pub keys : Keys t.next_id t.payouts
  pub one : OneOpenRows t.payouts

any-save_payout :
    (n : ℕ) (q : Payout) (ps : List Payout)
    → any (λ (x : Payout). x.id == n) (save_payout q ps) ≡ any (λ (x : Payout). x.id == n) ps
any-save_payout n q [] = refl
any-save_payout n q (p ∷ ps) = elim (Bool-cases (p.id == q.id)) [
  | inl own ↦
      let e : p.id ≡ q.id = (==_iff p.id q.id).0 own in ground (arith, e, any-save_payout n q ps)
  | inr other ↦ ground (arith, any-save_payout n q ps)
]

save_payout-Keys : (n : ℕ) (q : Payout) (ps : List Payout) → Keys n ps → Keys n (save_payout q ps)
save_payout-Keys n q [] k = tt
save_payout-Keys n q (p ∷ ps) (fresh, below, k) = elim (Bool-cases (p.id == q.id)) [
  | inl own ↦
      let e : p.id ≡ q.id = (==_iff p.id q.id).0 own in
      rw own (
        any-save_payout q.id q ps ∙ subst (λ m. any (λ (x : Payout). x.id == m) ps ≡ false) e fresh,
        subst (λ m. ltb m n ≡ true) e below,
        save_payout-Keys n q ps k,
      )
  | inr other ↦ rw other (any-save_payout p.id q ps ∙ fresh, below, save_payout-Keys n q ps k)
]

save_payout-absent :
    (q : Payout) (ps : List Payout)
    → any (λ (x : Payout). x.id == q.id) ps ≡ false
    → save_payout q ps ≡ ps
save_payout-absent q [] h = refl
save_payout-absent q (p ∷ ps) h = ground (arith, save_payout-absent q ps)

-- A row whose open state is not new adds no open payout.
count-save_payout :
    (m t : Payout → Bool) (n : ℕ) (p q : Payout) (ps : List Payout)
    → Keys n ps
    → find t ps ≡ some p
    → q.id ≡ p.id
    → (m q ≡ true → m p ≡ true)
    → count m (save_payout q ps) ≤ count m ps
count-save_payout m t n p q [] k found e h = omega arith
count-save_payout m t n p q (x ∷ xs) (fresh, below, k) found e h = elim (Bool-cases (t x)) [
  | inl this ↦
      let same : x ≡ p = ground arith in
      let own : (x.id == q.id) ≡ true =
        (==_iff x.id q.id).1 (ap (λ (y : Payout). y.id) same ∙ sym e) in
      let gone : any (λ (y : Payout). y.id == q.id) xs ≡ false =
        subst (λ j. any (λ (y : Payout). y.id == j) xs ≡ false)
          (ap (λ (y : Payout). y.id) same ∙ sym e) fresh in
      let rest = save_payout-absent q xs gone in
      let was : m q ≡ true → m x ≡ true = λ o. subst (λ y. m y ≡ true) (sym same) (h o) in
      rw (own, rest) (ground (arith, was))
  | inr next ↦
      let later : find t xs ≡ some p = ground arith in
      let hit =
        find-any t (λ (y : Payout). y.id == q.id) xs p later ((==_iff p.id q.id).1 (sym e)) in
      elim (Bool-cases (x.id == q.id)) [
        | inl clash ↦
            let j : x.id ≡ q.id = (==_iff x.id q.id).0 clash in
            let bad : any (λ (y : Payout). y.id == q.id) xs ≡ false =
              subst (λ j. any (λ (y : Payout). y.id == j) xs ≡ false) j fresh in
            cc
        | inr other ↦ ground (arith, other, count-save_payout m t n p q xs k later e h)
      ]
]

any-append :
    (m : Payout → Bool) (ps : List Payout) (p : Payout) → any m (ps ++ p ∷ []) ≡ (any m ps || m p)
any-append m [] p = ground arith
any-append m (q ∷ qs) p = ground (arith, any-append m qs p)

append-Keys :
    (n : ℕ) (ps : List Payout) (p : Payout) → p.id ≡ n → Keys n ps → Keys (suc n) (ps ++ p ∷ [])
append-Keys n [] p e k = (refl, ground arith, tt)
append-Keys n (q ∷ qs) p e (fresh, below, k) = (
  any-append (λ (x : Payout). x.id == q.id) qs p ∙ ground arith,
  ground arith,
  append-Keys n qs p e k,
)

is_rail_lem : (r s : PayoutSettlementRail) → is_rail r s ≡ true → r ≡ s
is_rail_lem omise omise h = refl
is_rail_lem omise manual h = cc
is_rail_lem manual omise h = cc
is_rail_lem manual manual h = refl

is_pending_payout-own :
    (id : ℕ) (rail : PayoutSettlementRail) (p : Payout)
    → is_pending_payout id rail p ≡ true
    → (p.store_id ≡ id) × (p.settlement_rail ≡ rail)
is_pending_payout-own id rail p h =
    ((==_iff p.store_id id).0 (ground arith), is_rail_lem p.settlement_rail rail (ground arith))

append-OneOpenRows :
    (ps : List Payout) (p : Payout)
    → any (is_pending_payout p.store_id p.settlement_rail) ps ≡ false
    → OneOpenRows ps
    → OneOpenRows (ps ++ p ∷ [])
append-OneOpenRows ps p none_open one id rail =
    let m = is_pending_payout id rail in
    rw (count-append m ps (p ∷ [])) (elim (Bool-cases (is_pending_payout id rail p)) [
      | inl own ↦
          let (store, side) = is_pending_payout-own id rail p own in
          let free : any (is_pending_payout id rail) ps ≡ false =
            subst (λ j. any (is_pending_payout j rail) ps ≡ false) store
              (subst (λ r. any (is_pending_payout p.store_id r) ps ≡ false) side none_open) in
          rw (own, count-none m ps free) (omega arith)
      | inr not_own ↦ let before = one id rail in rw not_own (omega arith)
    ])

add-Sound :
    (t : PayoutTables) (ss : List Store) (p : Payout)
    → Sound t
    → IsNew t.next_id t.payouts p
    → Sound (record { stores = ss; payouts = t.payouts ++ p ∷ []; next_id = suc t.next_id })
add-Sound t ss p s (e, none_open) = record {
  keys = append-Keys t.next_id t.payouts p e s.keys;
  one = append-OneOpenRows t.payouts p none_open s.one;
}

-- The row of a pending payout is open for its store and rail alone.
Moved-open :
    (p q : Payout) (id : ℕ) (rail : PayoutSettlementRail)
    → is_open_status p.status ≡ true
    → Moved p q
    → is_pending_payout id rail q ≡ true
    → is_pending_payout id rail p ≡ true
Moved-open p q id rail o m h =
    let own : is_pending_payout id rail p
        ≡ (p.store_id == id && is_rail p.settlement_rail rail && true) =
      rw o refl in
    let (store, side) = is_pending_payout-own id rail q h in own ∙ ground (arith, m.store, side)

save-Sound :
    (t : PayoutTables) (ss : List Store) (test : Payout → Bool) (p q : Payout)
    → Sound t
    → find test t.payouts ≡ some p
    → is_open_status p.status ≡ true
    → Moved p q
    → Sound (record { stores = ss; payouts = save_payout q t.payouts; next_id = t.next_id })
save-Sound t ss test p q s found o m = record {
  keys = save_payout-Keys t.next_id q t.payouts s.keys;
  one = λ id rail.
      let before = s.one id rail in
      let less =
        count-save_payout (is_pending_payout id rail) test t.next_id p q t.payouts s.keys found m.id
          (Moved-open p q id rail o m) in
      omega (arith, before, less);
}

pub Step-Sound : (t u : PayoutTables) → Step t u → Sound t → Sound u
Step-Sound _ _ (kept t ss) s = record { keys = s.keys; one = s.one }
Step-Sound _ _ (added t ss p new) s = add-Sound t ss p s new
Step-Sound _ _ (saved t ss test p q found o m) s = save-Sound t ss test p q s found o m

pub Steps-Sound : (t u : PayoutTables) → Steps t u → Sound t → Sound u
Steps-Sound _ _ (halt t) s = s
Steps-Sound _ _ (further t u v one more) s = Steps-Sound u v more (Step-Sound t u one s)

-- Whatever payout requests, settlements, transfer events and scheduled runs come, the keys of the payouts stay unique and
-- no store ever has two open payouts on one rail, where this holds of the tables at the start.
pub answer_all-Sound :
    (c : Settings) (es : List (Omise × PayoutEvent)) (t : PayoutTables)
    → Sound t
    → Sound (answer_all c es t)
unfolding answer_all
answer_all-Sound c [] t sound = sound
answer_all-Sound c ((g, e) ∷ es) t sound =
    answer_all-Sound c es (answer_event c g e t)
      (Steps-Sound t _ (answer_event-Steps c g e t) sound)
