-- ===== src/Payouts/Closed.antt =====
-- Rows of modules/payouts/payouts.service.ts that are completed or failed.
use new_sopet_backend.Prelude.{
  ℕ, ◌≡◌, refl, sym, ap, ◌∙◌, Bool, true, false, inl, inr, some, List, [], ◌∷◌, ◌++◌, arith, ◌==◌,
  find, find-any, Bool-cases, ==_iff, subst,
}
use new_sopet_backend.Payouts.{Payout, Settings, is_open_status}
use new_sopet_backend.Payouts.Insert.{Omise, PayoutTables, save_payout}
use new_sopet_backend.Payouts.Settle.{PayoutEvent, answer_event, answer_all}
use new_sopet_backend.Payouts.Steps.{Step, kept, added, saved, Steps, halt, further}
use new_sopet_backend.Payouts.Steps.Events.{answer_event-Steps}
use new_sopet_backend.Payouts.OneOpen.{Keys, Sound, Step-Sound, Steps-Sound}

abbrev has_id : ℕ → Payout → Bool
has_id id p = p.id == id

find-append :
    (m : Payout → Bool) (ps qs : List Payout) (p : Payout)
    → find m ps ≡ some p
    → find m (ps ++ qs) ≡ some p
find-append m [] qs p h = cc
find-append m (x ∷ xs) qs p h = elim (Bool-cases (m x)) [
  | inl this ↦ rw this (ground arith)
  | inr next ↦ rw next (find-append m xs qs p (ground arith))
]

find-save_payout :
    (id : ℕ) (q : Payout) (ps : List Payout)
    → (q.id == id) ≡ false
    → find (has_id id) (save_payout q ps) ≡ find (has_id id) ps
find-save_payout id q [] h = refl
find-save_payout id q (x ∷ xs) h = elim (Bool-cases (x.id == q.id)) [
  | inl own ↦
      let e : x.id ≡ q.id = (==_iff x.id q.id).0 own in
      let away : (x.id == id) ≡ false = ap (λ j. j == id) e ∙ h in
      rw (own, h, away) (find-save_payout id q xs h)
  | inr other ↦ elim (Bool-cases (x.id == id)) [
    | inl this ↦ rw (other, this) refl
    | inr next ↦ rw (other, next) (find-save_payout id q xs h)
  ]
]

-- What any test finds is found by its id.
find-key :
    (n : ℕ) (m : Payout → Bool) (ps : List Payout) (p : Payout)
    → Keys n ps
    → find m ps ≡ some p
    → find (has_id p.id) ps ≡ some p
find-key n m [] p k h = cc
find-key n m (x ∷ xs) p (fresh, below, k) h = elim (Bool-cases (m x)) [
  | inl this ↦
      let same : x ≡ p = ground arith in
      let own : (x.id == p.id) ≡ true = (==_iff x.id p.id).1 (ap (λ (y : Payout). y.id) same) in
      rw own (ap (λ y. some y) same)
  | inr next ↦
      let later : find m xs ≡ some p = ground arith in
      elim (Bool-cases (x.id == p.id)) [
        | inl clash ↦
            let hit =
              find-any m (has_id x.id) xs p later
                ((==_iff p.id x.id).1 (sym ((==_iff x.id p.id).0 clash))) in
            cc
        | inr other ↦ rw other (find-key n m xs p k later)
      ]
]

Step-closed :
    (t u : PayoutTables) (id : ℕ) (p : Payout)
    → Step t u
    → Sound t
    → find (has_id id) t.payouts ≡ some p
    → is_open_status p.status ≡ false
    → find (has_id id) u.payouts ≡ some p
Step-closed _ _ id p (kept t ss) s found shut = found
Step-closed _ _ id p (added t ss q new) s found shut =
    find-append (has_id id) t.payouts (q ∷ []) p found
Step-closed _ _ id p (saved t ss test r q hit o m) s found shut = elim (Bool-cases (q.id == id)) [
  | inl own ↦
      let key : find (has_id r.id) t.payouts ≡ some r =
        find-key t.next_id test t.payouts r s.keys hit in
      let e : r.id ≡ id = sym m.id ∙ (==_iff q.id id).0 own in
      let here : find (has_id id) t.payouts ≡ some r =
        subst (λ j. find (has_id j) t.payouts ≡ some r) e key in
      let same : r ≡ p = cc (here, found) in
      let clash : is_open_status p.status ≡ true =
        subst (λ (y : Payout). is_open_status y.status ≡ true) same o in
      cc
  | inr other ↦ find-save_payout id q t.payouts other ∙ found
]

Steps-closed :
    (t u : PayoutTables) (id : ℕ) (p : Payout)
    → Steps t u
    → Sound t
    → find (has_id id) t.payouts ≡ some p
    → is_open_status p.status ≡ false
    → find (has_id id) u.payouts ≡ some p
Steps-closed _ _ id p (halt t) s found shut = found
Steps-closed _ _ id p (further t u v one more) s found shut =
    Steps-closed u v id p more (Step-Sound t u one s) (Step-closed t u id p one s found shut) shut

-- A payout that is completed or failed is never written again, whatever requests, settlements,
-- transfer events and scheduled runs come, where the tables are sound at the start.
pub answer_all-closed :
    (c : Settings) (es : List (Omise × PayoutEvent)) (t : PayoutTables) (id : ℕ) (p : Payout)
    → Sound t
    → find (λ (x : Payout). x.id == id) t.payouts ≡ some p
    → is_open_status p.status ≡ false
    → find (λ (x : Payout). x.id == id) (answer_all c es t).payouts ≡ some p
unfolding answer_all
answer_all-closed c [] t id p s found shut = found
answer_all-closed c ((g, e) ∷ es) t id p s found shut =
    let steps = answer_event-Steps c g e t in
    answer_all-closed c es (answer_event c g e t) id p (Steps-Sound t _ steps s)
      (Steps-closed t _ id p steps s found shut) shut
