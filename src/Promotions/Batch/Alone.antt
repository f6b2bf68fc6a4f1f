-- ===== src/Promotions/Batch/Alone.antt =====
-- The memo of a batch changes no answer.
use new_sopet_backend.Prelude.{
  ℕ, ◌≡◌, inl, inr, refl, sym, ap, ◌∙◌, leb, Bool, not, ◌&&◌, Option, none, some, List, [], ◌∷◌,
  ◌==◌, if◌then◌else◌, arith, map, All, Bool-cases, Option-cases, ==_iff, find, length,
}
use new_sopet_backend.Prelude.Text.{Text, codes, text_eq, is_empty}
use new_sopet_backend.Prelude.Result.{Result, ok, err}
use new_sopet_backend.Promotions.Model.{
  Promotion, Customer, get, positive_integer, Tables, Identity, Options, Reason,
  invalid_validate_promotions_input,
}
use new_sopet_backend.Promotions.Gates.{
  GateEntry, enabled, count_paid_path, read_entry, judge_entry, find_customer, Memo, recall,
  gate_with_memo, gate_without_memo, evaluate_new_customer_gates,
}
use new_sopet_backend.Promotions.Code.{
  Check, stopped, passed, before_gates, after_gates, go_on, validate_code,
}
use new_sopet_backend.Promotions.Batch.{
  Target, EligibilityItem, Query, preview_options, code_or_empty, and_memo, soften, validate_softly,
  evaluate_resolved, evaluate_batch_target, evaluate_targets, validate_promotions_batch,
}

-- Every entry of the memo is what the tables say.
abbrev Fresh : Tables → Memo → Type 0
Fresh t = All (λ (e : ℕ × GateEntry). e.1 ≡ read_entry t e.0)

recall-Fresh :
    (t : Tables) (id : ℕ) (memo : Memo) (entry : GateEntry)
    → Fresh t memo
    → recall id memo ≡ some entry
    → entry ≡ read_entry t id
recall-Fresh t id [] entry f h = cc
recall-Fresh t id ((k, e) ∷ memo) entry f h = elim (Bool-cases (k == id)) [
  | inl this ↦
      let same : k ≡ id = (==_iff k id).0 this in
      let here : e ≡ entry = ground arith in cc (f.0, same, here)
  | inr next ↦ recall-Fresh t id memo entry f.1 (ground arith)
]

read_entry-none :
    (t : Tables) (id : ℕ)
    → find_customer t id ≡ none
    → read_entry t id ≡ record { created_at = none; paid_path_count = 0 }
unfolding read_entry
read_entry-none t id h = rw (h, read_entry) refl

read_entry-some :
    (t : Tables) (id : ℕ) (c : Customer)
    → find_customer t id ≡ some c
    → read_entry t id
      ≡ record { created_at = some c.created_at; paid_path_count = count_paid_path t id }
unfolding read_entry
read_entry-some t id c h = rw (h, read_entry) refl

judge_entry-read_entry :
    (t : Tables) (days : Option ℕ) (id now : ℕ)
    → judge_entry days (read_entry t id) now ≡ gate_without_memo t days id now
unfolding gate_without_memo
judge_entry-read_entry t days id now = elim (Option-cases (find_customer t id)) [
  | inl missing ↦ rw (read_entry-none t id missing) (rw (missing, gate_without_memo) refl)
  | inr (c, found) ↦ rw (read_entry-some t id c found) (rw (found, gate_without_memo) refl)
]

module _ (t : Tables) (days : Option ℕ) (id now : ℕ) (memo : Memo) (f : Fresh t memo) where
  -- Asking with the memo gives the answer without it, and leaves the memo true.
  gate_with_memo_lem :
      ((gate_with_memo t days id now memo).0 ≡ gate_without_memo t days id now)
      × Fresh t (gate_with_memo t days id now memo).1
  unfolding gate_with_memo
  gate_with_memo_lem = elim (Option-cases (recall id memo)) [
    | inl new ↦ rw (new, gate_with_memo) (judge_entry-read_entry t days id now, (refl, f))
    | inr (entry, known) ↦
        rw (known, gate_with_memo)
          (rw (recall-Fresh t id memo entry f known) (judge_entry-read_entry t days id now), f)
  ]

-- A memo that is passed is true, and an absent one needs nothing.
abbrev FreshOption : Tables → Option Memo → Type 0
FreshOption t none = Unit
FreshOption t (some memo) = Fresh t memo

module _ (t : Tables) (c : Identity) (now : ℕ) (memo : Memo) (f : Fresh t memo) where
  gates_lem :
      (p : Promotion)
      → ((evaluate_new_customer_gates t p c now (some memo)).0
          ≡ (evaluate_new_customer_gates t p c now none).0)
        × FreshOption t (evaluate_new_customer_gates t p c now (some memo)).1
  unfolding evaluate_new_customer_gates
  gates_lem p = elim (Option-cases (enabled (codes "newCustomer") p.conditions)) [
    | inl off ↦ rw (off, evaluate_new_customer_gates) (refl, f)
    | inr (fields, on) ↦ elim (Option-cases c.customer_id) [
      | inl nobody ↦ rw (on, nobody, evaluate_new_customer_gates) (refl, f)
      | inr (id, known) ↦
          rw (on, known, evaluate_new_customer_gates)
            (gate_with_memo_lem t (positive_integer (get (codes "nDays") fields)) id now memo f)
    ]
  ]

  validate_code-memo :
      (code : Text) (subtotal : ℕ) (store_id : Option ℕ) (o : Options)
      → ((validate_code t code subtotal store_id c o now (some memo)).0
          ≡ (validate_code t code subtotal store_id c o now none).0)
        × FreshOption t (validate_code t code subtotal store_id c o now (some memo)).1
  unfolding validate_code go_on
  validate_code-memo code subtotal store_id o = go (before_gates t code subtotal store_id c o now)
    where
      go :
          (r : Result Reason Check)
          → ((go_on t subtotal store_id c o now (some memo) r).0
              ≡ (go_on t subtotal store_id c o now none r).0)
            × FreshOption t (go_on t subtotal store_id c o now (some memo) r).1
      go (err e) = (refl, f)
      go (ok (stopped r)) = (refl, f)
      go (ok (passed p)) =
          (ap (λ reason. after_gates p reason subtotal store_id o) (gates_lem p).0, (gates_lem p).1)

and_memo-Fresh :
    (t : Tables) (m : Option Memo) (memo : Memo)
    → FreshOption t m
    → Fresh t memo
    → Fresh t (and_memo m memo)
and_memo-Fresh t none memo h f = f
and_memo-Fresh t (some m) memo h f = h

-- The answer `a` is `b`'s, and the memo that it leaves is true.
abbrev AsAlone : Tables → EligibilityItem × Memo → EligibilityItem × Memo → Type 0
AsAlone t a b = (a.0 ≡ b.0) × Fresh t a.1

module _ (t : Tables) (q : Query) (now : ℕ) (memo : Memo) (f : Fresh t memo) where
  validate_softly-AsAlone :
      (id : Option ℕ) (code : Text) (name : Option Text)
      → AsAlone t
          (validate_softly t q now memo id code name)
          (validate_softly t q now [] id code name)
  unfolding validate_softly
  validate_softly-AsAlone id code name =
      let (here, fresh) =
        validate_code-memo t q.customer now memo f code q.subtotal q.store_id (preview_options q) in
      let (alone, _) =
        validate_code-memo t q.customer now [] tt code q.subtotal q.store_id (preview_options q) in
      (ap (soften id code name) (here ∙ sym alone), and_memo-Fresh t _ memo fresh f)

  evaluate_resolved-AsAlone :
      (code : Option Text) (p : Promotion)
      → AsAlone t (evaluate_resolved t q now memo code p) (evaluate_resolved t q now [] code p)
  unfolding evaluate_resolved
  evaluate_resolved-AsAlone code p =
      let differs : Bool =
        not (is_empty (code_or_empty code)) && not (text_eq p.code (code_or_empty code)) in
      elim (Bool-cases differs) [
        | inl so ↦ rw (so, evaluate_resolved) (refl, f)
        | inr same ↦ elim (Bool-cases (not p.is_active)) [
          | inl so ↦ rw (same, so, evaluate_resolved) (refl, f)
          | inr active ↦ elim (Bool-cases (is_empty p.code)) [
            | inl so ↦ rw (same, active, so, evaluate_resolved) (refl, f)
            | inr named ↦
                rw (same, active, named, evaluate_resolved)
                  (validate_softly-AsAlone (some p.id) p.code (some p.name))
          ]
        ]
      ]

  evaluate_batch_target-AsAlone :
      (target : Target)
      → AsAlone t
          (evaluate_batch_target t q now memo target)
          (evaluate_batch_target t q now [] target)
  unfolding evaluate_batch_target
  evaluate_batch_target-AsAlone target = elim (Option-cases target.id) [
    | inl by_code ↦ elim (Bool-cases (is_empty (code_or_empty target.code))) [
      | inl blank ↦ rw (by_code, blank, evaluate_batch_target) (refl, f)
      | inr named ↦
          rw (by_code, named, evaluate_batch_target)
            (validate_softly-AsAlone none (code_or_empty target.code) none)
    ]
    | inr (id, by_id) ↦
        elim (Option-cases (find (λ (p : Promotion). p.id == id && not p.deleted) t.promotions)) [
          | inl missing ↦ rw (by_id, missing, evaluate_batch_target) (refl, f)
          | inr (p, found) ↦
              rw (by_id, found, evaluate_batch_target) (evaluate_resolved-AsAlone target.code p)
        ]
  ]

evaluate_targets-map :
    (t : Tables) (q : Query) (now : ℕ) (memo : Memo) (targets : List Target)
    → Fresh t memo
    → evaluate_targets t q now memo targets
      ≡ map (λ target. (evaluate_batch_target t q now [] target).0) targets
unfolding evaluate_targets
evaluate_targets-map t q now memo [] f = refl
evaluate_targets-map t q now memo (target ∷ targets) f =
    let (here, fresh) = evaluate_batch_target-AsAlone t q now memo f target in
    cc (
      here,
      evaluate_targets-map t q now (evaluate_batch_target t q now memo target).1 targets fresh,
    )

-- A batch of 1 to 20 targets answers each of them, in their order, as if it were asked alone with
-- an empty memo. A batch of another length is refused.
pub validate_promotions_batch_lem :
    (t : Tables) (q : Query) (now : ℕ) (targets : List Target)
    → validate_promotions_batch t q now targets ≡ (
        if leb 1 (length targets) && leb (length targets) 20
        then ok (map (λ target. (evaluate_batch_target t q now [] target).0) targets)
        else err invalid_validate_promotions_input)
unfolding validate_promotions_batch
validate_promotions_batch_lem t q now targets =
    rw (evaluate_targets-map t q now [] targets tt) (ground arith)
