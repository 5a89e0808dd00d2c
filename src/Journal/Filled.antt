-- ===== src/Journal/Filled.antt =====
-- execution_store.py: what the validation of a saved document says of its decisions.
use candle_mind.Journal.Store.{blank, File}
use candle_mind.Base.Text.{Text}
use candle_mind.Journal.Calls.{after_calls, Dated}
use candle_mind.Journal.Saved.{IsSaved, AllSaved}
use candle_mind.Journal.Histories.{after_calls-Saved}
use candle_mind.Base.{
  refl, inr, false, [], inl, Bool-cases, not, ◌∷◌, Option-cases, any, arith, List, Option, some,
  leb, none, true, is_some, All, ◌≡◌, length,
}
use candle_mind.Journal.Validate.{
  compare_quantities, check_status, validate_document, validate_commit_ready, validate_decisions,
  check_quantities, validate_decision, quantity_filled, requested_quantity, same_counters,
  compare_filled, has_all,
}
use candle_mind.Json.Decimal.{is_positive_decimal, Decimal, decimal_eq}
use candle_mind.Journal.Document.{
  is_filled, ResultStatus, status_of, Order, Document, DecisionStatus, Decision, derive_counters,
}

-- Both quantities are numbers, the requested one is positive, and they are equal.
abbrev pub SameQuantity : Option Decimal → Option Decimal → Type 0
SameQuantity r q =
    (requested : Decimal) × (quantity : Decimal) × (r ≡ some requested)
    × (q ≡ some quantity)
    × (is_positive_decimal requested ≡ true)
    × (decimal_eq quantity requested ≡ true)

-- The order is filled, for the quantity that was asked for, which is positive.
abbrev pub IsFilled : Order → Type 0
IsFilled o =
    (status_of o.result ≡ ResultStatus.filled)
    × SameQuantity (requested_quantity o) (quantity_filled o.result)

-- Each expected order was made, no other was, and all are filled.
abbrev pub IsExecuted : Decision → Type 0
IsExecuted d =
    (length d.orders ≡ d.expected_order_count)
    × (has_all d.expected_order_count d.orders ≡ true)
    × All IsFilled d.orders

-- A committed decision is executed; a failed one says why; a prepared one has no order.
abbrev pub IsHonest : Decision → DecisionStatus → Type 0
IsHonest d DecisionStatus.committed = IsExecuted d
IsHonest d DecisionStatus.failed = is_some d.failure ≡ true
IsHonest d DecisionStatus.prepared = length d.orders ≡ 0
IsHonest d _ = leb (length d.orders) d.expected_order_count ≡ true

abbrev pub IsHonestDecision : Decision → Type 0
IsHonestDecision d = IsHonest d d.status

-- The counters of a document are those of its decisions.
abbrev pub IsHonestDocument : Document → Type 0
IsHonestDocument doc =
    All IsHonestDecision doc.decisions
    × (same_counters doc.counters (derive_counters doc.decisions) ≡ true)

compare_filled-equal : (r q : Decimal) → compare_filled r q ≡ none → decimal_eq q r ≡ true
compare_filled-equal r (Decimal.number s c e) h = ground arith
compare_filled-equal r Decimal.infinite h = ground arith
compare_filled-equal r Decimal.nan h = ground arith
compare_filled-equal r Decimal.snan h = ground arith

compare_quantities-equal : (r q : Option Decimal) → compare_quantities r q ≡ none → SameQuantity r q
compare_quantities-equal none q h = ground arith
compare_quantities-equal (some r) none h = ground arith
compare_quantities-equal (some r) (some q) h = elim (Bool-cases (is_positive_decimal r)) [
  | inl positive ↦ (r, q, refl, refl, positive, compare_filled-equal r q (ground (arith, positive)))
  | inr refused_quantity ↦ ground (arith, refused_quantity)
]

is_filled_sound : (s : ResultStatus) → is_filled s ≡ true → s ≡ ResultStatus.filled
is_filled_sound s h = ground arith

check_quantities-IsFilled :
    (os : List Order)
    → any (λ o. not (is_filled (status_of o.result))) os ≡ false
    → check_quantities os ≡ none
    → All IsFilled os
unfolding check_quantities
check_quantities-IsFilled [] a h = tt
check_quantities-IsFilled (o ∷ os) a h =
    elim (Option-cases (compare_quantities (requested_quantity o) (quantity_filled o.result))) [
      | inl equal ↦ (
        (
          is_filled_sound (status_of o.result) (ground arith),
          compare_quantities-equal (requested_quantity o) (quantity_filled o.result) equal,
        ),
        check_quantities-IsFilled os (ground arith) (ground (arith, equal)),
      )
      | inr (f, differs) ↦ ground (arith, differs)
    ]

validate_commit_ready-IsExecuted : (d : Decision) → validate_commit_ready d ≡ none → IsExecuted d
unfolding validate_commit_ready
validate_commit_ready-IsExecuted d h = ground (arith, check_quantities-IsFilled d.orders)

check_status-IsHonest :
    (d : Decision) (s : DecisionStatus)
    → leb (length d.orders) d.expected_order_count ≡ true
    → check_status d s ≡ none
    → IsHonest d s
check_status-IsHonest d DecisionStatus.prepared b h = ground arith
check_status-IsHonest d DecisionStatus.executing b h = b
check_status-IsHonest d DecisionStatus.recovery_required b h = b
check_status-IsHonest d DecisionStatus.failed b h = ground arith
check_status-IsHonest d DecisionStatus.committed b h =
    elim (Option-cases (validate_commit_ready d)) [
      | inl ready ↦ validate_commit_ready-IsExecuted d ready
      | inr (f, unready) ↦ ground (arith, unready)
    ]

validate_decision-IsHonest : (d : Decision) → validate_decision d ≡ none → IsHonestDecision d
unfolding validate_decision
validate_decision-IsHonest d h = check_status-IsHonest d d.status (ground arith) (ground arith)

validate_decisions-IsHonest :
    (ds : List Decision) → validate_decisions ds ≡ none → All IsHonestDecision ds
unfolding validate_decisions
validate_decisions-IsHonest [] h = tt
validate_decisions-IsHonest (d ∷ ds) h = elim (Option-cases (validate_decision d)) [
  | inl valid ↦
      (validate_decision-IsHonest d valid, validate_decisions-IsHonest ds (ground (arith, valid)))
  | inr (f, invalid) ↦ ground (arith, invalid)
]

validate_document-IsHonest :
    (network symbol : Text) (doc : Document)
    → validate_document network symbol doc ≡ none
    → IsHonestDocument doc
unfolding validate_document
validate_document-IsHonest network symbol doc h =
    ground (arith, validate_decisions-IsHonest doc.decisions)

files-IsHonest : (fs : List File) → All IsSaved fs → All (λ f. IsHonestDocument f.document) fs
files-IsHonest [] h = tt
files-IsHonest (f ∷ fs) h =
    (validate_document-IsHonest f.network f.symbol f.document h.0, files-IsHonest fs h.1)

-- After every history of calls on an empty disk, whatever they return or raise, every document on the
-- disk or in the archive is honest: each committed decision has exactly its expected orders, each of
-- them filled for the quantity that was asked for, which is positive; each failed decision says why;
-- a prepared decision has no order; and the counters are those of the decisions.
pub after_calls-IsHonest :
    (l : List Dated)
    → All (λ f. IsHonestDocument f.document) (after_calls l blank).files
      × All (λ f. IsHonestDocument f.document) (after_calls l blank).archived
unfolding AllSaved
after_calls-IsHonest l =
    let (files, archived) = after_calls-Saved l blank (tt, tt) in
    (files-IsHonest _ files, files-IsHonest _ archived)
