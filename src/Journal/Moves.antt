-- ===== src/Journal/Moves.antt =====
-- execution_store.py: how the status of a decision moves when a document is edited.
use candle_mind.Json.Value.{Json}
use candle_mind.Json.Equal.{json_eq}
use candle_mind.Journal.Results.{with_result, same_result, resulted, set_result}
use candle_mind.Journal.Operations.{
  same_content, advanced, ready_for, ordered, placed, added, with_status, takes_orders,
  add_decision, advance_decision, add_order,
}
use candle_mind.Base.Table.{find-append, find_sound, find-update_where, change, opt_change, find}
use candle_mind.Base.Text.{text_eq_iff, text_eq, Text}
use candle_mind.Base.{
  [], ◌∷◌, ◌++◌, if◌then◌else◌, leb, or_else, not, ap, subst, split_if, ℕ, inr, ◌∙◌, inl, ◌||◌,
  refl, Bool-cases, false, none, arith, sym, true, List, Bool, some, ◌≡◌, Option,
}
use candle_mind.Journal.Store.{Edit, set_decision}
use candle_mind.Journal.Document.{
  status_of, is_terminal_result, Fault, has_ordinal, Report, Order, may_become, same_status,
  has_decision_id, DecisionStatus, Decision, Document, done, fault,
}

abbrev status_or : Option Decision → Option DecisionStatus
status_or none = none
status_or (some d) = some d.status

-- The status of a decision of the document.
abbrev pub status_in : Text → Document → Option DecisionStatus
status_in id doc = status_or (find (has_decision_id id) doc.decisions)

-- A decision that was there keeps its status, or moves along `_DECISION_TRANSITIONS`.
abbrev pub may_move : Option DecisionStatus → Option DecisionStatus → Bool
may_move none after = true
may_move (some s) none = false
may_move (some s) (some t) = same_status s t || may_become s t

abbrev pub Moves : Document → Document → Type 0
Moves doc doc' = (id : Text) → may_move (status_in id doc) (status_in id doc') ≡ true

-- What an edit leaves, if it leaves something to commit.
abbrev pub EditMoves : {A : Type 0} → Document → Edit A → Type 0
EditMoves doc (fault f) = true ≡ true
EditMoves doc (done (a, none)) = true ≡ true
EditMoves doc (done (a, some doc')) = Moves doc doc'

may_move_refl : (o : Option DecisionStatus) → may_move o o ≡ true
may_move_refl none = refl
may_move_refl (some s) = ground arith

same_key :
    (a b : Text) (x : Decision)
    → text_eq x.decision_id a ≡ true
    → text_eq x.decision_id b ≡ true
    → a ≡ b
same_key a b x ha hb = sym ((text_eq_iff x.decision_id a).0 ha) ∙ (text_eq_iff x.decision_id b).0 hb

-- To put a decision in its place changes no key.
same_found :
    (id : Text) (d x : Decision)
    → has_decision_id id (change (has_decision_id d.decision_id) (λ _. d) x) ≡ has_decision_id id x
same_found id d x = elim (Bool-cases (has_decision_id d.decision_id x)) [
  | inl here ↦ rw (here, (text_eq_iff x.decision_id d.decision_id).0 here) refl
  | inr elsewhere ↦ rw elsewhere refl
]

found-move :
    (id : Text) (d d' : Decision) (ds : List Decision) (o : Option Decision)
    → find (has_decision_id d'.decision_id) ds ≡ some d
    → find (has_decision_id id) ds ≡ o
    → may_move (some d.status) (some d'.status) ≡ true
    → may_move (status_or o) (status_or (opt_change (has_decision_id d'.decision_id) (λ _. d') o))
      ≡ true
found-move id d d' ds none there e move = refl
found-move id d d' ds (some x) there e move = elim (Bool-cases (has_decision_id d'.decision_id x)) [
  | inl here ↦
      let key = same_key d'.decision_id id x here (find_sound (has_decision_id id) ds e) in
      let found = subst (λ k. find (has_decision_id k) ds ≡ some d) key there in
      rw here (subst (λ s. may_move s (some d'.status) ≡ true) (ap status_or (sym found ∙ e)) move)
  | inr elsewhere ↦ rw elsewhere (may_move_refl (some x.status))
]

set_decision-Moves :
    (doc : Document) (d d' : Decision)
    → find (has_decision_id d'.decision_id) doc.decisions ≡ some d
    → may_move (some d.status) (some d'.status) ≡ true
    → Moves doc (set_decision d' doc)
unfolding set_decision
set_decision-Moves doc d d' there move id =
    rw
      (find-update_where (has_decision_id id) (has_decision_id d'.decision_id) (λ _. d')
        doc.decisions (same_found id d'))
      (found-move id d d' doc.decisions _ there refl move)

advanced-Moves :
    (d d' : Decision) (doc : Document) (o : Option Fault)
    → find (has_decision_id d'.decision_id) doc.decisions ≡ some d
    → may_move (some d.status) (some d'.status) ≡ true
    → EditMoves doc (advanced d' doc o)
advanced-Moves d d' doc (some f) there move = refl
advanced-Moves d d' doc none there move = set_decision-Moves doc d d' there move

advance_decision-Moves :
    (status : DecisionStatus) (error : Option Text) (at : Text) (doc : Document) (d : Decision)
    → find (has_decision_id d.decision_id) doc.decisions ≡ some d
    → EditMoves doc (advance_decision status error at doc d)
unfolding advance_decision
advance_decision-Moves status error at doc d there =
    split_if (EditMoves doc) (same_status d.status status) (λ _. refl)
      λ differs.
        split_if (EditMoves doc) (not (may_become d.status status)) (λ _. refl)
          λ allowed.
            advanced-Moves d (with_status status error at d) doc (ready_for status d) there
              (ground (arith, allowed))

takes_orders-moves :
    (at : Text) (d d1 : Decision)
    → takes_orders at d ≡ some d1
    → (d1.decision_id ≡ d.decision_id) × (may_move (some d.status) (some d1.status) ≡ true)
takes_orders-moves at d d1 h = ground arith

placed-Moves :
    (new : Order) (doc : Document) (d d1 : Decision) (o : Option Order)
    → find (has_decision_id d1.decision_id) doc.decisions ≡ some d
    → may_move (some d.status) (some d1.status) ≡ true
    → EditMoves doc (placed new doc d1 o)
placed-Moves new doc d d1 (some existing) there move =
    split_if (EditMoves doc) (json_eq (Json.obj existing.request) (Json.obj new.request))
      (λ _. refl) (λ _. refl)
placed-Moves new doc d d1 none there move =
    set_decision-Moves doc d (record d1 { orders = d1.orders ++ new ∷ [] }) there move

ordered-Moves :
    (new : Order) (at : Text) (doc : Document) (d : Decision) (o : Option Decision)
    → takes_orders at d ≡ o
    → find (has_decision_id d.decision_id) doc.decisions ≡ some d
    → EditMoves doc (ordered new doc o)
ordered-Moves new at doc d none e there = refl
ordered-Moves new at doc d (some d1) e there =
    let (key, move) = takes_orders-moves at d d1 e in
    split_if (EditMoves doc) (leb d1.expected_order_count new.ordinal) (λ _. refl)
      λ _. placed-Moves new doc d d1 _ (rw key there) move

add_order-Moves :
    (o : Order) (at : Text) (doc : Document) (d : Decision)
    → find (has_decision_id d.decision_id) doc.decisions ≡ some d
    → EditMoves doc (add_order o at doc d)
unfolding add_order
add_order-Moves o at doc d there = ordered-Moves o at doc d (takes_orders at d) refl there

resulted-Moves :
    (n : ℕ) (r : Report) (doc : Document) (d : Decision) (o : Option Order)
    → find (has_decision_id d.decision_id) doc.decisions ≡ some d
    → EditMoves doc (resulted n r doc d o)
resulted-Moves n r doc d none there = refl
resulted-Moves n r doc d (some o) there =
    split_if (EditMoves doc) (same_result o.result r) (λ _. refl)
      λ _.
        split_if (EditMoves doc) (is_terminal_result (status_of o.result)) (λ _. refl)
          λ _. set_decision-Moves doc d (with_result n r d) there (may_move_refl (some d.status))

appended-move : (o p : Option Decision) → may_move (status_or o) (status_or (or_else o p)) ≡ true
appended-move none p = refl
appended-move (some d) p = may_move_refl (some d.status)

added-Moves :
    (new : Decision) (doc : Document) (o : Option Decision) → EditMoves doc (added new doc o)
added-Moves new doc (some existing) =
    split_if (EditMoves doc) (same_content existing new) (λ _. refl) (λ _. refl)
added-Moves new doc none = λ id. rw (find-append (has_decision_id id) doc.decisions new) (
    appended-move (find (has_decision_id id) doc.decisions)
      (if has_decision_id id new then some new else none))

-- The four edits of a document, of a decision that it holds under its own id, let no status move but
-- along `_DECISION_TRANSITIONS`: whatever decision is looked up before and after, it keeps its status
-- or takes one of those that its status allows, and so a committed, failed or recovery_required
-- decision keeps its status; and no decision is lost.
pub edits-Moves :
    (doc : Document) (d : Decision)
    → find (has_decision_id d.decision_id) doc.decisions ≡ some d
    → ((new : Decision) → EditMoves doc (add_decision new doc))
      × ((status : DecisionStatus) (error : Option Text) (at : Text)
          → EditMoves doc (advance_decision status error at doc d))
      × ((o : Order) (at : Text) → EditMoves doc (add_order o at doc d))
      × ((n : ℕ) (r : Report) → EditMoves doc (set_result n r doc d))
unfolding add_decision set_result
edits-Moves doc d there = (
  λ new. added-Moves new doc (find (has_decision_id new.decision_id) doc.decisions),
  λ status error at. advance_decision-Moves status error at doc d there,
  λ o at. add_order-Moves o at doc d there,
  λ n r. resulted-Moves n r doc d (find (has_ordinal n) d.orders) there,
)
