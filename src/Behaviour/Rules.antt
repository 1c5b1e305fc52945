-- ===== src/Behaviour/Rules.antt =====
-- What the rules of exchangesim/core/behaviour.py promise.
use exchange_sim.Prelude.{
  ℕ, ◌≡◌, refl, sym, subst, ap, ◌∙◌, ◌⊎◌, inl, inr, none, some, List, [], ◌∷◌, true, false, ◌&&◌,
  arith, Option-cases, Bool-cases, ◌==◌, if◌then◌else◌, if_cases, ◌++◌,
}
use exchange_sim.Orders.{Order}
use exchange_sim.Behaviour.{
  Action, same_action, Rule, BehaviourStore, exhausted, matches, fire, find, fire_rule, reap, take,
}

pub take-none :
    (x : Action) (o : Order) (s : BehaviourStore) → find x o s.rules ≡ none → take x o s ≡ (none, s)
unfolding take
take-none x o s h = ground arith

pub take-some :
    (x : Action) (o : Order) (s : BehaviourStore) (r : Rule)
    → find x o s.rules ≡ some r
    → take x o s ≡ (some (fire r), record s { rules = reap (fire_rule r.id s.rules) })
unfolding take
take-some x o s r h = ground arith

self_eq : (a : ℕ) → (a == a) ≡ true
self_eq a = ground arith

unfoldable pub Lacks : ℕ → List Rule → Type 0
Lacks id [] = Unit {0}
Lacks id (r ∷ rs) = ((r.id == id) ≡ false) × Lacks id rs

-- No rule of the store is exhausted, and their ids are different.
unfoldable pub IsKept : List Rule → Type 0
IsKept [] = Unit {0}
IsKept (r ∷ rs) = (exhausted r ≡ false) × Lacks r.id rs × IsKept rs

fire_rule-Lacks : (id : ℕ) (rs : List Rule) → Lacks id rs → fire_rule id rs ≡ rs
unfolding fire_rule Lacks
fire_rule-Lacks id [] l = refl
fire_rule-Lacks id (r ∷ rs) (n, l) = simp (n, fire_rule-Lacks id rs l) refl

reap-IsKept : (rs : List Rule) → IsKept rs → reap rs ≡ rs
unfolding reap IsKept
reap-IsKept [] k = refl
reap-IsKept (r ∷ rs) (n, _, k) = simp (n, reap-IsKept rs k) refl

Lacks-reap : (id k : ℕ) (rs : List Rule) → Lacks id rs → Lacks id (reap (fire_rule k rs))
unfolding reap fire_rule Lacks fire
Lacks-reap id k [] l = tt
Lacks-reap id k (r ∷ rs) (n, l) =
    if_cases (Lacks id) (exhausted (if r.id == k then fire r else r)) _ _
      (λ _. Lacks-reap id k rs l) (λ _. unfold Lacks in (ground (arith, n), Lacks-reap id k rs l))

abbrev fired : ℕ → Rule → Rule
fired k r = if r.id == k then fire r else r

fired_id : (k : ℕ) (r : Rule) → (fired k r).id ≡ r.id
unfolding fire
fired_id k r = ground arith

IsKept-reap : (k : ℕ) (rs : List Rule) → IsKept rs → IsKept (reap (fire_rule k rs))
unfolding reap fire_rule IsKept fire
IsKept-reap k [] h = tt
IsKept-reap k (r ∷ rs) (n, l, h) =
    if_cases IsKept (exhausted (fired k r)) (reap (fire_rule k rs))
      (fired k r ∷ reap (fire_rule k rs)) (λ _. IsKept-reap k rs h)
      (λ e. (
        e,
        subst (λ i. Lacks i (reap (fire_rule k rs))) (sym (fired_id k r)) (Lacks-reap r.id k rs l),
        IsKept-reap k rs h,
      ))

-- The rule after it has fired, unless that was the last time.
abbrev pub kept : Rule → List Rule → List Rule
kept r rs = if exhausted r then rs else r ∷ rs

pub record Takes (x : Action) (o : Order) (rules : List Rule) (r : Rule) (rest : List Rule)
    : Type 0 where
  pub before : List Rule
  pub after : List Rule
  pub split : rules ≡ before ++ r ∷ after
  pub skipped : find x o before ≡ none
  pub chosen : (same_action r.action x && matches r o) ≡ true
  pub left : rest ≡ before ++ kept (fire r) after

Takes-here :
    (x : Action) (o : Order) (r : Rule) (rs : List Rule)
    → IsKept (r ∷ rs)
    → (same_action r.action x && matches r o) ≡ true
    → Takes x o (r ∷ rs) r (reap (fire_rule r.id (r ∷ rs)))
Takes-here x o r rs k hit = record {
  before = [];
  after = rs;
  split = refl;
  skipped = unfold find in refl;
  chosen = hit;
  left =
      unfold IsKept reap fire_rule in
      (simp (self_eq r.id, fire_rule-Lacks r.id rs k.1, reap-IsKept rs k.2) refl);
}

Lacks-at :
    (id : ℕ) (before : List Rule) (r : Rule) (after : List Rule)
    → Lacks id (before ++ r ∷ after)
    → (r.id == id) ≡ false
unfolding Lacks
Lacks-at id [] r after l = l.0
Lacks-at id (q ∷ before) r after l = Lacks-at id before r after l.1

reap-stays :
    (q r : Rule) (rs : List Rule)
    → IsKept (q ∷ rs)
    → (r.id == q.id) ≡ false
    → reap (fire_rule r.id (q ∷ rs)) ≡ q ∷ reap (fire_rule r.id rs)
unfolding IsKept fire_rule reap
reap-stays q r rs k other = ground (arith, k.0, other)

-- One more rule stands before those that were searched, and is passed over.
Takes-later :
    (x : Action) (o : Order) (q r : Rule) (rs : List Rule)
    → IsKept (q ∷ rs)
    → (same_action q.action x && matches q o) ≡ false
    → Takes x o rs r (reap (fire_rule r.id rs))
    → Takes x o (q ∷ rs) r (reap (fire_rule r.id (q ∷ rs)))
Takes-later x o q r rs k miss t =
    let lacks = subst (Lacks q.id) t.split (unfold IsKept in k.1) in
    let other = Lacks-at q.id t.before r t.after lacks in
    record {
      before = q ∷ t.before;
      after = t.after;
      split = ap (◌∷◌ q) t.split;
      skipped = unfold find in (simp (miss, t.skipped) refl);
      chosen = t.chosen;
      left = reap-stays q r rs k other ∙ ap (◌∷◌ q) t.left;
    }

find-Takes :
    (x : Action) (o : Order) (rules : List Rule) (r : Rule)
    → IsKept rules
    → find x o rules ≡ some r
    → Takes x o rules r (reap (fire_rule r.id rules))
unfolding find
find-Takes x o [] r k h = absurd (cc)
find-Takes x o (q ∷ rs) r k h = elim (Bool-cases (same_action q.action x && matches q o)) [
  | inl hit ↦
      subst (λ c. Takes x o (q ∷ rs) c (reap (fire_rule c.id (q ∷ rs)))) (ground arith)
        (Takes-here x o q rs k hit)
  | inr miss ↦
      Takes-later x o q r rs k miss (find-Takes x o rs r (unfold IsKept in k.2) (ground arith))
]

pub record Taken (x : Action) (o : Order) (s : BehaviourStore) : Type 0 where
  pub rule : Rule
  pub returned : (take x o s).0 ≡ some (fire rule)
  pub takes : Takes x o s.rules rule (take x o s).1.rules
  pub stays_kept : IsKept (take x o s).1.rules

-- With no exhausted rule in the store and no two rules of one id, `take` finds nothing and changes nothing, or it fires exactly
-- the first rule that matches: every other rule stays as and where it was, the fired one too unless
-- that was its last time, and no exhausted rule is left.
pub take_lem :
    (x : Action) (o : Order) (s : BehaviourStore)
    → IsKept s.rules
    → ((find x o s.rules ≡ none) × (take x o s ≡ (none, s))) ⊎ Taken x o s
take_lem x o s k = elim (Option-cases (find x o s.rules)) [
  | inl n ↦ inl (n, take-none x o s n)
  | inr (r, h) ↦
      let done = take-some x o s r h in
      let rest = ap (λ t. t.1.rules) done in
      inr (record {
        rule = r;
        returned = ap (λ t. t.0) done;
        takes = subst (Takes x o s.rules r) (sym rest) (find-Takes x o s.rules r k h);
        stays_kept = subst IsKept (sym rest) (IsKept-reap r.id s.rules k);
      })
]
