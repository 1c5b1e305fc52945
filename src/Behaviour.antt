-- ===== src/Behaviour.antt =====
-- exchangesim/core/behaviour.py: the injected rules. The source shares a `Rule` object between the
-- store and the caller; here the rule's id names it, which the store draws fresh.
pub mod Rules
use exchange_sim.Prelude.{
  ℕ, suc, ◌-◌, String, Bool, true, false, not, ◌&&◌, ◌||◌, Option, none, some, List, [], ◌∷◌, ◌++◌,
  leb, ◌==◌, if◌then◌else◌, str_eq, length,
}
use exchange_sim.Enums.{RejectReason}
use exchange_sim.Orders.{Order}

pub data Action : Type 0 where
  reject delay drop : Action

abbrev pub same_action : Action → Action → Bool
same_action reject reject = true
same_action delay delay = true
same_action drop drop = true
same_action _ _ = false

pub record Rule : Type 0 where
  pub id : ℕ
  pub action : Action
  pub count : ℕ
  pub applied : ℕ
  pub session_key : Option String
  pub symbol : Option String
  pub market : Option String
  pub reason : Option RejectReason
  pub delay_ms : ℕ

-- A count of 0 is unlimited.
unfoldable pub exhausted : Rule → Bool
exhausted r = not (r.count == 0) && leb r.count r.applied

unfoldable pub remaining : Rule → Option ℕ
remaining r = if r.count == 0 then none else some (r.count - r.applied)

abbrev pub allows : Option String → String → Bool
allows none text = true
allows (some wanted) text = str_eq wanted text

unfoldable pub matches : Rule → Order → Bool
matches r o =
    if exhausted r
    then false
    else allows r.session_key o.session_key && allows r.symbol o.symbol && allows r.market o.market

unfoldable pub fire : Rule → Rule
fire r = record r { applied = suc r.applied }

pub record BehaviourStore : Type 0 where
  pub rules : List Rule
  pub next_id : ℕ

-- `add(action, **kwargs)`, from a rule that has what the arguments say.
unfoldable pub add : Rule → BehaviourStore → Rule × BehaviourStore
add r s =
    let rule = record r { id = s.next_id; applied = 0 } in
    (rule, record { rules = s.rules ++ rule ∷ []; next_id = suc s.next_id })

unfoldable pub remove_first : ℕ → List Rule → Bool × List Rule
remove_first id [] = (false, [])
remove_first id (r ∷ rs) =
    let (found, rest) = remove_first id rs in if r.id == id then (true, rs) else (found, r ∷ rest)

unfoldable pub remove : ℕ → BehaviourStore → Bool × BehaviourStore
remove id s = let (found, rules) = remove_first id s.rules in (found, record s { rules = rules })

unfoldable pub clear : BehaviourStore → ℕ × BehaviourStore
clear s = (length s.rules, record s { rules = [] })

unfoldable pub any_active : List Rule → Bool
any_active [] = false
any_active (r ∷ rs) = not (exhausted r) || any_active rs

abbrev pub active : BehaviourStore → Bool
active s = any_active s.rules

unfoldable pub find : Action → Order → List Rule → Option Rule
find action o [] = none
find action o (r ∷ rs) =
    let rest = find action o rs in
    if same_action r.action action && matches r o then some r else rest

-- `rule.fire()` on the object that the store holds.
unfoldable pub fire_rule : ℕ → List Rule → List Rule
fire_rule id [] = []
fire_rule id (r ∷ rs) = (if r.id == id then fire r else r) ∷ fire_rule id rs

unfoldable pub reap : List Rule → List Rule
reap [] = []
reap (r ∷ rs) = let rest = reap rs in if exhausted r then rest else r ∷ rest

unfoldable pub take : Action → Order → BehaviourStore → Option Rule × BehaviourStore
take action o s = elim (find action o s.rules) [
  | none ↦ (none, s)
  | some r ↦ (some (fire r), record s { rules = reap (fire_rule r.id s.rules) })
]
