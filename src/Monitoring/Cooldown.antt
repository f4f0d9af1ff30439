-- ===== src/Monitoring/Cooldown.antt =====
-- The cooldown of the rules of internal/monitoring/monitoring.go.
use cogame.Base.{ℕ, ◌≤◌, ◌-◌, String, str_eq, false, List, [], ◌∷◌, ◌++◌, if◌then◌else◌, ◌≡◌, All}
use cogame.Monitoring.Alerts.{AlertRule, Alert, AlertManager, check_rules}

-- The times of the alerts of a rule.
unfoldable pub timestamps : String → List Alert → List ℕ
timestamps name [] = []
timestamps name (a ∷ alerts) =
    let rest = timestamps name alerts in if str_eq a.rule name then a.timestamp ∷ rest else rest

-- Times of which each comes at least the cooldown after the one before it; the last one, or the
-- time to wait from, is `last`.
pub data Spaced (cooldown : ℕ) : List ℕ → ℕ → Type 0 where
  start : (last : ℕ) → Spaced cooldown [] last
  later :
      (times : List ℕ) (last now : ℕ)
      → Spaced cooldown times last
      → cooldown ≤ now - last
      → Spaced cooldown (times ++ (now ∷ [])) now

abbrev pub Cooled : List Alert → AlertRule → Type 0
Cooled history rule = Spaced rule.cooldown (timestamps rule.name history) rule.last_alert

-- No two rules have one name.
abbrev pub DistinctNames : List AlertRule → Type 0
DistinctNames [] = Unit
DistinctNames (rule ∷ rules) =
    All (λ other. str_eq other.name rule.name ≡ false) rules × DistinctNames rules

-- CheckRules at each of the times.
unfoldable pub check_times : List ℕ → String → String → AlertManager → AlertManager
check_times [] node_id node_type am = am
check_times (now ∷ times) node_id node_type am =
    check_times times node_id node_type (check_rules now node_id node_type am)
