-- ===== src/Monitoring/Alerts.antt =====
-- internal/monitoring/monitoring.go: AlertManager. A condition is a function of the time at which
-- it is asked; a channel is what it has been sent, since nothing depends on the error of Send.
use Prim.Native.String.{◌++◌ as str_append}
use cogame.Base.{
  ℕ, ◌-◌, ◌/◌, ltb, leb, ℤ, pos, negsuc, String, Bool, ◌&&◌, not, List, [], ◌∷◌, ◌++◌, Option, none,
  some, length, drop, decimal, if◌then◌else◌,
}

pub record AlertRule : Type 0 where
  pub name : String
  pub condition : ℕ → Bool
  pub message : String
  pub level : ℤ
  pub cooldown : ℕ
  pub last_alert : ℕ

pub record Alert : Type 0 where
  pub id : String
  pub rule : String
  pub level : ℤ
  pub message : String
  pub timestamp : ℕ
  pub node_id : String
  pub node_type : String

pub record AlertManager : Type 0 where
  pub rules : List AlertRule
  pub alert_channels : List (List Alert)
  pub history : List Alert

unfoldable pub new_alert_manager : AlertManager
new_alert_manager = record { rules = []; alert_channels = []; history = [] }

unfoldable pub add_rule : AlertRule → AlertManager → AlertManager
add_rule rule am = record am { rules = am.rules ++ (rule ∷ []) }

unfoldable pub add_channel : List Alert → AlertManager → AlertManager
add_channel channel am = record am { alert_channels = am.alert_channels ++ (channel ∷ []) }

-- am.history[len-limit:], which panics for a negative limit: `none`.
unfoldable pub get_recent_alerts : ℤ → AlertManager → Option (List Alert)
get_recent_alerts (pos limit) am =
    if leb (length am.history) limit
    then some am.history
    else some (drop (length am.history - limit) am.history)
get_recent_alerts (negsuc n) am = none

-- Whether the rule is out of its cooldown and its condition holds; the clock does not go back.
unfoldable pub triggers : ℕ → AlertRule → Bool
triggers now rule = not (ltb (now - rule.last_alert) rule.cooldown) && rule.condition now

-- Times are nanoseconds; the id has the seconds.
unfoldable pub alert_of : ℕ → String → String → AlertRule → Alert
unfolding decimal
alert_of now node_id node_type rule = record {
  id = str_append (str_append rule.name "_") (decimal (now / 1000000000));
  rule = rule.name;
  level = rule.level;
  message = rule.message;
  timestamp = now;
  node_id = node_id;
  node_type = node_type;
}

-- The loop over the channels.
unfoldable pub send_all : Alert → List (List Alert) → List (List Alert)
send_all alert [] = []
send_all alert (channel ∷ channels) = (channel ++ (alert ∷ [])) ∷ send_all alert channels

-- One turn of the loop over the rules.
unfoldable pub check_rule :
    ℕ → String → String → AlertRule → AlertManager → AlertRule × AlertManager
unfolding triggers alert_of send_all
check_rule now node_id node_type rule am =
    let alert = alert_of now node_id node_type rule in
    if triggers now rule
    then (
      record rule { last_alert = now },
      record am {
        alert_channels = send_all alert am.alert_channels;
        history = am.history ++ (alert ∷ []);
      },
    )
    else (rule, am)

-- The loop over the rules: the rules after it, and the manager without them.
unfoldable pub check_each :
    ℕ → String → String → List AlertRule → AlertManager → List AlertRule × AlertManager
unfolding check_rule
check_each now node_id node_type [] am = ([], am)
check_each now node_id node_type (rule ∷ rules) am =
    let (rule1, am1) = check_rule now node_id node_type rule am in
    let (rules1, am2) = check_each now node_id node_type rules am1 in (rule1 ∷ rules1, am2)

unfoldable pub check_rules : ℕ → String → String → AlertManager → AlertManager
unfolding check_each
check_rules now node_id node_type am =
    let (rules, am1) = check_each now node_id node_type am.rules am in record am1 { rules = rules }
