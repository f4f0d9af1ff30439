-- ===== src/Monitoring/Sent.antt =====
-- What the channels and the API of internal/monitoring/monitoring.go get of the alerts.
use Prim.Native.Nat.{min}
use cogame.Base.{
  ℕ, ◌-◌, leb, pos, negsuc, String, List, [], ◌∷◌, ◌++◌, Option, none, some, length, take, ◌≡◌,
  refl, ap, All, arith, Bool-cases, inl, inr, length-drop, take-append-drop,
}
use cogame.Monitoring.Alerts.{
  AlertRule, Alert, AlertManager, send_all, triggers, alert_of, check_rule, check_each, check_rules,
  get_recent_alerts,
}
use cogame.Monitoring.Cooldown.{check_times}

-- Every channel has been sent the history.
abbrev pub IsSent : AlertManager → Type 0
IsSent am = All (λ (channel : List Alert). channel ≡ am.history) am.alert_channels

send_all-All :
    (alert : Alert) (history : List Alert) (channels : List (List Alert))
    → All (λ (channel : List Alert). channel ≡ history) channels
    → All (λ (channel : List Alert). channel ≡ history ++ (alert ∷ [])) (send_all alert channels)
unfolding send_all
send_all-All alert history [] h = tt
send_all-All alert history (channel ∷ channels) h =
    (ap (λ (c : List Alert). c ++ (alert ∷ [])) h.0, send_all-All alert history channels h.1)

check_rule-IsSent :
    (now : ℕ) (node_id node_type : String) (rule : AlertRule) (am : AlertManager)
    → IsSent am
    → IsSent (check_rule now node_id node_type rule am).1
unfolding check_rule
check_rule-IsSent now node_id node_type rule am h = elim (Bool-cases (triggers now rule)) [
  | inl alerted ↦
      rw alerted (send_all-All (alert_of now node_id node_type rule) am.history am.alert_channels h)
  | inr quiet ↦ rw quiet h
]

check_each-IsSent :
    (now : ℕ) (node_id node_type : String) (rules : List AlertRule) (am : AlertManager)
    → IsSent am
    → IsSent (check_each now node_id node_type rules am).1
unfolding check_each
check_each-IsSent now node_id node_type [] am h = h
check_each-IsSent now node_id node_type (rule ∷ rules) am h =
    check_each-IsSent now node_id node_type rules (check_rule now node_id node_type rule am).1
      (check_rule-IsSent now node_id node_type rule am h)

-- Channels that have been sent the whole history have been sent it after any checks of the rules:
-- no channel misses an alert, gets one twice or in another order.
pub check_times-IsSent :
    (times : List ℕ) (node_id node_type : String) (am : AlertManager)
    → IsSent am
    → IsSent (check_times times node_id node_type am)
unfolding check_times check_rules
check_times-IsSent [] node_id node_type am h = h
check_times-IsSent (now ∷ times) node_id node_type am h =
    check_times-IsSent times node_id node_type (check_rules now node_id node_type am)
      (check_each-IsSent now node_id node_type am.rules am h)

-- The end of a list, of a length.
abbrev pub IsEnd : ℕ → List Alert → Option (List Alert) → Type 0
IsEnd n history none = ⊥
IsEnd n history (some alerts) =
    (length alerts ≡ min n (length history)) × ((front : List Alert) × (front ++ alerts ≡ history))

recent-IsEnd :
    (am : AlertManager) (limit : ℕ) → IsEnd limit am.history (get_recent_alerts (pos limit) am)
unfolding get_recent_alerts
recent-IsEnd am limit =
    let front = length am.history - limit in
    elim (Bool-cases (leb (length am.history) limit)) [
      | inl few ↦ rw few (ground (arith, few), ([], refl))
      | inr many ↦ rw many (
        ground (arith, many, length-drop front am.history),
        (take front am.history, take-append-drop front am.history),
      )
    ]

-- GetRecentAlerts gives the last alerts, as many as the limit says or all there are; with a
-- negative limit it panics.
pub get_recent_alerts-IsEnd :
    (am : AlertManager)
    → ((limit : ℕ) → IsEnd limit am.history (get_recent_alerts (pos limit) am))
      × ((n : ℕ) → get_recent_alerts (negsuc n) am ≡ none)
unfolding get_recent_alerts
get_recent_alerts-IsEnd am = (λ limit. recent-IsEnd am limit, λ n. refl)
