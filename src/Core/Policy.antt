-- ===== src/Core/Policy.antt =====
-- crates/fluxsync-core/src/policy.rs: the clipboard firewall and the derived status.
use fluxsync.Base.{ℕ, ◌≤◌, ◌≡◌, ◌≢◌, Bool, false, ltb, if◌then◌else◌, max, arith}
use fluxsync.Proto.Types.{Kind, text, url, code, image, file}

pub data Rule : Type 0 where
  allow ask deny : Rule

pub data Direction : Type 0 where
  inbound outbound : Direction

pub data Decision : Type 0 where
  pass defer block : Decision

pub record FirewallPolicy : Type 0 where
  pub enabled : Bool
  pub text_rule : Rule
  pub url_rule : Rule
  pub code_rule : Rule
  pub image_rule : Rule
  pub sensitive_rule : Rule

abbrev pub default : FirewallPolicy
default = record {
  enabled = false;
  text_rule = allow;
  url_rule = allow;
  code_rule = allow;
  image_rule = allow;
  sensitive_rule = deny;
}

unfoldable pub severity : Rule → ℕ
severity allow = 0
severity ask = 1
severity deny = 2

unfoldable pub stricter : Rule → Rule → Rule
unfolding severity
stricter r other = if ltb (severity r) (severity other) then other else r

unfoldable pub rule_for : FirewallPolicy → Kind → Rule
rule_for p text = p.text_rule
rule_for p url = p.url_rule
rule_for p code = p.code_rule
rule_for p image = p.image_rule
rule_for p file = p.image_rule

verdict : Rule → Decision
verdict allow = pass
verdict ask = defer
verdict deny = block

unfoldable pub decide : FirewallPolicy → Kind → Bool → Direction → Decision
unfolding verdict stricter rule_for
decide p kind sensitive dir =
    if p.enabled
    then verdict
        (if sensitive then stricter (rule_for p kind) p.sensitive_rule else rule_for p kind)
    else pass

-- `if *rule == Rule::Ask { *rule = Rule::Deny }`
ask_to_deny : Rule → Rule
ask_to_deny ask = deny
ask_to_deny allow = allow
ask_to_deny deny = deny

unfoldable pub normalized : FirewallPolicy → FirewallPolicy
unfolding ask_to_deny
normalized p = record p {
  text_rule = ask_to_deny p.text_rule;
  url_rule = ask_to_deny p.url_rule;
  code_rule = ask_to_deny p.code_rule;
  image_rule = ask_to_deny p.image_rule;
  sensitive_rule = ask_to_deny p.sensitive_rule;
}

-- How much a decision holds back.
abbrev pub strictness : Decision → ℕ
strictness pass = 0
strictness defer = 1
strictness block = 2

-- While the firewall is on, an item is held back as much as the stricter of the rules that apply
-- to it asks for: the rule of its kind and, for a secret, the rule for secrets. While it is off
-- everything passes. The direction plays no part.
pub strictness-decide :
    (p : FirewallPolicy) (kind : Kind) (sensitive : Bool) (dir : Direction)
    → strictness (decide p kind sensitive dir) ≡ (
        if p.enabled
        then (if sensitive
            then max (severity (rule_for p kind)) (severity p.sensitive_rule)
            else severity (rule_for p kind))
        else 0)
unfolding decide
strictness-decide p kind sensitive dir = ground arith

-- A normalized policy never asks, and lets through exactly what the policy it came from let
-- through: whatever was held or dropped is dropped.
pub decide-normalized :
    (p : FirewallPolicy) (kind : Kind) (sensitive : Bool) (dir : Direction)
    → (decide (normalized p) kind sensitive dir ≢ defer)
      × (strictness (decide p kind sensitive dir)
          ≤ strictness (decide (normalized p) kind sensitive dir))
      × (decide p kind sensitive dir ≡ pass → decide (normalized p) kind sensitive dir ≡ pass)
unfolding decide normalized
decide-normalized p kind sensitive dir = ground arith
