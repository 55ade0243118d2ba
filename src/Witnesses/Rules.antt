-- ===== src/Witnesses/Rules.antt =====
-- Runs of the policies and of the risk score.
use lan_fence.Base.{false, true, ◌≤◌}
use lan_fence.Models.Change.{level_index}
use lan_fence.Policy.{match_policy}
use lan_fence.Policy.Defaults.{default_policies}
use lan_fence.Policy.Order.{IsChoice, match_policy-IsChoice}
use lan_fence.Risk.{assess}
use lan_fence.Risk.Score.{assess-trust, with_trust}
use lan_fence.Witnesses.Inputs.{arrival, exposed, guest}

match_policy-IsChoice_example :
    IsChoice default_policies arrival guest (match_policy default_policies arrival guest)
match_policy-IsChoice_example = match_policy-IsChoice default_policies arrival guest

assess-trust_example :
    ((assess (with_trust true exposed) 100).score ≤ (assess (with_trust false exposed) 100).score)
    × (level_index (assess (with_trust true exposed) 100).level
        ≤ level_index (assess (with_trust false exposed) 100).level)
assess-trust_example = assess-trust exposed 100
