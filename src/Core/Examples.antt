-- ===== src/Core/Examples.antt =====
-- Three nodes and a hash value.
use scot.Base.{ℕ, ◌≡◌, ◌≢◌, ◌<◌, refl, true, none, some, [], ◌>>=◌, arith}
use scot.Core.{Judge, find_rule, register_rule, update_active, judge, rule_balance, quorum_ids}
use scot.Core.Owner.{member, judge-owner}

abbrev no_rules : Judge
no_rules = record { rdict = []; active_rule = none }

judge-owner_example :
    (owner : ℕ) × (owner < 3)
    × ((update_active (register_rule (register_rule no_rules 5 (rule_balance 3)) 5 (λ h. 0)) 5
          >>= λ k. judge k 7)
        ≡ some owner)
    × ((nid : ℕ) → nid < 3 → nid ≢ owner → member owner (quorum_ids 3 0 nid) ≡ true)
judge-owner_example = judge-owner 3 5 7 no_rules (λ h. 0) (omega arith) (unfold find_rule in refl)
