-- ===== src/FastTrack/EncType20/Minor/Safe.antt =====
-- Each macro stays inside the array.
use addnas_mldonkey.FastTrack.Mix.{Expr}
use addnas_mldonkey.FastTrack.Mix.Safe.{SafeExpr}
use addnas_mldonkey.FastTrack.Flow.Safe.{SafeFlow, flow_rules}
use addnas_mldonkey.FastTrack.EncType20.Minor.{
  minor_1, minor_2, minor_3, minor_4, minor_5, minor_6, minor_7, minor_8, minor_9, minor_10,
  minor_12, minor_13, minor_17, minor_19, minor_20, minor_22, minor_26, minor_27, minor_28,
  minor_29, minor_30, minor_31, minor_32, minor_34, minor_35,
}

pub minor_1-SafeFlow : (x : Expr) → SafeExpr x → SafeFlow (minor_1 x)
unfolding minor_1
minor_1-SafeFlow x h = search flow_rules depth 20 fits 10000

pub minor_2-SafeFlow : (x : Expr) → SafeExpr x → SafeFlow (minor_2 x)
unfolding minor_2
minor_2-SafeFlow x h = search flow_rules depth 20 fits 10000

pub minor_3-SafeFlow : SafeFlow minor_3
unfolding minor_3
minor_3-SafeFlow = search flow_rules depth 20 fits 1000

pub minor_4-SafeFlow : SafeFlow minor_4
unfolding minor_4
minor_4-SafeFlow = search flow_rules depth 20 fits 1000

pub minor_5-SafeFlow : SafeFlow minor_5
unfolding minor_5
minor_5-SafeFlow = search flow_rules depth 20 fits 1000

pub minor_6-SafeFlow : SafeFlow minor_6
unfolding minor_6
minor_6-SafeFlow = search flow_rules depth 20 fits 1000

pub minor_7-SafeFlow : SafeFlow minor_7
unfolding minor_7
minor_7-SafeFlow = search flow_rules depth 20 fits 1000

pub minor_8-SafeFlow : SafeFlow minor_8
unfolding minor_8
minor_8-SafeFlow = search flow_rules depth 20 fits 1000

pub minor_9-SafeFlow : (x : Expr) → SafeExpr x → SafeFlow (minor_9 x)
unfolding minor_9
minor_9-SafeFlow x h = search flow_rules depth 20 fits 10000

pub minor_10-SafeFlow : (x : Expr) → SafeExpr x → SafeFlow (minor_10 x)
unfolding minor_10
minor_10-SafeFlow x h = search flow_rules depth 20 fits 10000

pub minor_12-SafeFlow : (x : Expr) → SafeExpr x → SafeFlow (minor_12 x)
unfolding minor_12
minor_12-SafeFlow x h = search flow_rules depth 20 fits 10000

pub minor_13-SafeFlow : SafeFlow minor_13
unfolding minor_13
minor_13-SafeFlow = search flow_rules depth 20 fits 1000

pub minor_17-SafeFlow : SafeFlow minor_17
unfolding minor_17
minor_17-SafeFlow = search flow_rules depth 20 fits 1000

pub minor_19-SafeFlow : SafeFlow minor_19
unfolding minor_19
minor_19-SafeFlow = search flow_rules depth 20 fits 1000

pub minor_20-SafeFlow : SafeFlow minor_20
unfolding minor_20
minor_20-SafeFlow = search flow_rules depth 20 fits 1000

pub minor_22-SafeFlow : SafeFlow minor_22
unfolding minor_22
minor_22-SafeFlow = search flow_rules depth 20 fits 1000

pub minor_26-SafeFlow : SafeFlow minor_26
unfolding minor_26
minor_26-SafeFlow = search flow_rules depth 20 fits 1000

pub minor_27-SafeFlow : SafeFlow minor_27
unfolding minor_27
minor_27-SafeFlow = search flow_rules depth 20 fits 1000

pub minor_28-SafeFlow : SafeFlow minor_28
unfolding minor_28
minor_28-SafeFlow = search flow_rules depth 20 fits 1000

pub minor_29-SafeFlow : SafeFlow minor_29
unfolding minor_29
minor_29-SafeFlow = search flow_rules depth 20 fits 1000

pub minor_30-SafeFlow : SafeFlow minor_30
unfolding minor_30
minor_30-SafeFlow = search flow_rules depth 20 fits 1000

pub minor_31-SafeFlow : (x : Expr) → SafeExpr x → SafeFlow (minor_31 x)
unfolding minor_31
minor_31-SafeFlow x h = search flow_rules depth 20 fits 10000

pub minor_32-SafeFlow : (x : Expr) → SafeExpr x → SafeFlow (minor_32 x)
unfolding minor_32
minor_32-SafeFlow x h = search flow_rules depth 20 fits 10000

pub minor_34-SafeFlow : SafeFlow minor_34
unfolding minor_34
minor_34-SafeFlow = search flow_rules depth 20 fits 1000

pub minor_35-SafeFlow : SafeFlow minor_35
unfolding minor_35
minor_35-SafeFlow = search flow_rules depth 20 fits 1000

pub ruleset minor_rules = (
  flow_rules, minor_1-SafeFlow, minor_2-SafeFlow, minor_3-SafeFlow, minor_4-SafeFlow,
  minor_5-SafeFlow, minor_6-SafeFlow, minor_7-SafeFlow, minor_8-SafeFlow, minor_9-SafeFlow,
  minor_10-SafeFlow, minor_12-SafeFlow, minor_13-SafeFlow, minor_17-SafeFlow, minor_19-SafeFlow,
  minor_20-SafeFlow, minor_22-SafeFlow, minor_26-SafeFlow, minor_27-SafeFlow, minor_28-SafeFlow,
  minor_29-SafeFlow, minor_30-SafeFlow, minor_31-SafeFlow, minor_32-SafeFlow, minor_34-SafeFlow,
  minor_35-SafeFlow,
)
