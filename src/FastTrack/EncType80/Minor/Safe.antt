-- ===== src/FastTrack/EncType80/Minor/Safe.antt =====
-- Each macro stays inside the array.
use addnas_mldonkey.FastTrack.Mix.{Expr}
use addnas_mldonkey.FastTrack.Mix.Safe.{SafeExpr}
use addnas_mldonkey.FastTrack.Flow.Safe.{SafeFlow, flow_rules}
use addnas_mldonkey.FastTrack.EncType80.Minor.{
  minor_23, minor_24, minor_25, minor_26, minor_27, minor_28, minor_29, minor_30, minor_31,
  minor_32, minor_33, minor_34, minor_35, minor_36, minor_37, minor_38, minor_39, minor_40,
  minor_41, minor_42, minor_43, minor_44, minor_45, minor_46, minor_47, minor_48, minor_49,
  minor_50, minor_51, minor_52, minor_53, minor_54, minor_55, minor_56, minor_57, minor_58,
  minor_59, minor_60, minor_61, minor_62, minor_63, minor_64, minor_65, minor_66, minor_67,
  minor_68, minor_69, minor_70, minor_71, minor_72, minor_73, minor_3, minor_4, minor_5, minor_6,
  minor_7, minor_8, minor_9, minor_10, minor_11, minor_12, minor_13, minor_14, minor_15, minor_16,
  minor_17, minor_18, minor_19, minor_20, minor_21,
}

pub minor_23-SafeFlow : SafeFlow minor_23
unfolding minor_23
minor_23-SafeFlow = search flow_rules depth 20 fits 1000

pub minor_24-SafeFlow : SafeFlow minor_24
unfolding minor_24
minor_24-SafeFlow = search flow_rules depth 20 fits 1000

pub minor_25-SafeFlow : SafeFlow minor_25
unfolding minor_25
minor_25-SafeFlow = search flow_rules depth 20 fits 1000

pub minor_26-SafeFlow : SafeFlow minor_26
unfolding minor_26
minor_26-SafeFlow = search flow_rules depth 20 fits 1000

pub minor_27-SafeFlow : SafeFlow minor_27
unfolding minor_27
minor_27-SafeFlow = search flow_rules depth 20 fits 1000

pub minor_28-SafeFlow : SafeFlow minor_28
unfolding minor_28
minor_28-SafeFlow = search flow_rules depth 20 fits 1000

pub minor_29-SafeFlow : (x : Expr) → SafeExpr x → SafeFlow (minor_29 x)
unfolding minor_29
minor_29-SafeFlow x h = search flow_rules depth 20 fits 10000

pub minor_30-SafeFlow : SafeFlow minor_30
unfolding minor_30
minor_30-SafeFlow = search flow_rules depth 20 fits 1000

pub minor_31-SafeFlow : SafeFlow minor_31
unfolding minor_31
minor_31-SafeFlow = search flow_rules depth 20 fits 1000

pub minor_32-SafeFlow : (x : Expr) → SafeExpr x → SafeFlow (minor_32 x)
unfolding minor_32
minor_32-SafeFlow x h = search flow_rules depth 20 fits 10000

pub minor_33-SafeFlow : (x : Expr) → SafeExpr x → SafeFlow (minor_33 x)
unfolding minor_33
minor_33-SafeFlow x h = search flow_rules depth 20 fits 10000

pub minor_34-SafeFlow : SafeFlow minor_34
unfolding minor_34
minor_34-SafeFlow = search flow_rules depth 20 fits 1000

pub minor_35-SafeFlow : SafeFlow minor_35
unfolding minor_35
minor_35-SafeFlow = search flow_rules depth 20 fits 1000

pub minor_36-SafeFlow : SafeFlow minor_36
unfolding minor_36
minor_36-SafeFlow = search flow_rules depth 20 fits 1000

pub minor_37-SafeFlow : SafeFlow minor_37
unfolding minor_37
minor_37-SafeFlow = search flow_rules depth 20 fits 1000

pub minor_38-SafeFlow : SafeFlow minor_38
unfolding minor_38
minor_38-SafeFlow = search flow_rules depth 20 fits 1000

pub minor_39-SafeFlow : SafeFlow minor_39
unfolding minor_39
minor_39-SafeFlow = search flow_rules depth 20 fits 1000

pub minor_40-SafeFlow : SafeFlow minor_40
unfolding minor_40
minor_40-SafeFlow = search flow_rules depth 20 fits 1000

pub minor_41-SafeFlow : SafeFlow minor_41
unfolding minor_41
minor_41-SafeFlow = search flow_rules depth 20 fits 1000

pub minor_42-SafeFlow : SafeFlow minor_42
unfolding minor_42
minor_42-SafeFlow = search flow_rules depth 20 fits 1000

pub minor_43-SafeFlow : SafeFlow minor_43
unfolding minor_43
minor_43-SafeFlow = search flow_rules depth 20 fits 1000

pub minor_44-SafeFlow : SafeFlow minor_44
unfolding minor_44
minor_44-SafeFlow = search flow_rules depth 20 fits 1000

pub minor_45-SafeFlow : SafeFlow minor_45
unfolding minor_45
minor_45-SafeFlow = search flow_rules depth 20 fits 1000

pub minor_46-SafeFlow : SafeFlow minor_46
unfolding minor_46
minor_46-SafeFlow = search flow_rules depth 20 fits 1000

pub minor_47-SafeFlow : SafeFlow minor_47
unfolding minor_47
minor_47-SafeFlow = search flow_rules depth 20 fits 1000

pub minor_48-SafeFlow : SafeFlow minor_48
unfolding minor_48
minor_48-SafeFlow = search flow_rules depth 20 fits 1000

pub minor_49-SafeFlow : SafeFlow minor_49
unfolding minor_49
minor_49-SafeFlow = search flow_rules depth 20 fits 1000

pub minor_50-SafeFlow : SafeFlow minor_50
unfolding minor_50
minor_50-SafeFlow = search flow_rules depth 20 fits 1000

pub minor_51-SafeFlow : (x : Expr) → SafeExpr x → SafeFlow (minor_51 x)
unfolding minor_51
minor_51-SafeFlow x h = search flow_rules depth 20 fits 10000

pub minor_52-SafeFlow : (x : Expr) → SafeExpr x → SafeFlow (minor_52 x)
unfolding minor_52
minor_52-SafeFlow x h = search flow_rules depth 20 fits 10000

pub minor_53-SafeFlow : SafeFlow minor_53
unfolding minor_53
minor_53-SafeFlow = search flow_rules depth 20 fits 1000

pub minor_54-SafeFlow : SafeFlow minor_54
unfolding minor_54
minor_54-SafeFlow = search flow_rules depth 20 fits 1000

pub minor_55-SafeFlow : (x : Expr) → SafeExpr x → SafeFlow (minor_55 x)
unfolding minor_55
minor_55-SafeFlow x h = search flow_rules depth 20 fits 10000

pub minor_56-SafeFlow : (x : Expr) → SafeExpr x → SafeFlow (minor_56 x)
unfolding minor_56
minor_56-SafeFlow x h = search flow_rules depth 20 fits 10000

pub minor_57-SafeFlow : (x : Expr) → SafeExpr x → SafeFlow (minor_57 x)
unfolding minor_57
minor_57-SafeFlow x h = search flow_rules depth 20 fits 10000

pub minor_58-SafeFlow : (x : Expr) → SafeExpr x → SafeFlow (minor_58 x)
unfolding minor_58
minor_58-SafeFlow x h = search flow_rules depth 20 fits 10000

pub minor_59-SafeFlow : SafeFlow minor_59
unfolding minor_59
minor_59-SafeFlow = search flow_rules depth 20 fits 1000

pub minor_60-SafeFlow : SafeFlow minor_60
unfolding minor_60
minor_60-SafeFlow = search flow_rules depth 20 fits 1000

pub minor_61-SafeFlow : SafeFlow minor_61
unfolding minor_61
minor_61-SafeFlow = search flow_rules depth 20 fits 1000

pub minor_62-SafeFlow : SafeFlow minor_62
unfolding minor_62
minor_62-SafeFlow = search flow_rules depth 20 fits 1000

pub minor_63-SafeFlow : SafeFlow minor_63
unfolding minor_63
minor_63-SafeFlow = search flow_rules depth 20 fits 1000

pub minor_64-SafeFlow : SafeFlow minor_64
unfolding minor_64
minor_64-SafeFlow = search flow_rules depth 20 fits 1000

pub minor_65-SafeFlow : (x : Expr) → SafeExpr x → SafeFlow (minor_65 x)
unfolding minor_65
minor_65-SafeFlow x h = search flow_rules depth 20 fits 10000

pub minor_66-SafeFlow : SafeFlow minor_66
unfolding minor_66
minor_66-SafeFlow = search flow_rules depth 20 fits 1000

pub minor_67-SafeFlow : (x : Expr) → SafeExpr x → SafeFlow (minor_67 x)
unfolding minor_67
minor_67-SafeFlow x h = search flow_rules depth 20 fits 10000

pub minor_68-SafeFlow : SafeFlow minor_68
unfolding minor_68
minor_68-SafeFlow = search flow_rules depth 20 fits 1000

pub minor_69-SafeFlow : SafeFlow minor_69
unfolding minor_69
minor_69-SafeFlow = search flow_rules depth 20 fits 1000

pub minor_70-SafeFlow : SafeFlow minor_70
unfolding minor_70
minor_70-SafeFlow = search flow_rules depth 20 fits 1000

pub minor_71-SafeFlow : SafeFlow minor_71
unfolding minor_71
minor_71-SafeFlow = search flow_rules depth 20 fits 1000

pub minor_72-SafeFlow : (x : Expr) → SafeExpr x → SafeFlow (minor_72 x)
unfolding minor_72
minor_72-SafeFlow x h = search flow_rules depth 20 fits 10000

pub minor_73-SafeFlow : SafeFlow minor_73
unfolding minor_73
minor_73-SafeFlow = search flow_rules depth 20 fits 1000

pub minor_3-SafeFlow : SafeFlow minor_3
unfolding minor_3
minor_3-SafeFlow = search flow_rules depth 20 fits 1000

pub minor_4-SafeFlow : SafeFlow minor_4
unfolding minor_4
minor_4-SafeFlow = search flow_rules depth 20 fits 1000

pub minor_5-SafeFlow : SafeFlow minor_5
unfolding minor_5
minor_5-SafeFlow = search flow_rules depth 20 fits 1000

pub minor_6-SafeFlow : (x : Expr) → SafeExpr x → SafeFlow (minor_6 x)
unfolding minor_6
minor_6-SafeFlow x h = search flow_rules depth 20 fits 10000

pub minor_7-SafeFlow : SafeFlow minor_7
unfolding minor_7
minor_7-SafeFlow = search flow_rules depth 20 fits 1000

pub minor_8-SafeFlow : SafeFlow minor_8
unfolding minor_8
minor_8-SafeFlow = search flow_rules depth 20 fits 1000

pub minor_9-SafeFlow : SafeFlow minor_9
unfolding minor_9
minor_9-SafeFlow = search flow_rules depth 20 fits 1000

pub minor_10-SafeFlow : (x : Expr) → SafeExpr x → SafeFlow (minor_10 x)
unfolding minor_10
minor_10-SafeFlow x h = search flow_rules depth 20 fits 10000

pub minor_11-SafeFlow : (x : Expr) → SafeExpr x → SafeFlow (minor_11 x)
unfolding minor_11
minor_11-SafeFlow x h = search flow_rules depth 20 fits 10000

pub minor_12-SafeFlow : SafeFlow minor_12
unfolding minor_12
minor_12-SafeFlow = search flow_rules depth 20 fits 1000

pub minor_13-SafeFlow : (x : Expr) → SafeExpr x → SafeFlow (minor_13 x)
unfolding minor_13
minor_13-SafeFlow x h = search flow_rules depth 20 fits 10000

pub minor_14-SafeFlow : SafeFlow minor_14
unfolding minor_14
minor_14-SafeFlow = search flow_rules depth 20 fits 1000

pub minor_15-SafeFlow : SafeFlow minor_15
unfolding minor_15
minor_15-SafeFlow = search flow_rules depth 20 fits 1000

pub minor_16-SafeFlow : SafeFlow minor_16
unfolding minor_16
minor_16-SafeFlow = search flow_rules depth 20 fits 1000

pub minor_17-SafeFlow : SafeFlow minor_17
unfolding minor_17
minor_17-SafeFlow = search flow_rules depth 20 fits 1000

pub minor_18-SafeFlow : SafeFlow minor_18
unfolding minor_18
minor_18-SafeFlow = search flow_rules depth 20 fits 1000

pub minor_19-SafeFlow : SafeFlow minor_19
unfolding minor_19
minor_19-SafeFlow = search flow_rules depth 20 fits 1000

pub minor_20-SafeFlow : SafeFlow minor_20
unfolding minor_20
minor_20-SafeFlow = search flow_rules depth 20 fits 1000

pub minor_21-SafeFlow : SafeFlow minor_21
unfolding minor_21
minor_21-SafeFlow = search flow_rules depth 20 fits 1000

pub ruleset minor_rules = (
  flow_rules, minor_23-SafeFlow, minor_24-SafeFlow, minor_25-SafeFlow, minor_26-SafeFlow,
  minor_27-SafeFlow, minor_28-SafeFlow, minor_29-SafeFlow, minor_30-SafeFlow, minor_31-SafeFlow,
  minor_32-SafeFlow, minor_33-SafeFlow, minor_34-SafeFlow, minor_35-SafeFlow, minor_36-SafeFlow,
  minor_37-SafeFlow, minor_38-SafeFlow, minor_39-SafeFlow, minor_40-SafeFlow, minor_41-SafeFlow,
  minor_42-SafeFlow, minor_43-SafeFlow, minor_44-SafeFlow, minor_45-SafeFlow, minor_46-SafeFlow,
  minor_47-SafeFlow, minor_48-SafeFlow, minor_49-SafeFlow, minor_50-SafeFlow, minor_51-SafeFlow,
  minor_52-SafeFlow, minor_53-SafeFlow, minor_54-SafeFlow, minor_55-SafeFlow, minor_56-SafeFlow,
  minor_57-SafeFlow, minor_58-SafeFlow, minor_59-SafeFlow, minor_60-SafeFlow, minor_61-SafeFlow,
  minor_62-SafeFlow, minor_63-SafeFlow, minor_64-SafeFlow, minor_65-SafeFlow, minor_66-SafeFlow,
  minor_67-SafeFlow, minor_68-SafeFlow, minor_69-SafeFlow, minor_70-SafeFlow, minor_71-SafeFlow,
  minor_72-SafeFlow, minor_73-SafeFlow, minor_3-SafeFlow, minor_4-SafeFlow, minor_5-SafeFlow,
  minor_6-SafeFlow, minor_7-SafeFlow, minor_8-SafeFlow, minor_9-SafeFlow, minor_10-SafeFlow,
  minor_11-SafeFlow, minor_12-SafeFlow, minor_13-SafeFlow, minor_14-SafeFlow, minor_15-SafeFlow,
  minor_16-SafeFlow, minor_17-SafeFlow, minor_18-SafeFlow, minor_19-SafeFlow, minor_20-SafeFlow,
  minor_21-SafeFlow,
)
