-- ===== src/FastTrack/EncType2/Minor/Safe.antt =====
-- Each `mix_minor` stays inside the array.
use addnas_mldonkey.FastTrack.Mix.Safe.{SafeStep, safe_rules}
use addnas_mldonkey.FastTrack.EncType2.Minor.{
  mix_minor20, mix_minor21, mix_minor22, mix_minor23, mix_minor24, mix_minor25, mix_minor26,
  mix_minor27, mix_minor28, mix_minor29, mix_minor30, mix_minor31, mix_minor32, mix_minor33,
  mix_minor34, mix_minor35, mix_minor36, mix_minor37, mix_minor38, mix_minor39, mix_minor40,
  mix_minor41, mix_minor42, mix_minor43, mix_minor44, mix_minor45, mix_minor46, mix_minor47,
  mix_minor48, mix_minor49, mix_minor50, mix_minor51, mix_minor52, mix_minor53, mix_minor54,
  mix_minor55, mix_minor56, mix_minor57, mix_minor58, mix_minor59, mix_minor60, mix_minor61,
  mix_minor62, mix_minor63, mix_minor64, mix_minor65, mix_minor66, mix_minor67, mix_minor68,
  mix_minor69,
}

pub mix_minor20-SafeStep : SafeStep mix_minor20
unfolding mix_minor20
mix_minor20-SafeStep = search safe_rules depth 20 fits 1000

pub mix_minor21-SafeStep : SafeStep mix_minor21
unfolding mix_minor21
mix_minor21-SafeStep = search safe_rules depth 20 fits 1000

pub mix_minor22-SafeStep : SafeStep mix_minor22
unfolding mix_minor22
mix_minor22-SafeStep = search safe_rules depth 20 fits 1000

pub mix_minor23-SafeStep : SafeStep mix_minor23
unfolding mix_minor23
mix_minor23-SafeStep = search safe_rules depth 20 fits 1000

pub mix_minor24-SafeStep : SafeStep mix_minor24
unfolding mix_minor24
mix_minor24-SafeStep = search safe_rules depth 20 fits 1000

pub mix_minor25-SafeStep : SafeStep mix_minor25
unfolding mix_minor25
mix_minor25-SafeStep = search safe_rules depth 20 fits 1000

pub mix_minor26-SafeStep : SafeStep mix_minor26
unfolding mix_minor26
mix_minor26-SafeStep = search safe_rules depth 20 fits 1000

pub mix_minor27-SafeStep : SafeStep mix_minor27
unfolding mix_minor27
mix_minor27-SafeStep = search safe_rules depth 20 fits 1000

pub mix_minor28-SafeStep : SafeStep mix_minor28
unfolding mix_minor28
mix_minor28-SafeStep = search safe_rules depth 20 fits 1000

pub mix_minor29-SafeStep : SafeStep mix_minor29
unfolding mix_minor29
mix_minor29-SafeStep = search safe_rules depth 20 fits 1000

pub mix_minor30-SafeStep : SafeStep mix_minor30
unfolding mix_minor30
mix_minor30-SafeStep = search safe_rules depth 20 fits 1000

pub mix_minor31-SafeStep : SafeStep mix_minor31
unfolding mix_minor31
mix_minor31-SafeStep = search safe_rules depth 20 fits 1000

pub mix_minor32-SafeStep : SafeStep mix_minor32
unfolding mix_minor32
mix_minor32-SafeStep = search safe_rules depth 20 fits 1000

pub mix_minor33-SafeStep : SafeStep mix_minor33
unfolding mix_minor33
mix_minor33-SafeStep = search safe_rules depth 20 fits 1000

pub mix_minor34-SafeStep : SafeStep mix_minor34
unfolding mix_minor34
mix_minor34-SafeStep = search safe_rules depth 20 fits 1000

pub mix_minor35-SafeStep : SafeStep mix_minor35
unfolding mix_minor35
mix_minor35-SafeStep = search safe_rules depth 20 fits 1000

pub mix_minor36-SafeStep : SafeStep mix_minor36
unfolding mix_minor36
mix_minor36-SafeStep = search safe_rules depth 20 fits 1000

pub mix_minor37-SafeStep : SafeStep mix_minor37
unfolding mix_minor37
mix_minor37-SafeStep = search safe_rules depth 20 fits 1000

pub mix_minor38-SafeStep : SafeStep mix_minor38
unfolding mix_minor38
mix_minor38-SafeStep = search safe_rules depth 20 fits 1000

pub mix_minor39-SafeStep : SafeStep mix_minor39
unfolding mix_minor39
mix_minor39-SafeStep = search safe_rules depth 20 fits 1000

pub mix_minor40-SafeStep : SafeStep mix_minor40
unfolding mix_minor40
mix_minor40-SafeStep = search safe_rules depth 20 fits 1000

pub mix_minor41-SafeStep : SafeStep mix_minor41
unfolding mix_minor41
mix_minor41-SafeStep = search safe_rules depth 20 fits 1000

pub mix_minor42-SafeStep : SafeStep mix_minor42
unfolding mix_minor42
mix_minor42-SafeStep = search safe_rules depth 20 fits 1000

pub mix_minor43-SafeStep : SafeStep mix_minor43
unfolding mix_minor43
mix_minor43-SafeStep = search safe_rules depth 20 fits 1000

pub mix_minor44-SafeStep : SafeStep mix_minor44
unfolding mix_minor44
mix_minor44-SafeStep = search safe_rules depth 20 fits 1000

pub mix_minor45-SafeStep : SafeStep mix_minor45
unfolding mix_minor45
mix_minor45-SafeStep = search safe_rules depth 20 fits 1000

pub mix_minor46-SafeStep : SafeStep mix_minor46
unfolding mix_minor46
mix_minor46-SafeStep = search safe_rules depth 20 fits 1000

pub mix_minor47-SafeStep : SafeStep mix_minor47
unfolding mix_minor47
mix_minor47-SafeStep = search safe_rules depth 20 fits 1000

pub mix_minor48-SafeStep : SafeStep mix_minor48
unfolding mix_minor48
mix_minor48-SafeStep = search safe_rules depth 20 fits 1000

pub mix_minor49-SafeStep : SafeStep mix_minor49
unfolding mix_minor49
mix_minor49-SafeStep = search safe_rules depth 20 fits 1000

pub mix_minor50-SafeStep : SafeStep mix_minor50
unfolding mix_minor50
mix_minor50-SafeStep = search safe_rules depth 20 fits 1000

pub mix_minor51-SafeStep : SafeStep mix_minor51
unfolding mix_minor51
mix_minor51-SafeStep = search safe_rules depth 20 fits 1000

pub mix_minor52-SafeStep : SafeStep mix_minor52
unfolding mix_minor52
mix_minor52-SafeStep = search safe_rules depth 20 fits 1000

pub mix_minor53-SafeStep : SafeStep mix_minor53
unfolding mix_minor53
mix_minor53-SafeStep = search safe_rules depth 20 fits 1000

pub mix_minor54-SafeStep : SafeStep mix_minor54
unfolding mix_minor54
mix_minor54-SafeStep = search safe_rules depth 20 fits 1000

pub mix_minor55-SafeStep : SafeStep mix_minor55
unfolding mix_minor55
mix_minor55-SafeStep = search safe_rules depth 20 fits 1000

pub mix_minor56-SafeStep : SafeStep mix_minor56
unfolding mix_minor56
mix_minor56-SafeStep = search safe_rules depth 20 fits 1000

pub mix_minor57-SafeStep : SafeStep mix_minor57
unfolding mix_minor57
mix_minor57-SafeStep = search safe_rules depth 20 fits 1000

pub mix_minor58-SafeStep : SafeStep mix_minor58
unfolding mix_minor58
mix_minor58-SafeStep = search safe_rules depth 20 fits 1000

pub mix_minor59-SafeStep : SafeStep mix_minor59
unfolding mix_minor59
mix_minor59-SafeStep = search safe_rules depth 20 fits 1000

pub mix_minor60-SafeStep : SafeStep mix_minor60
unfolding mix_minor60
mix_minor60-SafeStep = search safe_rules depth 20 fits 1000

pub mix_minor61-SafeStep : SafeStep mix_minor61
unfolding mix_minor61
mix_minor61-SafeStep = search safe_rules depth 20 fits 1000

pub mix_minor62-SafeStep : SafeStep mix_minor62
unfolding mix_minor62
mix_minor62-SafeStep = search safe_rules depth 20 fits 1000

pub mix_minor63-SafeStep : SafeStep mix_minor63
unfolding mix_minor63
mix_minor63-SafeStep = search safe_rules depth 20 fits 1000

pub mix_minor64-SafeStep : SafeStep mix_minor64
unfolding mix_minor64
mix_minor64-SafeStep = search safe_rules depth 20 fits 1000

pub mix_minor65-SafeStep : SafeStep mix_minor65
unfolding mix_minor65
mix_minor65-SafeStep = search safe_rules depth 20 fits 1000

pub mix_minor66-SafeStep : SafeStep mix_minor66
unfolding mix_minor66
mix_minor66-SafeStep = search safe_rules depth 20 fits 1000

pub mix_minor67-SafeStep : SafeStep mix_minor67
unfolding mix_minor67
mix_minor67-SafeStep = search safe_rules depth 20 fits 1000

pub mix_minor68-SafeStep : SafeStep mix_minor68
unfolding mix_minor68
mix_minor68-SafeStep = search safe_rules depth 20 fits 1000

pub mix_minor69-SafeStep : SafeStep mix_minor69
unfolding mix_minor69
mix_minor69-SafeStep = search safe_rules depth 20 fits 1000

pub ruleset minor_rules = (
  safe_rules, mix_minor20-SafeStep, mix_minor21-SafeStep, mix_minor22-SafeStep,
  mix_minor23-SafeStep, mix_minor24-SafeStep, mix_minor25-SafeStep, mix_minor26-SafeStep,
  mix_minor27-SafeStep, mix_minor28-SafeStep, mix_minor29-SafeStep, mix_minor30-SafeStep,
  mix_minor31-SafeStep, mix_minor32-SafeStep, mix_minor33-SafeStep, mix_minor34-SafeStep,
  mix_minor35-SafeStep, mix_minor36-SafeStep, mix_minor37-SafeStep, mix_minor38-SafeStep,
  mix_minor39-SafeStep, mix_minor40-SafeStep, mix_minor41-SafeStep, mix_minor42-SafeStep,
  mix_minor43-SafeStep, mix_minor44-SafeStep, mix_minor45-SafeStep, mix_minor46-SafeStep,
  mix_minor47-SafeStep, mix_minor48-SafeStep, mix_minor49-SafeStep, mix_minor50-SafeStep,
  mix_minor51-SafeStep, mix_minor52-SafeStep, mix_minor53-SafeStep, mix_minor54-SafeStep,
  mix_minor55-SafeStep, mix_minor56-SafeStep, mix_minor57-SafeStep, mix_minor58-SafeStep,
  mix_minor59-SafeStep, mix_minor60-SafeStep, mix_minor61-SafeStep, mix_minor62-SafeStep,
  mix_minor63-SafeStep, mix_minor64-SafeStep, mix_minor65-SafeStep, mix_minor66-SafeStep,
  mix_minor67-SafeStep, mix_minor68-SafeStep, mix_minor69-SafeStep,
)
