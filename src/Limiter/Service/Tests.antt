-- ===== src/Limiter/Service/Tests.antt =====
-- packages/limiter/src/limiter.middleware.ts: runs of the loop, and its theorem at concrete inputs.
use nexusts.Prelude.{◌≡◌, refl, false, [], ◌∷◌, Option, none, some, String, str_eq}
use nexusts.Limiter.Memory.{empty, consume}
use nexusts.Limiter.Service.{
  RateLimitRule, text, seconds, is_passed, Request, handle, check, after_check,
}
use nexusts.Limiter.Service.Shared.{SharesKey}

-- Two points a minute for each client, and the client is the context.
abbrev rule : RateLimitRule String
rule = record {
  path = "**";
  methods = none;
  points = 2;
  duration = text 60 seconds;
  key = none;
  strategy = none;
  skip = none;
}

abbrev upper : String → String
upper t = t

abbrev client : String → Option String
client c = some c

abbrev request : Request String
request = record { method = "GET"; path = "/"; context = "ip" }

-- With two rules of two points each, the first request passes and the second one is rejected.
second_rejected :
    is_passed
      (handle upper str_eq client 5 request
        (rule ∷ rule ∷ [])
        (handle upper str_eq client 1 request (rule ∷ rule ∷ []) empty).0).1
    ≡ false
unfolding handle check after_check consume
second_rejected = refl

rule-SharesKey : SharesKey upper str_eq client 1 request "ip" 2 60000 rule
rule-SharesKey = record {
  applied = refl;
  derived = refl;
  lasting = refl;
  limited = refl;
  sliding = refl;
}
