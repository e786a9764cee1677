-- ===== src/MainMw/Handler/Replies.antt =====
-- internal/dnssvc/internal/mainmw: what the handler writes to the client.
use ad_guard_dns.Base.{◌≡◌, refl, Bool, String, List, [], ◌∷◌, ◌++◌, some, All, eqb}
use ad_guard_dns.Agd.{DeviceSets}
use ad_guard_dns.Messages.{Msg}
use ad_guard_dns.Messages.Answers.{Answers, IsAnswer}
use ad_guard_dns.MainMw.{Event, collected, write, Run, Texts, Middleware, RequestInfo, served, Call}
use ad_guard_dns.MainMw.Outcomes.{All-snoc}
use ad_guard_dns.MainMw.Filtering.{new_filtering_context, class_chaos, filter}
use ad_guard_dns.MainMw.Filtering.Events.{Ok}
use ad_guard_dns.MainMw.Filtering.Responses.{FilterFits, IsReady}
use ad_guard_dns.MainMw.Handler.{Handled}

module _ ⦃S : DeviceSets⦄ where
  -- The next handler answers what it is asked.
  abbrev pub NextAnswers : Call → Type 0
  NextAnswers c = (ri : RequestInfo) (req m : Msg) → c.next ri req ≡ served (some m) → Answers req m

-- a message that is written is an answer to the request
abbrev pub IsReply : Msg → Event → Type 0
IsReply req (write q o) = IsAnswer req o
IsReply req _ = Unit

-- the request without the class of a debug request
abbrev plain : Msg → Msg
plain req = (new_filtering_context req).original_request

module _ (req : Msg) where
  abbrev debug : Bool
  debug = eqb req.question.q_class class_chaos

  flag : (new_filtering_context req).is_debug ≡ debug
  unfolding new_filtering_context
  flag = refl

module _ ⦃S : DeviceSets⦄ (t : Texts) (mw : Middleware) (c : Call) (ri : RequestInfo)
    (req : Msg) where
  abbrev Replies : Handled → Type 0
  Replies h = All (IsReply req) h.run.events

  abbrev Ready : Run → Type 0
  Ready r = All (IsReply req) r.events × (r.fctx.is_debug ≡ debug req) × IsReady (plain req) r

  other-ok :
      (e : Event) (es : List Event)
      → IsReply req e
      → All (IsReply req) es
      → All (IsReply req) (es ++ e ∷ [])
  other-ok e es i h = All-snoc (IsReply req) es e h i

  module _ (next_answers : NextAnswers c) (fits : FilterFits (filter mw ri)) where
    events-ok :
        (l : String) (es : List Event)
        → All (IsReply req) es
        → All (IsReply req) (es ++ collected l ∷ [])
    events-ok l es h = other-ok (collected l) es tt h

    abbrev Sure : Run → Type 0
    Sure r = Ok (All (IsReply req)) events-ok (plain req) (debug req) r
