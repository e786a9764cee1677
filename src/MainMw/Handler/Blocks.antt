-- ===== src/MainMw/Handler/Blocks.antt =====
-- internal/dnssvc/internal/mainmw: what is written for a blocked request.
use ad_guard_dns.Base.{false, String, List, [], ◌∷◌, ◌++◌, All}
use ad_guard_dns.Agd.{DeviceSets}
use ad_guard_dns.Messages.{Msg}
use ad_guard_dns.MainMw.{Event, collected, write, Run, Texts, Middleware, RequestInfo, Call}
use ad_guard_dns.MainMw.Outcomes.{All-snoc}
use ad_guard_dns.MainMw.Filtering.Events.{Ok}
use ad_guard_dns.MainMw.Filtering.Blocks.{IsModeResponse}
use ad_guard_dns.MainMw.Handler.{Handled}

module _ ⦃S : DeviceSets⦄ (t : Texts) (mw : Middleware) (c : Call) (ri : RequestInfo) (req : Msg)
    (list rule : String) where
  -- a message that is written is that of the blocking mode
  abbrev pub IsBlockedWrite : Event → Type 0
  IsBlockedWrite (write q o) = IsModeResponse ri req list rule o
  IsBlockedWrite _ = Unit

  abbrev AllGood : List Event → Type 0
  AllGood es = All IsBlockedWrite es

  abbrev Done : Handled → Type 0
  Done h = AllGood h.run.events

  collected-ok : (l : String) (es : List Event) → AllGood es → AllGood (es ++ collected l ∷ [])
  collected-ok l es h = All-snoc IsBlockedWrite es (collected l) h tt

  abbrev Sure : Run → Type 0
  Sure r = Ok AllGood collected-ok req false r
