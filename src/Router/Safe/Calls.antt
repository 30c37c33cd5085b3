-- ===== src/Router/Safe/Calls.antt =====
-- Every handler ends and leaves both databases well formed, or it overruns a buffer.
use compuguessr.Base.{List}
use compuguessr.Challenges.{Challenge}
use compuguessr.Challenges.Search.{IsSorted}
use compuguessr.Request.{Request}
use compuguessr.Util.Hash.{Crc}
use compuguessr.Router.Account.{Moment}
use compuguessr.Router.Board.{leaderboard}
use compuguessr.Router.Profile.{World, user_profile, public_profile, user_stats}
use compuguessr.Router.Routes.{
  Handler, guest, register, login, profile, update, public_page, stats, remove, board, verify, call,
}
use compuguessr.Router.Safe.{IsWorld, IsReady, Settles}
use compuguessr.Router.Safe.Grading.{challenge_verify-Settles}
use compuguessr.Router.Safe.Handlers.{
  kept, user_profile-Settles, profile_update-Settles, public_profile-Settles, user_stats-Settles,
  user_delete-Settles, leaderboard-Settles,
}
use compuguessr.Router.Safe.Sessions.{
  Ends, auth_guest-Settles, auth_register-Settles, auth_login-Settles,
}

-- On well-formed databases, a sorted table of challenges and a session id that is not in use, with
-- room in the session map: every handler, on every request, ends, and either leaves both databases
-- well formed and sends at most 8192 bytes, or has read or written past the end of one of its
-- buffers. None of them loops for ever.
pub call-Settles :
    (hw : Crc) (table : List Challenge) (h : Handler) (w : World) (req : Request) (t : Moment)
    → IsSorted table
    → IsWorld w
    → IsReady w t
    → Settles Ends (call hw table h w req t)
unfolding call
call-Settles hw table guest w req t sorted g ready = auth_guest-Settles w req t g ready
call-Settles hw table register w req t sorted g ready = auth_register-Settles hw w t g ready req
call-Settles hw table login w req t sorted g ready = auth_login-Settles hw w t g ready req
call-Settles hw table profile w req t sorted g ready =
    kept w g (user_profile w req) (user_profile-Settles w g req)
call-Settles hw table update w req t sorted g ready = profile_update-Settles w g req
call-Settles hw table public_page w req t sorted g ready =
    kept w g (public_profile w req) (public_profile-Settles w g req)
call-Settles hw table stats w req t sorted g ready =
    kept w g (user_stats w req) (user_stats-Settles w g req)
call-Settles hw table remove w req t sorted g ready = user_delete-Settles w g req
call-Settles hw table board w req t sorted g ready =
    kept w g (leaderboard w req) (leaderboard-Settles w g req)
call-Settles hw table verify w req t sorted g ready =
    challenge_verify-Settles hw table sorted w g req
