-- ===== src/Router/Routes.antt =====
-- `cg_route_map_init` and `cg_route_map_reply` of src/services/cg_router.c. A pointer to a handler
-- is the number of the handler.
pub mod Table
pub mod Answer
use compuguessr.Base.{
  ℕ, zero, suc, ◌+◌, ◌-◌, Bool, true, false, Option, none, some, List, [], ◌∷◌, ◌++◌, Run, ok, fail,
  out_of_bounds, ◌>>=◌, get_elem?, get_or, set, length,
}
use compuguessr.Base.Text.{codes, c_str}
use compuguessr.Challenges.{Challenge}
use compuguessr.Fastcgi.Parse.{Buffer}
use compuguessr.Fastcgi.Write.{stdout, end_request}
use compuguessr.Hashmap.{Map, Entry, blank, get_key_str, insert_key_str}
use compuguessr.Request.{Request, max_uri_len}
use compuguessr.Util.Hash.{Crc}
use compuguessr.Router.Account.{Moment, auth_guest, auth_register, auth_login}
use compuguessr.Router.Board.{leaderboard}
use compuguessr.Router.Profile.{
  World, user_profile, profile_update, public_profile, user_stats, user_delete,
}
use compuguessr.Router.Replies.{not_found}
use compuguessr.Router.Verify.{challenge_verify}

pub data Handler : Type 0 where
  guest register login profile update public_page stats remove board verify : Handler

-- The handlers by their numbers.
abbrev pub handlers : List Handler
handlers =
    guest ∷ register ∷ login ∷ profile ∷ update ∷ public_page ∷ stats ∷ remove ∷ board ∷ verify ∷ []

-- In the order of the insertions.
abbrev pub routes : List (List ℕ × ℕ)
routes =
    (codes "/api/auth/guest", 0)
    ∷ (codes "/api/auth/register", 1)
    ∷ (codes "/api/auth/login", 2)
    ∷ (codes "/api/user/profile", 3)
    ∷ (codes "/api/user/profile/update", 4)
    ∷ (codes "/api/user/public", 5)
    ∷ (codes "/api/user/stats", 6)
    ∷ (codes "/api/user/delete", 7)
    ∷ (codes "/api/leaderboard", 8)
    ∷ (codes "/api/challenge/verify", 9)
    ∷ []

abbrev pub keep : World → Run (List ℕ) → Run (World × List ℕ)
keep w (fail why) = fail why
keep w (ok body) = ok (w, body)

abbrev pub end_uri : Request → Request
end_uri req = record req { uri = set req.uri (max_uri_len - 1) 0 }

module _ (hw : Crc) where
  unfoldable pub insert_routes : Map → List (List ℕ × ℕ) → Run Map
  insert_routes m [] = ok m
  insert_routes m ((path, handler) ∷ rest) =
      insert_key_str hw m path handler >>= λ m'. insert_routes m' rest

  unfoldable pub map_init : Map → Run Map
  unfolding insert_routes
  map_init m = insert_routes m routes

  module _ (table : List Challenge) where
    unfoldable pub call : Handler → World → Request → Moment → Run (World × List ℕ)
    call guest w req t = auth_guest w req t
    call register w req t = auth_register hw w req t
    call login w req t = auth_login hw w req t
    call profile w req t = keep w (user_profile w req)
    call update w req t = profile_update w req
    call public_page w req t = keep w (public_profile w req)
    call stats w req t = keep w (user_stats w req)
    call remove w req t = user_delete w req
    call board w req t = keep w (leaderboard w req)
    call verify w req t = challenge_verify hw table w req

    -- The call through the pointer; no handler has another number.
    unfoldable pub call_at : ℕ → World → Request → Moment → Run (World × List ℕ)
    unfolding call
    call_at n w req t = elim (get_elem? handlers n) [
      | none ↦ fail out_of_bounds
      | some h ↦ call h w req t
    ]

    -- With the entry of the map that was found.
    unfoldable pub answer : Map → World → Request → Moment → Option ℕ → Run (World × List ℕ)
    unfolding call_at
    answer m w req t none = ok (w, not_found)
    answer m w req t (some i) = let e = get_or m.entries i blank in call_at e.val w req t

    -- The handler writes its body with `cg_fastcgi_stdout`.
    unfoldable pub reply : Map → World → Buffer → Request → Moment → Run (World × Buffer × Request)
    unfolding answer
    reply m w tx req t =
        let req' = end_uri req in
        let empty = record tx { valid = 0; pos = 0 } in
        get_key_str hw m (c_str req'.uri) >>= λ entry. answer m w req' t entry >>= λ r.
        ok (r.0, end_request (stdout empty req'.req_id r.1) req'.req_id, req')
