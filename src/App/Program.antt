-- ===== src/App/Program.antt =====
-- `main` of src/app/cg_app.c as a whole: the start, and then rounds of its loop.
use compuguessr.Base.{ℕ, ◌≤◌, ◌≡◌, refl, inl, inr, List, [], ◌∷◌, Run, ok, ◌>>=◌, length}
use compuguessr.Base.Text.{c_str}
use compuguessr.Challenges.{Challenge}
use compuguessr.Challenges.Search.{IsSorted}
use compuguessr.Router.Account.{Moment}
use compuguessr.Uring.{Ring, Entered}
use compuguessr.Util.Hash.{Crc}
use compuguessr.App.{App}
use compuguessr.App.Accepting.{Opening}
use compuguessr.App.Loop.{round}
use compuguessr.App.Loop.Rounds.{Faithful, waiting, begun, round-Handles}
use compuguessr.App.Loop.Fed.{DoFit}
use compuguessr.App.Loop.Safe.{IsServing}
use compuguessr.App.Peer.Safe.{Handles}
use compuguessr.App.Start.{Stack, Globals, main_init, Started, serves, left, no_database, startup}
use compuguessr.App.Start.Files.{AreSound}
use compuguessr.App.Start.Serves.{Starts, Begins, startup-Starts}

-- What comes from outside in a round: the time, the bytes that arrive for the clients, what a wait
-- gives, and a moment for each completion.
pub record Turn : Type 0 where
  pub now : ℕ
  pub arrivals : List (ℕ × List ℕ)
  pub entered : Entered
  pub moments : List Moment

module _ (hw : Crc) (table : List Challenge) (file : List ℕ) (tick : ℕ) where
  -- The first rounds of the loop.
  unfoldable pub run : List Turn → App → Run App
  run [] app = ok app
  run (turn ∷ turns) app =
      round hw table file tick turn.now turn.arrivals turn.entered turn.moments app >>= run turns

  unfoldable pub run_started : List Turn → Started → Run Started
  unfolding run
  run_started turns (serves app) = run turns app >>= λ app'. ok (serves app')
  run_started turns (left code app) = ok (left code app)
  run_started turns no_database = ok no_database

  unfoldable pub main : Ring → ℕ → Stack → Opening file → ℕ → List Turn → Run Started
  unfolding run_started
  main ring pool_at stack o now turns =
      startup hw file ring pool_at tick stack o now >>= run_started turns

module _ (hw : Crc) (table : List Challenge) (sorted : IsSorted table) (file : List ℕ)
    (tick : ℕ) where
  abbrev Keeps : App → Type 0
  Keeps = IsServing hw table sorted

  -- In each round, from the state that it starts in.
  abbrev pub AreFaithful : List Turn → App → Type 0
  AreFaithful [] app = Unit {0}
  AreFaithful (turn ∷ turns) app =
      DoFit turn.arrivals (waiting hw table sorted file tick turn.now app)
      × (let (app', found) =
            begun hw table sorted file tick turn.now turn.arrivals turn.entered app in
          Faithful hw table sorted file tick turn.moments app' found)
      × ((app' : App)
          → round hw table file tick turn.now turn.arrivals turn.entered turn.moments app ≡ ok app'
          → AreFaithful turns app')

  run-Handles :
      (turns : List Turn) (app : App)
      → Keeps app
      → AreFaithful turns app
      → Handles Keeps (run hw table file tick turns app)
  unfolding run
  run-Handles [] app s f = inr (inr (app, refl, s))
  run-Handles (turn ∷ turns) app s (fit, now, later) =
      elim (round-Handles hw table sorted file tick turn.now turn.arrivals turn.entered turn.moments
        app s fit now) [
          | inl e ↦ inl (rw e refl)
          | inr (inl e) ↦ inr (inl (rw e refl))
          | inr (inr (app', e, s')) ↦ rw e (run-Handles turns app' s' (later app' e))
        ]

  abbrev pub StartsFaithful : List Turn → Started → Type 0
  StartsFaithful turns (serves app) = AreFaithful turns app
  StartsFaithful turns (left code app) = Unit {0}
  StartsFaithful turns no_database = Unit {0}

  run_started-Handles :
      (ring : Ring) (pool_at : ℕ) (turns : List Turn) (g : Globals) (s : Started)
      → Starts (Begins hw table sorted file ring pool_at tick g) g s
      → StartsFaithful turns s
      → Handles (Starts Keeps g) (run_started hw table file tick turns s)
  unfolding run_started
  run_started-Handles ring pool_at turns g (left code app) k f = inr (inr (left code app, refl, k))
  run_started-Handles ring pool_at turns g no_database k f = inr (inr (no_database, refl, k))
  run_started-Handles ring pool_at turns g (serves app) (k, l) f =
      elim (run-Handles turns app k f) [
        | inl e ↦ inl (rw e refl)
        | inr (inl e) ↦ inr (inl (rw e refl))
        | inr (inr (app', e, s')) ↦ rw e (inr (inr (serves app', refl, s')))
      ]

  -- The program from its start through any number of rounds of the loop, where files that are not
  -- empty hold what valid databases left, the path of the socket fits its place and the table is
  -- sorted; and where in each round the bytes that arrive are for clients of the pool and fit
  -- behind those that wait, the kernel's completions have no more bytes than were asked for, there
  -- is a moment for every completion, and at that moment the session id that is drawn is new and
  -- the session database has at least two unused slots: every client and both databases are well
  -- formed; or the program has exited with 1; or a database could not be opened; or a handler or
  -- the parser of the records overran one of its buffers; or the loop over the parameters of a
  -- request does not end.
  pub main-Handles :
      (ring : Ring) (pool_at : ℕ) (stack : Stack) (o : Opening file) (now : ℕ) (turns : List Turn)
      → AreSound stack
      → (let g = main_init stack in length (c_str g.env.fastcgi_sock) ≤ 108)
      → ((s : Started)
          → startup hw file ring pool_at tick stack o now ≡ ok s
          → StartsFaithful turns s)
      → Handles
          (Starts (IsServing hw table sorted) (main_init stack))
          (main hw table file tick ring pool_at stack o now turns)
  unfolding main
  main-Handles ring pool_at stack o now turns sound fits f =
      let (s, e, k) =
        startup-Starts hw table sorted file ring pool_at tick stack o now sound fits in
      rw e (run_started-Handles ring pool_at turns (main_init stack) s k (f s e))
