-- ===== src/Job/Rounds.antt =====
-- The keep-alive loop behind its first request.
use simple_http.Base.{true, ◌∷◌, ℕ, zero, suc, ◌≡◌, refl, false, Option, List, Bytes}
use simple_http.Base.Int.{ℤ}
use simple_http.Effects.{done, World, is_open}
use simple_http.System.{System}
use simple_http.Response.{KeepAlive}
use simple_http.VirtualPath.{Lua}
use simple_http.Job
use simple_http.Job.{thread_ok, PollResult, ready, Revents, hung_up, readable, serve, rounds}

module _ (sys : System) (lua : Lua) (root : Option Bytes) (cfd : ℤ) (ka : KeepAlive) where
  -- Once the client's descriptor is closed the keep-alive loop serves no request, whatever is
  -- polled: it runs its rounds to the end and leaves with `THREAD_OK`, the surroundings unchanged
  -- but for the last `close`.
  pub rounds-leave :
      (left : ℕ) (polls : List PollResult) (w : World)
      → is_open cfd w.fds ≡ false
      → rounds sys lua root cfd ka left polls w ≡ Job.leave sys lua root cfd thread_ok w
  unfolding rounds Job.on_poll Job.on_events Job.serve_if
  rounds-leave zero polls w shut = refl
  rounds-leave (suc left) polls w shut =
      rw shut (rounds-leave left (Job.later_polls sys lua root cfd polls) w shut)

  -- A round that serves a request, behind which the descriptor is closed.
  pub rounds-once :
      (left : ℕ) (r : Revents) (polls : List PollResult) (w u : World)
      → is_open cfd w.fds ≡ true
      → hung_up r ≡ false
      → readable r ≡ true
      → serve sys lua root cfd (Job.settings sys lua root cfd ka (suc left)) w ≡ done tt u
      → is_open cfd u.fds ≡ false
      → rounds sys lua root cfd ka (suc left) (ready r ∷ polls) w
        ≡ Job.leave sys lua root cfd thread_ok u
  unfolding rounds Job.on_poll Job.on_events Job.serve_if
  rounds-once left r polls w u o alive can served shut =
      rw (o, alive, can, served) (rounds-leave left polls u shut)
