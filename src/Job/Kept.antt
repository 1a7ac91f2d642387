-- ===== src/Job/Kept.antt =====
-- A connection that is kept alive: the requests that it serves.
use simple_http.Base.{
  if◌then◌else◌, ℕ, suc, ◌≡◌, refl, ap, ◌∙◌, Bool, true, false, some, List, ◌∷◌, ◌++◌, Bytes,
}
use simple_http.Base.Int.{ℤ, pos}
use simple_http.Effects.{World, done, alloc}
use simple_http.Effects.Outcomes.{calm}
use simple_http.System.{System}
use simple_http.Response.{KeepAlive}
use simple_http.Parser.Closing.{closed, close-closed, is_open-closed}
use simple_http.VirtualPath.{Lua}
use simple_http.Job
use simple_http.Plugin.{Plugin, Loader}
use simple_http.Job.{thread_ok, PollResult, ready, Revents, hung_up, readable, thread_job, settings}
use simple_http.Job.Rounds.{rounds-once}
use simple_http.Job.Serve.{Serves, serve-answer, answer}

module _ (sys : System) (lua : Lua) (root : Bytes) (cfd : ℤ) (ka : KeepAlive) (fds : List ℕ)
    (next : ℕ) (input sent word path contents type : Bytes) where
  kept :
      (m : ℤ) (left : ℕ) (polls : List PollResult) (w : World)
      → m ≡ pos (suc left)
      → Job.keep sys lua (some root) cfd ka m polls w
        ≡ Job.rounds sys lua (some root) cfd ka (suc left) polls w
  kept m left polls w e =
      ap (λ (n : ℤ). Job.keep sys lua (some root) cfd ka n polls w) e ∙ unfold Job.keep in refl

  started :
      (loader : Loader) (plugins : List Plugin) (polls : List PollResult) (b : Bool) (w : World)
      → b ≡ true
      → (if b
            then Job.keep sys lua (some root) cfd ka ka.max polls
            else Job.once sys lua (some root) cfd loader plugins ka)
          w
        ≡ Job.keep sys lua (some root) cfd ka ka.max polls w
  started loader plugins polls true w e = refl
  started loader plugins polls false w e = cc

  -- A connection that is kept alive for one round or more, whose first poll shows input or band
  -- data and neither priority data nor room to write, and whose first request can be served as a
  -- static file with nothing failing, gets that one answer and nothing else, whatever polls
  -- follow: the descriptor that is polled is closed by then, and the job ends with `THREAD_OK`.
  pub thread_job-answer :
      (loader : Loader) (plugins : List Plugin) (left : ℕ) (r : Revents) (polls : List PollResult)
      → ka.keep_alive ≡ true
      → ka.max ≡ pos (suc left)
      → hung_up r ≡ false
      → readable r ≡ true
      → Serves sys lua root cfd
          (settings sys lua (some root) cfd ka (suc left))
          fds
          next
          input
          sent
          word
          path
          contents
          type
      → (rest : Bytes) × (thread_job sys lua
            (some root)
            cfd
            loader
            plugins
            ka
            (ready r ∷ polls)
            (calm fds next input sent)
          ≡ done thread_ok (
              calm (closed cfd (closed cfd (next ∷ fds))) (suc next) rest (
                sent
                ++ answer sys lua root cfd
                    (settings sys lua (some root) cfd ka (suc left))
                    fds
                    next
                    input
                    sent
                    word
                    path
                    contents
                    type)))
  unfolding thread_job Job.start alloc
  thread_job-answer loader plugins left r polls on max alive can s =
      let (rest, served) =
        serve-answer sys lua root cfd (settings sys lua (some root) cfd ka (suc left)) fds next
          input sent word path contents type s in
      (
        rest,
        started loader plugins (ready r ∷ polls) ka.keep_alive (calm fds next input sent) on
            ∙ kept ka.max left (ready r ∷ polls) (calm fds next input sent) max
            ∙ rounds-once sys lua (some root) cfd ka left r polls (calm fds next input sent) _
                s.opened alive can served (is_open-closed cfd (next ∷ fds))
            ∙ left_behind rest,
      )
    where
      left_behind :
          (rest : Bytes)
          → Job.leave sys lua (some root) cfd thread_ok (
              calm (closed cfd (next ∷ fds)) (suc next) rest (
                sent
                ++ answer sys lua root cfd
                    (settings sys lua (some root) cfd ka (suc left))
                    fds
                    next
                    input
                    sent
                    word
                    path
                    contents
                    type))
            ≡ done thread_ok (
                calm (closed cfd (closed cfd (next ∷ fds))) (suc next) rest (
                  sent
                  ++ answer sys lua root cfd
                      (settings sys lua (some root) cfd ka (suc left))
                      fds
                      next
                      input
                      sent
                      word
                      path
                      contents
                      type))
      left_behind rest =
          let (b, shut) = close-closed cfd (
            calm (closed cfd (next ∷ fds)) (suc next) rest (
              sent
              ++ answer sys lua root cfd (settings sys lua (some root) cfd ka (suc left)) fds next
                  input sent word path contents type)) in
          unfold Job.leave in rw shut
