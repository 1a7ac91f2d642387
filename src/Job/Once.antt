-- ===== src/Job/Once.antt =====
-- A connection that is not kept alive.
use simple_http.Base.{
  if◌then◌else◌, ℕ, suc, ◌≡◌, refl, ◌∙◌, Bool, true, false, some, List, ◌∷◌, ◌++◌, Bytes,
}
use simple_http.Base.Int.{ℤ}
use simple_http.Effects.{World, done, alloc}
use simple_http.Effects.Outcomes.{calm}
use simple_http.System.{System}
use simple_http.Response.{KeepAlive}
use simple_http.Parser.Closing.{closed, close-closed}
use simple_http.VirtualPath.{Lua}
use simple_http.Plugin.{Plugin, Loader, pre_on_incoming_client, post_on_incoming_client}
use simple_http.Plugin.Events.{Quiet, trigger_event-calm}
use simple_http.Job
use simple_http.Job.{thread_ok, PollResult, thread_job}
use simple_http.Job.Serve.{Serves, serve-answer, answer}

module _ (sys : System) (lua : Lua) (root : Bytes) (cfd : ℤ) (ka : KeepAlive) (fds : List ℕ)
    (next : ℕ) (input sent : Bytes) (loader : Loader) (plugins : List Plugin) where
  started :
      (polls : List PollResult) (b : Bool) (w : World)
      → b ≡ false
      → (if b
            then Job.keep sys lua (some root) cfd ka ka.max polls
            else Job.once sys lua (some root) cfd loader plugins ka)
          w
        ≡ Job.once sys lua (some root) cfd loader plugins ka w
  started polls true w e = cc
  started polls false w e = refl

  once_served :
      (w u : World)
      → Quiet loader
      → Job.serve sys lua (some root) cfd ka w ≡ done tt u
      → Job.once sys lua (some root) cfd loader plugins ka w
        ≡ done thread_ok (record u { fds = closed cfd u.fds })
  unfolding Job.once Job.leave
  once_served w u quiet served =
      let (b, shut) = close-closed cfd u in
      let (first, before) = trigger_event-calm loader plugins pre_on_incoming_client cfd w quiet in
      let (second, after) = trigger_event-calm loader plugins post_on_incoming_client cfd u quiet in
      rw (before, served, after, shut)

  -- A connection that is not kept alive serves one request and is closed.
  pub thread_job-served :
      (polls : List PollResult) (u : World)
      → ka.keep_alive ≡ false
      → Quiet loader
      → Job.serve sys lua (some root) cfd ka (calm fds next input sent) ≡ done tt u
      → thread_job sys lua (some root) cfd loader plugins ka polls (calm fds next input sent)
        ≡ done thread_ok (record u { fds = closed cfd u.fds })
  unfolding thread_job Job.start alloc
  thread_job-served polls u off quiet served =
      started polls ka.keep_alive (calm fds next input sent) off
      ∙ once_served (calm fds next input sent) u quiet served

module _ (sys : System) (lua : Lua) (root : Bytes) (cfd : ℤ) (ka : KeepAlive) (fds : List ℕ)
    (next : ℕ) (input sent word path contents type : Bytes) (loader : Loader)
    (plugins : List Plugin) where
  -- A connection that is not kept alive and asks for a static file gets the answer and is closed.
  pub thread_job-serve :
      (polls : List PollResult)
      → ka.keep_alive ≡ false
      → Quiet loader
      → Serves sys lua root cfd ka fds next input sent word path contents type
      → (rest : Bytes) × (thread_job sys lua
            (some root)
            cfd
            loader
            plugins
            ka
            polls
            (calm fds next input sent)
          ≡ done thread_ok (
              calm
                (closed cfd (closed cfd (next ∷ fds)))
                (suc next)
                rest
                (sent ++ answer sys lua root cfd ka fds next input sent word path contents type)))
  thread_job-serve polls off quiet s =
      let (rest, served) =
        serve-answer sys lua root cfd ka fds next input sent word path contents type s in
      (
        rest,
        thread_job-served sys lua root cfd ka fds next input sent loader plugins polls _ off quiet
            served,
      )
