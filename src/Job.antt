-- ===== src/Job.antt =====
-- src/threadJob.c: what the process of a connection does. `poll` is a sequence of results for a
-- descriptor that is open; Main has the clean-up behind `exit`.
pub mod Rounds
pub mod Serve
pub mod Kept
pub mod Once
pub mod Routed
use simple_http.Base.{
  ℕ, zero, suc, Bool, true, false, ◌||◌, Option, none, some, List, [], ◌∷◌, Bytes, if◌then◌else◌,
}
use simple_http.Base.Int.{ℤ, pos, negsuc}
use simple_http.Effects.{World, M, Run, done, pure, ◌>>=◌, log_fatal, alloc, is_open, close}
use simple_http.System.{System}
use simple_http.Response.{KeepAlive}
use simple_http.VirtualPath.{Lua}
use simple_http.Plugin.{Plugin, Loader, pre_on_incoming_client, post_on_incoming_client}
use simple_http.Plugin.Events.{trigger_event}
use simple_http.Parser.{Request, init_request, parse_request}
use simple_http.Process.{process_request, free_request}

-- `quit_status_e`
pub data QuitStatus : Type 0 where
  thread_fail thread_ok thread_socket_hungup thread_timeout : QuitStatus

-- `revents`
pub record Revents : Type 0 where
  pub pollin : Bool
  pub pollpri : Bool
  pub pollout : Bool
  pub pollhup : Bool
  pub pollrdband : Bool
  pub pollnval : Bool

-- What `poll` gives: 0, a negative number, or 1 with the events.
pub data PollResult : Type 0 where
  timed_out poll_failed : PollResult
  ready : Revents → PollResult

-- The events of a descriptor that is closed.
abbrev pub not_valid : PollResult
not_valid = ready (record {
  pollin = false;
  pollpri = false;
  pollout = false;
  pollhup = false;
  pollrdband = false;
  pollnval = true;
})

-- `revents & POLL_HUP`: the constant is a code of `SIGPOLL`, 6, which is POLLPRI | POLLOUT.
abbrev pub hung_up : Revents → Bool
hung_up r = r.pollpri || r.pollout

-- `revents & POLL_PRI || revents & POLLRDBAND`: the first constant is 5, POLLIN | POLLOUT.
abbrev pub readable : Revents → Bool
readable r = (r.pollin || r.pollout) || r.pollrdband

module _ (sys : System) (lua : Lua) (root : Option Bytes) (cfd : ℤ) where
  -- The results of parsing and processing are dropped.
  pub serve_request : KeepAlive → Option Request → M (Unit {0})
  serve_request ka none = log_fatal
  serve_request ka (some req) = do
    (_, parsed) ← parse_request req
    (_, processed) ← process_request sys lua root ka parsed
    free_request processed

  pub serve : KeepAlive → M (Unit {0})
  serve ka = do req ← init_request cfd; serve_request ka req

  -- `close(client_sockfd)` and `exit`.
  pub leave : QuitStatus → M QuitStatus
  leave status = do _ ← close cfd; pure status

  -- The settings of a round: `max` counts the rounds that are left, this one included.
  abbrev pub settings : KeepAlive → ℕ → KeepAlive
  settings ka left = record ka { max = pos left }

  pub serve_if : KeepAlive → Bool → M (Unit {0})
  serve_if ka false = pure tt
  serve_if ka true = serve ka

  pub on_events : M QuitStatus → KeepAlive → Revents → Bool → M QuitStatus
  on_events again ka r true = leave thread_socket_hungup
  on_events again ka r false = do _ ← serve_if ka (readable r); again

  pub on_poll : M QuitStatus → KeepAlive → PollResult → M QuitStatus
  on_poll again ka timed_out = leave thread_timeout
  on_poll again ka poll_failed = leave thread_fail
  on_poll again ka (ready r) = on_events again ka r (hung_up r)

  -- What `poll` gives in this round, with the results to come; from their end on it times out.
  abbrev pub next_poll : List PollResult → PollResult
  next_poll [] = timed_out
  next_poll (p ∷ ps) = p

  abbrev pub later_polls : List PollResult → List PollResult
  later_polls [] = []
  later_polls (p ∷ ps) = ps

  -- The loop `while (max > 0)`. Of the time limit only its end is seen, in the results of `poll`: the
  -- product `timeout * 1000` is taken to be an `int`.
  pub rounds : KeepAlive → ℕ → List PollResult → M QuitStatus
  rounds ka zero polls w = leave thread_ok w
  rounds ka (suc left) polls w =
      on_poll (rounds ka left (later_polls polls)) (settings ka (suc left))
        (if is_open cfd w.fds then next_poll polls else not_valid) w

  -- A `max` below zero is no round.
  pub keep : KeepAlive → ℤ → List PollResult → M QuitStatus
  keep ka (pos n) polls = rounds ka n polls
  keep ka (negsuc n) polls = rounds ka zero polls

  -- The plugins are told of the client before the request and behind it.
  pub once : Loader → List Plugin → KeepAlive → M QuitStatus
  once loader plugins ka = do
    _ ← trigger_event loader plugins pre_on_incoming_client cfd
    _ ← serve ka
    _ ← trigger_event loader plugins post_on_incoming_client cfd
    leave thread_ok

  -- The buffer's allocation is fatal where it fails; the pointer is saved on an empty stack.
  pub start : Loader → List Plugin → KeepAlive → List PollResult → Bool → M QuitStatus
  start loader plugins ka polls false = log_fatal
  start loader plugins ka polls true =
      if ka.keep_alive then keep ka ka.max polls else once loader plugins ka

  -- `threadJob(client_sockfd, server, keep_alive)` where `atexit` succeeds, with `g_plugin`.
  pub thread_job : Loader → List Plugin → KeepAlive → List PollResult → M QuitStatus
  thread_job loader plugins ka polls = do buf ← alloc; start loader plugins ka polls buf
