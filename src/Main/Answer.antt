-- ===== src/Main/Answer.antt =====
-- From a client that waits at a listening socket to the answer that it gets.
use simple_http.Base.{
  ◌∙◌, ap, sym, arith, subst, replicate, ◌≢◌, ◌≡◌, refl, true, false, some, List, [], ◌∷◌, ℕ, zero,
  suc, ltb, ◌++◌, Bytes, ==_refl,
}
use simple_http.Base.Int.{negsuc, ℤ, pos}
use simple_http.Effects.{Run, World, done, alloc, alloc_or_fatal, close, without}
use simple_http.Effects.Outcomes.{calm}
use simple_http.FreeStack.{FreeStack, save_ptr}
use simple_http.FreeStack.Laws.{IsStack, contents}
use simple_http.Plugin.{Loader, PluginStatus, unload_all_plugins}
use simple_http.Quit.{Cleanup}
use simple_http.Quit.Frees.{all_closed, NoDup, ctrl_c_h-NoDup}
use simple_http.Setup.{Driver}
use simple_http.Socket.Table.{Apart}
use simple_http.System.{System}
use simple_http.VirtualPath.{Lua}
use simple_http.Job.{PollResult, QuitStatus, thread_job, thread_ok}
use simple_http.Job.Serve.{Serves, answer}
use simple_http.Job.Once.{thread_job-serve}
use simple_http.Socket.{OpenSocket, Net, Inet, domtosize, Sockaddr}
use simple_http.Socket.Made.{without_fresh}
use simple_http.Main
use simple_http.Plugin.Events.{Quiet}
use simple_http.Main.{goes_on, Server, Arrival, Client, take_client, find_domain}
use simple_http.Main.Loop.{Runs, has, find_domain-Known}

close_all-calm :
    (es : List OpenSocket) (fds : List ℕ) (next : ℕ) (input sent : Bytes)
    → Main.close_all es (calm fds next input sent)
      ≡ done tt (calm (all_closed es fds) next input sent)
unfolding Main.close_all close
close_all-calm [] fds next input sent = refl
close_all-calm (e ∷ es) fds next input sent = close_all-calm es (without e.fd fds) next input sent

log_client_calm :
    (inet : Inet) (n : ℕ) (addr : Sockaddr) (w : World)
    → ltb 0 n ≡ true
    → (r : Bytes × ℤ) × (Main.log_client inet n addr w ≡ done r w)
unfolding Main.log_client
log_client_calm inet zero addr w h = cc
log_client_calm inet (suc n) addr w h = (_, refl)

-- The child's stack holds its buffer.
save_buffer_lem :
    (buf : ℕ) (w : World)
    → (stack : FreeStack) × (Main.save_buffer buf w ≡ done stack w)
      × IsStack stack
      × (contents stack ≡ buf ∷ [])
unfolding Main.save_buffer save_ptr
save_buffer_lem buf w = (
  record { top = 1; ptrs = buf ∷ replicate 63 0 },
  refl,
  record { cells = refl; within = omega arith },
  refl,
)

-- An arrival whose child meets no failure.
abbrev pub arrival : Client → List PollResult → ℕ → Arrival
arrival client polls buf = record {
  client = some client;
  forks = true;
  allocs = [];
  writes = [];
  dups = [];
  polls = polls;
  buf = buf;
  ends = true;
}

module _ (sys : System) (lua : Lua) (inet : Inet) (loader : Loader) (drv : Driver) (root : Bytes)
    (s : Server) (net : Net) (e : OpenSocket) (start : List ℕ) (fds : List ℕ) (next : ℕ)
    (input sent : Bytes) (client : Client) (polls : List PollResult) (buf : ℕ) where
  -- The child has the client's descriptor, and none of the listening sockets.
  abbrev pub child_fds : List ℕ
  child_fds = all_closed s.net.open_sockets (next ∷ fds)

  -- What the child does with the client.
  abbrev child_run : Run (QuitStatus × Cleanup)
  child_run =
      Main.child sys lua inet loader drv s (arrival client polls buf) (pos next)
        (calm (next ∷ fds) (suc next) client.input [])

  taken :
      has e.fd net.open_sockets ≡ true
      → Runs net start s (calm fds next input sent)
      → take_client sys lua inet loader drv s
          (arrival client polls buf)
          e
          (calm fds next input sent)
        ≡ done
            (goes_on (record s { children = s.children ++ child_run ∷ [] }))
            (calm fds (suc next) input sent)
  unfolding take_client alloc_or_fatal alloc Main.accept Main.on_fork close
  taken h r =
      let (logged, l) =
        log_client_calm inet (domtosize (find_domain e.fd s.net.open_sockets (pos 0))) client.addr
          (calm (next ∷ fds) (suc next) input sent) sized in
      rw (l, ==_refl next, without_fresh next fds r.listens.fresh)
    where
      sized : ltb 0 (domtosize (find_domain e.fd s.net.open_sockets (pos 0))) ≡ true
      sized = rw r.kept (find_domain-Known e.fd net.open_sockets (pos 0) h r.listens.known)

  -- The child that serves the client and leaves.
  left :
      (status : QuitStatus) (v : World) (unloaded : PluginStatus) (files : List Bytes)
      → Apart s.net.open_sockets
      → buf ≢ 0
      → ((u : World) → unload_all_plugins loader drv.plugins.plugins u ≡ done (unloaded, files) u)
      → thread_job sys lua drv.server_root
          (pos next)
          loader
          drv.plugins.plugins
          drv.keep_alive
          polls
          (calm child_fds (suc next) client.input [])
        ≡ done status v
      → (c : Cleanup) × (u : World) × (child_run ≡ done (status, c) u)
        × NoDup c.freed
        × (c.shut_down ≡ files)
        × (u.sent ≡ v.sent)
  unfolding Main.child Main.thread_quit
  left status v unloaded files apart live unload job =
      let (stack, saved, i, holds) =
        save_buffer_lem buf (calm child_fds (suc next) client.input []) in
      let (c, u, cleaned, once, shut, files_shut, same) =
        ctrl_c_h-NoDup loader drv s.net stack (negsuc 0) v unloaded files apart i
          (rw holds (live, tt)) (rw holds (tt, tt)) unload in
      (
        c,
        u,
        rw (
          close_all-calm s.net.open_sockets (next ∷ fds) (suc next) client.input [],
          saved,
          job,
          cleaned,
        ),
        once,
        files_shut,
        same,
      )

  -- From the client that waits at a listening socket to its answer, and to the end of its child:
  -- where nothing fails, connections are not kept alive, and the request line asks with a known
  -- method for a path that the routes leave to the static files, with a file that is regular, not
  -- empty, readable, of a known type and below 2^63 bytes, a response that the copied descriptor
  -- can take, the handlers of the plugins return and touch nothing, and the child comes to its
  -- end, the body of the loop accepts the client; its child sends exactly the status line for 200,
  -- the fixed headers, the file's type, its length cast to an `int`, an empty line and the file,
  -- ends with `THREAD_OK`, and on its exit gives no block back twice and runs the shutdown of the
  -- plugins, where unloading them succeeds. The parent goes on, records that child and has the
  -- descriptors that it had before.
  pub take_client-answer :
      (word path contents type : Bytes) (unloaded : PluginStatus) (files : List Bytes)
      → has e.fd net.open_sockets ≡ true
      → Runs net start s (calm fds next input sent)
      → drv.server_root ≡ some root
      → drv.keep_alive.keep_alive ≡ false
      → Quiet loader
      → buf ≢ 0
      → ((u : World) → unload_all_plugins loader drv.plugins.plugins u ≡ done (unloaded, files) u)
      → Serves sys lua root
          (pos next)
          drv.keep_alive
          child_fds
          (suc next)
          client.input
          []
          word
          path
          contents
          type
      → (c : Cleanup) × (u : World) × (take_client sys lua inet loader drv s
            (arrival client polls buf)
            e
            (calm fds next input sent)
          ≡ done
              (goes_on (record s { children = s.children ++ done (thread_ok, c) u ∷ [] }))
              (calm fds (suc next) input sent))
        × (u.sent
            ≡ answer sys lua root
                (pos next)
                drv.keep_alive
                child_fds
                (suc next)
                client.input
                []
                word
                path
                contents
                type)
        × NoDup c.freed
        × (c.shut_down ≡ files)
  take_client-answer word path contents type unloaded files h r rooted off quiet live unload can =
      let (rest, job) =
        thread_job-serve sys lua root (pos next) drv.keep_alive child_fds (suc next) client.input []
          word path contents type loader drv.plugins.plugins polls off quiet can in
      let (c, u, ran, once, shut, same) =
        left thread_ok _ unloaded files
          (subst (λ (n : Net). Apart n.open_sockets) (sym r.kept) r.listens.apart) live unload
          (ap
              (λ o.
                thread_job sys lua o (pos next) loader drv.plugins.plugins drv.keep_alive polls
                  (calm child_fds (suc next) client.input []))
              rooted
            ∙ job) in
      (
        c,
        u,
        taken h r
            ∙ ap
                (λ ran.
                  done (goes_on (record s { children = s.children ++ ran ∷ [] }))
                    (calm fds (suc next) input sent))
                ran,
        same,
        once,
        shut,
      )
