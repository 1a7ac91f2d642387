-- ===== src/Main.antt =====
-- src/main.c: the start, and the loop that accepts clients; its children run src/threadJob.c.
-- What a poll reports of each listening socket, with the client that waits at it, is a list in the
-- order of the table. A child that ends has its run where it is made, since the parent waits for it.
-- Lua's state and the log are left out.

pub mod Start
pub mod Loop
pub mod Turns
pub mod Progress
pub mod Answer
use simple_http.Base.{
  ◌≡◌, ℕ, zero, suc, ◌+◌, ◌-◌, Bool, true, false, ◌&&◌, ◌||◌, Option, none, some, List, [], ◌∷◌,
  ◌++◌, Bytes, ◌==◌, ltb, if◌then◌else◌, length, map, replicate,
}
use simple_http.Base.Int.{ℤ, pos, negsuc, eq_int}
use simple_http.Effects.{
  World, M, Run, done, bind, pure, ◌>>=◌, ◌>>◌, log_fatal, undefined, alloc, alloc_or_crash,
  alloc_or_fatal, close, WriteResult,
}
use simple_http.System.{System}
use simple_http.Response.{KeepAlive}
use simple_http.VirtualPath.{Lua}
use simple_http.Job.{Revents, PollResult, hung_up, readable, QuitStatus, thread_job}
use simple_http.Plugin.{Loader, unload_all_plugins}
use simple_http.FreeStack
use simple_http.FreeStack.{FreeStack}
use simple_http.Socket.{
  NewSock, OpenSocket, Net, Inet, Attempt, Sockaddr, unspecified, create_socket, domtosize,
  get_address_and_port,
}
use simple_http.FreeStack
use simple_http.FreeStack.{FreeStack}
use simple_http.Quit.{Cleanup, ctrl_c_h}
use simple_http.Setup.{Driver, Call, init}

-- A client that waits at a socket: its address and what it sends.
pub record Client : Type 0 where
  pub addr : Sockaddr
  pub input : Bytes

-- What happens behind a poll: whether `accept` gives a client and `fork` a child, and what the child
-- meets.
pub record Arrival : Type 0 where
  pub client : Option Client
  pub forks : Bool
  pub allocs : List Bool
  pub writes : List WriteResult
  pub dups : List Bool
  pub polls : List PollResult
  -- the address of its buffer
  pub buf : ℕ
  -- whether the child comes to an end: it does not while it reads or polls, and its client neither
  -- sends nor closes
  pub ends : Bool

-- The parent, with what became of the children so far, and the descriptors of the clients for whom
-- there was no child.
pub record Server : Type 0 where
  pub net : Net
  pub children : List (Run (QuitStatus × Cleanup))
  pub unserved : List ℕ

-- Where a turn of the loop leaves the process: it ended, it stands in `wait(NULL)` for ever, or it
-- goes on.
pub data Outcome : Type 0 where
  exited : Outcome
  waits goes_on : Server → Outcome

abbrev is_positive : ℤ → Bool
is_positive (pos n) = ltb 0 n
is_positive (negsuc n) = false

-- The loop over `j`: the domain of the entry with this descriptor.
unfoldable pub find_domain : ℕ → List OpenSocket → ℤ → ℤ
find_domain fd [] domain = domain
find_domain fd (e ∷ es) domain =
    let d = if e.fd == fd then e.conf.domain else negsuc 0 in
    let rest = find_domain fd es d in if is_positive d then d else rest

-- `accept(2)`: the descriptor, or -1, and what it leaves in the block of zeros.
unfoldable pub accept : Option Client → M (ℤ × Sockaddr)
accept none w = done (negsuc 0, unspecified) w
accept (some client) w =
    done (pos w.next_fd, client.addr)
      (record w { fds = w.next_fd ∷ w.fds; next_fd = suc w.next_fd })

-- `getAddressAndPort` reads the family in a block of `client_len` bytes; its results are logged.
unfoldable pub log_client : Inet → ℕ → Sockaddr → M (Bytes × ℤ)
log_client inet zero addr = undefined
log_client inet (suc n) addr = pure (get_address_and_port inet addr (replicate 46 0, pos 0))

-- The child closes the listening sockets.
pub close_all : List OpenSocket → M (Unit {0})
close_all [] = pure tt
close_all (e ∷ es) = do _ ← close (pos e.fd); close_all es

-- `save_ptr(buf)` on the empty stack of the process.
pub save_buffer : ℕ → M FreeStack
save_buffer buf = elim (FreeStack.save_ptr buf FreeStack.empty) [
  | FreeStack.quit ↦ log_fatal
  | FreeStack.out_of_bounds ↦ undefined
  | FreeStack.ok stack ↦ pure stack
]

-- What the client of an arrival sends.
abbrev pub client_input : Option Client → Bytes
client_input none = []
client_input (some client) = client.input

-- The surroundings of a child: the parent's descriptors, and its own luck.
abbrev pub child_world : Arrival → World → World
child_world a w = record {
  allocs = a.allocs;
  writes = a.writes;
  dups = a.dups;
  fds = w.fds;
  next_fd = w.next_fd;
  input = client_input a.client;
  sent = [];
}

-- The descriptor of a client, among those that nobody closes.
abbrev pub add_unserved : ℤ → List ℕ → List ℕ
add_unserved (pos n) fds = n ∷ fds
add_unserved (negsuc n) fds = fds

module _ (sys : System) (lua : Lua) (inet : Inet) (loader : Loader) (drv : Driver) where
  -- `threadJob` leaves by `exit`, which runs the handler `thread_quit`.
  pub thread_quit : Server → FreeStack → M Cleanup
  thread_quit s stack = ctrl_c_h loader drv s.net stack (negsuc 0)

  pub child : Server → Arrival → ℤ → M (QuitStatus × Cleanup)
  child s a cfd = do
    close_all s.net.open_sockets
    stack ← save_buffer a.buf
    status ←
        thread_job sys lua drv.server_root cfd loader drv.plugins.plugins drv.keep_alive a.polls
    cleanup ← thread_quit s stack
    pure (status, cleanup)

  -- `wait(NULL)` where there is a child; there is one at most.
  abbrev pub wait : Server → Run (QuitStatus × Cleanup) → Bool → Outcome
  wait s run false = waits s
  wait s run true = goes_on (record s { children = s.children ++ run ∷ [] })

  -- `fork`, in the parent: it closes the client and waits for the child. Without a child `wait` returns
  -- at once.
  unfoldable pub on_fork : Server → Arrival → ℤ → Bool → M Outcome
  on_fork s a cfd false w = done (goes_on (record s { unserved = add_unserved cfd s.unserved })) w
  on_fork s a cfd true w =
      bind (close cfd w) (λ _. pure (wait s (child s a cfd (child_world a w)) a.ends))

  -- The body of the loop for a socket that is readable.
  unfoldable pub take_client : Server → Arrival → OpenSocket → M Outcome
  take_client s a e = do
    alloc_or_fatal
    (cfd, addr) ← accept a.client
    _ ← log_client inet (domtosize (find_domain e.fd s.net.open_sockets (pos 0))) addr
    on_fork s a cfd a.forks

  unfoldable pub take_if : Server → Arrival → OpenSocket → Bool → M Outcome
  take_if s a e false = pure (goes_on s)
  take_if s a e true = take_client s a e

  abbrev pub then_on : (Server → M Outcome) → Outcome → M Outcome
  then_on again exited = pure exited
  then_on again (waits s) = pure (waits s)
  then_on again (goes_on s) = again s

  -- The loop over the sockets behind a poll. Sockets without an event come last in the list, and may
  -- be left out.
  unfoldable pub on_event :
      (Server → M Outcome) → Server → Revents → Arrival → OpenSocket → Bool → M Outcome
  on_event again s r a e true = pure exited
  on_event again s r a e false = take_if s a e (readable r) >>= then_on again

  unfoldable pub watch : Server → List OpenSocket → List (Revents × Arrival) → M Outcome
  watch s [] events = pure (goes_on s)
  watch s (e ∷ es) [] = pure (goes_on s)
  watch s (e ∷ es) ((r, a) ∷ events) = on_event (λ s'. watch s' es events) s r a e (hung_up r)

  -- A turn of `while (1)`: a poll that fails is fatal.
  unfoldable pub turn : Server → Option (List (Revents × Arrival)) → M Outcome
  turn s none = log_fatal
  turn s (some events) = watch s s.net.open_sockets events

  -- The turns that come back to the poll.
  pub data Turn : Server × World → Server × World → Type 0 where
    polled :
        (s s' : Server) (w w' : World) (events : List (Revents × Arrival))
        → turn s (some events) w ≡ done (goes_on s') w'
        → Turn (s, w) (s', w')

  pub data Reach (start : Server × World) : Server × World → Type 0 where
    at_start : Reach start start
    next : {x y : Server × World} → Reach start x → Turn x y → Reach start y
