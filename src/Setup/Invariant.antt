-- ===== src/Setup/Invariant.antt =====
-- The state of the driver behind a configuration.
use simple_http.Base.{
  ℕ, ◌-◌, ◌^◌, ◌<◌, ◌≤◌, ◌≡◌, refl, sym, subst, true, Option, none, some, List, [], ◌∷◌, ◌++◌,
  Bytes, codes, All, All-append, length, length-append, replicate, lt→ltb, ltb→lt, arith,
}
use simple_http.Base.Int.{ℤ, pos, negsuc, IsInt, int_of_word}
use simple_http.Effects.{World, Run, bind, alloc, alloc_or_fatal}
use simple_http.Effects.Outcomes.{calm}
use simple_http.Effects.Safe.{Safe, Safe-bind}
use simple_http.Parser.Lines.{c_string}
use simple_http.Socket.{NewSock, text_of, max_open_sockets}
use simple_http.Setup
use simple_http.Setup.{
  Driver, SocketArgs, LuaValue, LuaResult, returned, raised, Call, fits_int, wrap_int, max_addr_len,
  init,
}
use simple_http.Setup.Create.{copy_ip_fits, text_of-padded}

-- The number of pointers in `calloc(MAX_OPEN_SOCKETS, sizeof(new_sock_t))`.
abbrev pub socket_cells : ℕ
socket_cells = 512

-- A socket whose address can be read and whose numbers are `int`s.
pub record Sound (ns : NewSock) : Type 0 where
  pub cells : Bytes
  pub text : Bytes
  pub block : ns.addr ≡ some cells
  pub ended : text_of cells ≡ some text
  pub port : IsInt ns.port
  pub domain : IsInt ns.domain
  pub listen : IsInt ns.listen
  pub proto : IsInt ns.proto

pub record Configured (drv : Driver) : Type 0 where
  pub cells : drv.cells ≡ socket_cells
  pub few : length drv.socket ≤ max_open_sockets
  pub sound : All Sound drv.socket
  pub timeout : IsInt drv.keep_alive.timeout
  pub max : IsInt drv.keep_alive.max
  pub limit : IsInt drv.thread_limit

-- The arguments that do not reach undefined behaviour: numbers in the range of `int`, and an address
-- that leaves room for its terminator.
abbrev pub InRange : Option ℤ → Type 0
InRange none = Unit
InRange (some z) = fits_int z ≡ true

abbrev pub IsShort : Option Bytes → Type 0
IsShort none = Unit
IsShort (some ip) = length (c_string ip) < max_addr_len

abbrev pub FitsTable : Option (Bytes → LuaValue) → Type 0
FitsTable none = Unit
FitsTable (some table) =
    InRange (table (codes "timeout")).number × InRange (table (codes "max")).number

abbrev pub Fits : Call → Type 0
Fits (Setup.create_socket args) =
    IsShort args.ip.string
    × InRange args.domain.number
    × InRange args.listen.number
    × InRange args.proto.number
Fits (Setup.set_keep_alive t) = FitsTable t
Fits (Setup.set_thread_limit v) = InRange v.number
Fits (Setup.set_log_level v) = InRange v.number
Fits _ = Unit

abbrev pub IsSetup : LuaResult Driver → Type 0
IsSetup (returned drv) = Configured drv
IsSetup raised = Unit

fits_int-IsInt : (z : ℤ) → fits_int z ≡ true → IsInt z
fits_int-IsInt (pos n) h = ltb→lt n (2 ^ 31) h
fits_int-IsInt (negsuc n) h = ltb→lt n (2 ^ 31) h

word-IsInt : (n : ℕ) → n < 2 ^ 32 → IsInt (int_of_word n)
word-IsInt n h = ground arith

wrap_int-IsInt : (z : ℤ) → IsInt (wrap_int z)
unfolding wrap_int
wrap_int-IsInt (pos n) = word-IsInt _ (omega arith)
wrap_int-IsInt (negsuc n) = word-IsInt _ (omega arith)

module _ (fds : List ℕ) (next : ℕ) (input sent : Bytes) where
  abbrev pub here : World
  here = calm fds next input sent

  -- A run that may abort, and otherwise leaves the surroundings as they are.
  abbrev pub Keeps : {A : Type 0} → (A → Type 0) → Run A → Type 0
  Keeps P r = Safe (λ a w'. P a × (w' ≡ here)) r

  pub Keeps-bind :
      {A B : Type 0} (P : A → Type 0) (Q : B → Type 0) (r : Run A) (f : A → World → Run B)
      → Keeps P r
      → ((a : A) → P a → Keeps Q (f a here))
      → Keeps Q (bind r f)
  Keeps-bind P Q r f p k =
      Safe-bind _ _ r f p (λ a w (h, e). subst (λ u. Keeps Q (f a u)) (sym e) (k a h))

  to_c_int-IsInt : (z : ℤ) → fits_int z ≡ true → Keeps IsInt (Setup.to_c_int z here)
  unfolding Setup.to_c_int
  to_c_int-IsInt z h = rw h (fits_int-IsInt z h, refl)

  number_in-IsInt : (o : Option ℤ) → InRange o → Keeps IsInt (Setup.number_in o here)
  unfolding Setup.number_in
  number_in-IsInt none h = to_c_int-IsInt (pos 0) refl
  number_in-IsInt (some z) h = to_c_int-IsInt z h

  pub number_of-IsInt : (v : LuaValue) → InRange v.number → Keeps IsInt (Setup.number_of v here)
  unfolding Setup.number_of
  number_of-IsInt v h = number_in-IsInt v.number h

  add_socket-IsSetup :
      (drv : Driver) (ns : NewSock)
      → Configured drv
      → length drv.socket < max_open_sockets
      → Sound ns
      → Keeps IsSetup (Setup.add_socket drv ns here)
  unfolding Setup.add_socket
  add_socket-IsSetup drv ns c room s =
      rw (lt→ltb (length drv.socket) drv.cells (omega (arith, c.cells))) (
        record {
          cells = c.cells;
          few = rw (length-append drv.socket (ns ∷ [])) (omega arith);
          sound = All-append Sound drv.socket (ns ∷ []) c.sound (s, tt);
          timeout = c.timeout;
          max = c.max;
          limit = c.limit;
        },
        refl,
      )

  pub new_socket-IsSetup :
      (drv : Driver) (args : SocketArgs) (ip : Bytes) (port : ℤ)
      → Configured drv
      → length drv.socket < max_open_sockets
      → length (c_string ip) < max_addr_len
      → InRange args.domain.number
      → InRange args.listen.number
      → InRange args.proto.number
      → Keeps IsSetup (Setup.new_socket drv args ip port here)
  unfolding Setup.new_socket alloc_or_fatal alloc
  new_socket-IsSetup drv args ip port c room short d l p =
      Keeps-bind IsInt IsSetup _ _ (number_of-IsInt args.domain d) (λ domain di.
        Keeps-bind IsInt IsSetup _ _ (number_of-IsInt args.listen l) (λ listen li.
          Keeps-bind IsInt IsSetup _ _ (number_of-IsInt args.proto p) (λ proto pi.
            rw (copy_ip_fits (c_string ip) here (omega arith)) (
              add_socket-IsSetup drv _ c room (record {
                cells = c_string ip ++ replicate (max_addr_len - length (c_string ip)) 0;
                text = c_string ip;
                block = refl;
                ended = padded;
                port = wrap_int-IsInt port;
                domain = di;
                listen = li;
                proto = pi;
              })))))
    where
      padded :
          text_of (c_string ip ++ replicate (max_addr_len - length (c_string ip)) 0)
          ≡ some (c_string ip)
      padded = text_of-padded ip short
