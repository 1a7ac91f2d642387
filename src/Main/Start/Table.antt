-- ===== src/Main/Start/Table.antt =====
-- `main` up to its loop: what it listens to.
use simple_http.Base.{
  ℕ, ◌≡◌, refl, sym, ap, subst, ◌∙◌, true, Bool-cases, inl, inr, Option, none, some, List, [], ◌∷◌,
  ◌++◌, Bytes, All, length, ltb, ◌==◌, arith, if◌then◌else◌, map, append_assoc, append-nil,
}
use simple_http.Base.Int.{ℤ, pos}
use simple_http.Effects.{Run, bind, pure, World, alloc, alloc_or_crash}
use simple_http.Effects.Outcomes.{calm}
use simple_http.Effects.Safe.{Safe, Safe-bind, Safe-mono}
use simple_http.Parser.Closing.{Below}
use simple_http.Plugin.{Loader, test_types}
use simple_http.Plugin.Events.{Harmless, trigger_event, trigger_event-Safe}
use simple_http.Socket.{NewSock, OpenSocket, Net, Inet, Attempt, domtosize, create_socket}
use simple_http.Socket.Table.{Listens}
use simple_http.Socket.Create.{Created, create_socket-Created}
use simple_http.Setup.{Driver, Call, init}
use simple_http.Setup.Invariant.{Configured, Fits, Sound}
use simple_http.Setup.Script.{init-Configured}
use simple_http.Main.Start
use simple_http.Main.Start.{Stage, exited, listening, create_sockets, start}

-- The sockets whose domain has addresses, in order.
unfoldable pub with_domain : List NewSock → List NewSock
with_domain [] = []
with_domain (s ∷ ss) =
    let rest = with_domain ss in if ltb 0 (domtosize s.domain) then s ∷ rest else rest

abbrev pub confs : List OpenSocket → List NewSock
confs = map (λ e. e.conf)

confs-append :
    (es : List OpenSocket) (e : OpenSocket) → confs (es ++ e ∷ []) ≡ confs es ++ e.conf ∷ []
confs-append [] e = refl
confs-append (x ∷ es) e = rw (confs-append es e)

-- The table behind the loop over the sockets.
pub record Opened (before : List NewSock) (socks : List NewSock) (net : Net) (w : World)
    : Type 0 where
  pub listens : Listens net w.fds w.next_fd
  pub all : confs net.open_sockets ≡ before ++ with_domain socks

more :
    (before : List NewSock) (sock : NewSock) (socks : List NewSock) (net : Net) (w : World)
    (r : ℤ × Net) (u : World)
    → confs net.open_sockets ≡ before
    → Created sock net w r u
    → confs r.1.open_sockets ++ with_domain socks ≡ before ++ with_domain (sock ∷ socks)
unfolding with_domain
more before sock socks net w r u same c = elim c.result [
  | inl (_, kept, _, zero_size) ↦
      rw zero_size
        (ap (λ xs. xs ++ with_domain socks) (ap (λ (n : Net). confs n.open_sockets) kept ∙ same))
  | inr (_, new, _, sized) ↦ rw sized (
      ap (λ xs. xs ++ with_domain socks)
        (ap confs new ∙ confs-append net.open_sockets _ ∙ ap (λ b. b ++ sock ∷ []) same)
      ∙ append_assoc before (sock ∷ []) (with_domain socks))
]

create_sockets-Opened :
    (inet : Inet) (ats : List Attempt) (socks : List NewSock) (net : Net) (w : World)
    → All Sound socks
    → Listens net w.fds w.next_fd
    → w.allocs ≡ []
    → Safe (Opened (confs net.open_sockets) socks) (create_sockets inet ats socks net w)
unfolding create_sockets with_domain
create_sockets-Opened inet ats [] net w s l m = record { listens = l; all = sym (append-nil _) }
create_sockets-Opened inet ats (sock ∷ socks) net w (s, ss) l m =
    Safe-bind _ _ (create_socket inet (Start.next_attempt ats) sock net w) _
      (create_socket-Created sock net w inet (Start.next_attempt ats) s.cells s.text l m s.block
        s.ended)
      (λ r u c.
        Safe-mono _ _ (create_sockets inet (Start.later_attempts ats) socks r.1 u)
          (create_sockets-Opened inet (Start.later_attempts ats) socks r.1 u ss c.listens c.allocs)
          (λ net' v o. record {
            listens = o.listens;
            all = o.all ∙ more (confs net.open_sockets) sock socks net w r u refl c;
          }))

-- Where `main` stands: it returned 1, or it listens at each configured socket whose domain has
-- addresses, in order, with both roots.
abbrev pub Started : Stage → World → Type 0
Started (exited code) w = code ≡ 1
Started (listening drv net) w =
    Configured drv × Opened [] drv.socket net w × ((root : Bytes) × (drv.server_root ≡ some root))

pub start-Started :
    (inet : Inet) (ats : List Attempt) (loader : Loader) (script : List Call) (fds : List ℕ)
    (next : ℕ)
    → Below next fds
    → All Fits script
    → Harmless loader test_types (pos 42)
    → Safe Started (start inet ats loader script (calm fds next [] []))
unfolding start alloc_or_crash alloc Start.with_roots Start.open_all Start.configured
start-Started inet ats loader script fds next below fits harmless =
    Safe-bind _ _ (init loader script (Start.fresh_driver true) (calm fds next [] [])) _
      (init-Configured fds next [] [] loader script (Start.fresh_driver true) fits fresh)
      (λ drv w (c, e).
        subst (λ u. Safe Started (Start.configured inet ats loader drv u)) (sym e)
          (configured drv c))
  where
    fresh : Configured (Start.fresh_driver true)
    fresh = record {
      cells = refl;
      few = omega arith;
      sound = tt;
      timeout = omega arith;
      max = omega arith;
      limit = omega arith;
    }

    opening : Driver → World → Run Stage
    opening drv u =
        bind (create_sockets inet ats drv.socket Start.no_sockets u)
          (λ net. pure (listening drv net))

    opened :
        (drv : Driver) (server : Bytes)
        → Configured drv
        → drv.server_root ≡ some server
        → Safe Started (opening drv (calm fds next [] []))
    opened drv server c e =
        Safe-bind _ _ (create_sockets inet ats drv.socket Start.no_sockets (calm fds next [] [])) _
          (create_sockets-Opened inet ats drv.socket Start.no_sockets (calm fds next [] []) c.sound
            (record { few = omega arith; fresh = below; opened = tt; known = tt; apart = tt }) refl)
          (λ net w o. (c, o, (server, e)))

    with_roots :
        (drv : Driver) (routes server : Option Bytes)
        → Configured drv
        → drv.server_root ≡ server
        → Safe Started (Start.with_roots inet ats loader drv routes server (calm fds next [] []))
    with_roots drv (some routes) (some server) c e =
        Safe-bind _ _
          (trigger_event loader drv.plugins.plugins test_types (pos 42) (calm fds next [] [])) _
          (trigger_event-Safe loader drv.plugins.plugins test_types (pos 42) (calm fds next [] [])
            harmless)
          (λ _ u same. subst (λ u. Safe Started (opening drv u)) (sym same) (opened drv server c e))
    with_roots drv none server c e = refl
    with_roots drv (some routes) none c e = refl

    configured :
        (drv : Driver)
        → Configured drv
        → Safe Started (Start.configured inet ats loader drv (calm fds next [] []))
    configured drv c = elim (Bool-cases (length drv.socket == 0)) [
      | inl empty ↦ rw empty refl
      | inr some_socket ↦ rw some_socket (with_roots drv drv.routes_root drv.server_root c refl)
    ]
