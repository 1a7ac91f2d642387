-- ===== src/Effects.antt =====
-- What the process asks of its surroundings, as a state: memory, the client's connection and its
-- descriptors. A list of results to come stands for what the caller cannot choose; from its end on
-- every request succeeds.
pub mod Outcomes
pub mod Returns
pub mod Safe
use simple_http.Base.{
  ℕ, zero, suc, ◌+◌, ◌-◌, ◌*◌, ◌^◌, Bool, true, false, ◌&&◌, ◌||◌, Option, none, some, List, [],
  ◌∷◌, ◌++◌, Bytes, ◌==◌, ltb, leb, if◌then◌else◌, length, take, min,
}
use simple_http.Base.Int.{ℤ, pos, negsuc, eq_int, is_neg}

-- What a `write(2)` gives: a count of bytes, cut to what was offered, or an error.
pub data WriteResult : Type 0 where
  wrote : ℕ → WriteResult
  failed : WriteResult

pub record World : Type 0 where
  -- whether the coming allocations succeed
  pub allocs : List Bool
  pub writes : List WriteResult
  pub dups : List Bool
  -- the open descriptors of the connection, and the number that the next `dup` returns
  pub fds : List ℕ
  pub next_fd : ℕ
  -- what the client sent and nobody read, and what was sent to the client
  pub input : Bytes
  pub sent : Bytes

-- `aborted` is the `abort()` of `log_fatal`; `fault` is undefined behaviour: an access outside a
-- block, through NULL or through a pointer whose object is gone.
pub data Run (A : Type 0) : Type 0 where
  done : A → World → Run A
  aborted : Run A
  fault : Run A

abbrev pub M : Type 0 → Type 0
M A = World → Run A

abbrev pub pure : {A : Type 0} → A → M A
pure a w = done a w

infixl 5 ◌>>=◌ ◌>>◌
abbrev pub bind : {A B : Type 0} → Run A → (A → M B) → Run B
bind (done a w) f = f a w
bind aborted f = aborted
bind fault f = fault

abbrev pub ◌>>=◌ : {A B : Type 0} → M A → (A → M B) → M B
◌>>=◌ m f w = bind (m w) f

abbrev pub ◌>>◌ : {B : Type 0} → M (Unit {0}) → M B → M B
◌>>◌ m k w = bind (m w) (λ _. k)

-- `log_fatal` logs and aborts; the other log calls leave the state alone and are left out.
abbrev pub log_fatal : {A : Type 0} → M A
log_fatal w = aborted

abbrev pub undefined : {A : Type 0} → M A
undefined w = fault

abbrev pub granted : List Bool → Bool
granted [] = true
granted (b ∷ bs) = b

abbrev pub later {ℓ} : {A : Type ℓ} → List A → List A
later [] = []
later (b ∷ bs) = bs

-- `malloc`, `calloc`, `realloc` and `strdup`: whether the result is not NULL.
unfoldable pub alloc : M Bool
alloc w = done (granted w.allocs) (record w { allocs = later w.allocs })

-- An allocation whose failure is logged by `log_fatal`, or whose NULL result is written through.
abbrev or_fatal : Bool → M (Unit {0})
or_fatal true = pure tt
or_fatal false = log_fatal

abbrev or_crash : Bool → M (Unit {0})
or_crash true = pure tt
or_crash false = undefined

unfoldable pub alloc_or_fatal : M (Unit {0})
unfolding alloc
alloc_or_fatal = alloc >>= or_fatal

unfoldable pub alloc_or_crash : M (Unit {0})
unfolding alloc
alloc_or_crash = alloc >>= or_crash

-- `insert_node` seen from its callers, over the elements of the list: the list stays as it is where
-- one of the two allocations, of the node and of its data, fails. A failure of the node's makes no
-- second request.
insert_at : {A : Type 0} → Bool → List A → A → M (List A)
insert_at false xs x = pure xs
insert_at true xs x = do block ← alloc; pure (if block then xs ++ x ∷ [] else xs)

unfoldable pub insert_node : {A : Type 0} → List A → A → M (List A)
unfolding insert_at alloc
insert_node xs x = do node ← alloc; insert_at node xs x

abbrev pub is_open : ℤ → List ℕ → Bool
is_open (negsuc n) fds = false
is_open (pos n) [] = false
is_open (pos n) (fd ∷ fds) = n == fd || is_open (pos n) fds

abbrev pub without : ℕ → List ℕ → List ℕ
without n [] = []
without n (fd ∷ fds) = if n == fd then without n fds else fd ∷ without n fds

-- `close(fd)`: whether it succeeds.
unfoldable pub close : ℤ → M Bool
close (negsuc n) w = done false w
close (pos n) w = done (is_open (pos n) w.fds) (record w { fds = without n w.fds })

-- `dup(fd)`: the new descriptor, or none for -1.
unfoldable pub dup : ℤ → M (Option ℤ)
dup fd w =
    if is_open fd w.fds && granted w.dups
    then done (some (pos w.next_fd))
        (record w { dups = later w.dups; fds = w.next_fd ∷ w.fds; next_fd = suc w.next_fd })
    else done none (record w { dups = later w.dups })

-- The bytes that a write takes of those offered, where it succeeds.
abbrev pub accepted : List WriteResult → Bytes → Option Bytes
accepted [] offered = some offered
accepted (failed ∷ _) offered = none
accepted (wrote n ∷ _) offered = some (take n offered)

-- (size_t)-1
abbrev pub size_max : ℕ
size_max = 2 ^ 64 - 1

-- `size_t written = write(fd, offered, …)`.
unfoldable pub write : ℤ → Bytes → M ℕ
write fd offered w =
    if is_open fd w.fds
    then elim (accepted w.writes offered) [
      | none ↦ done size_max (record w { writes = later w.writes })
      | some bytes ↦
          done (length bytes) (record w { writes = later w.writes; sent = w.sent ++ bytes })
    ]
    else done size_max w
