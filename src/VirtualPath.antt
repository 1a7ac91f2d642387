-- ===== src/VirtualPath.antt =====
-- src/lua/virtual_path.c and src/lua/virtual_path.h: the routes that the Lua configuration
-- registers. The Lua state and `fnmatch` are the record `Lua`; a Lua error outside a protected call
-- aborts the process.
pub mod Routes
pub mod Answer
use simple_http.Base.{
  zero, suc, ℕ, ◌-◌, ◌^◌, Bool, true, false, Option, none, some, List, [], ◌∷◌, Bytes, codes,
  str_eq, if◌then◌else◌, length, take,
}
use simple_http.Base.Int.{ℤ, pos, negsuc, to_int}
use simple_http.Effects.{M, pure, ◌>>=◌, undefined, log_fatal}
use simple_http.System.{System}
use simple_http.Mime.{m_buffer, content_type}
use simple_http.Status.{lookup_status}
use simple_http.Response.{KeepAlive, Response, new_response, add_header, set_payload, to_base}
use simple_http.Response.Write.{write_response}
use simple_http.Parser.Lines.{c_string}

-- `vlookup_status`
pub data LookupStatus : Type 0 where
  nil ok_lookup handled static wrong_verb : LookupStatus

-- A handler gets the descriptor, the method and the path, and may itself write to the client. Its
-- result is a string, or NULL for a value that is none.
abbrev pub Handler : Type 0
Handler = ℤ → Bytes → Bytes → M (Option Bytes)

-- The fields of a route: none for a value of another type than the one that is asked for.
pub record Route : Type 0 where
  pub path : Option Bytes
  pub meth : Option (List Bytes)
  pub handler : Option Handler

-- An entry of `_Funcs`: a table, or another value.
pub data Entry : Type 0 where
  route : Route → Entry
  other : Entry

-- `_Funcs`: nil, a value that is no table, or a table.
pub data Funcs : Type 0 where
  nil_value not_table : Funcs
  table : List Entry → Funcs

pub record Lua : Type 0 where
  pub funcs : Funcs
  -- whether `fnmatch(pattern, path, FNM_NOESCAPE)` is 0
  pub fnmatch : Bytes → Bytes → Bool

abbrev pub chosen : Route → M (Option Route) → Bool → M (Option Route)
chosen r again true = pure (some r)
chosen r again false = again

-- A pattern that is no string is a Lua error.
abbrev pub match_entry : Lua → Bytes → M (Option Route) → Entry → Option Bytes → M (Option Route)
match_entry lua path again other pattern = again
match_entry lua path again (route r) none = log_fatal
match_entry lua path again (route r) (some pattern) = chosen r again (lua.fnmatch pattern path)

abbrev pub pattern_of : Entry → Option Bytes
pattern_of other = none
pattern_of (route r) = r.path

-- The first route whose pattern matches the path.
unfoldable pub find_route : Lua → Bytes → List Entry → M (Option Route)
find_route lua path [] = pure none
find_route lua path (e ∷ es) = match_entry lua path (find_route lua path es) e (pattern_of e)

unfoldable pub find_in : Lua → Bytes → Funcs → M (Option Route)
find_in lua path nil_value = pure none
find_in lua path not_table = pure none
find_in lua path (table es) = find_route lua path es

-- An `int` as a `size_t`.
abbrev pub size_of_int : ℤ → ℕ
size_of_int (pos n) = n
size_of_int (negsuc n) = 2 ^ 64 - 1 - n

-- `add_header` copies the type with `strdup`, which takes no NULL.
pub type_header : Response → Option Bytes → M Response
type_header resp none = undefined
type_header resp (some type) = add_header resp (codes "Content-Type") type

-- The response with the handler's text.
pub respond : System → ℤ → KeepAlive → Bytes → M LookupStatus
respond sys cfd keep_alive payload = do
  type ← content_type sys.magic m_buffer payload
  resp ← new_response cfd (lookup_status (pos 200)) (some keep_alive)
  typed ← type_header resp type
  digits ← to_base (to_int (length payload))
  sized ← add_header typed (codes "Content-Length") digits
  (_, loaded) ← set_payload sized payload (size_of_int (to_int (length payload)))
  _ ← write_response sys.commit loaded
  pure ok_lookup

-- What the text that a handler returned asks for.
unfoldable pub dispatch : System → ℤ → KeepAlive → Bytes → M LookupStatus
dispatch sys cfd keep_alive payload =
    if str_eq (take 9 payload) (codes "$!HANDELD")
    then pure handled
    else if str_eq (take 8 payload) (codes "$!STATIC")
    then pure static
    else respond sys cfd keep_alive payload

-- `strlen` of what `lua_tostring` gave.
unfoldable pub answered : System → ℤ → KeepAlive → Option Bytes → M LookupStatus
answered sys cfd keep_alive none = undefined
answered sys cfd keep_alive (some text) = dispatch sys cfd keep_alive (c_string text)

unfoldable pub call : System → ℤ → KeepAlive → Bytes → Bytes → Option Handler → M LookupStatus
call sys cfd keep_alive method path none = pure nil
call sys cfd keep_alive method path (some handler) =
    handler cfd method path >>= answered sys cfd keep_alive

-- Lua's stack, its top first: the table of methods, with those that `lua_next` has still to give, and
-- keys and values.
pub data Slot : Type 0 where
  meth_table : List Bytes → Slot
  key_or_value : Slot

-- `lua_next(gL, -2)`: it takes the key from the top, and pushes the next key and its value. The slot
-- below the key has to be a table.
unfoldable pub lua_next : List Slot → M (Option (Bytes × List Slot))
lua_next (key ∷ meth_table [] ∷ slots) = pure none
lua_next (key ∷ meth_table (m ∷ ms) ∷ slots) =
    pure (some (m, key_or_value ∷ key_or_value ∷ meth_table ms ∷ slots))
lua_next (key ∷ key_or_value ∷ slots) = undefined
lua_next (key ∷ []) = undefined
lua_next [] = undefined

-- A miss goes on with `continue`, before `lua_pop`.
abbrev pub tested : (List Slot → M Bool) → List Slot → Bool → M Bool
tested again slots true = pure true
tested again slots false = again slots

abbrev pub on_next : (List Slot → M Bool) → Bytes → Option (Bytes × List Slot) → M Bool
on_next again method none = pure false
on_next again method (some (m, slots)) = tested again slots (str_eq m method)

-- The loop over the table: whether it found the method.
unfoldable pub search_method : Bytes → ℕ → List Slot → M Bool
unfolding lua_next
search_method method zero slots = undefined
search_method method (suc f) slots = lua_next slots >>= on_next (search_method method f) method

-- Where the loop ends without the method, `payload` is read without having been set.
unfoldable pub call_if :
    System → ℤ → KeepAlive → Bytes → Bytes → Option Handler → Bool → M LookupStatus
call_if sys cfd keep_alive method path handler false = undefined
call_if sys cfd keep_alive method path handler true = call sys cfd keep_alive method path handler

-- A `meth` that is no table is a Lua error; its values are strings, in the order of `lua_next`. The
-- loop has a round for each of them and one for the end.
unfoldable pub by_method :
    System → ℤ → KeepAlive → Bytes → Bytes → Option Handler → Option (List Bytes) → M LookupStatus
by_method sys cfd keep_alive method path handler none = log_fatal
by_method sys cfd keep_alive method path handler (some methods) =
    search_method method (suc (length methods)) (key_or_value ∷ meth_table methods ∷ [])
    >>= call_if sys cfd keep_alive method path handler

unfoldable pub resolved : System → ℤ → KeepAlive → Bytes → Bytes → Option Route → M LookupStatus
resolved sys cfd keep_alive method path none = pure nil
resolved sys cfd keep_alive method path (some r) =
    by_method sys cfd keep_alive method path r.handler r.meth

-- `virtual_path_resolv(path, cfd, method, keep_alive)` of a path that is not NULL.
unfoldable pub virtual_path_resolv : System → Lua → Bytes → ℤ → Bytes → KeepAlive → M LookupStatus
virtual_path_resolv sys lua path cfd method keep_alive =
    find_in lua path lua.funcs >>= resolved sys cfd keep_alive method path
