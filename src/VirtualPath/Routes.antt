-- ===== src/VirtualPath/Routes.antt =====
-- Which route `virtual_path_resolv` takes, and what it then sends.
use simple_http.Base.{
  suc, length, Bool, str_eq, ◌≡◌, refl, ap, ◌∙◌, true, false, Option, none, some, List, [], ◌∷◌,
  ◌++◌, Bytes, All,
}
use simple_http.Base.Int.{ℤ}
use simple_http.Effects.{World, done, fault, bind, M}
use simple_http.System.{System}
use simple_http.Response.{KeepAlive}
use simple_http.VirtualPath
use simple_http.VirtualPath.{
  LookupStatus, nil, ok_lookup, Handler, Route, Entry, route, other, Funcs, table, Lua,
  virtual_path_resolv, find_route,
}

-- An entry that is passed over: no table, or a pattern that does not match.
abbrev pub Passes : Lua → Bytes → Entry → Type 0
Passes lua path other = Unit {0}
Passes lua path (route r) =
    (pattern : Bytes) × (r.path ≡ some pattern) × (lua.fnmatch pattern path ≡ false)

-- Whether the first method of a table is this one.
abbrev pub first_method_is : Bytes → List Bytes → Bool
first_method_is method [] = false
first_method_is method (m ∷ ms) = str_eq m method

-- The method is found where it is the first.
pub search_method-first_method_is :
    (method : Bytes) (ms : List Bytes) (w : World)
    → first_method_is method ms ≡ true
    → VirtualPath.search_method method
        (suc (length ms))
        (VirtualPath.key_or_value ∷ VirtualPath.meth_table ms ∷ [])
        w
      ≡ done true w
unfolding VirtualPath.search_method VirtualPath.lua_next
search_method-first_method_is method [] w h = cc
search_method-first_method_is method (m ∷ ms) w h = rw h

module _ (lua : Lua) (path : Bytes) (w : World) where
  pass_lem :
      (r : Route) (again : M (Option Route)) (pattern : Bytes) (p : Option Bytes)
      → p ≡ some pattern
      → lua.fnmatch pattern path ≡ false
      → VirtualPath.match_entry lua path again (route r) p w ≡ again w
  pass_lem r again pattern none e h = cc
  pass_lem r again pattern (some q) e h =
      let same : lua.fnmatch q path ≡ false = cc in ap (λ b. VirtualPath.chosen r again b w) same

  take_lem :
      (r : Route) (again : M (Option Route)) (pattern : Bytes) (p : Option Bytes)
      → p ≡ some pattern
      → lua.fnmatch pattern path ≡ true
      → VirtualPath.match_entry lua path again (route r) p w ≡ done (some r) w
  take_lem r again pattern none e h = cc
  take_lem r again pattern (some q) e h =
      let same : lua.fnmatch q path ≡ true = cc in ap (λ b. VirtualPath.chosen r again b w) same

  pub find_route-first :
      (front back : List Entry) (r : Route) (pattern : Bytes)
      → All (Passes lua path) front
      → r.path ≡ some pattern
      → lua.fnmatch pattern path ≡ true
      → find_route lua path (front ++ route r ∷ back) w ≡ done (some r) w
  unfolding find_route
  find_route-first [] back r pattern hs e h =
      take_lem r (find_route lua path back) pattern r.path e h
  find_route-first (other ∷ front) back r pattern (_, hs) e h =
      find_route-first front back r pattern hs e h
  find_route-first (route q ∷ front) back r pattern ((own, named, miss), hs) e h =
      pass_lem q (find_route lua path (front ++ route r ∷ back)) own q.path named miss
      ∙ find_route-first front back r pattern hs e h

  find_route_missing :
      (es : List Entry) → All (Passes lua path) es → find_route lua path es w ≡ done none w
  unfolding find_route
  find_route_missing [] hs = refl
  find_route_missing (other ∷ es) (_, hs) = find_route_missing es hs
  find_route_missing (route q ∷ es) ((own, named, miss), hs) =
      pass_lem q (find_route lua path es) own q.path named miss ∙ find_route_missing es hs

  module _ (sys : System) (cfd : ℤ) (method : Bytes) (ka : KeepAlive) where
    -- A path that the patterns of all routes pass over resolves to `NIL`, and nothing else
    -- happens.
    pub virtual_path_resolv_missing :
        (es : List Entry)
        → lua.funcs ≡ table es
        → All (Passes lua path) es
        → virtual_path_resolv sys lua path cfd method ka w ≡ done nil w
    unfolding virtual_path_resolv VirtualPath.find_in VirtualPath.resolved
    virtual_path_resolv_missing es t hs =
        ap
          (λ (f : Funcs).
            bind (VirtualPath.find_in lua path f w) (VirtualPath.resolved sys cfd ka method path))
          t
        ∙ rw (find_route_missing es hs)

    -- The first route with a matching pattern is taken, whatever its methods are: where the method
    -- is not the first of them, also where it is a later one or the table is empty, the lookup is
    -- undefined, and `WRONG_VERB` is not returned.
    pub virtual_path_resolv_wrong_method :
        (front back : List Entry) (r : Route) (pattern : Bytes) (methods : List Bytes)
        → lua.funcs ≡ table (front ++ route r ∷ back)
        → All (Passes lua path) front
        → r.path ≡ some pattern
        → lua.fnmatch pattern path ≡ true
        → r.meth ≡ some methods
        → first_method_is method methods ≡ false
        → virtual_path_resolv sys lua path cfd method ka w ≡ fault
    unfolding virtual_path_resolv VirtualPath.find_in VirtualPath.resolved VirtualPath.call_if
    virtual_path_resolv_wrong_method front back r pattern methods t hs e h m not_there =
        ap
          (λ (f : Funcs).
            bind (VirtualPath.find_in lua path f w) (VirtualPath.resolved sys cfd ka method path))
          t
        ∙ rw (find_route-first front back r pattern hs e h) (by_methods r.meth m)
      where
        by_methods :
            (o : Option (List Bytes))
            → o ≡ some methods
            → VirtualPath.by_method sys cfd ka method path r.handler o w ≡ fault
        by_methods none q = cc
        by_methods (some ms) q =
            missed ms (let absent : first_method_is method ms ≡ false = cc in absent)
          where
            missed :
                (ms : List Bytes)
                → first_method_is method ms ≡ false
                → VirtualPath.by_method sys cfd ka method path r.handler (some ms) w ≡ fault
            missed [] absent =
                unfold VirtualPath.by_method VirtualPath.search_method VirtualPath.lua_next
                  VirtualPath.call_if in
                refl
            missed (m ∷ []) absent =
                unfold VirtualPath.by_method VirtualPath.search_method VirtualPath.lua_next in
                rw absent
            missed (m ∷ n ∷ ms) absent =
                unfold VirtualPath.by_method VirtualPath.search_method VirtualPath.lua_next in
                rw absent
