-- ===== src/Bindings.antt =====
-- src/lua/lua_.c and src/lua/scan.c: the functions that a handler calls to write to its client and to
-- list a directory. What the Lua API says of an argument is the record `LuaValue`; what `nftw` reports
-- is a parameter. The log's binding is left out.
pub mod Sends
pub mod Lists
use simple_http.Base.{
  ℕ, suc, Bool, true, false, Option, none, some, List, [], ◌∷◌, ◌++◌, Bytes, if◌then◌else◌, leb,
  length, take,
}
use simple_http.Base.Int.{ℤ, pos, negsuc, to_int}
use simple_http.Effects.{M, pure, ◌>>=◌, log_fatal, undefined, write}
use simple_http.Setup.{LuaValue, LuaResult, returned, raised, to_c_int}
use simple_http.Plugin.{TFlag, ftw_f}

-- `int bytes = write(…)`: (size_t)-1 becomes -1.
pub written : ℤ → M (LuaResult ℤ)
written (pos n) = pure (returned (pos n))
written (negsuc n) = log_fatal

-- `write` reads `len` bytes of the string, whose object ends with a terminator.
pub offer : ℤ → Bytes → ℤ → M (LuaResult ℤ)
offer cfd block (negsuc n) = undefined
offer cfd block (pos len) =
    if leb len (length block)
    then (write cfd (take len block) >>= (λ count. written (to_int count)))
    else undefined

pub write_data : ℤ → Bytes → ℤ → M (LuaResult ℤ)
write_data cfd text len = do fd ← to_c_int cfd; size ← to_c_int len; offer fd (text ++ 0 ∷ []) size

-- `lua_write_(L)`: the number of bytes that were written.
pub lua_write_ : LuaValue → LuaValue → LuaValue → M (LuaResult ℤ)
lua_write_ cfd text len = elim cfd.number [
  | none ↦ pure raised
  | some fd ↦ elim text.string [
    | none ↦ pure raised
    | some s ↦ elim len.number [ none ↦ pure raised | some n ↦ write_data fd s n ]
  ]
]

-- What `nftw` reports, with what `_filter` reads of the file.
pub record Found : Type 0 where
  pub path : Bytes
  pub tflag : TFlag
  pub st_size : ℕ
  pub st_mtime : ℕ

-- The table that `_filter` makes.
pub record FileInfo : Type 0 where
  pub size : ℕ
  pub mdate : ℕ
  pub path : Bytes

abbrev pub info : Found → FileInfo
info f = record { size = f.st_size; mdate = f.st_mtime; path = f.path }

-- `_filter` appends the table of a file at the length of the list, and never stops the walk.
pub filter_by : Found → TFlag → List FileInfo → List FileInfo
filter_by f ftw_f table = table ++ info f ∷ []
filter_by f _ table = table

pub filter : Found → List FileInfo → List FileInfo
filter f table = filter_by f f.tflag table

pub walk : List Found → List FileInfo → List FileInfo
walk [] table = table
walk (f ∷ fs) table = walk fs (filter f table)

pub scan : (Bytes → ℤ → List Found) → Bytes → ℤ → M (LuaResult (List FileInfo))
scan nftw path number = do flag ← to_c_int number; pure (returned (walk (nftw path flag) []))

-- `lua_scan_(L)`: what was reported before a failure of the walk is returned like the rest.
pub lua_scan_ : (Bytes → ℤ → List Found) → LuaValue → LuaValue → M (LuaResult (List FileInfo))
lua_scan_ nftw path flag = elim path.string [
  | none ↦ pure raised
  | some name ↦ elim flag.number [ none ↦ pure raised | some n ↦ scan nftw name n ]
]
