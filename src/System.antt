-- ===== src/System.antt =====
-- What the server takes from the machine that it runs on and from its build: the file system, the
-- `magic` library and the commit that the build names. They do not change while a request is served.
use simple_http.Base.{ℕ, Bool, Option, Bytes}
use simple_http.Mime.{Magic}

-- What `stat(2)` says of a name.
pub record FileStat : Type 0 where
  pub is_reg : Bool
  pub st_size : ℕ

pub record System : Type 0 where
  -- GIT_COMMIT
  pub commit : Bytes
  pub magic : Magic
  -- the contents of a file that can be opened and read
  pub fopen : Bytes → Option Bytes
  pub stat : Bytes → Option FileStat
