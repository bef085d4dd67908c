-- ===== src/Nginx.antt =====
-- What the code uses of nginx and of the Lua module without defining it: return codes, of which only
-- the difference matters, and the answers that calls into nginx give.
use lua_resty_ffi.Common.{Bool, true, false}
use lua_resty_ffi.Common.Int.{ℤ}

-- NGX_OK, NGX_ERROR, NGX_AGAIN, NGX_DONE, and any other return code.
pub data Rc : Type 0 where
  ngx_ok ngx_error ngx_again ngx_done : Rc
  ngx_other : ℤ → Rc

-- `rc != NGX_OK`
abbrev pub failed : Rc → Bool
failed Rc.ngx_ok = false
failed _ = true
