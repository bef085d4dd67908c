-- ===== src/Flow/Steps.antt =====
-- Every step of the requests of a runtime keeps the invariant.
use lua_resty_ffi.Common.{refl, arith}
use lua_resty_ffi.Common.Int.{ℤ}
use lua_resty_ffi.Store.{Ptr, Store}
use lua_resty_ffi.TaskQueue.{zero_tq}
use lua_resty_ffi.Flow.{
  Flow, Step, posts, unloads, polls, responds, takes, handles, tears_down, elsewhere, Reach, start,
  later, loaded,
}
use lua_resty_ffi.Flow.Invariant.{Inv}
use lua_resty_ffi.Flow.Unloads.{unloads-Inv}
use lua_resty_ffi.Flow.Serves.{serving}
use lua_resty_ffi.Flow.Polls.{polls-Inv}
use lua_resty_ffi.Flow.Posts.{posts-Inv}
use lua_resty_ffi.Flow.Quiet.{taken-Inv, elsewhere-Inv}
use lua_resty_ffi.Flow.Answers.{responds-Inv}
use lua_resty_ffi.Flow.Handled.{handled-Inv, torn_down-Inv}

pub Step-Inv : {get_req : Ptr → Ptr} {F G : Flow} → Step get_req F G → Inv F → Inv G
Step-Inv (posts calls r fresh buf req n u ran) inv = posts-Inv inv calls r fresh buf req n u ran
Step-Inv (unloads calls fresh ne unused u ran) inv = unloads-Inv inv calls fresh ne unused u ran
Step-Inv (polls e unlocked a u ran) inv = polls-Inv inv e unlocked a u ran
Step-Inv (responds a rc buf rsp rsp_len held room stands ran) inv =
    responds-Inv inv a rc buf rsp rsp_len held room stands ran
Step-Inv (takes xs e read) inv = taken-Inv inv xs e read
Step-Inv {get_req} (handles a rest run_rc posted_rc e ran) inv =
    handled-Inv inv get_req run_rc posted_rc a rest e ran
Step-Inv (tears_down a out here alive ran) inv = torn_down-Inv inv a out here alive ran
Step-Inv (elsewhere s k) inv = elsewhere-Inv inv s k

Inv-loaded : (s : Store) (max_queue : ℤ) → Inv (loaded s max_queue)
Inv-loaded s max_queue = record {
  serves = serving {tp = record zero_tq { max_queue = max_queue }} (record {
    present = refl;
    unlocked = refl;
    queue = record { chain = refl; last = refl; distinct = tt };
  });
  done = record { chain = refl; last = refl; distinct = tt };
  each = λ a o. absurd (omega (arith, o));
  once = λ a. omega arith;
  counted = λ a. omega arith;
  fifo = refl;
  order = refl;
  clean = λ a z. refl;
}

pub Reach-Inv :
    {get_req : Ptr → Ptr} {s : Store} {max_queue : ℤ} {F : Flow}
    → Reach get_req s max_queue F
    → Inv F
Reach-Inv {s = s} {max_queue = m} start = Inv-loaded s m
Reach-Inv (later r st) = Step-Inv st (Reach-Inv r)
