-- ===== src/Butex/Frame.antt =====
-- dbrpc/butex.cpp: what the code after `waiter_lock` is released leaves alone.
use brpc_source_code_analysi.Prelude.{ℕ, ◌≡◌, refl, ◌∙◌, ◌+◌, List, [], ◌∷◌, arith}
use brpc_source_code_analysi.Butex.State.{Mem, Env, IsLinked, wakeup_pthread, unsleep_if_necessary}
use brpc_source_code_analysi.Butex.Wake.{run_front, wake_pthreads, wake_bthreads}

-- The queues, the containers, the butex values and the identities of the waiters are the same.
pub record Frame (m m' : Mem) : Type 0 where
  pub same_value : m'.value ≡ m.value
  pub same_waiters : m'.waiters ≡ m.waiters
  pub same_waiter : m'.waiter ≡ m.waiter
  pub same_container : m'.container ≡ m.container
  pub same_state : m'.waiter_state ≡ m.waiter_state

pub Frame-refl : (m : Mem) → Frame m m
Frame-refl m = record {
  same_value = refl;
  same_waiters = refl;
  same_waiter = refl;
  same_container = refl;
  same_state = refl;
}

pub Frame-trans : {m m' m'' : Mem} → Frame m m' → Frame m' m'' → Frame m m''
Frame-trans f g = record {
  same_value = g.same_value ∙ f.same_value;
  same_waiters = g.same_waiters ∙ f.same_waiters;
  same_waiter = g.same_waiter ∙ f.same_waiter;
  same_container = g.same_container ∙ f.same_container;
  same_state = g.same_state ∙ f.same_state;
}

pub Frame-IsLinked : {m m' : Mem} → Frame m m' → IsLinked m → IsLinked m'
Frame-IsLinked {m} {m'} f h b w = rw (f.same_waiters, f.same_container) (h b w)

pub wakeup_pthread-Frame : (w : ℕ) (m : Mem) → Frame m (wakeup_pthread w m)
unfolding wakeup_pthread
wakeup_pthread-Frame w m = ground arith

pub unsleep-Frame : (env : Env) (w : ℕ) (m : Mem) → Frame m (unsleep_if_necessary env w m).0
unfolding unsleep_if_necessary
unsleep-Frame env w m = ground arith

pub run_front-Frame : (env : Env) (w : ℕ) (m : Mem) → Frame m (run_front env w m)
unfolding run_front
run_front-Frame env w m = ground (arith, wakeup_pthread-Frame w m, unsleep-Frame env w m)

pub wake_pthreads-Frame : (ws : List ℕ) (m : Mem) (n : ℕ) → Frame m (wake_pthreads ws (m, n)).0
unfolding wake_pthreads
wake_pthreads-Frame [] m n = Frame-refl m
wake_pthreads-Frame (w ∷ ws) m n =
    Frame-trans (wakeup_pthread-Frame w m) (wake_pthreads-Frame ws (wakeup_pthread w m) (n + 1))

pub wake_bthreads-Frame :
    (env : Env) (g : ℕ) (ws : List ℕ) (m : Mem) (n : ℕ) → Frame m (wake_bthreads env g ws (m, n)).0
unfolding wake_bthreads
wake_bthreads-Frame env g [] m n = Frame-refl m
wake_bthreads-Frame env g (w ∷ ws) m n =
    Frame-trans
      (let f = unsleep-Frame env w m in
        record {
          same_value = f.same_value;
          same_waiters = f.same_waiters;
          same_waiter = f.same_waiter;
          same_container = f.same_container;
          same_state = f.same_state;
        })
      (wake_bthreads-Frame env g ws _ (n + 1))
