-- ===== src/Butex/Linked.antt =====
-- dbrpc/butex.cpp: waking, and the queues and containers of the waiters.
use brpc_source_code_analysi.Prelude.{
  ℕ, ◌≡◌, refl, ap, ◌+◌, List, [], ◌∷◌, reverse, arith, count, inl, inr, Bool-cases, ==_refl,
}
use brpc_source_code_analysi.Butex.State.{
  Mem, Env, IsLinked, is_pthread, unsleep_if_necessary, get_task_group,
}
use brpc_source_code_analysi.Butex.Wake.{
  pop_head, butex_wake, Drained, nothing_drained, drain_one, drain_all, run_next, wake_drained_all,
  wake_drained_except, butex_wake_all,
}
use brpc_source_code_analysi.Butex.Frame.{
  Frame, Frame-refl, Frame-trans, Frame-IsLinked, unsleep-Frame, run_front-Frame,
  wake_pthreads-Frame, wake_bthreads-Frame,
}

pub pop_head-IsLinked :
    (b front : ℕ) (rest : List ℕ) (m : Mem)
    → m.waiters b ≡ front ∷ rest
    → IsLinked m
    → IsLinked (pop_head b front rest m)
pop_head-IsLinked b front rest m e h c w =
    ground (arith, h c w, h b w, h b front, h c front, ap (count w) e, ap (count front) e)

pub butex_wake-IsLinked :
    (env : Env) (b : ℕ) (m : Mem) → IsLinked m → IsLinked (butex_wake env b m).0
unfolding butex_wake
butex_wake-IsLinked env b m h = go (m.waiters b) refl
  where
    go : (ws : List ℕ) → m.waiters b ≡ ws → IsLinked (butex_wake env b m).0
    go [] e = rw (e, butex_wake) h
    go (front ∷ rest) e =
        rw (e, butex_wake)
          (Frame-IsLinked (run_front-Frame env front _) (pop_head-IsLinked b front rest m e h))

-- A round of either loop that does not exclude the waiter.
pub drain_one-mem :
    (b w : ℕ) (rest : List ℕ) (d : Drained) → (drain_one b w rest d).mem ≡ pop_head b w rest d.mem
unfolding drain_one
drain_one-mem b w rest d = elim (Bool-cases (is_pthread d.mem w)) [
  | inl p ↦ rw (p, drain_one)
  | inr p ↦ rw (p, drain_one)
]

pub drain_one-excluded_waiter :
    (b w : ℕ) (rest : List ℕ) (d : Drained)
    → (drain_one b w rest d).excluded_waiter ≡ d.excluded_waiter
unfolding drain_one
drain_one-excluded_waiter b w rest d = elim (Bool-cases (is_pthread d.mem w)) [
  | inl p ↦ rw (p, drain_one)
  | inr p ↦ rw (p, drain_one)
]

pub drain_one-IsLinked :
    (b w : ℕ) (rest : List ℕ) (d : Drained)
    → d.mem.waiters b ≡ w ∷ rest
    → IsLinked d.mem
    → IsLinked (drain_one b w rest d).mem
drain_one-IsLinked b w rest d e h =
    rw (drain_one-mem b w rest d) (pop_head-IsLinked b w rest d.mem e h)

pub drain_one-waiters :
    (b w : ℕ) (rest : List ℕ) (d : Drained) → (drain_one b w rest d).mem.waiters b ≡ rest
drain_one-waiters b w rest d = rw (drain_one-mem b w rest d, ==_refl b)

pub drain_all-IsLinked :
    (b : ℕ) (ws : List ℕ) (d : Drained)
    → d.mem.waiters b ≡ ws
    → IsLinked d.mem
    → IsLinked (drain_all b ws d).mem
unfolding drain_all
drain_all-IsLinked b [] d e h = h
drain_all-IsLinked b (w ∷ ws) d e h =
    drain_all-IsLinked b ws (drain_one b w ws d) (drain_one-waiters b w ws d)
      (drain_one-IsLinked b w ws d e h)

pub wake_drained_all-Frame :
    (env : Env) (ws : List ℕ) (m : Mem) (n : ℕ) → Frame m (wake_drained_all env ws (m, n)).0
unfolding wake_drained_all run_next
wake_drained_all-Frame env [] m n = Frame-refl m
wake_drained_all-Frame env (w ∷ ws) m n = ground (
  arith,
  unsleep-Frame env w m,
  wake_bthreads-Frame env (get_task_group env) (reverse ws) (unsleep_if_necessary env w m).0
      (n + 1),
)

pub wake_drained_except-Frame :
    (env : Env) (ws : List ℕ) (m : Mem) (n : ℕ) → Frame m (wake_drained_except env ws (m, n)).0
unfolding wake_drained_except
wake_drained_except-Frame env [] m n = Frame-refl m
wake_drained_except-Frame env (w ∷ ws) m n =
    ground (arith, wake_bthreads-Frame env (get_task_group env) (reverse (w ∷ ws)) m n)

pub butex_wake_all-IsLinked :
    (env : Env) (b : ℕ) (m : Mem) → IsLinked m → IsLinked (butex_wake_all env b m).0
unfolding butex_wake_all
butex_wake_all-IsLinked env b m h =
    let d = drain_all b (m.waiters b) (nothing_drained m) in
    Frame-IsLinked
      (Frame-trans (wake_pthreads-Frame d.pthread_waiters d.mem 0)
        (wake_drained_all-Frame env d.bthread_waiters _ _))
      (drain_all-IsLinked b (m.waiters b) (nothing_drained m) refl h)
