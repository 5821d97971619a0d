-- ===== src/Butex/Woken.antt =====
-- dbrpc/butex.cpp: whom the wake functions wake, in which order, and what they return.
use mathlib.Core.List.{reverse-cons, append_assoc, reverse-reverse}
use brpc_source_code_analysi.Prelude.{
  ℕ, ◌≡◌, refl, ◌∙◌, ap, ◌+◌, ◌<◌, List, [], ◌∷◌, ◌++◌, reverse, arith, ◌==◌, if◌then◌else◌, true,
  false, none, count, length, length-reverse,
}
use brpc_source_code_analysi.Butex.State.{
  Mem, Env, Waiter, emit, ready_to_run_general, tid_of, resumed, signalled_pthreads, wakeup_pthread,
  unsleep_if_necessary, get_task_group,
}
use brpc_source_code_analysi.Butex.Wake.{
  wake_pthreads, wake_bthreads, run_next, wake_drained_all, wake_drained_except,
}
use brpc_source_code_analysi.Butex.Frame.{unsleep-Frame}

abbrev pub bthreads : (ℕ → Waiter) → List ℕ → List ℕ
bthreads wt [] = []
bthreads wt (w ∷ ws) = if (wt w).tid == 0 then bthreads wt ws else w ∷ bthreads wt ws

abbrev pub pthreads : (ℕ → Waiter) → List ℕ → List ℕ
pthreads wt [] = []
pthreads wt (w ∷ ws) = if (wt w).tid == 0 then w ∷ pthreads wt ws else pthreads wt ws

abbrev pub tids : (ℕ → Waiter) → List ℕ → List ℕ
tids wt [] = []
tids wt (w ∷ ws) = (wt w).tid ∷ tids wt ws

-- Of the queue of butex `b`, `woken` has been woken, `kept` still waits, and `n` is the answer.
-- Pthreads are signalled and bthreads resumed once each. The lists of calls are newest first: the
-- pthreads were signalled in the order of the queue, the bthreads resumed in the opposite one.
pub record Woken (m : Mem) (b : ℕ) (woken kept : List ℕ) (m' : Mem) (n : ℕ) : Type 0 where
  pub queue : m'.waiters b ≡ kept
  pub answer : n ≡ length woken
  pub signals :
      signalled_pthreads m'.calls ≡ reverse (pthreads m.waiter woken) ++ signalled_pthreads m.calls
  pub resumes : resumed m'.calls ≡ tids m.waiter (bthreads m.waiter woken) ++ resumed m.calls
  pub values : m'.value ≡ m.value
  pub identities : m'.waiter ≡ m.waiter
  pub elsewhere : (c : ℕ) → (b == c) ≡ false → m'.waiters c ≡ m.waiters c
  pub freed : (w : ℕ) → 0 < count w woken → m'.container w ≡ none

-- What a part of the code added to the record of calls.
pub record Added (m m' : Mem) (signals resumes : List ℕ) : Type 0 where
  pub new_signals : signalled_pthreads m'.calls ≡ signals ++ signalled_pthreads m.calls
  pub new_resumes : resumed m'.calls ≡ resumes ++ resumed m.calls

pub unsleep-Added : (env : Env) (w : ℕ) (m : Mem) → Added m (unsleep_if_necessary env w m).0 [] []
unfolding unsleep_if_necessary
unsleep-Added env w m = ground arith

pub wake_pthreads-Added :
    (ws : List ℕ) (m : Mem) (n : ℕ) → Added m (wake_pthreads ws (m, n)).0 (reverse ws) []
unfolding wake_pthreads wakeup_pthread
wake_pthreads-Added [] m n = record { new_signals = refl; new_resumes = refl }
wake_pthreads-Added (w ∷ ws) m n =
    let ih = wake_pthreads-Added ws (wakeup_pthread w m) (n + 1) in
    record {
      new_signals = simp (ih.new_signals, reverse-cons, append_assoc);
      new_resumes = ih.new_resumes;
    }

pub wake_pthreads-answer :
    (ws : List ℕ) (m : Mem) (n : ℕ) → (wake_pthreads ws (m, n)).1 ≡ n + length ws
unfolding wake_pthreads
wake_pthreads-answer [] m n = omega arith
wake_pthreads-answer (w ∷ ws) m n =
    omega (arith, wake_pthreads-answer ws (wakeup_pthread w m) (n + 1))

wake_bthreads-answer :
    (env : Env) (g : ℕ) (ws : List ℕ) (m : Mem) (n : ℕ)
    → (wake_bthreads env g ws (m, n)).1 ≡ n + length ws
unfolding wake_bthreads
wake_bthreads-answer env g [] m n = omega arith
wake_bthreads-answer env g (w ∷ ws) m n = omega (arith, wake_bthreads-answer env g ws _ (n + 1))

wake_bthreads-Added :
    (env : Env) (g : ℕ) (wt : ℕ → Waiter) (ws : List ℕ) (m : Mem) (n : ℕ)
    → m.waiter ≡ wt
    → Added m (wake_bthreads env g ws (m, n)).0 [] (reverse (tids wt ws))
unfolding wake_bthreads
wake_bthreads-Added env g wt [] m n e = record { new_signals = refl; new_resumes = refl }
wake_bthreads-Added env g wt (w ∷ ws) m n e =
    let u = unsleep-Added env w m in
    let ih =
      wake_bthreads-Added env g wt ws
        (emit (ready_to_run_general g (tid_of m w) true) (unsleep_if_necessary env w m).0) (n + 1)
        ((unsleep-Frame env w m).same_waiter ∙ e) in
    record {
      new_signals = ih.new_signals ∙ u.new_signals;
      new_resumes =
          ih.new_resumes
          ∙ simp (u.new_resumes, reverse-cons, append_assoc, ap (λ (f : ℕ → Waiter). (f w).tid) e);
    }

tids-append : (wt : ℕ → Waiter) (xs ys : List ℕ) → tids wt (xs ++ ys) ≡ tids wt xs ++ tids wt ys
tids-append wt [] ys = refl
tids-append wt (x ∷ xs) ys = ap (◌∷◌ (wt x).tid) (tids-append wt xs ys)

tids-reverse : (wt : ℕ → Waiter) (ws : List ℕ) → tids wt (reverse ws) ≡ reverse (tids wt ws)
tids-reverse wt [] = refl
tids-reverse wt (w ∷ ws) =
    rw
      (
        reverse-cons w ws,
        reverse-cons (wt w).tid (tids wt ws),
        tids-append wt (reverse ws) (w ∷ []),
      )
      (ap (λ (l : List ℕ). l ++ (wt w).tid ∷ []) (tids-reverse wt ws))

reverse-tids : (wt : ℕ → Waiter) (ws : List ℕ) → reverse (tids wt (reverse ws)) ≡ tids wt ws
reverse-tids wt ws = rw (tids-reverse wt ws) (reverse-reverse (tids wt ws))

-- Both functions resume the bthreads that they took off the queue, the last one first.
pub wake_drained_all-Added :
    (env : Env) (ws : List ℕ) (m : Mem) (n : ℕ)
    → Added m (wake_drained_all env ws (m, n)).0 [] (tids m.waiter ws)
unfolding wake_drained_all run_next
wake_drained_all-Added env [] m n = record { new_signals = refl; new_resumes = refl }
wake_drained_all-Added env (next ∷ rest) m n = ground (
  arith,
  unsleep-Added env next m,
  reverse-tids m.waiter rest,
  wake_bthreads-Added env (get_task_group env) m.waiter (reverse rest)
      (unsleep_if_necessary env next m).0 (n + 1) (unsleep-Frame env next m).same_waiter,
)

pub wake_drained_all-answer :
    (env : Env) (ws : List ℕ) (m : Mem) (n : ℕ) → (wake_drained_all env ws (m, n)).1 ≡ n + length ws
unfolding wake_drained_all
wake_drained_all-answer env [] m n = omega arith
wake_drained_all-answer env (next ∷ rest) m n = omega (
  arith,
  length-reverse rest,
  wake_bthreads-answer env (get_task_group env) (reverse rest) (unsleep_if_necessary env next m).0
      (n + 1),
)

pub wake_drained_except-Added :
    (env : Env) (ws : List ℕ) (m : Mem) (n : ℕ)
    → Added m (wake_drained_except env ws (m, n)).0 [] (tids m.waiter ws)
unfolding wake_drained_except
wake_drained_except-Added env [] m n = record { new_signals = refl; new_resumes = refl }
wake_drained_except-Added env (front ∷ rest) m n = ground (
  arith,
  reverse-tids m.waiter (front ∷ rest),
  wake_bthreads-Added env (get_task_group env) m.waiter (reverse (front ∷ rest)) m n refl,
)

pub wake_drained_except-answer :
    (env : Env) (ws : List ℕ) (m : Mem) (n : ℕ)
    → (wake_drained_except env ws (m, n)).1 ≡ n + length ws
unfolding wake_drained_except
wake_drained_except-answer env [] m n = omega arith
wake_drained_except-answer env (front ∷ rest) m n = omega (
  arith,
  length-reverse (front ∷ rest),
  wake_bthreads-answer env (get_task_group env) (reverse (front ∷ rest)) m n,
)
