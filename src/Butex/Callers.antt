-- ===== src/Butex/Callers.antt =====
-- dbrpc/butex.cpp: the two callers of `erase_from_butex`: the callback of the timer and `interrupt` of
-- dbrpc/task_group.cpp; `butex_create` and `butex_destroy`.
--
-- `get_object` and `return_object` of the object pool are outside the repository.
use brpc_source_code_analysi.Prelude.{
  ℕ, suc, ◌≡◌, Bool, true, false, Option, none, some, List, ◌∷◌, arith,
}
use brpc_source_code_analysi.Butex.State.{
  Mem, Env, IsLinked, is_pthread, tid_of, resumed, interrupted,
}
use brpc_source_code_analysi.Butex.Wait.{erase_from_butex}
use brpc_source_code_analysi.Butex.Erase.{erase_queued, erase-unowned}

-- The callback of the timer; the answer is discarded there.
unfoldable pub erase_from_butex_and_wakeup :
    Env → (ℕ → Mem → Mem) → (fuel bw : ℕ) → Mem → Option (Mem × Bool)
erase_from_butex_and_wakeup env others fuel bw m =
    erase_from_butex env others fuel bw true interrupted m

unfoldable pub erase_from_butex_because_of_interruption :
    Env → (ℕ → Mem → Mem) → (fuel bw : ℕ) → Mem → Option (Mem × Bool)
erase_from_butex_because_of_interruption env others fuel bw m =
    erase_from_butex env others fuel bw true interrupted m

-- The address of the value, or NULL; the objects that were returned, newest first.
unfoldable pub butex_create : (get_object : Option ℕ) → Option ℕ
butex_create get_object = elim get_object [ none ↦ none | some b ↦ some b ]

unfoldable pub butex_destroy : Option ℕ → (returned : List ℕ) → List ℕ
butex_destroy none returned = returned
butex_destroy (some b) returned = b ∷ returned

abbrev pub alone : ℕ → Mem → Mem
alone round m = m

-- The first of the two callers erases a bthread's waiter and makes the bthread runnable, and the
-- second finds nothing to do, in either order: the bthread runs once. The waiter has the state of an
-- interruption then also when the timer was first. The waiter is queued, queues and containers are in
-- step, and no other thread is in between.
pub erased_by_first :
    (env env' : Env) (fuel fuel' b bw : ℕ) (m : Mem)
    → IsLinked m
    → m.container bw ≡ some b
    → is_pthread m bw ≡ false
    → (m' : Mem) × (erase_from_butex_and_wakeup env alone (suc fuel) bw m ≡ some (m', true))
      × (erase_from_butex_because_of_interruption env' alone (suc fuel') bw m' ≡ some (m', false))
      × (erase_from_butex_because_of_interruption env alone (suc fuel) bw m ≡ some (m', true))
      × (erase_from_butex_and_wakeup env' alone (suc fuel') bw m' ≡ some (m', false))
      × (m'.waiter_state bw ≡ interrupted)
      × (resumed m'.calls ≡ tid_of m bw ∷ resumed m.calls)
unfolding erase_from_butex_and_wakeup erase_from_butex_because_of_interruption
erased_by_first env env' fuel fuel' b bw m linked owned bthread =
    let (m', run, r) = erase_queued env fuel b bw true interrupted m linked owned in
    let again = erase-unowned env' alone fuel' bw true interrupted m' r.unowned in
    (
      m',
      run,
      again,
      run,
      again,
      ground (arith, r.marked, bthread),
      ground (arith, r.resumes, bthread),
    )
