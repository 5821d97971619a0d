-- ===== src/Butex/Spec.antt =====
-- dbrpc/butex.h: what the functions on butexes promise, on queues alone.
--
-- The specification knows the value of each butex, the threads that wait on it in their order, and
-- how often each bthread was made runnable and each pthread woken. It has no containers, no states
-- of waiters, no timers, and forgets the order in which the threads of one call are woken.
use brpc_source_code_analysi.Prelude.{
  ℕ, ◌≡◌, ◌≢◌, ◌+◌, ◌<◌, Bool, true, false, List, [], ◌∷◌, ◌++◌, count, update, remove,
}
use brpc_source_code_analysi.Butex.State.{Mem, Waiter, resumed, signalled_pthreads}
use brpc_source_code_analysi.Butex.Woken.{bthreads, pthreads, tids}
use brpc_source_code_analysi.Butex.Order.{first, others}
use brpc_source_code_analysi.Butex.OrderExcept.{without, only}

pub record Spec : Type 0 where
  pub value : ℕ → ℕ
  pub queue : ℕ → List ℕ
  pub waiter : ℕ → Waiter
  pub resumed_times : ℕ → ℕ
  pub signalled_times : ℕ → ℕ

abbrev pub view : Mem → Spec
view m = record {
  value = m.value;
  queue = m.waiters;
  waiter = m.waiter;
  resumed_times = λ t. count t (resumed m.calls);
  signalled_times = λ w. count w (signalled_pthreads m.calls);
}

-- The threads of `ws` wake up.
abbrev pub wake_up : List ℕ → Spec → Spec
wake_up ws s = record s {
  resumed_times = λ t. count t (tids s.waiter (bthreads s.waiter ws)) + s.resumed_times t;
  signalled_times = λ w. count w (pthreads s.waiter ws) + s.signalled_times w;
}

abbrev pub set_queue : ℕ → List ℕ → Spec → Spec
set_queue b ws s = record s { queue = update s.queue b ws }

abbrev pub make_runnable : ℕ → Spec → Spec
make_runnable w s = record s {
  resumed_times = λ t. count t ((s.waiter w).tid ∷ []) + s.resumed_times t;
}

-- The queue of `b` is emptied and `ws` come behind those of `to`.
abbrev pub moved_to : (b to : ℕ) → List ℕ → (ℕ → List ℕ) → ℕ → List ℕ
moved_to b to ws queue = let emptied = update queue b [] in update emptied to (emptied to ++ ws)

-- The calls. `wait` has whether the state of the waiter lets it be queued: neither timed out nor
-- interrupted; `queue` is the wait of a pthread.
pub data SpecCall : Type 0 where
  store : (b v : ℕ) → SpecCall
  wake wake_all : (b : ℕ) → SpecCall
  wake_except : (b excluded_bthread : ℕ) → SpecCall
  requeue : (b to : ℕ) → SpecCall
  erase : (w : ℕ) (wakeup : Bool) → SpecCall
  wait : (w : ℕ) (ready : Bool) → SpecCall
  queue : (b w : ℕ) → SpecCall

abbrev pub butex_of : Spec → ℕ → ℕ
butex_of s w = (s.waiter w).initial_butex

-- What each call does. A waiting bthread is made runnable at once when the value has changed or its
-- state does not let it be queued, and is queued otherwise.
pub data SpecStep (s s' : Spec) : SpecCall → Type 0 where
  storing : (b v : ℕ) → s' ≡ record s { value = update s.value b v } → SpecStep s s' (store b v)
  waking_one :
      (b : ℕ)
      → s' ≡ wake_up (first (s.queue b)) (set_queue b (others (s.queue b)) s)
      → SpecStep s s' (wake b)
  waking_all : (b : ℕ) → s' ≡ wake_up (s.queue b) (set_queue b [] s) → SpecStep s s' (wake_all b)
  waking_except :
      (b x : ℕ)
      → s' ≡ wake_up (without s.waiter x (s.queue b)) (set_queue b (only s.waiter x (s.queue b)) s)
      → SpecStep s s' (wake_except b x)
  requeuing :
      (b to : ℕ)
      → s'
        ≡ wake_up
            (first (s.queue b))
            (record s { queue = moved_to b to (others (s.queue b)) s.queue })
      → SpecStep s s' (requeue b to)
  taking_out :
      (b w : ℕ)
      → 0 < count w (s.queue b)
      → s' ≡ set_queue b (remove w (s.queue b)) s
      → SpecStep s s' (erase w false)
  taking_out_and_waking :
      (b w : ℕ)
      → 0 < count w (s.queue b)
      → s' ≡ wake_up (w ∷ []) (set_queue b (remove w (s.queue b)) s)
      → SpecStep s s' (erase w true)
  not_queued :
      (w : ℕ) (wakeup : Bool)
      → ((c : ℕ) → count w (s.queue c) ≡ 0)
      → s' ≡ s
      → SpecStep s s' (erase w wakeup)
  waiting :
      (w : ℕ)
      → s.value (butex_of s w) ≡ (s.waiter w).expected_value
      → ((c : ℕ) → count w (s.queue c) ≡ 0)
      → s' ≡ set_queue (butex_of s w) (s.queue (butex_of s w) ++ w ∷ []) s
      → SpecStep s s' (wait w true)
  value_changed :
      (w : ℕ) (ready : Bool)
      → s.value (butex_of s w) ≢ (s.waiter w).expected_value
      → s' ≡ make_runnable w s
      → SpecStep s s' (wait w ready)
  not_ready : (w : ℕ) → s' ≡ make_runnable w s → SpecStep s s' (wait w false)
  enqueuing :
      (b w : ℕ)
      → ((c : ℕ) → count w (s.queue c) ≡ 0)
      → s' ≡ set_queue b (s.queue b ++ w ∷ []) s
      → SpecStep s s' (queue b w)

pub Spec-ext :
    (s t : Spec)
    → s.value ≡ t.value
    → s.queue ≡ t.queue
    → s.waiter ≡ t.waiter
    → s.resumed_times ≡ t.resumed_times
    → s.signalled_times ≡ t.signalled_times
    → s ≡ t
Spec-ext s t a b c d e = cc
