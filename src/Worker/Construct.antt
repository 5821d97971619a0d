-- ===== src/Worker/Construct.antt =====
-- dbrpc/task_group.cpp: the constructor, `init` and the destructor of `TaskGroup`.
--
-- A group is an object on the heap. `construct` takes what the memory held before, since the
-- constructor leaves some members as they are. `get_stack` and `get_resource` are outside the
-- repository: `Answers` has what they and the other calls answer, and `calls` records what was
-- acquired and given back, newest first. `stack` is the stack of the `TaskMeta` in a slot.
use brpc_source_code_analysi.Prelude.{
  ℕ, ◌%◌, ◌==◌, if◌then◌else◌, not, Bool, true, false, Option, none, some, List, ◌∷◌, update, same,
}
use brpc_source_code_analysi.Task.Meta.{TaskMeta, TidCodec, Pool, set_meta}
use brpc_source_code_analysi.Task.Life.{slot_meta}
use brpc_source_code_analysi.Sched.Switch.{Remained}
use brpc_source_code_analysi.Control.Groups.{Groups, Effect}
use brpc_source_code_analysi.Control.Signal.{parking_lot_num}

pub record GroupObject : Type 0 where
  pub cur_meta : Option ℕ
  pub control : Option ℕ
  pub num_nosignal : ℕ
  pub nsignaled : ℕ
  pub last_run_ns : ℕ
  pub cumulated_cputime_ns : ℕ
  pub nswitch : ℕ
  pub last_context_remained : Option Remained
  pub pl : Option ℕ
  pub steal_seed : ℕ
  pub steal_offset : ℕ
  pub main_stack : Option ℕ
  pub main_tid : ℕ
  pub remote_num_nosignal : ℕ
  pub remote_nsignaled : ℕ

pub data Resource : Type 0 where
  group_object : (g : ℕ) → Resource
  stack : (s : ℕ) → Resource
  slot : (n : ℕ) → Resource

pub data ResourceCall : Type 0 where
  takes gives : Resource → ResourceCall
  checks : (holds : Bool) → ResourceCall

pub record Store : Type 0 where
  pub objects : ℕ → GroupObject
  pub pool : Pool
  pub stacks : ℕ → Option ℕ
  pub table : Groups
  pub asked : List Effect
  pub calls : List ResourceCall

-- What the calls out of the file answer to one worker.
pub record Answers : Type 0 where
  pub new_group : Option ℕ
  pub rq_init : Bool
  pub remote_rq_init : Bool
  pub get_stack : Option ℕ
  pub get_resource : Option ℕ
  pub fast_rand : ℕ
  pub thread_hash : ℕ
  pub now : ℕ

abbrev pub call : ResourceCall → Store → Store
call c st = record st { calls = c ∷ st.calls }

abbrev pub set_object : ℕ → GroupObject → Store → Store
set_object g o st = record st { objects = update st.objects g o }

-- The table of offsets is generated outside the repository; `thread_hash` is `fmix64` of the
-- identifier of the thread.
unfoldable pub construct :
    (offset_table : ℕ → ℕ) (table_size : ℕ) → Answers → GroupObject → GroupObject
construct offset_table table_size a raw = record raw {
  cur_meta = none;
  num_nosignal = 0;
  nsignaled = 0;
  last_run_ns = a.now;
  cumulated_cputime_ns = 0;
  nswitch = 0;
  last_context_remained = none;
  pl = some (a.thread_hash % parking_lot_num);
  main_tid = 0;
  remote_num_nosignal = 0;
  remote_nsignaled = 0;
  steal_seed = a.fast_rand;
  steal_offset = offset_table (a.fast_rand % table_size);
}

module _ (C : TidCodec) where
  open C use {make_tid, get_slot}

  -- The meta of the main task. `unknown_type` is BTHREAD_STACKTYPE_UNKNOWN.
  unfoldable pub main_meta : (unknown_type now slot : ℕ) → TaskMeta → TaskMeta
  main_meta unknown_type now n m = record m {
    stop = false;
    interrupted = false;
    about_to_quit = false;
    fn = 0;
    arg = 0;
    cpuwide_start_ns = now;
    cputime_ns = 0;
    nswitch = 0;
    attr = record { stack_type = unknown_type; flags = 0 };
    tid = make_tid m.version_butex n;
  }

  abbrev pub set_main :
      (unknown_type : ℕ) (fresh : TaskMeta) → Answers → (g stk n : ℕ) → Store → Store
  set_main unknown_type fresh a g stk n st =
      let m = main_meta unknown_type a.now n (slot_meta fresh (st.pool n)) in
      set_object g
        (record (st.objects g) {
          cur_meta = some n;
          main_tid = m.tid;
          main_stack = some stk;
          last_run_ns = a.now;
        })
        (record st { pool = set_meta n m st.pool; stacks = update st.stacks n (some stk) })

  unfoldable pub init :
      (unknown_type : ℕ) (fresh : TaskMeta) → Answers → (g : ℕ) → Store → Store × Bool
  init unknown_type fresh a g st =
      if not a.rq_init
      then (st, false)
      else if not a.remote_rq_init
      then (st, false)
      else elim a.get_stack [
        | none ↦ (st, false)
        | some stk ↦
            let st1 = call (takes (stack stk)) st in
            elim a.get_resource [
              | none ↦ (st1, false)
              | some n ↦ (set_main unknown_type fresh a g stk n (call (takes (slot n)) st1), true)
            ]
      ]

  -- `return_stack(m->release_stack())`: a task without a stack gives nothing back.
  abbrev pub return_stack : Option ℕ → Store → Store
  return_stack none st = st
  return_stack (some s) st = call (gives (stack s)) st

  unfoldable pub destruct : (g : ℕ) → Store → Store
  destruct g st =
      let o = st.objects g in
      if o.main_tid == 0
      then st
      else (let n = get_slot o.main_tid in
          let checked = call (checks (same o.main_stack (st.stacks n))) st in
          let released =
            return_stack (st.stacks n) (record checked { stacks = update st.stacks n none }) in
          set_object g (record o { main_tid = 0 }) (call (gives (slot n)) released))
