-- ===== src/Task/Life.antt =====
-- dbrpc/task_group.cpp: the start of a bthread (`start_background`, `start_foreground`), the end of
-- its run (`task_runner`) and `join`.
--
-- `get_resource` of the pool is a parameter: the slot it hands out, or `none` when memory is short.
-- The stack and the local storage of a task are those of Sched.Switch.
use brpc_source_code_analysi.Prelude.{
  ℕ, ◌+◌, ◌%◌, ◌^◌, ◌==◌, ◌&&◌, not, if◌then◌else◌, Bool, false, Option, none, some, List, [], ◌∷◌,
  same,
}
use brpc_source_code_analysi.Task.Meta.{
  TaskMeta, Attr, TidCodec, Pool, set_meta, address_meta, get_version,
}

pub data StartError : Type 0 where
  einval enomem : StartError

pub data Started : Type 0 where
  started : (tid : ℕ) → Pool → Started
  failed : StartError → Started

-- `++*m->version_butex`, with one more step past 0.
unfoldable pub next_version : ℕ → ℕ
next_version v = let v' = (v + 1) % 2 ^ 32 in if v' == 0 then 1 else v'

-- `attr ? *attr : BTHREAD_ATTR_NORMAL`
abbrev pub attr_or : (normal : Attr) → Option Attr → Attr
attr_or normal none = normal
attr_or normal (some a) = a

-- The end of a run in `task_runner`, up to the wake of the joiners.
unfoldable pub end_task : (slot : ℕ) → Pool → Pool
end_task slot p = elim (p slot) [
  | none ↦ p
  | some m ↦ set_meta slot (record m { version_butex = next_version m.version_butex }) p
]

-- `address_resource` of a slot that was just handed out: `fresh` is what the constructor of
-- `TaskMeta` leaves in a slot that was never handed out before.
abbrev pub slot_meta : (fresh : TaskMeta) → Option TaskMeta → TaskMeta
slot_meta fresh none = fresh
slot_meta fresh (some m) = m

pub data JoinResult : Type 0 where
  joined : JoinResult
  join_einval : JoinResult
  join_errno : (errno : ℕ) → JoinResult

-- EWOULDBLOCK and EINTR of Linux.
abbrev pub ewouldblock : ℕ
ewouldblock = 11

abbrev pub eintr : ℕ
eintr = 4

-- What `butex_wait(version_butex, expected, NULL)` answers in a round: whether it is below 0, and errno.
pub record Waited : Type 0 where
  pub failed : Bool
  pub errno : ℕ

-- The loop of `join`: the versions are read from the pool as the other threads leave it by the end of
-- each wait.
unfoldable pub join_loop : List (Pool × Waited) → ℕ → ℕ → Pool → Option (Pool × JoinResult)
join_loop [] slot expected p = elim (p slot) [
  | none ↦ none
  | some m ↦ if m.version_butex == expected then none else some (p, joined)
]
join_loop ((p', w) ∷ rest) slot expected p =
    let again = join_loop rest slot expected p' in
    elim (p slot) [
      | none ↦ none
      | some m ↦
          if m.version_butex == expected
          then (if w.failed && not (w.errno == ewouldblock) && not (w.errno == eintr)
              then some (p', join_errno w.errno)
              else again)
          else some (p, joined)
    ]

module _ (C : TidCodec) where
  open C use {make_tid, get_slot}

  -- The fields that a start sets, and the two that it checks: `current_waiter` and the stack.
  unfoldable pub init_meta : (slot fn arg now : ℕ) → Attr → TaskMeta → TaskMeta
  init_meta slot fn arg now attr m = record m {
    stop = false;
    interrupted = false;
    about_to_quit = false;
    fn = fn;
    arg = arg;
    attr = attr;
    cpuwide_start_ns = now;
    cputime_ns = 0;
    nswitch = 0;
    tid = make_tid m.version_butex slot;
  }

  -- What both ways to start a bthread do before the bthread is queued. `fn` is 0 for NULL; a slot
  -- that is handed out for the first time has a new `TaskMeta`, `fresh`.
  unfoldable pub start_task :
      (get_resource : Option ℕ) (fresh : TaskMeta) (fn arg now : ℕ)
      → Option Attr
      → (normal : Attr) → Pool
      → Started
  start_task get_resource fresh fn arg now attr normal p =
      if fn == 0 then failed einval else elim get_resource [
        | none ↦ failed enomem
        | some slot ↦
            let m = slot_meta fresh (p slot) in
            let using_attr = attr_or normal attr in
            let m' = init_meta slot fn arg now using_attr m in started m'.tid (set_meta slot m' p)
      ]

  -- `self` is the bthread that runs in the caller's group, if it has one.
  unfoldable pub join :
      List (Pool × Waited) → (self : Option ℕ) → ℕ → Pool → Option (Pool × JoinResult)
  join script self tid p = if tid == 0 then some (p, join_einval) else elim (address_meta C p tid) [
    | none ↦ some (p, join_einval)
    | some m ↦
        if same self (some tid)
        then some (p, join_einval)
        else join_loop script (get_slot tid) (get_version tid) p
  ]
