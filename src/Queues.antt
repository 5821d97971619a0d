-- ===== src/Queues.antt =====
-- The run queues of a task group: `WorkStealingQueue<bthread_t>` (`_rq`) and `RemoteTaskQueue`
-- (`_remote_rq`) of dbrpc/task_group.h.
--
-- Both classes are defined outside the repository. They are taken as an interface: the calls that
-- the repository makes, and what it relies on. The owner pushes at the end and pops there; thieves
-- steal at the front. A push fails only on a full queue, a pop or a steal only on an empty one.
use brpc_source_code_analysi.Prelude.{
  ℕ, ◌≡◌, refl, ◌≤◌, Option, none, some, List, [], ◌∷◌, ◌++◌, length, arith, ltb, if◌then◌else◌,
}

pub record WorkStealingQueue : Type 1 where
  pub Queue : Type 0
  pub contents : Queue → List ℕ
  pub capacity : ℕ
  pub push : ℕ → Queue → Option Queue
  pub pop : Queue → Option (ℕ × Queue)
  pub steal : Queue → Option (ℕ × Queue)
  pub push-some : (t : ℕ) (q q' : Queue) → push t q ≡ some q' → contents q' ≡ contents q ++ t ∷ []
  pub push-none : (t : ℕ) (q : Queue) → push t q ≡ none → capacity ≤ length (contents q)
  pub pop-some : (t : ℕ) (q q' : Queue) → pop q ≡ some (t, q') → contents q ≡ contents q' ++ t ∷ []
  pub pop-none : (q : Queue) → pop q ≡ none → contents q ≡ []
  pub steal-some : (t : ℕ) (q q' : Queue) → steal q ≡ some (t, q') → contents q ≡ t ∷ contents q'
  pub steal-none : (q : Queue) → steal q ≡ none → contents q ≡ []

pub record RemoteTaskQueue : Type 1 where
  pub Queue : Type 0
  pub contents : Queue → List ℕ
  pub capacity : ℕ
  pub push_locked : ℕ → Queue → Option Queue
  pub pop : Queue → Option (ℕ × Queue)
  pub push-some :
      (t : ℕ) (q q' : Queue) → push_locked t q ≡ some q' → contents q' ≡ contents q ++ t ∷ []
  pub push-none : (t : ℕ) (q : Queue) → push_locked t q ≡ none → capacity ≤ length (contents q)
  pub pop-some : (t : ℕ) (q q' : Queue) → pop q ≡ some (t, q') → contents q ≡ t ∷ contents q'
  pub pop-none : (q : Queue) → pop q ≡ none → contents q ≡ []

-- A bounded list serves as either queue, so what is assumed can be met.
abbrev push_list : ℕ → ℕ → List ℕ → Option (List ℕ)
push_list cap t q = if ltb (length q) cap then some (q ++ t ∷ []) else none

abbrev pop_front : List ℕ → Option (ℕ × List ℕ)
pop_front [] = none
pop_front (t ∷ q) = some (t, q)

abbrev put_back : ℕ → Option (ℕ × List ℕ) → Option (ℕ × List ℕ)
put_back x none = some (x, [])
put_back x (some (t, q)) = some (t, x ∷ q)

abbrev pop_back : List ℕ → Option (ℕ × List ℕ)
pop_back [] = none
pop_back (x ∷ q) = put_back x (pop_back q)

pub push_list-some : (cap t : ℕ) (q q' : List ℕ) → push_list cap t q ≡ some q' → q' ≡ q ++ t ∷ []
push_list-some cap t q q' e = ground arith

pub push_list-none : (cap t : ℕ) (q : List ℕ) → push_list cap t q ≡ none → cap ≤ length q
push_list-none cap t q e = ground arith

pub pop_front-some : (t : ℕ) (q q' : List ℕ) → pop_front q ≡ some (t, q') → q ≡ t ∷ q'
pop_front-some t q q' e = ground arith

pub pop_front-none : (q : List ℕ) → pop_front q ≡ none → q ≡ []
pop_front-none q e = ground arith

pub pop_back-none : (q : List ℕ) → pop_back q ≡ none → q ≡ []
pop_back-none [] e = refl
pop_back-none (x ∷ q) e = ground arith

pub pop_back-some : (t : ℕ) (q q' : List ℕ) → pop_back q ≡ some (t, q') → q ≡ q' ++ t ∷ []
pop_back-some t [] q' e = cc
pop_back-some t (x ∷ q) [] e = ground (arith, pop_back-none q)
pop_back-some t (x ∷ q) (y ∷ q') e = ground (arith, pop_back-none q, pop_back-some t q q')

abbrev pub list_wsq : ℕ → WorkStealingQueue
list_wsq cap = record {
  Queue = List ℕ;
  contents = λ q. q;
  capacity = cap;
  push = push_list cap;
  pop = pop_back;
  steal = pop_front;
  push-some = push_list-some cap;
  push-none = push_list-none cap;
  pop-some = pop_back-some;
  pop-none = pop_back-none;
  steal-some = pop_front-some;
  steal-none = pop_front-none;
}

abbrev pub list_remote : ℕ → RemoteTaskQueue
list_remote cap = record {
  Queue = List ℕ;
  contents = λ q. q;
  capacity = cap;
  push_locked = push_list cap;
  pop = pop_front;
  push-some = push_list-some cap;
  push-none = push_list-none cap;
  pop-some = pop_front-some;
  pop-none = pop_front-none;
}
