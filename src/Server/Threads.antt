-- ===== src/Server/Threads.antt =====
-- include/greeter_async_server.h: `HandleRpcs` run in several threads over one queue, which its comment
-- allows. A step is one access of a thread to what the threads share: an object, or the queue. The
-- constructor sets CREATE and reads it back in one step, before it passes the object on.
pub mod Counting
pub mod Invariant
pub mod Owned
pub mod Moves
pub mod Safety
pub mod History
pub mod Answers
pub mod Clients
pub mod Room
pub mod Rest
pub mod Weights
pub mod Served
mod Tests
use example.Base.{
  ℕ, Bool, true, false, ◌<◌, ◌≡◌, ◌++◌, Option, none, some, [], ◌∷◌, get_elem?, Text, List,
}
use example.Server.{
  create, process, finish, CallData, Operation, request_say_hello, finish_rpc, update, tag, prefix,
  remove_at, receive,
}

-- Where a thread stands, with the addresses that it has at hand. The constructor of an object runs
-- within `HandleRpcs`, or, where it has a second address, within the `Proceed` of that object.
pub data Pc : Type 0 where
  spawning : Pc
  creating : ℕ → Option ℕ → Pc
  requesting : ℕ → Option ℕ → Pc
  waiting : Pc
  entered : Operation → Pc
  processing : ℕ → Pc
  replying : ℕ → Pc
  finishing : ℕ → Pc
  sending : ℕ → Pc
  deleting : ℕ → Pc
  faulted : Pc

-- What the threads share.
pub record Memory : Type 0 where
  pub heap : ℕ → Option CallData
  pub outstanding : List Operation

abbrev pub fresh : CallData
fresh = record { status = create; request = []; reply = [] }

-- After the constructor: the loop, or the rest of `Proceed` of the object that called it.
abbrev pub return_to : Option ℕ → Pc
return_to none = waiting
return_to (some a) = replying a

-- The object that the next step of a thread reads or writes.
abbrev pub accesses : Pc → Option ℕ
accesses spawning = none
accesses (creating a k) = some a
accesses (requesting a k) = some a
accesses waiting = none
accesses (entered op) = some (tag op)
accesses (processing a) = some a
accesses (replying a) = some a
accesses (finishing a) = some a
accesses (sending a) = some a
accesses (deleting a) = some a
accesses faulted = none

abbrev pub write : ℕ → CallData → Memory → Memory
write a c m = record m { heap = update m.heap a (some c) }

-- One step of one thread. The allocator gives any free address, and `Next` any operation that is
-- outstanding, with the name of some client if it is a request, and with an `ok` that is asserted. The
-- queue is never shut down while the threads run, so the other assertion, on what `Next` returns, holds.
pub data Move (m : Memory) : Pc → Memory → Pc → Type 0 where
  allocate : (a : ℕ) → m.heap a ≡ none → Move m spawning (write a fresh m) (creating a none)
  set_process :
      {a : ℕ} {k : Option ℕ} (c : CallData)
      → m.heap a ≡ some c
      → Move m (creating a k) (write a (record c { status = process }) m) (requesting a k)
  request :
      {a : ℕ} {k : Option ℕ}
      → Move m
          (requesting a k)
          (record m { outstanding = request_say_hello a ∷ m.outstanding })
          (return_to k)
  next :
      (i : ℕ) (op : Operation) (name : Text) (ok : Bool)
      → get_elem? m.outstanding i ≡ some op
      → ok ≡ true
      → Move m waiting
          (record { heap = receive op name m.heap; outstanding = remove_at i m.outstanding })
          (entered op)
  is_create :
      {op : Operation} (c : CallData)
      → m.heap (tag op) ≡ some c
      → c.status ≡ create
      → Move m (entered op) m (creating (tag op) none)
  is_process :
      {op : Operation} (c : CallData)
      → m.heap (tag op) ≡ some c
      → c.status ≡ process
      → Move m (entered op) m (processing (tag op))
  is_finish :
      {op : Operation} (c : CallData)
      → m.heap (tag op) ≡ some c
      → c.status ≡ finish
      → Move m (entered op) m (deleting (tag op))
  spawn :
      {a : ℕ} (b : ℕ)
      → m.heap b ≡ none
      → Move m (processing a) (write b fresh m) (creating b (some a))
  set_reply :
      {a : ℕ} (c : CallData)
      → m.heap a ≡ some c
      → Move m (replying a) (write a (record c { reply = prefix ++ c.request }) m) (finishing a)
  set_finish :
      {a : ℕ} (c : CallData)
      → m.heap a ≡ some c
      → Move m (finishing a) (write a (record c { status = finish }) m) (sending a)
  send :
      {a : ℕ} (c : CallData)
      → m.heap a ≡ some c
      → Move m (sending a) (record m { outstanding = finish_rpc a c.reply ∷ m.outstanding }) waiting
  delete :
      {a : ℕ} (c : CallData)
      → m.heap a ≡ some c
      → Move m (deleting a) (record m { heap = update m.heap a none }) waiting
  fault : {p : Pc} (a : ℕ) → accesses p ≡ some a → m.heap a ≡ none → Move m p m faulted

-- The assertion on `ok` ends the program: a thread takes an operation that came back without it. While
-- the server is not shut down, gRPC documents that of a `Finish` only, whose call is dead.
pub data Aborts (m : Memory) : Pc → Type 0 where
  not_ok :
      (i a : ℕ) (t : Text) (ok : Bool)
      → get_elem? m.outstanding i ≡ some (finish_rpc a t)
      → ok ≡ false
      → Aborts m waiting

-- n threads, each with its place; an index from n on names none.
pub record System : Type 0 where
  pub memory : Memory
  pub pc : ℕ → Pc

pub data Step (n : ℕ) (s : System) : System → Type 0 where
  steps :
      (i : ℕ) {m : Memory} {p : Pc}
      → i < n
      → Move s.memory (s.pc i) m p
      → Step n s (record { memory = m; pc = update s.pc i p })

-- Every thread at the head of `HandleRpcs`.
abbrev pub started : System
started = record { memory = record { heap = λ _. none; outstanding = [] }; pc = λ _. spawning }

pub data Reach (n : ℕ) : System → Type 0 where
  start : Reach n started
  later : {s t : System} → Reach n s → Step n s t → Reach n t
