-- ===== src/Server/Threads/Invariant.antt =====
-- What holds of the threads, the objects and the queue between any two steps.
use example.Base.{ℕ, ◌+◌, ◌<◌, ◌≡◌, Option, none, some, ◌==◌, if◌then◌else◌}
use example.Server.{
  create, process, finish, CallStatus, CallData, Operation, request_say_hello, finish_rpc, tag,
}
use example.Server.Ops.{count_tag, is_request, count_requests, AllFit}
use example.Server.Safety.{alive}
use example.Server.Threads.{
  Pc, spawning, creating, requesting, waiting, entered, processing, replying, finishing, sending,
  deleting, faulted, Memory,
}
use example.Server.Threads.Counting.{total}

abbrev pub one_if : ℕ → ℕ → ℕ
one_if b a = if a == b then 1 else 0

abbrev pub caller : ℕ → Option ℕ → ℕ
caller b none = 0
caller b (some a) = one_if b a

-- Whether a thread has the object b at hand.
abbrev pub holds : ℕ → Pc → ℕ
holds b spawning = 0
holds b (creating a k) = one_if b a + caller b k
holds b (requesting a k) = one_if b a + caller b k
holds b waiting = 0
holds b (entered op) = one_if b (tag op)
holds b (processing a) = one_if b a
holds b (replying a) = one_if b a
holds b (finishing a) = one_if b a
holds b (sending a) = one_if b a
holds b (deleting a) = one_if b a
holds b faulted = 0

-- Whether a thread has still to ask for the next client.
abbrev pub listens : Pc → ℕ
listens spawning = 1
listens (creating a k) = 1
listens (requesting a k) = 1
listens waiting = 0
listens (entered op) = is_request op
listens (processing a) = 1
listens (replying a) = 0
listens (finishing a) = 0
listens (sending a) = 0
listens (deleting a) = 0
listens faulted = 0

-- There is an object, in the given state.
abbrev pub InState : CallStatus → Option CallData → Type 0
InState st none = ⊥
InState st (some c) = c.status ≡ st

abbrev pub status_of : Operation → CallStatus
status_of (request_say_hello a) = process
status_of (finish_rpc a m) = finish

abbrev pub CallerFits : (ℕ → Option CallData) → Option ℕ → Type 0
CallerFits h none = Unit
CallerFits h (some a) = InState process (h a)

-- The states of the objects that a thread has at hand.
abbrev pub PcFits : (ℕ → Option CallData) → Pc → Type 0
PcFits h spawning = Unit
PcFits h (creating a k) = InState create (h a) × CallerFits h k
PcFits h (requesting a k) = InState process (h a) × CallerFits h k
PcFits h waiting = Unit
PcFits h (entered op) = InState (status_of op) (h (tag op))
PcFits h (processing a) = InState process (h a)
PcFits h (replying a) = InState process (h a)
PcFits h (finishing a) = InState process (h a)
PcFits h (sending a) = InState finish (h a)
PcFits h (deleting a) = InState finish (h a)
PcFits h faulted = ⊥

-- Each live object is either at hand to one thread or named by one outstanding operation, and is in
-- the state that this stands for; each of the n threads accounts for one object that waits for a
-- client or is about to.
pub record Inv (n : ℕ) (m : Memory) (pc : ℕ → Pc) : Type 0 where
  pub matched : (b : ℕ) → count_tag b m.outstanding + total (holds b) n pc ≡ alive (m.heap b)
  pub fitting : AllFit m.heap m.outstanding
  pub placed : (i : ℕ) → i < n → PcFits m.heap (pc i)
  pub listening : count_requests m.outstanding + total listens n pc ≡ n
