-- ===== src/Server/Threads/Safety.antt =====
-- What the threads of `HandleRpcs` can rely on, however they are interleaved.
use mathlib.Core.Path.{subst}
use example.Base.{
  sym, get_elem?, ap, ◌⊎◌, refl, ℕ, ◌<◌, ◌≡◌, ◌≢◌, List, Option, none, some, [], ◌∷◌, arith, inl,
  inr, true,
}
use example.Server.{
  create, process, finish, CallStatus, CallData, Operation, request_say_hello, finish_rpc,
}
use example.Server.Ops.{count_tag, count_requests}
use example.Server.Safety.{alive}
use example.Server.Threads.{
  Pc, spawning, creating, requesting, waiting, entered, processing, replying, finishing, sending,
  deleting, faulted, Memory, Move, allocate, set_process, request, next, is_process, is_finish,
  spawn, set_reply, set_finish, send, delete, return_to, System, steps, started, Reach, start,
  later,
}
use example.Server.Threads.Counting.{total-zero, total-one, total-pos}
use example.Server.Threads.Invariant.{holds, listens, InState, PcFits, Inv}
use example.Server.Threads.Owned.{other}
use example.Server.Threads.Moves.{Move-Inv}

started-Inv : (n : ℕ) → Inv n started.memory started.pc
started-Inv n = record {
  matched = λ b. omega (arith, total-zero (holds b) n started.pc (λ i lt. refl));
  fitting = tt;
  placed = λ i lt. tt;
  listening = omega (arith, total-one listens n spawning refl);
}

-- In every state that n threads reach, in whatever order their steps come, the live objects are
-- exactly those at hand to one thread or named by one operation in the queue, each in the state of
-- `Proceed` that this stands for, and n objects wait for a client or are about to.
pub Reach-Inv : (n : ℕ) {s : System} → Reach n s → Inv n s.memory s.pc
Reach-Inv n start = started-Inv n
Reach-Inv n (later r (steps i lt mv)) = Move-Inv (Reach-Inv n r) i lt mv refl

-- No thread ever runs into an object that is gone.
pub never_faults : (n : ℕ) {s : System} (i : ℕ) → Reach n s → i < n → s.pc i ≢ faulted
never_faults n {s} i r lt e = subst (λ p. PcFits s.memory.heap p) e ((Reach-Inv n r).placed i lt)

-- What a thread has at hand is its own: no other thread has it at hand, and no event can name it.
pub nothing_shared :
    (n : ℕ) {s : System} (i j b : ℕ)
    → Reach n s
    → i < n
    → j < n
    → j ≢ i
    → 0 < holds b (s.pc i)
    → (holds b (s.pc j) ≡ 0) × (count_tag b s.memory.outstanding ≡ 0)
nothing_shared n {s} i j b r lt k d h =
    let alone = other (Reach-Inv n r) i lt refl b j k d in
    (ground (arith, alone), ground (arith, alone))

-- While all threads wait in `Next`, exactly n operations ask for a client, and every live object is
-- named by exactly one operation.
pub quiet_lem :
    (n : ℕ) {s : System}
    → Reach n s
    → ((i : ℕ) → i < n → s.pc i ≡ waiting)
    → (count_requests s.memory.outstanding ≡ n)
      × ((b : ℕ) → count_tag b s.memory.outstanding ≡ alive (s.memory.heap b))
quiet_lem n {s} r quiet =
    let inv = Reach-Inv n r in
    let none_listens = total-zero listens n s.pc (λ i lt. ap listens (quiet i lt)) in
    (
      omega (arith, inv.listening, none_listens),
      λ b.
          omega
            (arith, inv.matched b, total-zero (holds b) n s.pc (λ i lt. ap (holds b) (quiet i lt))),
    )

object_in :
    (st : CallStatus) (o : Option CallData)
    → InState st o
    → (c : CallData) × (o ≡ some c) × (c.status ≡ st)
object_in st none f = elim f [ ]
object_in st (some c) f = (c, refl, f)

return_to-ne : (k : Option ℕ) → return_to k ≢ faulted
return_to-ne none e = cc
return_to-ne (some a) e = cc

pub waits_or_not : (p : Pc) → (p ≡ waiting) ⊎ (p ≢ waiting)
waits_or_not waiting = inl refl
waits_or_not p = inr (λ e. cc)

-- A thread with a step to take that is no fault.
abbrev pub CanStep : Memory → Pc → Type 0
CanStep m p = (m' : Memory) × (p' : Pc) × Move m p m' p' × (p' ≢ faulted)

-- A step of a thread that is not waiting.
pub can_move :
    (m : Memory) (p : Pc) (a : ℕ) → PcFits m.heap p → p ≢ waiting → m.heap a ≡ none → CanStep m p
can_move m spawning a f w free = (_, _, allocate a free, λ e. cc)
can_move m (creating b k) a f w free =
    let (c, there, st) = object_in create (m.heap b) f.0 in (_, _, set_process c there, λ e. cc)
can_move m (requesting b k) a f w free = (_, _, request, return_to-ne k)
can_move m waiting a f w free = absurd (w refl)
can_move m (entered (request_say_hello b)) a f w free =
    let (c, there, st) = object_in process (m.heap b) f in (_, _, is_process c there st, λ e. cc)
can_move m (entered (finish_rpc b t)) a f w free =
    let (c, there, st) = object_in finish (m.heap b) f in (_, _, is_finish c there st, λ e. cc)
can_move m (processing b) a f w free = (_, _, spawn a free, λ e. cc)
can_move m (replying b) a f w free =
    let (c, there, st) = object_in process (m.heap b) f in (_, _, set_reply c there, λ e. cc)
can_move m (finishing b) a f w free =
    let (c, there, st) = object_in process (m.heap b) f in (_, _, set_finish c there, λ e. cc)
can_move m (sending b) a f w free =
    let (c, there, st) = object_in finish (m.heap b) f in (_, _, send c there, λ e. cc)
can_move m (deleting b) a f w free =
    let (c, there, st) = object_in finish (m.heap b) f in (_, _, delete c there, λ e. cc)
can_move m faulted a f w free = absurd f

-- A thread that waits can take an operation; where there is none, some thread is not waiting.
can_take : (m : Memory) (op : Operation) → get_elem? m.outstanding 0 ≡ some op → CanStep m waiting
can_take m op there = (_, _, next 0 op [] true there refl, λ e. cc)

first_of : (ops : List Operation) → (ops ≡ []) ⊎ ((op : Operation) × (get_elem? ops 0 ≡ some op))
first_of [] = inl refl
first_of (op ∷ ops) = inr (op, refl)

-- There is no deadlock: with at least one thread and some free address, some thread can always take a
-- step that is no fault.
pub no_deadlock :
    (n : ℕ) {s : System} (a : ℕ)
    → Reach n s
    → 0 < n
    → s.memory.heap a ≡ none
    → (i : ℕ) × (i < n) × CanStep s.memory (s.pc i)
no_deadlock n {s} a r pos free =
    let inv = Reach-Inv n r in
    elim (waits_or_not (s.pc 0)) [
      | inr busy ↦ (0, pos, can_move s.memory (s.pc 0) a (inv.placed 0 pos) busy free)
      | inl waits ↦ elim (first_of s.memory.outstanding) [
        | inr (op, there) ↦
            (0, pos, subst (λ p. CanStep s.memory p) (sym waits) (can_take s.memory op there))
        | inl none_there ↦
            let asks : count_requests s.memory.outstanding ≡ 0 = ap count_requests none_there in
            let (i, lt, busy) = total-pos listens n s.pc (omega (arith, asks, inv.listening)) in
            (
              i,
              lt,
              can_move s.memory (s.pc i) a (inv.placed i lt)
                  (λ e. omega (arith, busy, ap listens e)) free,
            )
      ]
    ]
