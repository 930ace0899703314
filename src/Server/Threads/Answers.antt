-- ===== src/Server/Threads/Answers.antt =====
-- Every step keeps account of the clients: each has its reply delivered, in the queue, or pending.
use example.Base.{
  ℕ, ◌+◌, ◌≤◌, ◌<◌, ◌≡◌, ◌≢◌, refl, ap, Option, none, some, ◌++◌, map, arith, Text, ◌≤◌,
}
use example.Server.{
  CallData, Operation, request_say_hello, finish_rpc, prefix, update, tag, write_request, process,
  finish,
}
use example.Server.Ops.{AllFit-get, count_tag-remove_at}
use example.Server.Threads.{
  Pc, spawning, creating, requesting, waiting, entered, processing, replying, finishing, sending,
  deleting, faulted, Memory, Move, allocate, set_process, request, next, is_create, is_process,
  is_finish, spawn, set_reply, set_finish, send, delete, fault, fresh,
}
use example.Server.Threads.Invariant.{holds, caller, Inv, InState, status_of}
use example.Server.Threads.Moves.{not_create, never_dangling}
use example.Server.Threads.Owned.{own, other, own_fits}
use example.Server.Threads.History.{
  arrives, delivers, sum, greeting, queued, queued-remove_at, of_request, of_operation, of_caller,
  pending,
}

of_caller-update :
    (f : Text → ℕ) (h : ℕ → Option CallData) (a : ℕ) (c : Option CallData) (k : Option ℕ)
    → caller a k ≡ 0
    → of_caller f (update h a c) k ≡ of_caller f h k
of_caller-update f h a c none z = refl
of_caller-update f h a c (some x) z = ground (arith, z)

-- A write to an object that a thread does not hold.
pending-update :
    (f : Text → ℕ) (h : ℕ → Option CallData) (a : ℕ) (c : Option CallData) (p : Pc)
    → holds a p ≡ 0
    → pending f (update h a c) p ≡ pending f h p
pending-update f h a c spawning z = refl
pending-update f h a c (creating x k) z = of_caller-update f h a c k (omega arith)
pending-update f h a c (requesting x k) z = of_caller-update f h a c k (omega arith)
pending-update f h a c waiting z = refl
pending-update f h a c (entered (request_say_hello x)) z = ground arith
pending-update f h a c (entered (finish_rpc x m)) z = refl
pending-update f h a c (processing x) z = ground arith
pending-update f h a c (replying x) z = ground arith
pending-update f h a c (finishing x) z = ground arith
pending-update f h a c (sending x) z = ground arith
pending-update f h a c (deleting x) z = refl
pending-update f h a c faulted z = refl

module _ (f : Text → ℕ) {n : ℕ} {m : Memory} {pc : ℕ → Pc} (inv : Inv n m pc) (i : ℕ)
    (lt : i < n) where
  -- A step leaves what the other threads are about to give.
  abbrev pub OthersSame : Memory → Type 0
  OthersSame m' = (j : ℕ) → j < n → j ≢ i → pending f m'.heap (pc j) ≡ pending f m.heap (pc j)

  owned_write :
      {p : Pc} (a : ℕ) (c : CallData) (c' : Option CallData)
      → pc i ≡ p
      → m.heap a ≡ some c
      → 1 ≤ holds a p
      → (j : ℕ) → j < n
      → j ≢ i
      → pending f (update m.heap a c') (pc j) ≡ pending f m.heap (pc j)
  owned_write a c c' e there mine j k d =
      pending-update f m.heap a c' (pc j) (ground (arith, other inv i lt e a j k d, there))

  free_write :
      {p : Pc} (a : ℕ) (c' : Option CallData)
      → pc i ≡ p
      → m.heap a ≡ none
      → (j : ℕ) → j < n
      → j ≢ i
      → pending f (update m.heap a c') (pc j) ≡ pending f m.heap (pc j)
  free_write a c' e free j k d =
      pending-update f m.heap a c' (pc j) (ground (arith, other inv i lt e a j k d, free))

  pub others_same : {p p' : Pc} {m' : Memory} → Move m p m' p' → pc i ≡ p → OthersSame m'
  others_same (allocate a free) e = free_write a (some fresh) e free
  others_same (set_process {a} {k} c there) e =
      owned_write a c (some (record c { status = process })) e there (ground arith)
  others_same request e = λ j k d. refl
  others_same (next k (request_say_hello a) name ok there asserted) e = λ j l d.
      pending-update f m.heap a (write_request name (m.heap a)) (pc j) (
        ground (
          arith,
          count_tag-remove_at a k m.outstanding (request_say_hello a) there,
          other inv i lt e a j l d,
        ))
  others_same (next k (finish_rpc a t) name ok there asserted) e = λ j l d. refl
  others_same (is_create c there st) e = λ j k d. refl
  others_same (is_process c there st) e = λ j k d. refl
  others_same (is_finish c there st) e = λ j k d. refl
  others_same (spawn {a} b free) e = free_write b (some fresh) e free
  others_same (set_reply {a} c there) e =
      owned_write a c (some (record c { reply = prefix ++ c.request })) e there (ground arith)
  others_same (set_finish {a} c there) e =
      owned_write a c (some (record c { status = finish })) e there (ground arith)
  others_same (send c there) e = λ j k d. refl
  others_same (delete {a} c there) e = owned_write a c none e there (ground arith)
  others_same (fault a at free) e = λ j k d. refl

  -- A request that came back: its object holds the client's name.
  received :
      (a : ℕ) (name : Text) (o : Option CallData)
      → InState process o
      → of_request f (write_request name o) ≡ f (greeting name)
  received a name none fit = absurd fit
  received a name (some c) fit = refl

  at_process :
      (op : Operation) (c : CallData)
      → InState (status_of op) (m.heap (tag op))
      → m.heap (tag op) ≡ some c
      → c.status ≡ process
      → of_request f (m.heap (tag op)) ≡ of_operation f m.heap op
  at_process (request_say_hello a) c fit there st = refl
  at_process (finish_rpc a t) c fit there st = absurd (ground (arith, fit))

  at_finish :
      (op : Operation) (c : CallData)
      → InState (status_of op) (m.heap (tag op))
      → m.heap (tag op) ≡ some c
      → c.status ≡ finish
      → of_operation f m.heap op ≡ 0
  at_finish (request_say_hello a) c fit there st = absurd (ground (arith, fit))
  at_finish (finish_rpc a t) c fit there st = refl

  pub balance :
      {p p' : Pc} {m' : Memory} (mv : Move m p m' p')
      → pc i ≡ p
      → pending f m'.heap p' + (queued f m'.outstanding + sum f (delivers mv))
        ≡ pending f m.heap p + (queued f m.outstanding + sum f (map greeting (arrives mv)))
  balance (allocate a free) e = refl
  balance (set_process {a} {k} c there) e =
      ap (λ w. w + (queued f m.outstanding + 0))
        (of_caller-update f m.heap a (some (record c { status = process })) k
          (ground (arith, own inv i lt e a, there)))
  balance (request {a = a} {k = none}) e = omega arith
  balance (request {a = a} {k = some b}) e = omega arith
  balance (next k (request_say_hello a) name ok there asserted) e =
      let op = request_say_hello a in
      let fit = AllFit-get m.heap k m.outstanding op inv.fitting there in
      ground (arith, queued-remove_at f k m.outstanding op there, received a name (m.heap a))
  balance (next k (finish_rpc a t) name ok there asserted) e =
      omega (arith, queued-remove_at f k m.outstanding (finish_rpc a t) there)
  balance (is_create {op} c there st) e =
      absurd (not_create op c (m.heap (tag op)) (own_fits inv i lt e) there st)
  balance (is_process {op} c there st) e =
      ap (λ w. w + (queued f m.outstanding + 0)) (at_process op c (own_fits inv i lt e) there st)
  balance (is_finish {op} c there st) e =
      omega (arith, at_finish op c (own_fits inv i lt e) there st)
  balance (spawn {a} b free) e = ground (arith, own_fits inv i lt e, free)
  balance (set_reply {a} c there) e = ground (arith, there)
  balance (set_finish {a} c there) e = ground (arith, there)
  balance (send {a} c there) e = ground (arith, there)
  balance (delete {a} c there) e = refl
  balance (fault {p} a at free) e = absurd (never_dangling m.heap p a (own_fits inv i lt e) at free)
