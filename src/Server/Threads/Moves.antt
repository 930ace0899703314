-- ===== src/Server/Threads/Moves.antt =====
-- A step of thread `i` keeps the invariant.
use example.Base.{refl, ℕ, ◌<◌, ◌≡◌, Option, none, some, arith, Text, get_elem?, ◌++◌}
use example.Server.{
  create, CallStatus, CallData, Operation, update, tag, receive, remove_at, finish_rpc,
  request_say_hello, process, write_request, prefix, finish,
}
use example.Server.Ops.{
  count_tag, is_request, AllFit-update, AllFit-get, AllFit-remove_at, count_tag-remove_at,
  count_requests-remove_at,
}
use example.Server.Threads.{
  Pc, spawning, creating, requesting, waiting, entered, processing, replying, finishing, sending,
  deleting, faulted, Memory, Move, accesses, allocate, set_process, request, next, is_create,
  is_process, is_finish, spawn, set_reply, set_finish, send, delete, fault,
}
use example.Server.Threads.Invariant.{InState, status_of, PcFits, Inv}
use example.Server.Threads.Owned.{
  CallerFits-update, PcFits-update, own, other, own_fits, rebuild, write_own, new_own, stays, posts,
  drops,
}

-- The object under an operation that came back is in the state that the operation stands for.
pub not_create :
    (op : Operation) (c : CallData) (o : Option CallData)
    → InState (status_of op) o
    → o ≡ some c
    → c.status ≡ create
    → ⊥
not_create (request_say_hello a) c o f e st = ground (arith, f)
not_create (finish_rpc a t) c o f e st = ground (arith, f)

for_process :
    (op : Operation) (c : CallData) (o : Option CallData)
    → InState (status_of op) o
    → o ≡ some c
    → c.status ≡ process
    → 1 ≡ is_request op
for_process (request_say_hello a) c o f e st = refl
for_process (finish_rpc a t) c o f e st = absurd (ground (arith, f))

for_finish :
    (op : Operation) (c : CallData) (o : Option CallData)
    → InState (status_of op) o
    → o ≡ some c
    → c.status ≡ finish
    → 0 ≡ is_request op
for_finish (request_say_hello a) c o f e st = absurd (ground (arith, f))
for_finish (finish_rpc a t) c o f e st = refl

exists : (st : CallStatus) (o : Option CallData) → InState st o → o ≡ none → ⊥
exists st none f e = f
exists st (some c) f e = absurd (cc)

-- No step of a thread finds its object gone.
pub never_dangling :
    (h : ℕ → Option CallData) (p : Pc) (a : ℕ) → PcFits h p → accesses p ≡ some a → h a ≡ none → ⊥
never_dangling h spawning a f at e = absurd (cc)
never_dangling h (creating b k) a f at e = exists create (h b) f.0 (ground arith)
never_dangling h (requesting b k) a f at e = exists process (h b) f.0 (ground arith)
never_dangling h waiting a f at e = absurd (cc)
never_dangling h (entered op) a f at e = exists (status_of op) (h (tag op)) f (ground arith)
never_dangling h (processing b) a f at e = exists process (h b) f (ground arith)
never_dangling h (replying b) a f at e = exists process (h b) f (ground arith)
never_dangling h (finishing b) a f at e = exists process (h b) f (ground arith)
never_dangling h (sending b) a f at e = exists finish (h b) f (ground arith)
never_dangling h (deleting b) a f at e = exists finish (h b) f (ground arith)
never_dangling h faulted a f at e = absurd (cc)

module _ {n : ℕ} {m : Memory} {pc : ℕ → Pc} (inv : Inv n m pc) (i : ℕ) (lt : i < n) where
  -- An event: the runtime lets the operation go, and the thread has its object.
  takes :
      (k : ℕ) (op : Operation) (name : Text)
      → pc i ≡ waiting
      → get_elem? m.outstanding k ≡ some op
      → Inv n
          (record { heap = receive op name m.heap; outstanding = remove_at k m.outstanding })
          (update pc i (entered op))
  takes k (finish_rpc a t) name e there =
      let op = finish_rpc a t in
      let rest = AllFit-remove_at m.heap k m.outstanding inv.fitting in
      let fit = AllFit-get m.heap k m.outstanding op inv.fitting there in
      rebuild inv i lt e (record { heap = m.heap; outstanding = remove_at k m.outstanding })
        (entered op) (λ b. ground (arith, count_tag-remove_at b k m.outstanding op there)) rest
        (λ j l d. inv.placed j l) (ground (arith, fit))
        (omega (arith, count_requests-remove_at k m.outstanding op there))
  takes k (request_say_hello a) name e there =
      let op = request_say_hello a in
      let left = remove_at k m.outstanding in
      let c' = write_request name (m.heap a) in
      let gone = count_tag-remove_at a k m.outstanding op there in
      let fit = AllFit-get m.heap k m.outstanding op inv.fitting there in
      let unqueued : count_tag a left ≡ 0 = ground (arith, gone, own inv i lt e a) in
      rebuild inv i lt e (record { heap = update m.heap a c'; outstanding = left }) (entered op)
        (λ b. ground (arith, fit, count_tag-remove_at b k m.outstanding op there))
        (AllFit-update m.heap a c' left unqueued
          (AllFit-remove_at m.heap k m.outstanding inv.fitting))
        (λ j l d.
          PcFits-update m.heap a c' (pc j) (ground (arith, gone, other inv i lt e a j l d))
            (inv.placed j l))
        (ground (arith, fit)) (omega (arith, count_requests-remove_at k m.outstanding op there))

  pub Move-Inv : {p p' : Pc} {m' : Memory} → Move m p m' p' → pc i ≡ p → Inv n m' (update pc i p')
  Move-Inv (allocate a free) e =
      new_own inv i lt e a (creating a none) free (λ b. omega arith) (ground arith) refl
  Move-Inv (set_process {a} {k} c there) e =
      write_own inv i lt e a c (record c { status = process }) (requesting a k) there (ground arith)
        (λ b. refl)
        (
          ground arith,
          CallerFits-update m.heap a (some (record c { status = process })) k
              (ground (arith, own inv i lt e a, there)) (own_fits inv i lt e).1,
        )
        refl
  Move-Inv (request {a = a} {k = none}) e =
      posts inv i lt e (request_say_hello a) waiting (λ b. refl)
        (ground (arith, (own_fits inv i lt e).0)) tt refl
  Move-Inv (request {a = a} {k = some b}) e =
      posts inv i lt e (request_say_hello a) (replying b) (λ x. refl)
        (ground (arith, (own_fits inv i lt e).0)) (own_fits inv i lt e).1 refl
  Move-Inv (next k op name ok there asserted) e = takes k op name e there
  Move-Inv (is_create {op} c there st) e =
      absurd (not_create op c (m.heap (tag op)) (own_fits inv i lt e) there st)
  Move-Inv (is_process {op} c there st) e =
      stays inv i lt e (processing (tag op)) (λ b. refl) (ground (arith, there, st))
        (for_process op c (m.heap (tag op)) (own_fits inv i lt e) there st)
  Move-Inv (is_finish {op} c there st) e =
      stays inv i lt e (deleting (tag op)) (λ b. refl) (ground (arith, there, st))
        (for_finish op c (m.heap (tag op)) (own_fits inv i lt e) there st)
  Move-Inv (spawn {a} b free) e =
      new_own inv i lt e b (creating b (some a)) free (λ x. omega arith)
        (ground arith, ground (arith, own_fits inv i lt e, free)) refl
  Move-Inv (set_reply {a} c there) e =
      write_own inv i lt e a c (record c { reply = prefix ++ c.request }) (finishing a) there
        (ground arith) (λ b. refl) (ground (arith, own_fits inv i lt e)) refl
  Move-Inv (set_finish {a} c there) e =
      write_own inv i lt e a c (record c { status = finish }) (sending a) there (ground arith)
        (λ b. refl) (ground arith) refl
  Move-Inv (send {a} c there) e =
      posts inv i lt e (finish_rpc a c.reply) waiting (λ b. omega arith)
        (ground (arith, own_fits inv i lt e)) tt refl
  Move-Inv (delete {a} c there) e = drops inv i lt e a c waiting there (λ b. omega arith) tt refl
  Move-Inv (fault {p} a at free) e =
      absurd (never_dangling m.heap p a (own_fits inv i lt e) at free)
