-- ===== src/Server/Threads/Served.antt =====
-- However the threads are interleaved, every client that has arrived gets its reply.
use mathlib.Core.List.{Perm}
use mathlib.Core.Path.{subst}
use native.Mathlib.Decide.{ℕ_discrete}
use example.Base.{
  ℕ, zero, suc, ◌+◌, ◌<◌, ◌≡◌, ◌≢◌, ◌⊎◌, inl, inr, refl, sym, ap, ◌∙◌, some, none, List, [], ◌++◌,
  map, arith, length, length-map, Text, get_elem?, true, ◌∷◌,
}
use example.Server.{Operation, finish_rpc, update}
use example.Server.Threads.{
  Pc, waiting, faulted, Memory, Move, allocate, set_process, request, next, is_create, is_process,
  is_finish, spawn, set_reply, set_finish, send, delete, fault, System, Aborts, not_ok,
}
use example.Server.Threads.Counting.{total, total-zero, total-update}
use example.Server.Threads.Invariant.{PcFits}
use example.Server.Threads.Safety.{Reach-Inv, waits_or_not, can_move}
use example.Server.Threads.History.{
  History, begun, then_steps, arrives, delivers, greeting, queued, pending, queued-remove_at, sum,
}
use example.Server.Threads.Clients.{History-Reach, clients_accounted}
use example.Server.Threads.Room.{free_address}
use example.Server.Threads.Rest.{weight, burden, lighter, first_reply}
use example.Server.Threads.Weights.{same_weights}

-- While no further client arrives: however the steps come, some thread has one to take that is no fault,
-- until, after finitely many, the replies that were delivered are the greetings of the clients, up to
-- their order. A thread can come to abort only while a client still misses its reply.
pub data AllServed (n : ℕ) (arrived : List Text) : List Text → System → Type 0 where
  all_served :
      (delivered : List Text) (s : System)
      → Perm delivered (map greeting arrived)
      → AllServed n arrived delivered s
  goes_on :
      (delivered : List Text) (s : System) (i : ℕ) (m : Memory) (p : Pc)
      → i < n
      → (mv : Move s.memory (s.pc i) m p) → arrives mv ≡ []
      → p ≢ faulted
      → ((j : ℕ) → j < n → Aborts s.memory (s.pc j) → length delivered < length arrived)
      → ((j : ℕ) (m' : Memory) (q : Pc)
          → j < n
          → (mv' : Move s.memory (s.pc j) m' q) → arrives mv' ≡ []
          → AllServed n arrived
              (delivers mv' ++ delivered)
              (record { memory = m'; pc = update s.pc j q }))
      → AllServed n arrived delivered s

-- A step to take that lets no client in.
abbrev BusyAt : Memory → Pc → Type 0
BusyAt m p = (m' : Memory) × (p' : Pc) × (mv : Move m p m' p') × (arrives mv ≡ []) × (p' ≢ faulted)

abbrev Busy : ℕ → System → Type 0
Busy n s = (i : ℕ) × (i < n) × BusyAt s.memory (s.pc i)

busy_arrives : {m m' : Memory} {p p' : Pc} (mv : Move m p m' p') → p ≢ waiting → arrives mv ≡ []
busy_arrives (allocate a free) w = refl
busy_arrives (set_process c there) w = refl
busy_arrives request w = refl
busy_arrives (next i op name ok there asserted) w = absurd (w refl)
busy_arrives (is_create c there st) w = refl
busy_arrives (is_process c there st) w = refl
busy_arrives (is_finish c there st) w = refl
busy_arrives (spawn b free) w = refl
busy_arrives (set_reply c there) w = refl
busy_arrives (set_finish c there) w = refl
busy_arrives (send c there) w = refl
busy_arrives (delete c there) w = refl
busy_arrives (fault a at free) w = refl

all_wait :
    (n : ℕ) (pc : ℕ → Pc)
    → ((i : ℕ) × (i < n) × (pc i ≢ waiting)) ⊎ ((i : ℕ) → i < n → pc i ≡ waiting)
all_wait zero pc = inr (λ i lt. elim lt [ ])
all_wait (suc n) pc = elim (waits_or_not (pc n)) [
  | inr busy ↦ inl (n, omega arith, busy)
  | inl waits ↦ elim (all_wait n pc) [
    | inl (i, lt, busy) ↦ inl (i, omega arith, busy)
    | inr rest ↦ inr (λ i lt. elim (ℕ_discrete i n) [
      | yes same ↦ ap pc same ∙ waits
      | no apart ↦ rest i (omega arith)
    ])
  ]
]

sum_one : (l : List Text) → sum (λ t. 1) l ≡ length l
sum_one [] = refl
sum_one (t ∷ l) = omega (arith, sum_one l)

module _ (n : ℕ) where
  some_thread :
      {arrived delivered : List Text} {s : System} (i : ℕ) (op : Operation)
      → History n arrived delivered s
      → get_elem? s.memory.outstanding i ≡ some op
      → 0 < n
  some_thread i op begun there = absurd (cc)
  some_thread i op (then_steps j r lt mv) there = omega arith

  takes_reply :
      (s : System) (i a : ℕ) (t : Text)
      → 0 < n
      → s.pc 0 ≡ waiting
      → get_elem? s.memory.outstanding i ≡ some (finish_rpc a t)
      → Busy n s
  takes_reply s i a t pos waits there = (
    0,
    pos,
    subst (BusyAt s.memory) (sym waits)
        (_, _, next i (finish_rpc a t) [] true there refl, refl, λ e. cc),
  )

  moves_on :
      (s : System) (i a : ℕ)
      → i < n
      → PcFits s.memory.heap (s.pc i)
      → s.pc i ≢ waiting
      → s.memory.heap a ≡ none
      → Busy n s
  moves_on s i a lt fit busy free =
      let (m, p, mv, sound) = can_move s.memory (s.pc i) a fit busy free in
      (i, lt, (m, p, mv, busy_arrives mv busy, sound))

  -- Some thread has a step to take, or the threads and the queue hold no more replies.
  step_or_rest :
      {arrived delivered : List Text} {s : System}
      → History n arrived delivered s
      → Busy n s
        ⊎ ((f : Text → ℕ)
            → (total (pending f s.memory.heap) n s.pc ≡ 0) × (queued f s.memory.outstanding ≡ 0))
  step_or_rest {s = s} r =
      let reached = History-Reach n r in
      let (a, free) = free_address n reached in
      elim (all_wait n s.pc) [
        | inl (i, lt, busy) ↦ inl (moves_on s i a lt ((Reach-Inv n reached).placed i lt) busy free)
        | inr waits ↦ elim (first_reply s.memory.outstanding) [
          | inl (i, b, t, there) ↦
              let pos = some_thread i (finish_rpc b t) r there in
              inl (takes_reply s i b t pos (waits 0 pos) there)
          | inr empty ↦ inr (λ f. (
            total-zero (pending f s.memory.heap) n s.pc
                (λ i lt. ap (pending f s.memory.heap) (waits i lt)),
            empty f,
          ))
        ]
      ]

  -- The reply that comes back without `ok` is one that was not delivered.
  misses :
      {arrived delivered : List Text} {s : System} {p : Pc}
      → History n arrived delivered s
      → Aborts s.memory p
      → length delivered < length arrived
  misses {arrived} {delivered} {s} r (not_ok i a t ok there bad) = omega (
    arith,
    clients_accounted n (λ t. 1) r,
    queued-remove_at (λ t. 1) i s.memory.outstanding (finish_rpc a t) there,
    sum_one delivered,
    sum_one (map greeting arrived),
    length-map arrived greeting,
  )

  measure : System → ℕ
  measure s = total weight n s.pc + burden s.memory.outstanding

  nearer :
      {arrived delivered : List Text} {s : System} (j : ℕ) {m : Memory} {q : Pc}
      → History n arrived delivered s
      → j < n
      → (mv : Move s.memory (s.pc j) m q) → arrives mv ≡ []
      → measure (record { memory = m; pc = update s.pc j q }) < measure s
  unfolding measure
  nearer {s = s} j {m} {q} r lt mv e =
      let inv = Reach-Inv n (History-Reach n r) in
      omega (arith, lighter mv (inv.placed j lt) e, total-update weight n s.pc j q lt)

  serves :
      (k : ℕ) {arrived delivered : List Text} {s : System}
      → History n arrived delivered s
      → measure s < k
      → AllServed n arrived delivered s
  serves zero r small = elim small [ ]
  serves (suc k) {arrived} {delivered} {s} r small = elim (step_or_rest r) [
    | inr rest ↦ all_served delivered s (
        same_weights delivered (map greeting arrived) (λ f.
          let (none_pending, none_queued) = rest f in
          omega (arith, clients_accounted n f r, none_pending, none_queued)))
    | inl (i, lt, (m, p, mv, e, sound)) ↦
        goes_on delivered s i m p lt mv e sound (λ j lt' aborts. misses r aborts)
          (λ j m' q lt' mv' e'.
            serves k
              (subst
                (λ l.
                  History n (l ++ arrived) (delivers mv' ++ delivered)
                    (record { memory = m'; pc = update s.pc j q }))
                e' (then_steps j r lt' mv'))
              (omega (arith, small, nearer j r lt' mv' e')))
  ]

  -- In every state that n threads reach, in whatever order their steps come: if no further client
  -- arrives, and as long as no `Finish` comes back without `ok`, some thread has a step to take that is
  -- no fault, whichever steps were taken, until, after finitely many, the replies delivered are the
  -- greetings of the clients that arrived, one for each, up to their order. A `Finish` without `ok`, at
  -- which the assertion ends the program, can come only while some client misses its reply.
  pub clients_served :
      {arrived delivered : List Text} {s : System}
      → History n arrived delivered s
      → AllServed n arrived delivered s
  clients_served {s = s} r = serves (suc (measure s)) r (omega arith)
