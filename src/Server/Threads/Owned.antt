-- ===== src/Server/Threads/Owned.antt =====
-- What a step of thread `i` may do to an object that is its own, and what it has to show.
use example.Base.{
  ℕ, ◌+◌, ◌≤◌, ◌<◌, ◌≡◌, ◌≢◌, sym, ap, Option, none, some, ◌∷◌, arith, ◌==◌, inl, inr, Bool-cases,
}
use example.Server.{CallData, Operation, update, tag}
use example.Server.Ops.{count_tag, is_request, count_requests, AllFit, AllFit-update, Fits}
use example.Server.Safety.{alive}
use example.Server.Threads.{
  Pc, spawning, creating, requesting, waiting, entered, processing, replying, finishing, sending,
  deleting, faulted, Memory, write, fresh,
}
use example.Server.Threads.Counting.{total-update, total-ge, total-ge_two}
use example.Server.Threads.Invariant.{one_if, caller, holds, listens, CallerFits, PcFits, Inv}

pub CallerFits-update :
    (h : ℕ → Option CallData) (a : ℕ) (c : Option CallData) (k : Option ℕ)
    → caller a k ≡ 0
    → CallerFits h k
    → CallerFits (update h a c) k
CallerFits-update h a c none z f = tt
CallerFits-update h a c (some x) z f = ground (arith, z, f)

-- A write to an object that a thread does not hold.
pub PcFits-update :
    (h : ℕ → Option CallData) (a : ℕ) (c : Option CallData) (p : Pc)
    → holds a p ≡ 0
    → PcFits h p
    → PcFits (update h a c) p
PcFits-update h a c spawning z f = tt
PcFits-update h a c (creating x k) z f =
    (ground (arith, f.0), CallerFits-update h a c k (omega arith) f.1)
PcFits-update h a c (requesting x k) z f =
    (ground (arith, f.0), CallerFits-update h a c k (omega arith) f.1)
PcFits-update h a c waiting z f = tt
PcFits-update h a c (entered op) z f = ground arith
PcFits-update h a c (processing x) z f = ground arith
PcFits-update h a c (replying x) z f = ground arith
PcFits-update h a c (finishing x) z f = ground arith
PcFits-update h a c (sending x) z f = ground arith
PcFits-update h a c (deleting x) z f = ground arith
PcFits-update h a c faulted z f = f

module _ {n : ℕ} {m : Memory} {pc : ℕ → Pc} (inv : Inv n m pc) (i : ℕ) (lt : i < n) {p : Pc}
    (e : pc i ≡ p) where
  pub own : (b : ℕ) → count_tag b m.outstanding + holds b p ≤ alive (m.heap b)
  own b = omega (arith, inv.matched b, ap (holds b) e, total-ge (holds b) n pc i lt)

  pub other :
      (b j : ℕ)
      → j < n
      → j ≢ i
      → count_tag b m.outstanding + (holds b p + holds b (pc j)) ≤ alive (m.heap b)
  other b j k d =
      omega (
        arith,
        inv.matched b,
        ap (holds b) e,
        total-ge_two (holds b) n pc i j lt k (λ q. d (sym q)),
      )

  pub own_fits : PcFits m.heap p
  own_fits = rw (← e) (inv.placed i lt)

  -- What a step has to show.
  pub rebuild :
      (m' : Memory) (p' : Pc)
      → ((b : ℕ)
          → count_tag b m'.outstanding + holds b p' + alive (m.heap b)
            ≡ count_tag b m.outstanding + holds b p + alive (m'.heap b))
      → AllFit m'.heap m'.outstanding
      → ((j : ℕ) → j < n → j ≢ i → PcFits m'.heap (pc j))
      → PcFits m'.heap p'
      → count_requests m'.outstanding + listens p' ≡ count_requests m.outstanding + listens p
      → Inv n m' (update pc i p')
  rebuild m' p' counts fit others mine asks = record {
    matched = λ b.
        omega (arith, counts b, inv.matched b, ap (holds b) e, total-update (holds b) n pc i p' lt);
    fitting = fit;
    placed = λ j k. elim (Bool-cases (i == j)) [
      | inl same ↦ rw same mine
      | inr differs ↦ rw differs (others j k (λ q. ground (arith, q, differs)))
    ];
    listening = omega (arith, asks, inv.listening, ap listens e, total-update listens n pc i p' lt);
  }

  -- The object under a is the thread's own, and a step writes it.
  pub write_own :
      (a : ℕ) (c c' : CallData) (p' : Pc)
      → m.heap a ≡ some c
      → 1 ≤ holds a p
      → ((b : ℕ) → holds b p' ≡ holds b p)
      → PcFits (update m.heap a (some c')) p'
      → listens p' ≡ listens p
      → Inv n (write a c' m) (update pc i p')
  write_own a c c' p' there mine held fit asks =
      let unqueued : count_tag a m.outstanding ≡ 0 = ground (arith, own a, there) in
      rebuild (write a c' m) p' (λ b. ground (arith, held b, there))
        (AllFit-update m.heap a (some c') m.outstanding unqueued inv.fitting)
        (λ j k d.
          PcFits-update m.heap a (some c') (pc j) (ground (arith, other a j k d, there))
            (inv.placed j k))
        fit (omega (arith, asks))

  -- A new object at a free address.
  pub new_own :
      (a : ℕ) (p' : Pc)
      → m.heap a ≡ none
      → ((b : ℕ) → holds b p' ≡ one_if b a + holds b p)
      → PcFits (update m.heap a (some fresh)) p'
      → listens p' ≡ listens p
      → Inv n (write a fresh m) (update pc i p')
  new_own a p' free held fit asks =
      let unqueued : count_tag a m.outstanding ≡ 0 = ground (arith, own a, free) in
      rebuild (write a fresh m) p' (λ b. ground (arith, held b, free))
        (AllFit-update m.heap a (some fresh) m.outstanding unqueued inv.fitting)
        (λ j k d.
          PcFits-update m.heap a (some fresh) (pc j) (ground (arith, other a j k d, free))
            (inv.placed j k))
        fit (omega (arith, asks))

  -- Nothing that is shared changes.
  pub stays :
      (p' : Pc)
      → ((b : ℕ) → holds b p' ≡ holds b p)
      → PcFits m.heap p'
      → listens p' ≡ listens p
      → Inv n m (update pc i p')
  stays p' held fit asks =
      rebuild m p' (λ b. omega (arith, held b)) inv.fitting (λ j k d. inv.placed j k) fit
        (omega (arith, asks))

  -- An operation handed to the queue, on an object that the thread lets go.
  pub posts :
      (op : Operation) (p' : Pc)
      → ((b : ℕ) → holds b p ≡ one_if b (tag op) + holds b p')
      → Fits (m.heap (tag op)) op
      → PcFits m.heap p'
      → listens p ≡ is_request op + listens p'
      → Inv n (record m { outstanding = op ∷ m.outstanding }) (update pc i p')
  posts op p' held queued fit asks =
      rebuild (record m { outstanding = op ∷ m.outstanding }) p' (λ b. ground (arith, held b))
        (queued, inv.fitting) (λ j k d. inv.placed j k) fit (omega (arith, asks))

  -- The object that the thread holds goes.
  pub drops :
      (a : ℕ) (c : CallData) (p' : Pc)
      → m.heap a ≡ some c
      → ((b : ℕ) → holds b p ≡ one_if b a + holds b p')
      → PcFits (update m.heap a none) p'
      → listens p' ≡ listens p
      → Inv n (record m { heap = update m.heap a none }) (update pc i p')
  drops a c p' there held fit asks =
      let mine : 1 ≤ holds a p = ground (arith, held a) in
      let unqueued : count_tag a m.outstanding ≡ 0 = ground (arith, own a, there) in
      rebuild (record m { heap = update m.heap a none }) p'
        (λ b. ground (arith, held b, own b, there))
        (AllFit-update m.heap a none m.outstanding unqueued inv.fitting)
        (λ j k d.
          PcFits-update m.heap a none (pc j) (ground (arith, other a j k d, there))
            (inv.placed j k))
        fit (omega (arith, asks))
