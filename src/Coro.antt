-- ===== src/Coro.antt =====
-- Coroutines (`folly::coro::Task`) and awaiters, the shape that all awaiters of the repository share.
-- A task is what it does between its suspensions: it returns, or hands an operation to the runtime
-- and goes on with what the operation completes with. `Done op` is what `op` completes with.
use example.Base.{Bool, ◌≡◌, refl, List, [], ◌∷◌, ◌++◌, if◌then◌else◌, ap}

pub data Task (Op : Type 0) (Done : Op → Type 0) (A : Type 0) : Type 0 where
  co_return : A → Task Op Done A
  suspended : (op : Op) → (Done op → Task Op Done A) → Task Op Done A

module _ {Op : Type 0} {Done : Op → Type 0} where
  infixl 5 ◌>>=◌ ◌>>◌
  abbrev pub ◌>>=◌ : {A B : Type 0} → Task Op Done A → (A → Task Op Done B) → Task Op Done B
  co_return a >>= f = f a
  suspended op k >>= f = suspended op (λ d. k d >>= f)

  abbrev pub ◌>>◌ : {B : Type 0} → Task Op Done (Unit {0}) → Task Op Done B → Task Op Done B
  m >> k = m >>= λ _. k

  -- An operation that is awaited with no awaiter class of the repository.
  abbrev pub perform : (op : Op) → Task Op Done (Done op)
  perform op = suspended op (λ d. co_return d)

-- An awaiter class: its state S, whether it is ready, the operation that `await_suspend` starts, what
-- the completion handler stores before it resumes the coroutine, and what `await_resume` returns.
pub record Awaiter (Op : Type 0) (Done : Op → Type 0) (S R : Type 0) : Type 0 where
  pub await_ready : S → Bool
  pub operation : S → Op
  pub on_complete : (s : S) → Done (operation s) → S
  pub await_resume : S → R

-- `co_await` on an awaiter object.
unfoldable pub co_await :
    {Op : Type 0} {Done : Op → Type 0} {S R : Type 0} → Awaiter Op Done S R → S → Task Op Done R
co_await w s =
    if w.await_ready s
    then co_return (w.await_resume s)
    else suspended (w.operation s) (λ d. co_return (w.await_resume (w.on_complete s d)))

-- The runtime: it answers each operation, in a state of its own.
abbrev pub Runtime : (Op : Type 0) → (Op → Type 0) → Type 0 → Type 0
Runtime Op Done S = S → (op : Op) → Done op × S

-- An operation that was started, with its completion.
abbrev pub Event : (Op : Type 0) → (Op → Type 0) → Type 0
Event Op Done = (op : Op) × Done op

pub record Outcome (E A S : Type 0) : Type 0 where
  pub events : List E
  pub result : A
  pub final : S

module _ {Op : Type 0} {Done : Op → Type 0} {S : Type 0} (runtime : Runtime Op Done S) where
  abbrev pub preceded :
      {A : Type 0}
      → List (Event Op Done)
      → Outcome (Event Op Done) A S
      → Outcome (Event Op Done) A S
  preceded es o = record o { events = es ++ o.events }

  -- `blockingWait`: a task run to its end; the operations in the order in which they were started.
  abbrev pub run : {A : Type 0} → Task Op Done A → S → Outcome (Event Op Done) A S
  run (co_return a) s = record { events = []; result = a; final = s }
  run (suspended op k) s =
      let d = (runtime s op).0 in preceded ((op, d) ∷ []) (run (k d) (runtime s op).1)

  -- A task in sequence with another runs the one and then the other.
  pub run->>= :
      {A B : Type 0} (m : Task Op Done A) (f : A → Task Op Done B) (s : S)
      → run (m >>= f) s ≡ preceded (run m s).events (run (f (run m s).result) (run m s).final)
  run->>= (co_return a) f s = refl
  run->>= (suspended op k) f s =
      ap (preceded ((op, (runtime s op).0) ∷ [])) (run->>= (k (runtime s op).0) f (runtime s op).1)
