-- ===== src/TcpServer/Owed.antt =====
-- src/test_tcp_server.cpp: what a session, suspended anywhere, still has to write back to its socket.
use example.Base.{
  ℕ, ◌≡◌, refl, Option, none, some, List, [], ◌∷◌, ◌++◌, ◌==◌, arith, if◌then◌else◌, length, Text,
  append-nil, append_assoc, ◌≢◌, ◌≤◌,
}
use example.Coro.{co_return, suspended, Event}
use example.Asio.{failed, Operation, Done, AsioTask, read_some, write, read, read_until}
use example.TcpServer.Sessions.{Answer, AnswerFits, resumed, completed}

-- The bytes of the reads from a socket that succeeded, one entry for each, and those of the writes to it.
abbrev pub received_on : ℕ → List (Event Operation Done) → List Text
received_on sock [] = []
received_on sock ((read_some s n, d) ∷ es) =
    if s == sock
    then (if failed d.ec then received_on sock es else d.bytes ∷ received_on sock es)
    else received_on sock es
received_on sock (e ∷ es) = received_on sock es

abbrev pub sent_on : ℕ → List (Event Operation Done) → List Text
sent_on sock [] = []
sent_on sock ((write s bytes, d) ∷ es) =
    if s == sock then bytes ∷ sent_on sock es else sent_on sock es
sent_on sock (e ∷ es) = sent_on sock es

pub received_on-append :
    (sock : ℕ) (xs ys : List (Event Operation Done))
    → received_on sock (xs ++ ys) ≡ received_on sock xs ++ received_on sock ys
received_on-append sock [] ys = refl
received_on-append sock ((read_some s n, d) ∷ xs) ys = ground (arith, received_on-append sock xs ys)
received_on-append sock (x ∷ xs) ys = received_on-append sock xs ys

pub sent_on-append :
    (sock : ℕ) (xs ys : List (Event Operation Done))
    → sent_on sock (xs ++ ys) ≡ sent_on sock xs ++ sent_on sock ys
sent_on-append sock [] ys = refl
sent_on-append sock ((write s bytes, d) ∷ xs) ys = ground (arith, sent_on-append sock xs ys)
sent_on-append sock (x ∷ xs) ys = sent_on-append sock xs ys

-- What a session owes its peer after an operation of its own, and what it may do: write what it owes,
-- and all else when it owes nothing, reads by async_read_some included but no other reads; on its own
-- socket.
abbrev pub owes : Option Text → (op : Operation) → Done op → Option Text
owes owed (read_some s n) d = if failed d.ec then none else some d.bytes
owes owed (write s bytes) d = none
owes owed op d = owed

abbrev pub Allowed : ℕ → Option Text → Operation → Type 0
Allowed sock owed (read_some s n) = (s ≡ sock) × (owed ≡ none)
Allowed sock owed (write s bytes) = (s ≡ sock) × (owed ≡ some bytes)
Allowed sock owed (read s n) = ⊥
Allowed sock owed (read_until s delim) = ⊥
Allowed sock owed op = owed ≡ none

-- A completion as Boost.Asio documents it.
abbrev pub Fits : (op : Operation) → Done op → Type 0
Fits (read_some s n) d = (d.size ≡ length d.bytes) × (length d.bytes ≤ n)
Fits op d = Unit {0}

AnswerFits-Fits : (answer : Answer) → AnswerFits answer → (op : Operation) → Fits op (answer op)
AnswerFits-Fits answer fits (read_some s n) = fits s n
AnswerFits-Fits answer fits op = tt

-- A task that does only this, and owes nothing at its end.
abbrev pub Keeps : {A : Type 0} → ℕ → Option Text → AsioTask A → Type 0
Keeps sock owed (co_return a) = owed ≡ none
Keeps sock owed (suspended op k) =
    Allowed sock owed op × ((d : Done op) → Fits op d → Keeps sock (owes owed op d) (k d))

-- After a completion the account is still right.
abbrev pub owed_after : {A : Type 0} → Answer → Option Text → AsioTask A → Option Text
owed_after answer owed (co_return a) = owed
owed_after answer owed (suspended op k) = owes owed op (answer op)

abbrev pub outstanding : Option Text → List Text
outstanding none = []
outstanding (some bytes) = bytes ∷ []

-- The bytes that a task waits to have written: what it owes.
abbrev pub being_written : {A : Type 0} → AsioTask A → Option Text
being_written (suspended (write s bytes) k) = some bytes
being_written m = none

pub Keeps-being_written :
    {A : Type 0} (sock : ℕ) (owed : Option Text) (m : AsioTask A)
    → Keeps sock owed m
    → owed ≡ being_written m
Keeps-being_written sock owed (co_return a) h = h
Keeps-being_written sock owed (suspended (write s bytes) k) h = h.0.1
Keeps-being_written sock owed (suspended (read_some s n) k) h = h.0.1
Keeps-being_written sock owed (suspended (read s n) k) h = absurd h.0
Keeps-being_written sock owed (suspended (read_until s delim) k) h = absurd h.0
Keeps-being_written sock owed (suspended op k) h = h.0

pub resumed-Keeps :
    {A : Type 0} (sock : ℕ) (owed : Option Text) (m : AsioTask A) (answer : Answer)
    → AnswerFits answer
    → Keeps sock owed m
    → Keeps sock (owed_after answer owed m) (resumed answer m)
resumed-Keeps sock owed (co_return a) answer fits h = h
resumed-Keeps sock owed (suspended op k) answer fits h =
    h.1 (answer op) (AnswerFits-Fits answer fits op)

-- What an operation that is allowed adds to the account of its socket, and of another one.
op_on_account :
    (sock : ℕ) (owed : Option Text) (op : Operation) (d : Done op)
    → Allowed sock owed op
    → outstanding owed ++ received_on sock ((op, d) ∷ [])
      ≡ sent_on sock ((op, d) ∷ []) ++ outstanding (owes owed op d)
op_on_account sock owed (read_some s n) d (own, e) = rw (own, e) (ground arith)
op_on_account sock owed (write s bytes) d (own, e) = rw (own, e) (ground arith)
op_on_account sock owed (read s n) d h = absurd h
op_on_account sock owed (read_until s delim) d h = absurd h
op_on_account sock owed op d h = rw h refl

op_off_account :
    (sock other : ℕ) (owed : Option Text) (op : Operation) (d : Done op)
    → Allowed sock owed op
    → sock ≢ other
    → (received_on other ((op, d) ∷ []) ≡ []) × (sent_on other ((op, d) ∷ []) ≡ [])
op_off_account sock other owed (read_some s n) d (own, e) ne = (ground arith, refl)
op_off_account sock other owed (write s bytes) d (own, e) ne = (refl, ground arith)
op_off_account sock other owed op d h ne = (refl, refl)

-- The bytes that came from a socket are those that went back and those that are still owed.
abbrev pub Account : ℕ → Option Text → List (Event Operation Done) → Type 0
Account sock owed es = received_on sock es ≡ sent_on sock es ++ outstanding owed

pub completed-Account :
    {A : Type 0} (sock : ℕ) (owed : Option Text) (m : AsioTask A) (answer : Answer)
    (es : List (Event Operation Done))
    → Keeps sock owed m
    → Account sock owed es
    → Account sock (owed_after answer owed m) (es ++ completed answer m)
completed-Account sock owed (co_return a) answer es keeps h = rw (append-nil es) h
completed-Account sock owed (suspended op k) answer es keeps h =
    let e : List (Event Operation Done) = (op, answer op) ∷ [] in
    rw
      (
        received_on-append sock es e,
        sent_on-append sock es e,
        h,
        append_assoc (sent_on sock es) (outstanding owed) (received_on sock e),
        op_on_account sock owed op (answer op) keeps.0,
        append_assoc (sent_on sock es) (sent_on sock e) (outstanding (owes owed op (answer op))),
      )
      refl

pub completed-apart :
    {A : Type 0} (sock other : ℕ) (owed mine : Option Text) (m : AsioTask A) (answer : Answer)
    (es : List (Event Operation Done))
    → Keeps sock mine m
    → sock ≢ other
    → Account other owed es
    → Account other owed (es ++ completed answer m)
completed-apart sock other owed mine (co_return a) answer es keeps ne h = rw (append-nil es) h
completed-apart sock other owed mine (suspended op k) answer es keeps ne h =
    let e : List (Event Operation Done) = (op, answer op) ∷ [] in
    let (r, w) = op_off_account sock other mine op (answer op) keeps.0 ne in
    rw
      (
        received_on-append other es e,
        sent_on-append other es e,
        r,
        w,
        append-nil (received_on other es),
        append-nil (sent_on other es),
      )
      h
