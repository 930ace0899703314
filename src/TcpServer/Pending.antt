-- ===== src/TcpServer/Pending.antt =====
-- src/test_tcp_server.cpp: one session among others goes on, on its own socket.
use example.Base.{
  ℕ, zero, suc, ◌≡◌, ◌≢◌, ◌≤◌, ◌<◌, refl, sym, ◌==◌, Option, none, List, [], ◌∷◌, ◌++◌, arith,
  if◌then◌else◌, Text, append-nil,
}
use native.Mathlib.Decide.{ℕ_discrete}
use example.Coro.{Event}
use example.Asio.{Operation, Done, AsioTask}
use example.TcpServer.Sessions.{Answer, AnswerFits, Session, resumed, resume_at, completed_at}
use example.TcpServer.Owed.{
  being_written, Keeps, Keeps-being_written, resumed-Keeps, owed_after, Account, completed-Account,
  completed-apart,
}

-- What the session of a socket is about to write to it.
abbrev pub pending : ℕ → List Session → Option Text
pending sock [] = none
pending sock (x ∷ rest) = if x.socket == sock then being_written x.task else pending sock rest

-- Each socket has one session, the last one first, and all are below the number.
abbrev pub Descends : ℕ → List Session → Type 0
Descends n [] = Unit {0}
Descends n (x ∷ rest) = (x.socket < n) × Descends x.socket rest

-- Each session will do what it should on its own socket.
abbrev pub Tidy : ℕ → List Session → Type 0
Tidy n [] = Unit {0}
Tidy n (x ∷ rest) =
    (x.socket < n) × Keeps x.socket (being_written x.task) x.task × Tidy x.socket rest

pub Tidy-Descends : (n : ℕ) (l : List Session) → Tidy n l → Descends n l
Tidy-Descends n [] h = tt
Tidy-Descends n (x ∷ rest) (small, keeps, h) = (small, Tidy-Descends x.socket rest h)

pub Tidy-raised : (n k : ℕ) (l : List Session) → n ≤ k → Tidy n l → Tidy k l
Tidy-raised n k [] le h = tt
Tidy-raised n k (x ∷ rest) le (small, keeps, h) = (omega arith, keeps, h)

-- Nothing is pending for a socket that is too large to have a session.
pub pending-none : (n sock : ℕ) (l : List Session) → n ≤ sock → Tidy n l → pending sock l ≡ none
pending-none n sock [] le h = refl
pending-none n sock (x ∷ rest) le (small, keeps, h) =
    ground (arith, pending-none x.socket sock rest (omega arith) h)

pub pending-own :
    (sock : ℕ) (x : Session) (rest : List Session)
    → x.socket ≡ sock
    → pending sock (x ∷ rest) ≡ being_written x.task
pending-own sock x rest e = ground (arith, e)

pub pending-other :
    (sock : ℕ) (x : Session) (rest : List Session)
    → x.socket ≢ sock
    → pending sock (x ∷ rest) ≡ pending sock rest
pending-other sock x rest e = ground (arith, e)

own-Account :
    (sock : ℕ) (x : Session) (rest : List Session) (es : List (Event Operation Done))
    → x.socket ≡ sock
    → Account sock (pending sock (x ∷ rest)) es
    → Account sock (being_written x.task) es
own-Account sock x rest es own acc = ground (arith, acc, own)

other-Account :
    (sock : ℕ) (x : Session) (rest : List Session) (es : List (Event Operation Done))
    → x.socket ≢ sock
    → Account sock (pending sock (x ∷ rest)) es
    → Account sock (pending sock rest) es
other-Account sock x rest es apart acc = ground (arith, acc, apart)

module _ (answer : Answer) (fits : AnswerFits answer) where
  after-being_written :
      {A : Type 0} (sock : ℕ) (m : AsioTask A)
      → Keeps sock (being_written m) m
      → owed_after answer (being_written m) m ≡ being_written (resumed answer m)
  after-being_written sock m h =
      Keeps-being_written sock (owed_after answer (being_written m) m) (resumed answer m)
        (resumed-Keeps sock (being_written m) m answer fits h)

  pub resume_at-Tidy : (i n : ℕ) (l : List Session) → Tidy n l → Tidy n (resume_at answer i l)
  resume_at-Tidy i n [] h = tt
  resume_at-Tidy zero n (x ∷ rest) (small, keeps, h) = (
    small,
    rw (sym (after-being_written x.socket x.task keeps))
        (resumed-Keeps x.socket (being_written x.task) x.task answer fits keeps),
    h,
  )
  resume_at-Tidy (suc i) n (x ∷ rest) (small, keeps, h) =
      (small, keeps, resume_at-Tidy i x.socket rest h)

  -- A session leaves the account of a larger socket alone.
  completed_at-apart :
      (i n sock : ℕ) (l : List Session) (owed : Option Text) (es : List (Event Operation Done))
      → n ≤ sock
      → Tidy n l
      → Account sock owed es
      → Account sock owed (es ++ completed_at answer i l)
  completed_at-apart i n sock [] owed es le h acc = rw (append-nil es) acc
  completed_at-apart zero n sock (x ∷ rest) owed es le (small, keeps, h) acc =
      completed-apart x.socket sock owed (being_written x.task) x.task answer es keeps (omega arith)
        acc
  completed_at-apart (suc i) n sock (x ∷ rest) owed es le (small, keeps, h) acc =
      completed_at-apart i x.socket sock rest owed es (omega arith) h acc

  pub resume_at-Account :
      (i n sock : ℕ) (l : List Session) (es : List (Event Operation Done))
      → Tidy n l
      → Account sock (pending sock l) es
      → Account sock (pending sock (resume_at answer i l)) (es ++ completed_at answer i l)
  resume_at-Account i n sock [] es h acc = rw (append-nil es) acc
  resume_at-Account zero n sock (x ∷ rest) es (small, keeps, h) acc =
      let y : Session = record x { task = resumed answer x.task } in
      elim (ℕ_discrete x.socket sock) [
        | yes same ↦
            rw (pending-own sock y rest same, sym (after-being_written x.socket x.task keeps))
              (completed-Account sock (being_written x.task) x.task answer es (rw (sym same) keeps)
                (own-Account sock x rest es same acc))
        | no apart ↦ rw (pending-other sock y rest apart) (
            completed-apart x.socket sock (pending sock rest) (being_written x.task) x.task answer
              es keeps apart (other-Account sock x rest es apart acc))
      ]
  resume_at-Account (suc i) n sock (x ∷ rest) es (small, keeps, h) acc =
      elim (ℕ_discrete x.socket sock) [
        | yes same ↦ rw (pending-own sock x (resume_at answer i rest) same) (
            completed_at-apart i x.socket sock rest (being_written x.task) es (omega arith) h
              (own-Account sock x rest es same acc))
        | no apart ↦
            rw (pending-other sock x (resume_at answer i rest) apart)
              (resume_at-Account i x.socket sock rest es h (other-Account sock x rest es apart acc))
      ]
