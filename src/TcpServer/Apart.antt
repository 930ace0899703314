-- ===== src/TcpServer/Apart.antt =====
-- src/test_tcp_server.cpp: sessions that run at once do not mix their bytes up.
use example.Base.{ℕ, ◌≡◌, refl, sym, Option, none, List, [], ◌∷◌, ◌++◌, arith, Text, append-nil}
use native.Mathlib.Decide.{ℕ_discrete}
use example.Coro.{co_return, suspended, Event}
use example.Asio.{ErrorCode, Operation, Done, AsioTask, read_some, write, post}
use example.TcpServer.{StartEnd, TcpServer, session}
use example.TcpServer.Sessions.{
  Answer, Session, Serving, ServingStep, start_goes_on, session_goes_on, ServingReach, served,
  then_step, served_by, listen_on, serve, spawned, completed,
}
use example.TcpServer.Owed.{
  received_on, sent_on, outstanding, being_written, Keeps, Keeps-being_written, Account,
  received_on-append, sent_on-append,
}
use example.TcpServer.Keeping.{session-Keeps}
use example.TcpServer.Fresh.{MayPost, next_free, Posts, free_after, resumed-Posts, start-Posts}
use example.TcpServer.Pending.{
  pending, Descends, Tidy, Tidy-Descends, Tidy-raised, pending-none, pending-own, pending-other,
  resume_at-Tidy, resume_at-Account,
}

-- An event of the accepting loop is on no one's account.
quiet_Account :
    (n sock : ℕ) (owed : Option Text) (op : Operation) (d : Done op)
    (es : List (Event Operation Done))
    → MayPost n op
    → Account sock owed es
    → Account sock owed (es ++ ((op, d) ∷ []))
quiet_Account n sock owed (read_some s capacity) d es may acc = absurd may
quiet_Account n sock owed (write s bytes) d es may acc = absurd may
quiet_Account n sock owed op d es may acc =
    rw
      (
        received_on-append sock es ((op, d) ∷ []),
        sent_on-append sock es ((op, d) ∷ []),
        append-nil (received_on sock es),
        append-nil (sent_on sock es),
      )
      acc

module _ (message : ErrorCode → Text) (fuel : ℕ) where
  session-Tidy :
      (context sock : ℕ)
      → Keeps sock (being_written (session message fuel sock sock)) (session message fuel sock sock)
  session-Tidy context sock =
      let h = session-Keeps message sock fuel sock in
      rw (sym (Keeps-being_written sock none (session message fuel sock sock) h)) h

  spawned-Tidy :
      (n : ℕ) (op : Operation) (d : Done op) (l : List Session)
      → MayPost n op
      → Tidy n l
      → Tidy (next_free n op) (spawned message fuel ((op, d) ∷ []) ++ l)
  spawned-Tidy n (post context sock) d l may h =
      (omega arith, session-Tidy context sock, Tidy-raised n sock l may h)
  spawned-Tidy n op d l may h = h

  -- A new session has nothing to write yet.
  pending-spawned :
      (n sock : ℕ) (op : Operation) (d : Done op) (l : List Session)
      → MayPost n op
      → Tidy n l
      → pending sock (spawned message fuel ((op, d) ∷ []) ++ l) ≡ pending sock l
  pending-spawned n sock (post context socket) d l may h =
      let x : Session = record {
        context = context;
        socket = socket;
        task = session message fuel socket socket;
      } in
      elim (ℕ_discrete socket sock) [
        | yes same ↦
            rw
              (
                pending-own sock x l same,
                sym (
                    Keeps-being_written socket none (session message fuel socket socket)
                      (session-Keeps message socket fuel socket)),
                pending-none n sock l (omega arith) h,
              )
              refl
        | no apart ↦ pending-other sock x l apart
      ]
  pending-spawned n sock op d l may h = refl

  -- The accepting loop will start sessions on new sockets only, and each session is in order.
  record Apart (s : Serving) : Type 0 where
    free : ℕ
    posts : Posts free s.listener
    tidy : Tidy free s.sessions
    accounts : (sock : ℕ) → Account sock (pending sock s.sessions) s.history

  listened-Apart :
      (answer : Answer) (n : ℕ) (m : AsioTask StartEnd) (l : List Session)
      (es : List (Event Operation Done))
      → Posts n m
      → Tidy n l
      → ((sock : ℕ) → Account sock (pending sock l) es)
      → Tidy (free_after n m) (spawned message fuel (completed answer m) ++ l)
        × ((sock : ℕ)
            → Account sock
                (pending sock (spawned message fuel (completed answer m) ++ l))
                (es ++ completed answer m))
  listened-Apart answer n (co_return a) l es posts tidy acc =
      (tidy, λ sock. rw (append-nil es) (acc sock))
  listened-Apart answer n (suspended op k) l es posts tidy acc = (
    spawned-Tidy n op (answer op) l posts.0 tidy,
    λ sock.
        rw (pending-spawned n sock op (answer op) l posts.0 tidy)
          (quiet_Account n sock (pending sock l) op (answer op) es posts.0 (acc sock)),
  )

  step-Apart : {s t : Serving} → Apart s → ServingStep message fuel s t → Apart t
  unfolding listen_on serve
  step-Apart {s} h (start_goes_on answer fits) =
      let (tidy, accounts) =
        listened-Apart answer h.free s.listener s.sessions s.history h.posts h.tidy h.accounts in
      record {
        free = free_after h.free s.listener;
        posts = resumed-Posts h.free s.listener answer h.posts;
        tidy = tidy;
        accounts = accounts;
      }
  step-Apart {s} h (session_goes_on answer n fits) = record {
    free = h.free;
    posts = h.posts;
    tidy = resume_at-Tidy answer fits n h.free s.sessions h.tidy;
    accounts = λ sock.
        resume_at-Account answer fits n h.free sock s.sessions s.history h.tidy (h.accounts sock);
  }

  reached-Apart :
      (rounds acceptor : ℕ) (server : TcpServer) {s : Serving}
      → ServingReach message fuel (served_by message fuel rounds acceptor server) s
      → Apart s
  reached-Apart rounds acceptor server served = record {
    free = 0;
    posts = start-Posts message rounds acceptor server;
    tidy = tt;
    accounts = λ sock. refl;
  }
  reached-Apart rounds acceptor server (then_step r step) =
      step-Apart (reached-Apart rounds acceptor server r) step

  -- In whatever order the operations of `start` and of the sessions complete, and with whatever codes
  -- and bytes, as long as reads fill the buffer as Boost.Asio documents, no socket has two sessions, and
  -- for each socket the bytes of the writes that have completed are, in order, those of its own reads
  -- that succeeded, but for the bytes of a last read that its session is just writing back.
  pub sessions_apart :
      (rounds acceptor : ℕ) (server : TcpServer) (s : Serving)
      → ServingReach message fuel (served_by message fuel rounds acceptor server) s
      → ((n : ℕ) × Descends n s.sessions)
        × ((sock : ℕ)
            → received_on sock s.history
              ≡ sent_on sock s.history ++ outstanding (pending sock s.sessions))
  sessions_apart rounds acceptor server s reached =
      let h = reached-Apart rounds acceptor server reached in
      ((h.free, Tidy-Descends h.free s.sessions h.tidy), h.accounts)
