-- ===== src/Drogon/Ending.antt =====
-- src/test_drogon.cpp: how main ends.
use example.Base.{ℕ, suc, ◌+◌, ◌≡◌, refl, ap, some, List, [], ◌∷◌, ◌++◌, map, Text, codes, arith}
use example.Asio.{info}
use example.Drogon.{
  HttpClient, make_clients, get_http_client, lazy_task, request, Sent, response, runtime_error,
  other_exception, Output, logged, printed,
}
use example.Drogon.Main.{
  Call, new_http_client, wrote, quit_app, End, exited, terminated, undefined, preparation,
  conclusion, main,
}

-- What main writes with the logger and `printf`, and how often it stops the service.
abbrev pub outputs : List Call → List Output
outputs [] = []
outputs (wrote o ∷ calls) = o ∷ outputs calls
outputs (call ∷ calls) = outputs calls

abbrev pub quits : List Call → ℕ
quits [] = 0
quits (quit_app ∷ calls) = suc (quits calls)
quits (call ∷ calls) = quits calls

outputs-append : (xs ys : List Call) → outputs (xs ++ ys) ≡ outputs xs ++ outputs ys
outputs-append [] ys = refl
outputs-append (wrote o ∷ xs) ys = ap (◌∷◌ o) (outputs-append xs ys)
outputs-append (call ∷ xs) ys = outputs-append xs ys

quits-append : (xs ys : List Call) → quits (xs ++ ys) ≡ quits xs + quits ys
quits-append [] ys = omega arith
quits-append (quit_app ∷ xs) ys = omega (arith, quits-append xs ys)
quits-append (call ∷ xs) ys = quits-append xs ys

abbrev pub banner : Output
banner = logged (info (codes "------------------start test drogon---------------------------") [])

abbrev pub asking : Output
asking = logged (info (codes "send http request...") [])

abbrev pub rule_off : Output
rule_off = logged (info (codes "-----------------------") [])

-- The end of main, its lines and its stops of the service, for each outcome of its request.
abbrev pub Ends : Sent → List Call × End → Type 0
Ends (response body) (calls, end) =
    (end ≡ exited)
    × (quits calls ≡ 1)
    × (outputs calls ≡ banner ∷ asking ∷ logged (info (codes "{}") (body ∷ [])) ∷ rule_off ∷ [])
Ends (runtime_error what) (calls, end) =
    (end ≡ exited)
    × (quits calls ≡ 1)
    × (outputs calls ≡ banner ∷ asking ∷ printed what ∷ rule_off ∷ [])
Ends other_exception (calls, end) =
    (end ≡ terminated) × (quits calls ≡ 0) × (outputs calls ≡ banner ∷ asking ∷ [])

-- Making clients writes nothing and stops nothing.
clients_outputs :
    (url : Text) (cs : List HttpClient) (calls : List Call)
    → outputs (map (new_http_client url) cs ++ calls) ≡ outputs calls
clients_outputs url [] calls = refl
clients_outputs url (c ∷ cs) calls = clients_outputs url cs calls

clients_quits :
    (url : Text) (cs : List HttpClient) (calls : List Call)
    → quits (map (new_http_client url) cs ++ calls) ≡ quits calls
clients_quits url [] calls = refl
clients_quits url (c ∷ cs) calls = clients_quits url cs calls

after_request :
    (sent : Sent) (before : List Call)
    → outputs before ≡ banner ∷ []
    → quits before ≡ 0
    → let (outs, escapes) = lazy_task sent in
      let (after, end) = conclusion escapes in Ends sent (before ++ (map wrote outs ++ after), end)
unfolding lazy_task
after_request (response body) before o q =
    (refl, rw (quits-append before _, q) refl, rw (outputs-append before _, o) refl)
after_request (runtime_error what) before o q =
    (refl, rw (quits-append before _, q) refl, rw (outputs-append before _, o) refl)
after_request other_exception before o q =
    (refl, rw (quits-append before _, q) refl, rw (outputs-append before _, o) refl)

request_first :
    (send : HttpClient → Text → Sent) (n : ℕ) (c : HttpClient) (cs : List HttpClient)
    → request send (suc n) (c ∷ cs) 0 ≡ some (lazy_task (send c (codes "/SayHello/")), 1)
unfolding request get_http_client
request_first send n c cs = ground arith

module _ {S : Type 0} (get_next_loop : S → ℕ × S) (send : HttpClient → Text → Sent) where
  -- With at least one client, main sends its request over the first, whose loop is the first that
  -- trantor hands out. A response it logs, a `std::runtime_error` it prints; either way it stops the
  -- service once and exits with 0. Any other exception ends the program before the service is stopped.
  -- Where `hardware_concurrency` gives 0, as it may, main reads outside the empty vector of clients.
  pub main-Ends :
      (n : ℕ) (s : S)
      → Ends
          (send (record { event_loop = (get_next_loop s).0 }) (codes "/SayHello/"))
          (main get_next_loop send (suc n) s)
        × ((main get_next_loop send 0 s).1 ≡ undefined)
  unfolding main make_clients
  main-Ends n s =
      let (l, t) = get_next_loop s in
      let c : HttpClient = record { event_loop = l } in
      let rest = make_clients get_next_loop n t in
      (
        rw (main, request_first send n c rest.0)
            (after_request (send c (codes "/SayHello/"))
              (preparation (suc n) (c ∷ rest.0) (get_next_loop rest.1).0)
              (ap (λ os. banner ∷ os) (clients_outputs _ rest.0 _)) (clients_quits _ rest.0 _)),
        refl,
      )
