-- ===== src/Drogon/Clients.antt =====
-- src/test_drogon.cpp: the order in which the clients, and with them the event loops, are used.
use native.Mathlib.Nat.{mod-eq_of_lt, zero-add, add-zero, suc-add, add-suc}
use example.Base.{
  ℕ, zero, suc, ◌+◌, ◌%◌, ◌<◌, ◌≡◌, refl, ap, ◌∙◌, Option, none, some, List, [], ◌∷◌, map, arith,
  ◌==◌, if◌then◌else◌, get_elem?-map, range_from, get_elem?-range_from, cycle, ring_next,
}
use example.Drogon.{HttpClient, uint32_t, make_clients, get_http_client}

-- The place in the ring that a count stands for.
abbrev pub Place : ℕ → ℕ → ℕ → Type 0
Place n s count = (if count == n then 0 else count) ≡ s % n

-- k calls in a row.
unfoldable pub serve : ℕ → ℕ → List HttpClient → ℕ → Option (List HttpClient)
serve zero n clients count = some []
serve (suc k) n clients count = elim (get_http_client n clients count) [
  | none ↦ none
  | some (c, next) ↦ elim (serve k n clients next) [ none ↦ none | some cs ↦ some (c ∷ cs) ]
]

module _ (f : ℕ → HttpClient) (n : ℕ) (pos : 0 < n) (fits : n < uint32_t) where
  pub get_http_client_ring :
      (s count : ℕ)
      → Place n s count
      → get_http_client n (map f (range_from 0 n)) count ≡ some (f (s % n), s % n + 1)
  unfolding get_http_client
  get_http_client_ring s count h = rw (
    get_http_client,
    h,
    get_elem?-map (range_from 0 n) f (s % n) (s % n)
        (get_elem?-range_from 0 n (s % n) (omega arith) ∙ ap some (zero-add (s % n))),
    h,
    mod-eq_of_lt {n = s % n + 1} {m = uint32_t} (omega arith),
  )

  serve_ring :
      (k s count : ℕ)
      → Place n s count
      → serve k n (map f (range_from 0 n)) count ≡ some (map f (cycle n s k))
  unfolding serve
  serve_ring zero s count h = refl
  serve_ring (suc k) s count h =
      rw
        (
          get_http_client_ring s count h,
          serve,
          serve_ring k (suc s) (s % n + 1) (ring_next n s pos),
        )
        refl

module _ {S : Type 0} (get_next_loop : S → ℕ × S) (n : ℕ) (state : ℕ → S)
    (turns : (i : ℕ) → get_next_loop (state i) ≡ (i % n, state (suc i))) where
  abbrev pub client_on : ℕ → HttpClient
  client_on i = record { event_loop = i % n }

  make_clients_lem :
      (k i : ℕ)
      → make_clients get_next_loop k (state i) ≡ (map client_on (range_from i k), state (i + k))
  unfolding make_clients
  make_clients_lem zero i = rw add-zero
  make_clients_lem (suc k) i =
      rw (turns i, make_clients, make_clients_lem k (suc i), suc-add, ← add-suc)

  event_loops :
      (k s : ℕ) → 0 < n → map HttpClient.event_loop (map client_on (cycle n s k)) ≡ cycle n s k
  event_loops zero s pos = refl
  event_loops (suc k) s pos =
      rw (event_loops k (suc s) pos, mod-eq_of_lt {n = s % n} {m = n} (omega arith)) refl

  -- Where trantor hands its loops out in turn, and there is at least one client and fewer than 2 ^ 32,
  -- k calls of `get_http_client` never read outside the vector, and the loops of the clients that they
  -- return are 0, 1, …, each modulo the number of clients.
  pub loops_in_turn :
      (k : ℕ)
      → 0 < n
      → n < uint32_t
      → (cs : List HttpClient) × (serve k n (make_clients get_next_loop n (state 0)).0 0 ≡ some cs)
        × (map HttpClient.event_loop cs ≡ cycle n 0 k)
  loops_in_turn k pos fits = (
    map client_on (cycle n 0 k),
    rw (make_clients_lem n 0)
        (serve_ring client_on n pos fits k 0 0 (ground (arith, mod-eq_of_lt {n = 0} {m = n} pos))),
    event_loops k 0 pos,
  )
