-- ===== src/Mysql/Reports.antt =====
-- src/test_boost_mysql.cpp: what each awaiter returns, and what the last block logs when it gives up.
use example.Base.{◌≡◌, refl, true, false, List, [], ◌∷◌, Text, ℕ, codes}
use example.Coro.{Runtime, run, co_await}
use example.Asio.{ErrorCode, failed, error}
use example.Asio.Awaiters.{once}
use example.Mysql.{
  Operation, Done, resolve, connect, query, read_rows, prepare_statement, execute, close, log,
  begin, async_resolve, async_connect, async_query, async_prepare_statement, async_execute,
  async_close, read_all,
}
use example.Mysql.Main.{select_sql, params, returned, select_block}

module _ {S : Type 0} (runtime : Runtime Operation Done S) (s : S) where
  -- Each asynchronous function of the file starts exactly its one operation and returns what it
  -- completed with; `async_connect` uses the first endpoint only, and `async_execute` alone leaves the
  -- error information out.
  pub mysql_awaits_once :
      (host port sql : Text) (ep : List ℕ) (handle : ℕ) (args : List Text)
      → (run runtime (async_resolve host port) s
          ≡ once runtime (resolve host port) (λ d. (d.ec, d.results)) s)
        × (run runtime (async_connect ep) s ≡ once runtime (connect (begin ep)) (λ ec. ec) s)
        × (run runtime (async_query sql) s ≡ once runtime (query sql) (λ d. d) s)
        × (run runtime (read_all handle) s ≡ once runtime (read_rows handle) (λ d. d) s)
        × (run runtime (async_prepare_statement sql) s
            ≡ once runtime (prepare_statement sql) (λ d. d) s)
        × (run runtime (async_execute handle args) s
            ≡ once runtime (execute handle args) (λ d. (d.ec, d.value)) s)
        × (run runtime async_close s ≡ once runtime close (λ d. (d.ec, d.additional_info)) s)
  unfolding async_resolve async_connect async_query read_all async_prepare_statement async_execute
      async_close co_await
  mysql_awaits_once host port sql ep handle args = (refl, refl, refl, refl, refl, refl, refl)

module _ (message : ErrorCode → Text) {S : Type 0} (runtime : Runtime Operation Done S)
    (s : S) where
  -- When the select statement is prepared and its execution fails, the line that is logged shows the
  -- message of the code with which the preparation succeeded, and not that of the failure.
  pub select_error_misreported :
      let d = (runtime s (prepare_statement select_sql)).0 in
      let t = (runtime s (prepare_statement select_sql)).1 in
      let e = (runtime t (execute d.value params)).0 in
      failed d.ec ≡ false
      → failed e.ec ≡ true
      → let o = run runtime (select_block message) s in
        (o.result ≡ returned)
        × (o.events
            ≡ (prepare_statement select_sql, d)
              ∷ (execute d.value params, e)
              ∷ (log (error (codes "async_execute : {}") (message d.ec ∷ [])), tt)
              ∷ [])
  unfolding select_block async_prepare_statement async_execute co_await
  select_error_misreported good bad = rw (good, bad) (refl, refl)

  -- When reading the rows fails, the line shows the code of the failure beside the error information
  -- of the preparation, and not that of the failure.
  pub read_error_misreported :
      let d = (runtime s (prepare_statement select_sql)).0 in
      let t = (runtime s (prepare_statement select_sql)).1 in
      let e = (runtime t (execute d.value params)).0 in
      let u = (runtime t (execute d.value params)).1 in
      let r = (runtime u (read_rows e.value)).0 in
      failed d.ec ≡ false
      → failed e.ec ≡ false
      → failed r.ec ≡ true
      → let o = run runtime (select_block message) s in
        (o.result ≡ returned)
        × (o.events
            ≡ (prepare_statement select_sql, d)
              ∷ (execute d.value params, e)
              ∷ (read_rows e.value, r)
              ∷ (log (error (codes "read_all : {}-{}") (message r.ec ∷ d.additional_info ∷ [])), tt)
              ∷ [])
  unfolding select_block async_prepare_statement async_execute read_all co_await
  read_error_misreported good fine bad = rw (good, fine, bad) (refl, refl)
