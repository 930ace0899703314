-- ===== src/TcpServer/Serving.antt =====
-- src/test_tcp_server.cpp: what main comes to.
use example.Base.{◌≡◌, ◌⊎◌}
use example.TcpServer.Main.{
  Exit, serving, caught, terminates, ThreadMade, thread_started, thread_refused,
}

-- How main stands by what the constructor of its thread came to.
abbrev pub StandsAs : ThreadMade → Exit → Type 0
StandsAs thread_started exit = (exit ≡ serving) ⊎ (exit ≡ terminates)
StandsAs thread_refused exit = exit ≡ caught
