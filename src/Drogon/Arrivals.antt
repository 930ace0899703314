-- ===== src/Drogon/Arrivals.antt =====
-- src/test_drogon.cpp: a frame arrives at one of the two sides of the web socket.
use mathlib.Core.Path.{subst}
use example.Base.{
  ◌≡◌, refl, sym, ap, ◌∙◌, true, false, List, [], ◌∷◌, ◌++◌, inl, inr, append-nil, append_assoc,
}
use example.Drogon.{handle_new_message, message_type}
use example.Drogon.Direction.{Side, Side-arrives}
use example.Drogon.Chat.{Frame, Chat, close_once, Answers}
use example.Drogon.Closing.{
  Closing, close_line, server_takes, server_closes, client_takes, client_closes, answer_to_close,
}
use example.Drogon.TalkState.{
  connected_line, received_line, hello_line, ping_line, haha_line, pong_line, hello, ping_frame,
  haha, pong_frame, server_end, client_end, ending, Talk, answered-Side, logs_more,
}

pub server_gets-Talk :
    {c : Chat} (f : Frame) (rest answer : List Frame)
    → (t : Talk c) → c.closed ≡ false
    → c.to_server ≡ f ∷ rest
    → Answers f answer
    → (queue : List Frame) → t.server_queue ≡ queue
    → Talk (record c {
      to_server = rest;
      to_client = c.to_client ++ answer;
      server_log = c.server_log ++ handle_new_message f.0 f.1;
    })
unfolding handle_new_message
server_gets-Talk {c} f rest answer t going e a (g ∷ q) same =
    let at_front =
      subst (λ x. Closing c.shut x t.client_queue t.server_close t.client_close t.last) same
        t.closing in
    let (no_close, kept) = server_takes at_front in
    let all : f ∷ rest ≡ g ∷ (q ++ t.server_close) =
      sym e ∙ t.server_gets_all ∙ ap (λ x. x ++ t.server_close) same in
    let fe : f ≡ g = cc in
    let re : rest ≡ q ++ t.server_close = cc in
    let (which, side) =
      Side-arrives hello ping_frame hello_line ping_line t.server_queue q f t.server_body t.heard
        (λ g. handle_new_message g.0 g.1) refl refl t.server_side
        (same ∙ ap (λ x. x ∷ q) (sym fe)) in
    record {
      server_queue = q;
      client_queue = t.client_queue ++ answer;
      server_close = t.server_close;
      client_close = t.client_close;
      server_body = t.server_body ++ handle_new_message f.0 f.1;
      client_body = t.client_body;
      last = t.last;
      heard = true;
      timed = t.timed;
      server_side = side;
      client_side =
          answered-Side t.client_queue t.client_body c.shut f answer which a t.client_side;
      server_gets_all = re;
      client_gets_all =
          rw
            (
              t.client_gets_all,
              no_close,
              append-nil t.client_queue,
              append-nil (t.client_queue ++ answer),
            )
            refl;
      closing = kept (t.client_queue ++ answer);
      server_logged =
          logs_more c.server_log t.server_body (handle_new_message f.0 f.1) c.closed server_end
            going t.server_logged;
      client_logged = t.client_logged;
      closed_shut = t.closed_shut;
    }
server_gets-Talk {c} f rest answer t going e a [] same =
    let all : t.server_close ≡ f ∷ rest =
      sym (t.server_gets_all ∙ ap (λ x. x ++ t.server_close) same) ∙ e in
    let at_end : Closing c.shut [] t.client_queue (f ∷ rest) t.client_close t.last =
      subst (λ ts. Closing c.shut [] t.client_queue ts t.client_close t.last) all
        (subst (λ x. Closing c.shut x t.client_queue t.server_close t.client_close t.last) same
          t.closing) in
    let (fe, re, no_close, still, replied) = server_closes at_end in
    let side =
      subst (λ x. Side hello ping_frame hello_line ping_line x t.server_body t.heard) same
        t.server_side in
    let logged : c.server_log ++ handle_new_message f.0 f.1
        ≡ t.server_body ++ ending c.closed server_end =
      rw (fe, append-nil c.server_log) t.server_logged in
    let to_client : c.to_client ≡ t.client_queue =
      t.client_gets_all ∙ rw (no_close, append-nil t.client_queue) refl in
    elim (answer_to_close a fe) [
      | inl none ↦ record {
        server_queue = [];
        client_queue = t.client_queue;
        server_close = [];
        client_close = [];
        server_body = t.server_body;
        client_body = t.client_body;
        last = t.last;
        heard = t.heard;
        timed = t.timed;
        server_side = side;
        client_side = t.client_side;
        server_gets_all = re;
        client_gets_all = rw (to_client, none) refl;
        closing = still;
        server_logged = logged;
        client_logged = t.client_logged;
        closed_shut = t.closed_shut;
      }
      | inr (payload, sent) ↦ record {
        server_queue = [];
        client_queue = t.client_queue;
        server_close = [];
        client_close = answer;
        server_body = t.server_body;
        client_body = t.client_body;
        last = t.last;
        heard = t.heard;
        timed = t.timed;
        server_side = side;
        client_side = t.client_side;
        server_gets_all = re;
        client_gets_all = ap (λ x. x ++ answer) to_client;
        closing =
            subst (λ x. Closing c.shut [] t.client_queue [] x t.last) (sym sent) (replied payload);
        server_logged = logged;
        client_logged = t.client_logged;
        closed_shut = t.closed_shut;
      }
    ]

pub client_gets-Talk :
    {c : Chat} (f : Frame) (rest : List Frame)
    → (t : Talk c) → c.closed ≡ false
    → c.to_client ≡ f ∷ rest
    → (queue : List Frame) → t.client_queue ≡ queue
    → Talk (record c {
      to_client = rest;
      client_log = c.client_log ++ (received_line (message_type f.1) f.0 ∷ []);
      to_server = c.to_server ++ close_once c.shut;
      shut = true;
    })
client_gets-Talk {c} f rest t going e (g ∷ q) same =
    let line = received_line (message_type f.1) f.0 in
    let at_front =
      subst (λ x. Closing c.shut t.server_queue x t.server_close t.client_close t.last) same
        t.closing in
    let (no_last, next) = client_takes at_front in
    let all : f ∷ rest ≡ g ∷ (q ++ t.client_close) =
      sym e ∙ t.client_gets_all ∙ ap (λ x. x ++ t.client_close) same in
    let fe : f ≡ g = cc in
    let re : rest ≡ q ++ t.client_close = cc in
    let (which, side) =
      Side-arrives haha pong_frame haha_line pong_line t.client_queue q f t.client_body c.shut
        (λ g. received_line (message_type g.1) g.0 ∷ []) refl refl t.client_side
        (same ∙ ap (λ x. x ∷ q) (sym fe)) in
    record {
      server_queue = t.server_queue;
      client_queue = q;
      server_close = t.server_close ++ close_once c.shut;
      client_close = t.client_close;
      server_body = t.server_body;
      client_body = t.client_body ++ (line ∷ []);
      last = t.last;
      heard = t.heard;
      timed = t.timed;
      server_side = t.server_side;
      client_side = side;
      server_gets_all =
          ap (λ x. x ++ close_once c.shut) t.server_gets_all
          ∙ append_assoc t.server_queue t.server_close (close_once c.shut);
      client_gets_all = re;
      closing = next;
      server_logged = t.server_logged;
      client_logged =
          logs_more c.client_log (connected_line ∷ t.client_body) (line ∷ []) c.closed client_end
            going (t.client_logged ∙ rw (no_last, append-nil t.client_body) refl)
          ∙ rw (no_last, append-nil (t.client_body ++ (line ∷ []))) refl;
      closed_shut = λ q. refl;
    }
client_gets-Talk {c} f rest t going e [] same =
    let line = received_line (message_type f.1) f.0 in
    let all : t.client_close ≡ f ∷ rest =
      sym (t.client_gets_all ∙ ap (λ x. x ++ t.client_close) same) ∙ e in
    let at_end : Closing c.shut t.server_queue [] t.server_close (f ∷ rest) t.last =
      subst (λ tc. Closing c.shut t.server_queue [] t.server_close tc t.last) all
        (subst (λ x. Closing c.shut t.server_queue x t.server_close t.client_close t.last) same
          t.closing) in
    let (payload, fe, re, no_last, is_shut, next) = client_closes at_end in
    record {
      server_queue = t.server_queue;
      client_queue = [];
      server_close = t.server_close ++ close_once c.shut;
      client_close = [];
      server_body = t.server_body;
      client_body = t.client_body;
      last = close_line payload ∷ [];
      heard = t.heard;
      timed = t.timed;
      server_side = t.server_side;
      client_side =
          subst (λ b. Side haha pong_frame haha_line pong_line [] t.client_body b) is_shut
            (subst (λ x. Side haha pong_frame haha_line pong_line x t.client_body c.shut) same
              t.client_side);
      server_gets_all =
          ap (λ x. x ++ close_once c.shut) t.server_gets_all
          ∙ append_assoc t.server_queue t.server_close (close_once c.shut);
      client_gets_all = re;
      closing = next;
      server_logged = t.server_logged;
      client_logged =
          logs_more c.client_log (connected_line ∷ t.client_body) (line ∷ []) c.closed client_end
            going (t.client_logged ∙ rw (no_last, append-nil t.client_body) refl)
          ∙ rw fe refl;
      closed_shut = λ q. refl;
    }
