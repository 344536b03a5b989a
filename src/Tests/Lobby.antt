-- ===== src/Tests/Lobby.antt =====
-- The theorems on the lobby, at two subscribers of whom one leaves between the steps of the loop.
use mamechat.Prelude.{◌≡◌, inl, refl, true, false, [], ◌∷◌, codes}
use mamechat.Chat.Message.{ServerMessage, error_message}
use mamechat.Chat.Lobby.{Lobby, stopped, register_lobby, unregister_lobby, run_lobby, sending}
use mamechat.Chat.Lobby.Serving.{
  IsServed, subscribe, unsubscribe, loop_on, start, step, LobbyReach-IsServed,
  unregister_lobby_panics,
}
use mamechat.Tests.{node, world}

abbrev nobody : Lobby
nobody = record {
  clients = [];
  running = false;
  loop = stopped;
  started = 0;
  bursts = [];
  outbox = λ key. record { waiting = []; closed = false };
  crashed = false;
}

abbrev two : Lobby
two = register_lobby 2 (register_lobby 1 nobody)

LobbyReach-IsServed_example : IsServed (unregister_lobby 1 (run_lobby node true world two))
LobbyReach-IsServed_example =
    LobbyReach-IsServed {l = nobody} (record { flag = refl; served = inl refl })
      (step
        (step (step (step start (subscribe 1 nobody)) (subscribe 2 (register_lobby 1 nobody)))
          (loop_on node true world two))
        (unsubscribe 1 (run_lobby node true world two)))

abbrev hello : ServerMessage
hello = error_message (codes "hello")

abbrev busy : Lobby
busy = record nobody { clients = 1 ∷ []; running = true; loop = sending hello (1 ∷ []) }

unregister_lobby_panics_example :
    (run_lobby node true world (unregister_lobby 1 busy)).crashed ≡ true
unregister_lobby_panics_example = unregister_lobby_panics node true world hello 1 [] busy refl
