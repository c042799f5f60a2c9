-- ===== src/Lobby/Tests.antt =====
-- The theorems on src/server/LobbyCabin.cpp at a short history.
use pirate_servers.Base.{String, ◌≡◌, refl, List, [], ◌∷◌, true, false, some, none}
use pirate_servers.Base.Outcome.{ok}
use pirate_servers.Wire.{Message}
use pirate_servers.Cabin.{Cabin, auth_msg, cabin_info_msg}
use pirate_servers.Cabin.Poll.{Round, handle_all, before_control}
use pirate_servers.Lobby.Thread.{lobby_cabin, lobby_cabin_serves}
use pirate_servers.Lobby.{Lobby, new_lobby, has, insert, erase, send_text, handle_shipdeck_input}
use pirate_servers.Lobby.Order.{sent_to, attended, text_of, brought, history_delivered}
use pirate_servers.Lobby.Refinement.{present, present_after, occurrences}

abbrev in_order : List String → List String
in_order users = users

abbrev ann_only : Lobby
ann_only = record { users = "ann" ∷ [] }

once : (u : String) (users : List String) → occurrences u (in_order users) ≡ occurrences u users
once u users = refl

abbrev talk : List Message
talk =
    ("JOIN" ∷ "ann" ∷ [])
    ∷ ("TEXT" ∷ "ann" ∷ "one" ∷ [])
    ∷ ("JOIN" ∷ "bob" ∷ [])
    ∷ ("TEXT" ∷ "bob" ∷ "two" ∷ [])
    ∷ ("DISCONNECT" ∷ "bob" ∷ [])
    ∷ ("TEXT" ∷ "ann" ∷ "three" ∷ [])
    ∷ []

abbrev talked : List Message
talked =
    send_text "ann" "one" "ann"
    ∷ send_text "bob" "two" "bob"
    ∷ send_text "bob" "two" "ann"
    ∷ send_text "ann" "three" "ann"
    ∷ []

talks : handle_all (handle_shipdeck_input in_order) talk new_lobby ≡ ok (ann_only, talked)
unfolding handle_all handle_shipdeck_input has insert erase
talks = refl

history_delivered_example : sent_to "bob" talked ≡ attended "bob" false talk
history_delivered_example = history_delivered in_order once talk ann_only talked talks "bob"

bob_gets : attended "bob" false talk ≡ ("bob", "two") ∷ []
unfolding attended present_after text_of
bob_gets = refl

ann_gets : sent_to "ann" talked ≡ ("ann", "one") ∷ ("bob", "two") ∷ ("ann", "three") ∷ []
unfolding sent_to brought
ann_gets = refl

abbrev rounds : List Round
rounds =
    record { control = false; ready = some ("JOIN" ∷ "ann" ∷ []) ∷ [] }
    ∷ record { control = false; ready = none ∷ [] }
    ∷ record { control = true; ready = some ("JOIN" ∷ "bob" ∷ []) ∷ [] }
    ∷ []

lobby_cabin_serves_example :
    (c : Cabin) × (l : Lobby) × (out : List Message) × (lobby_cabin in_order "Port" "a port"
        ("SHIP" ∷ "SUCCESS" ∷ "P" ∷ [])
        rounds
      ≡ ok (c, l, auth_msg ∷ cabin_info_msg c ∷ out))
    × (c.info.g_id ≡ "P")
    × ((u : String) → has u l.users ≡ present u (before_control rounds) false)
unfolding before_control
lobby_cabin_serves_example = lobby_cabin_serves in_order "Port" "a port" "P" [] rounds refl
