-- ===== src/System/Journey.antt =====
-- A text and a command from the user who types it to where they end, through src/client/Client.cpp,
-- src/server/Server.cpp, src/server/Shipdeck.cpp and src/server/LobbyCabin.cpp.
use pirate_servers.Base.{
  ℕ, String, ◌≡◌, ◌≢◌, refl, ◌∙◌, none, some, List, [], ◌∷◌, map, Bool, true, false, arith, eq_refl,
  eq_of_ne,
}
use pirate_servers.Base.Map.{Map, contains, index, index-touch}
use pirate_servers.Base.Outcome.{ok}
use pirate_servers.Base.Text.{has_prefix}
use pirate_servers.Wire.{Message}
use pirate_servers.Defines.{CabinInfo, no_client}
use pirate_servers.Deck.{Deck, to_cabins, to_server, client_at, touch_client}
use pirate_servers.Deck.Crew.{handle_crewmate_input, handle_crewmate_input_text}
use pirate_servers.Deck.Services.{handle_services_cabins_input}
use pirate_servers.Deck.Workers.{dispatch_server}
use pirate_servers.Deck.Delivery.{forward_confined}
use pirate_servers.Lobby.{Lobby, send_text, handle_shipdeck_input}
use pirate_servers.Client.{Client, sent, printed}
use pirate_servers.Client.Ship.{line}
use pirate_servers.Client.Tasks.{input_message, core_step}
use pirate_servers.Client.Commands.{text_sent_once}
use pirate_servers.Client.Console.{shows_text}
use pirate_servers.Server.{to_shipdeck, to_clients, ship_listener_step, client_listener_task}

module _ (visit : Map CabinInfo → Map CabinInfo) (visit_users : List String → List String)
    (left : Message → Message) (sends : ℕ → Bool) where
  -- A line that is no command and not empty, typed by a client that the ship deck knows, while the
  -- first send succeeds and the lobby of the client's cabin has a user of whose name the deck has a
  -- client in that cabin. The client sends it, the server passes it to the deck, the deck to the
  -- cabin with the sender's name, the lobby sends each of its users one message, the deck passes the
  -- user's message to that client's server, the server to the client, and the client shows the
  -- sender's name and the line.
  pub text_journey :
      (s_id c_id text user : String) (typist reader : Client) (d : Deck) (l : Lobby)
      → text ≢ ""
      → has_prefix "/" text ≡ false
      → sends 0 ≡ true
      → contains c_id d.client_map ≡ true
      → (client_at (index user "" d.crew_name_to_id) d).curr_cabin ≡ (client_at c_id d).curr_cabin
      → let sender = client_at c_id d in
        let name = sender.c_username in
        let to = index user "" d.crew_name_to_id in
        let up = "CREW" ∷ "TEXT" ∷ text ∷ [] in
        let down = "CABIN" ∷ "TEXT" ∷ name ∷ text ∷ [] in
        (d1 d2 : Deck) × (input_message text ≡ some ("CLIENT" ∷ "TEXT" ∷ text ∷ []))
        × (core_step sends ("CLIENT" ∷ "TEXT" ∷ text ∷ []) typist ≡ ok (typist, sent up ∷ []))
        × (client_listener_task ((true, some (c_id ∷ up)) ∷ []) ≡ to_shipdeck (c_id ∷ up) ∷ [])
        × (dispatch_server visit (s_id ∷ c_id ∷ up) d
            ≡ ok (d1, to_cabins (sender.curr_cabin ∷ "TEXT" ∷ name ∷ text ∷ []) ∷ []))
        × (handle_shipdeck_input visit_users ("TEXT" ∷ name ∷ text ∷ []) l
            ≡ ok (l, map (send_text name text) (visit_users l.users)))
        × (handle_services_cabins_input (sender.curr_cabin ∷ send_text name text user) none d1
            ≡ ok (d2, to_server ((client_at to d).c_server_id ∷ to ∷ down) ∷ []))
        × (ship_listener_step left
              (record { alive = true; ship = none; shipdeck = some (to ∷ down); control = false })
            ≡ ok (to_clients (to ∷ down) ∷ []))
        × (core_step sends down reader ≡ ok (reader, printed (line name text) ∷ printed "> " ∷ []))
  unfolding input_message core_step client_listener_task dispatch_server handle_crewmate_input
      handle_crewmate_input_text handle_shipdeck_input ship_listener_step
  text_journey s_id c_id text user typist reader d l nonempty plain reached known together =
      let d1 = touch_client c_id d in
      let (d2, forwarded, _, _) =
        forward_confined (client_at c_id d).curr_cabin "TEXT" user (client_at c_id d).c_username
          (text ∷ []) none d1 (omega arith) in
      (
        d1,
        d2,
        rw (eq_of_ne text "" nonempty, plain),
        text_sent_once sends typist text 0 (omega arith) reached,
        refl,
        rw known,
        refl,
        forwarded
            ∙ rw (
              index-touch c_id (index user "" d.crew_name_to_id) no_client d.client_map,
              together,
              eq_refl (client_at c_id d).curr_cabin,
            ),
        refl,
        shows_text reader (client_at c_id d).c_username text nonempty,
      )
