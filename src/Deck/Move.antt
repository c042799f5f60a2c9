-- ===== src/Deck/Move.antt =====
-- `change_player_cabins` of src/server/Shipdeck.cpp.
use pirate_servers.Base.{ℕ, List, [], ◌∷◌, not, ◌&&◌, ◌==◌, if◌then◌else◌}
use pirate_servers.Base.Map.{Map, index, insert, contains}
use pirate_servers.Base.Word.{inc32, dec32}
use pirate_servers.Defines.{ClientId, CabinId, CabinInfo, no_cabin, ClientInfo, set_cabin_id}
use pirate_servers.Deck.{Deck, Sent, to_cabins, client_at, touch_client}

-- `cabin_id_to_info[cab_id].curr_playing = step(cabin_id_to_info[cab_id].curr_playing)`.
unfoldable pub count_players : (ℕ → ℕ) → CabinId → Map CabinInfo → Map CabinInfo
count_players step cab_id m =
    let info = index cab_id no_cabin m in
    insert cab_id (record info { curr_playing = step info.curr_playing }) m

abbrev pub recount : (ℕ → ℕ) → CabinId → Deck → Deck
recount step cab_id d = record d { cabin_id_to_info = count_players step cab_id d.cabin_id_to_info }

-- `--cabin_id_to_info[to_disconnect].curr_playing`, for a client that is in a cabin.
unfoldable pub leave_cabin : CabinId → Deck → Deck
leave_cabin to_disconnect d = if to_disconnect == "" then d else recount dec32 to_disconnect d

-- `client_map[crew_id].f()`, for a setter.
abbrev pub modify_client : ClientId → (ClientInfo → ClientInfo) → Deck → Deck
modify_client crew_id f d = record d {
  client_map = insert crew_id (f (client_at crew_id d)) d.client_map;
}

unfoldable pub enter_cabin : ClientId → CabinId → Deck → Deck
enter_cabin crew_id cab_id d = modify_client crew_id (set_cabin_id cab_id) (recount inc32 cab_id d)

unfoldable pub change_player_cabins : ClientId → CabinId → Deck → Deck × List Sent
change_player_cabins crew_id cab_id d =
    let client = client_at crew_id d in
    let crew_username = client.c_username in
    let to_disconnect = client.curr_cabin in
    let touched = touch_client crew_id d in
    let left = leave_cabin to_disconnect touched in
    let disconnect_msg = to_cabins (to_disconnect ∷ "DISCONNECT" ∷ crew_username ∷ []) in
    let join_msg = to_cabins (cab_id ∷ "JOIN" ∷ crew_username ∷ []) in
    if client.c_online && not (contains cab_id d.cabin_id_to_info)
    then (touched, [])
    else if client.c_online && contains cab_id left.cabin_id_to_info
    then (enter_cabin crew_id cab_id left, disconnect_msg ∷ join_msg ∷ [])
    else (left, disconnect_msg ∷ [])
