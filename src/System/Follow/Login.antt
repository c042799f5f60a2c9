-- ===== src/System/Follow/Login.antt =====
-- A message of the crew (src/server/Shipdeck.cpp) keeps the cabins' histories in step with the
-- clients, if no client logs in by the name of another.
use pirate_servers.Base.{
  String, ◌≡◌, ◌≢◌, sym, ap, subst, ◌∙◌, String-cases, inl, inr, false, eq_iff, eq_refl, ◌==◌, List,
  [], ◌∷◌, ◌++◌, arith, if◌then◌else◌,
}
use pirate_servers.Base.Map.{Map, contains, index, lookup-insert, insert}
use pirate_servers.Wire.{Message}
use pirate_servers.Defines.{
  ClientId, ServerId, CabinInfo, ClientInfo, no_client, client_info, set_crew_id, set_server_id,
}
use pirate_servers.Deck.{Deck, Sent, to_server, client_at, touch_name, cabin_named}
use pirate_servers.Deck.Move.{change_player_cabins}
use pirate_servers.Deck.Crew.{login}
use pirate_servers.Deck.Placed.{index-insert}
use pirate_servers.Deck.Change.{Change, change_player_cabins-Change}
use pirate_servers.System.Follow.{received, name_of, IsFollowed, Follows}
use pirate_servers.Deck.Change.{same_names}
use pirate_servers.System.Follow.Moves.{same_name}
use pirate_servers.System.Follow.Names.{same_name-IsFollowed, fresh_name-IsFollowed}
use pirate_servers.System.Follow.Handlers.{change_player_cabins-Follows}

-- What is sent to the server besides does not concern the cabins.
answered-Follows :
    (crew_id : ClientId) (d d' : Deck) (m : Message) (out : List Sent)
    → Follows crew_id d d' out
    → Follows crew_id d d' (to_server m ∷ out)
unfolding received
answered-Follows crew_id d d' m out f = record {
  others = f.others;
  at_client = f.at_client;
  at_others = f.at_others;
  pieces = f.pieces;
}

-- A name by which no client is known.
abbrev pub IsFree : String → Deck → Type 0
IsFree username d = (k : ClientId) → username ≢ "" → name_of k d ≢ username

module _ (visit : Map CabinInfo → Map CabinInfo) (s_id : ServerId) (crew_id : ClientId)
    (username password : String) (d : Deck) (total : List Sent) (h : IsFollowed d total)
    (new : contains crew_id d.client_map ≡ false) (free : IsFree username d) where
  abbrev entry : ClientInfo
  entry = set_crew_id crew_id (set_server_id s_id (client_info username password))

  abbrev known : Deck
  known = touch_name d.default_cabin (record d {
    client_map = insert crew_id entry d.client_map;
    crew_name_to_id = insert username crew_id d.crew_name_to_id;
  })

  abbrev entered : Deck × List Sent
  entered = change_player_cabins crew_id (cabin_named d.default_cabin d) known

  unknown : client_at crew_id d ≡ no_client
  unknown = ground arith

  self : client_at crew_id known ≡ entry
  self = index-insert crew_id crew_id entry d.client_map ∙ ground (arith, eq_refl crew_id)

  change : Change crew_id (cabin_named d.default_cabin d) known entered
  change = change_player_cabins-Change crew_id (cabin_named d.default_cabin d) known

  entered-Follows : (m : Message) → Follows crew_id d entered.0 (to_server m ∷ entered.1)
  entered-Follows m = answered-Follows crew_id d entered.0 m entered.1 (
      change_player_cabins-Follows crew_id (cabin_named d.default_cabin d) d known
        (λ k other. index-insert crew_id k entry d.client_map ∙ ground (arith, eq_iff crew_id k))
        (ap (λ (client : ClientInfo). client.curr_cabin) self
          ∙ sym (ap (λ (client : ClientInfo). client.curr_cabin) unknown))
        (λ _. ap (λ (client : ClientInfo). client.c_online) unknown))

  entered_name : name_of crew_id entered.0 ≡ username
  entered_name =
      same_name crew_id (cabin_named d.default_cabin d) known entered change
      ∙ ap (λ (client : ClientInfo). client.c_username) self

  entered_names :
      (u : String)
      → index u "" entered.0.crew_name_to_id
        ≡ (if username == u then crew_id else index u "" d.crew_name_to_id)
  entered_names u =
      ap (λ (m : Map ClientId). index u "" m)
        (same_names crew_id (cabin_named d.default_cabin d) known entered change)
      ∙ ground (arith, eq_iff username u, lookup-insert username u crew_id d.crew_name_to_id)

  entered-IsFollowed : (m : Message) → IsFollowed entered.0 (total ++ (to_server m ∷ entered.1))
  entered-IsFollowed m = elim (String-cases username "") [
    | inl empty ↦
        same_name-IsFollowed crew_id d entered.0 total (to_server m ∷ entered.1) h
          (entered-Follows m)
          (entered_name ∙ empty ∙ sym (ap (λ (client : ClientInfo). client.c_username) unknown))
          (λ u named. entered_names u ∙ ground (arith, eq_iff username u))
    | inr named ↦
        fresh_name-IsFollowed crew_id d entered.0 total (to_server m ∷ entered.1) h
          (entered-Follows m) (ap (λ (client : ClientInfo). client.c_username) unknown)
          (λ c cabin. ground (arith, eq_iff "" c, unknown)) (λ k e. free k named (e ∙ entered_name))
          (λ u.
            subst
              (λ v.
                index u "" entered.0.crew_name_to_id
                ≡ (if v == u then crew_id else index u "" d.crew_name_to_id))
              (sym entered_name) (entered_names u))
  ]

  pub login-IsFollowed :
      let r = login visit s_id crew_id username password d in IsFollowed r.0 (total ++ r.1)
  unfolding login
  login-IsFollowed = entered-IsFollowed (s_id ∷ crew_id ∷ "SHIP" ∷ "ACK" ∷ [])
