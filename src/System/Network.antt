-- ===== src/System/Network.antt =====
-- The ship deck (src/server/Shipdeck.cpp) and one lobby (src/server/LobbyCabin.cpp), with what is on its
-- way between them: messages of the crew, of cabins and of ships come at any time, and the deck and the
-- lobby handle what has arrived in any interleaving.
pub mod Synced
pub mod Arrival
pub mod Settling
pub mod Draining
pub mod Tests
use pirate_servers.Base.{String, ◌≡◌, Option, none, some, List, [], ◌∷◌, ◌++◌}
use pirate_servers.Base.Map.{Map}
use pirate_servers.Base.Outcome.{ok}
use pirate_servers.Wire.{Message}
use pirate_servers.Defines.{CabinId, CabinInfo}
use pirate_servers.Deck.{Deck, new_deck, Sent}
use pirate_servers.Deck.Crew.{handle_crewmate_input}
use pirate_servers.Deck.Services.{handle_services_cabins_input, handle_services_ships_input}
use pirate_servers.Lobby.{Lobby, new_lobby, handle_shipdeck_input}
use pirate_servers.Lobby.Order.{Said}
use pirate_servers.System.Follow.{received}
use pirate_servers.System.Follow.Crew.{IsNamed}
use pirate_servers.System.Speech.{says}

-- `inbox` is on its way to the lobby and `outbox` to the deck, without the lobby's identity. The other
-- lists record what happened, in its order: all that the deck sent, what the crew said in the lobby's
-- cabin, what the lobby handled, and what of its messages the deck took.
pub record Network : Type 0 where
  pub deck : Deck
  pub lobby : Lobby
  pub inbox : List Message
  pub outbox : List Message
  pub total : List Sent
  pub said : List Said
  pub heard : List Message
  pub taken : List Message

abbrev pub new_network : Network
new_network = record {
  deck = new_deck;
  lobby = new_lobby;
  inbox = [];
  outbox = [];
  total = [];
  said = [];
  heard = [];
  taken = [];
}

-- The deck has handled a message: what it sends to the lobby's cabin is on its way.
abbrev pub deck_sends : CabinId → Deck → List Sent → Network → Network
deck_sends c d out n = record n {
  deck = d;
  total = n.total ++ out;
  inbox = n.inbox ++ received c out;
}

module _ (visit : Map CabinInfo → Map CabinInfo) (visit_users : List String → List String)
    (c : CabinId) where
  -- The lobby handles the next message on its way to it.
  pub data LobbyStep (n : Network) : Network → Type 0 where
    lobby_handles :
        (m : Message) (rest : List Message) (l : Lobby) (sent : List Message)
        → n.inbox ≡ m ∷ rest
        → handle_shipdeck_input visit_users m n.lobby ≡ ok (l, sent)
        → LobbyStep n (record n {
          lobby = l;
          inbox = rest;
          heard = n.heard ++ m ∷ [];
          outbox = n.outbox ++ sent;
        })

  -- The lobby does so, or the deck handles the next message of the lobby.
  pub data Exchange (n : Network) : Network → Type 0 where
    by_lobby : {n' : Network} → LobbyStep n n' → Exchange n n'
    deck_takes :
        (m : Message) (rest : List Message) (d : Deck) (out : List Sent)
        → n.outbox ≡ m ∷ rest
        → handle_services_cabins_input (c ∷ m) none n.deck ≡ ok (d, out)
        → Exchange n (record (deck_sends c d out n) { outbox = rest; taken = n.taken ++ m ∷ [] })

  -- No client logs in for the first time by a name that another client has. `cabins` brings any
  -- message of a cabin, the lobby's registration among them; `takes_reply` is a registration that
  -- takes the lobby's message for the new cabin's.
  pub data Step (n : Network) : Network → Type 0 where
    crew :
        (input : Message) (d : Deck) (out : List Sent)
        → IsNamed input n.deck
        → handle_crewmate_input visit input n.deck ≡ ok (d, out)
        → Step n (record (deck_sends c d out n) { said = n.said ++ says c input n.deck })
    cabins :
        (input : Message) (next : Option Message) (d : Deck) (out : List Sent)
        → handle_services_cabins_input input next n.deck ≡ ok (d, out)
        → Step n (deck_sends c d out n)
    ships :
        (input : Message) (d : Deck) (out : List Sent)
        → handle_services_ships_input input n.deck ≡ ok (d, out)
        → Step n (deck_sends c d out n)
    exchange : {n' : Network} → Exchange n n' → Step n n'
    takes_reply :
        (input m : Message) (rest : List Message) (d : Deck) (out : List Sent)
        → n.outbox ≡ m ∷ rest
        → handle_services_cabins_input input (some (c ∷ m)) n.deck ≡ ok (d, out)
        → Step n (record (deck_sends c d out n) { outbox = rest; taken = n.taken ++ m ∷ [] })

  -- What the start leads to.
  pub data Reach : Network → Type 0 where
    start : Reach new_network
    next : {n n' : Network} → Reach n → Step n n' → Reach n'
