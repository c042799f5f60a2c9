-- ===== src/System/Network/Settling.antt =====
-- The steps by which the ship deck (src/server/Shipdeck.cpp) and a lobby (src/server/LobbyCabin.cpp)
-- handle what is on its way between them, while nothing else happens.
use mathlib.Core.List.{append-nil}
use pirate_servers.Base.{
  String, ◌≡◌, refl, ap, ap₂, ◌∙◌, Bool, true, false, none, List, [], ◌∷◌, ◌++◌, ◌==◌,
  if◌then◌else◌, arith,
}
use pirate_servers.Base.Map.{Map, index}
use pirate_servers.Base.Outcome.{ok}
use pirate_servers.Wire.{Message}
use pirate_servers.Defines.{ClientId, CabinId, CabinInfo}
use pirate_servers.Deck.{Sent, to_server, client_at}
use pirate_servers.Deck.Services.{handle_services_cabins_input}
use pirate_servers.Deck.Delivery.{forward_confined}
use pirate_servers.Cabin.Poll.{handle_all}
use pirate_servers.Cabin.Loop.{handle_all_split}
use pirate_servers.Lobby.{Lobby, handle_shipdeck_input}
use pirate_servers.System.Follow.{received, received-append}
use pirate_servers.System.Network.{
  Network, Exchange, exchange, deck_sends, by_lobby, lobby_handles, deck_takes, Reach,
}
use pirate_servers.System.Network as Network
use pirate_servers.System.Network.Synced.{AreTexts}

module _ (visit : Map CabinInfo → Map CabinInfo) (visit_users : List String → List String)
    (c : CabinId) where
  -- The lobby and the deck handle what is on its way, and nothing else happens.
  pub data Exchanges (n : Network) : Network → Type 0 where
    here : Exchanges n n
    more :
        {n' n'' : Network} → Exchanges n n' → Exchange visit visit_users c n' n'' → Exchanges n n''

  Exchanges-append : {n n' n'' : Network} → Exchanges n n' → Exchanges n' n'' → Exchanges n n''
  Exchanges-append first here = first
  Exchanges-append first (more later s) = more (Exchanges-append first later) s

  pub Exchanges-Reach :
      {n n' : Network} → Reach visit visit_users c n → Exchanges n n' → Reach visit visit_users c n'
  Exchanges-Reach r here = r
  Exchanges-Reach r (more first s) = Network.next (Exchanges-Reach r first) (exchange s)

  -- Exchanges that leave nothing for the lobby, and change nothing for the crew.
  pub record Settles (n n' : Network) : Type 0 where
    pub steps : Exchanges n n'
    pub clients : (k : ClientId) → client_at k n'.deck ≡ client_at k n.deck
    pub said : n'.said ≡ n.said
    pub received : received c n'.total ≡ received c n.total
    pub settled : n'.inbox ≡ []

  pub Settles-append : {n n' n'' : Network} → Settles n n' → Settles n' n'' → Settles n n''
  Settles-append first later = record {
    steps = Exchanges-append first.steps later.steps;
    clients = λ k. later.clients k ∙ first.clients k;
    said = later.said ∙ first.said;
    received = later.received ∙ first.received;
    settled = later.settled;
  }

  pub lobby-Settles :
      (inbox : List Message) (n : Network) (l : Lobby) (sent : List Message)
      → n.inbox ≡ inbox
      → handle_all (handle_shipdeck_input visit_users) inbox n.lobby ≡ ok (l, sent)
      → (n' : Network) × Settles n n'
  lobby-Settles [] n l sent e handled =
      (n, record { steps = here; clients = λ k. refl; said = refl; received = refl; settled = e })
  lobby-Settles (m ∷ rest) n l sent e handled =
      let (mid, first, others, e1, e2, _) =
        handle_all_split (handle_shipdeck_input visit_users) m rest n.lobby l sent handled in
      let step = by_lobby (lobby_handles m rest mid first e e1) in
      let (n', s) =
        lobby-Settles rest
          (record n {
            lobby = mid;
            inbox = rest;
            heard = n.heard ++ m ∷ [];
            outbox = n.outbox ++ first;
          })
          l others refl e2 in
      (
        n',
        record {
          steps = Exchanges-append (more here step) s.steps;
          clients = s.clients;
          said = s.said;
          received = s.received;
          settled = s.settled;
        },
      )

  unheard : (sends : Bool) (m : Message) → received c (if sends then to_server m ∷ [] else []) ≡ []
  unfolding received
  unheard true m = refl
  unheard false m = refl

  -- The deck handles all that the lobby has sent.
  pub deck-Settles :
      (outbox : List Message) (n : Network)
      → AreTexts outbox
      → n.inbox ≡ []
      → n.outbox ≡ outbox
      → (n' : Network) × Settles n n' × (n'.outbox ≡ [])
  deck-Settles [] n shaped empty e = (
    n,
    record { steps = here; clients = λ k. refl; said = refl; received = refl; settled = empty },
    e,
  )
  deck-Settles (m ∷ rest) n ((username, text, user, shape), shaped) empty e =
      let crew_id = index user "" n.deck.crew_name_to_id in
      let client = client_at crew_id n.deck in
      let answer : Message =
        client.c_server_id ∷ crew_id ∷ "CABIN" ∷ "TEXT" ∷ username ∷ text ∷ [] in
      let out : List Sent = if c == client.curr_cabin then to_server answer ∷ [] else [] in
      let quiet = unheard (c == client.curr_cabin) answer in
      let (d, forwarded, kept, _) =
        forward_confined c "TEXT" user username (text ∷ []) none n.deck (omega arith) in
      let handled =
        ap (λ (m' : Message). handle_services_cabins_input (c ∷ m') none n.deck) shape
        ∙ forwarded in
      let (n', s, done) =
        deck-Settles rest
          (record (deck_sends c d out n) { outbox = rest; taken = n.taken ++ m ∷ [] }) shaped
          (ap₂ (λ (a b : List Message). a ++ b) empty quiet) refl in
      (
        n',
        record {
          steps = Exchanges-append (more here (deck_takes m rest d out e handled)) s.steps;
          clients = λ k. s.clients k ∙ kept k;
          said = s.said;
          received =
              s.received
              ∙ received-append c n.total out
              ∙ ap (◌++◌ (received c n.total)) quiet
              ∙ append-nil (received c n.total);
          settled = s.settled;
        },
        done,
      )
