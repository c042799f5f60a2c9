-- ===== src/System/Network/Synced.antt =====
-- What the steps of the ship deck (src/server/Shipdeck.cpp) and a lobby (src/server/LobbyCabin.cpp) keep:
-- what is on its way is just what is sent and not handled yet.
use mathlib.Core.List.{append-nil, append_assoc}
use pirate_servers.Base.{
  String, ◌≡◌, refl, sym, ap, ap₂, ◌∙◌, subst, Option, none, some, List, [], ◌∷◌, ◌++◌, map,
}
use pirate_servers.Base.Map.{Map}
use pirate_servers.Base.Outcome.{ok}
use pirate_servers.Base.Returns.{Gives, gives_rules}
use pirate_servers.Wire.{Message}
use pirate_servers.Defines.{CabinId, CabinInfo}
use pirate_servers.Deck.{Deck, Sent}
use pirate_servers.Deck.Services.{handle_services_cabins_input}
use pirate_servers.Cabin.Poll.{handle_all}
use pirate_servers.Cabin.Loop.{handle_all_last}
use pirate_servers.Lobby.{Lobby, new_lobby, send_text, handle_shipdeck_input}
use pirate_servers.Lobby.Order.{Said}
use pirate_servers.System.Follow.{received, received-append}
use pirate_servers.System.Membership.{Trace}
use pirate_servers.System.Membership as Membership
use pirate_servers.System.Speech.{says, texts, texts-append, cabins-Silent, ships-Silent, crew_says}
use pirate_servers.System.Network.{
  Network, new_network, deck_sends, Step, crew, cabins, ships, exchange, by_lobby, lobby_handles,
  deck_takes, takes_reply, Reach, start, next,
}

-- A message that brings a text to a user.
abbrev pub IsText : Message → Type 0
IsText m = (username text user : String) × (m ≡ send_text username text user)

abbrev pub AreTexts : List Message → Type 0
AreTexts [] = Unit {0}
AreTexts (m ∷ sent) = IsText m × AreTexts sent

AreTexts-append :
    (first second : List Message) → AreTexts first → AreTexts second → AreTexts (first ++ second)
AreTexts-append [] second f s = s
AreTexts-append (m ∷ first) second f s = (f.0, AreTexts-append first second f.1 s)

AreTexts-map :
    (username text : String) (users : List String) → AreTexts (map (send_text username text) users)
AreTexts-map username text [] = tt
AreTexts-map username text (u ∷ users) =
    ((username, text, u, refl), AreTexts-map username text users)

nothing-AreTexts : AreTexts []
nothing-AreTexts = tt

handle-AreTexts :
    (visit_users : List String → List String) (m : Message) (l : Lobby)
    → Gives (λ l' sent. AreTexts sent) (handle_shipdeck_input visit_users m l)
unfolding handle_shipdeck_input
handle-AreTexts visit_users m l = search (gives_rules, AreTexts-map, nothing-AreTexts) depth 25

module _ (visit : Map CabinInfo → Map CabinInfo) (visit_users : List String → List String)
    (c : CabinId) where
  pub record IsSynced (n : Network) : Type 0 where
    pub trace : Trace visit n.deck n.total
    pub arrived : received c n.total ≡ n.heard ++ n.inbox
    pub handled :
        handle_all (handle_shipdeck_input visit_users) n.heard new_lobby
        ≡ ok (n.lobby, n.taken ++ n.outbox)
    pub spoken : texts (received c n.total) ≡ n.said
    pub shaped : AreTexts n.outbox

  arrives :
      (n : Network) (out : List Sent)
      → IsSynced n
      → received c (n.total ++ out) ≡ n.heard ++ (n.inbox ++ received c out)
  arrives n out h =
      received-append c n.total out
      ∙ ap (λ (m : List Message). m ++ received c out) h.arrived
      ∙ append_assoc n.heard n.inbox (received c out)

  speaks :
      (n : Network) (out : List Sent) (more : List Said)
      → IsSynced n
      → texts (received c out) ≡ more
      → texts (received c (n.total ++ out)) ≡ n.said ++ more
  speaks n out more h e =
      ap texts (received-append c n.total out)
      ∙ texts-append (received c n.total) (received c out)
      ∙ ap₂ (λ (a b : List Said). a ++ b) h.spoken e

  start-IsSynced : IsSynced new_network
  unfolding received texts
  start-IsSynced = record {
    trace = Membership.start;
    arrived = refl;
    handled = unfold handle_all in refl;
    spoken = refl;
    shaped = tt;
  }

  lobby_handles-IsSynced :
      (n : Network) (m : Message) (rest : List Message) (l : Lobby) (sent : List Message)
      → n.inbox ≡ m ∷ rest
      → handle_shipdeck_input visit_users m n.lobby ≡ ok (l, sent)
      → IsSynced n
      → IsSynced (record n {
        lobby = l;
        inbox = rest;
        heard = n.heard ++ m ∷ [];
        outbox = n.outbox ++ sent;
      })
  lobby_handles-IsSynced n m rest l sent e handled h = record {
    trace = h.trace;
    arrived = h.arrived ∙ ap (◌++◌ n.heard) e ∙ sym (append_assoc n.heard (m ∷ []) rest);
    handled =
        handle_all_last (handle_shipdeck_input visit_users) n.heard m new_lobby n.lobby l
          (n.taken ++ n.outbox) sent h.handled handled
        ∙ ap (λ (out : List Message). ok (l, out)) (append_assoc n.taken n.outbox sent);
    spoken = h.spoken;
    shaped =
        AreTexts-append n.outbox sent h.shaped
          ((handle-AreTexts visit_users m n.lobby).at l sent handled);
  }

  -- What the deck handles without a text of the crew.
  sends-IsSynced :
      (n : Network) (d : Deck) (out : List Sent)
      → IsSynced n
      → Trace visit d (n.total ++ out)
      → texts (received c out) ≡ []
      → IsSynced (deck_sends c d out n)
  sends-IsSynced n d out h t silent = record {
    trace = t;
    arrived = arrives n out h;
    handled = h.handled;
    spoken = speaks n out [] h silent ∙ append-nil n.said;
    shaped = h.shaped;
  }

  taken-IsSynced :
      (n : Network) (m : Message) (rest : List Message) (d : Deck) (out : List Sent)
      → n.outbox ≡ m ∷ rest
      → IsSynced (deck_sends c d out n)
      → IsSynced (record (deck_sends c d out n) { outbox = rest; taken = n.taken ++ m ∷ [] })
  taken-IsSynced n m rest d out e h = record {
    trace = h.trace;
    arrived = h.arrived;
    handled =
        h.handled
        ∙ ap (λ sent. ok (n.lobby, sent))
            (ap (◌++◌ n.taken) e ∙ sym (append_assoc n.taken (m ∷ []) rest));
    spoken = h.spoken;
    shaped = (subst AreTexts e h.shaped).1;
  }

  cabins-IsSynced :
      (n : Network) (input : Message) (reply : Option Message) (d : Deck) (out : List Sent)
      → IsSynced n
      → handle_services_cabins_input input reply n.deck ≡ ok (d, out)
      → IsSynced (deck_sends c d out n)
  cabins-IsSynced n input reply d out h e =
      sends-IsSynced n d out h (Membership.cabins input reply h.trace e)
        ((cabins-Silent c n.deck input reply).at d out e)

  Step-IsSynced : (n n' : Network) → IsSynced n → Step visit visit_users c n n' → IsSynced n'
  Step-IsSynced n n' h (crew input d out named e) = record {
    trace = Membership.crew input h.trace named e;
    arrived = arrives n out h;
    handled = h.handled;
    spoken = speaks n out (says c input n.deck) h (crew_says c n.deck visit input d out e);
    shaped = h.shaped;
  }
  Step-IsSynced n n' h (cabins input reply d out e) = cabins-IsSynced n input reply d out h e
  Step-IsSynced n n' h (ships input d out e) =
      sends-IsSynced n d out h (Membership.ships input h.trace e)
        ((ships-Silent c n.deck input).at d out e)
  Step-IsSynced n n' h (exchange (by_lobby (lobby_handles m rest l sent e handled))) =
      lobby_handles-IsSynced n m rest l sent e handled h
  Step-IsSynced n n' h (exchange (deck_takes m rest d out e handled)) =
      taken-IsSynced n m rest d out e (cabins-IsSynced n (c ∷ m) none d out h handled)
  Step-IsSynced n n' h (takes_reply input m rest d out e handled) =
      taken-IsSynced n m rest d out e (cabins-IsSynced n input (some (c ∷ m)) d out h handled)

  pub Reach-IsSynced : (n : Network) → Reach visit visit_users c n → IsSynced n
  Reach-IsSynced n start = start-IsSynced
  Reach-IsSynced n' (next {n} r step) = Step-IsSynced n n' (Reach-IsSynced n r) step
