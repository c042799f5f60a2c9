-- ===== src/Deck/Loops.antt =====
-- The loops of src/server/Shipdeck.cpp and the decks that they lead to.
use pirate_servers.Base.{
  ◌≡◌, subst, Bool, true, false, Option, none, some, List, [], ◌∷◌, ◌++◌, arith,
}
use pirate_servers.Base.Map.{Map}
use pirate_servers.Base.Outcome.{ok, bind-eq-ok}
use pirate_servers.Wire.{Message}
use pirate_servers.Defines.{ClientId, CabinInfo}
use pirate_servers.Deck.{Deck, Sent}
use pirate_servers.Deck.Crew.{handle_crewmate_input}
use pirate_servers.Deck.Services.{handle_services_cabins_input, handle_services_ships_input}
use pirate_servers.Deck.Reach.{Reach}
use pirate_servers.Deck.Placed.{IsPlaced, Reach-IsPlaced}
use pirate_servers.Deck.Keeps.{Keeps, Gives-bind, Keeps-after, Gives-ok, Gives-if, keeps_rules}
use pirate_servers.Deck.Workers.{
  ServerRound, ServicesRound, dispatch_server, server_listener_step, server_listener_worker,
  services_cabins_step, services_ships_step, services_listener_step, services_listener_worker,
}

-- What every handler keeps of the deck.
pub record IsKept {ℓ} (visit : Map CabinInfo → Map CabinInfo) (P : Deck → Type ℓ) : Type ℓ where
  pub crew : (input : Message) (d : Deck) → P d → Keeps P (handle_crewmate_input visit input d)
  pub cabins :
      (input : Message) (next : Option Message) (d : Deck)
      → P d
      → Keeps P (handle_services_cabins_input input next d)
  pub ships : (input : Message) (d : Deck) → P d → Keeps P (handle_services_ships_input input d)

pub Reach-IsKept : (visit : Map CabinInfo → Map CabinInfo) → IsKept visit (Reach visit)
Reach-IsKept visit = record {
  crew = λ input d r. record { at = λ d' sent e. Reach.crew input r e };
  cabins = λ input next d r. record { at = λ d' sent e. Reach.cabins input next r e };
  ships = λ input d r. record { at = λ d' sent e. Reach.ships input r e };
}

module _ {ℓ} {visit : Map CabinInfo → Map CabinInfo} {P : Deck → Type ℓ} (k : IsKept visit P) where
  pub dispatch_server-Keeps :
      (reqs : Message) (d : Deck) → P d → Keeps P (dispatch_server visit reqs d)
  unfolding dispatch_server
  dispatch_server-Keeps reqs d h = search (keeps_rules, k.crew) depth 20

  server_step-Keeps :
      (ready : Option Message) (d : Deck) → P d → Keeps P (server_listener_step visit ready d)
  unfolding server_listener_step
  server_step-Keeps none d h = search keeps_rules
  server_step-Keeps (some reqs) d h = dispatch_server-Keeps reqs d h

  cabins_step-Keeps :
      (ready info_reply : Option Message) (d : Deck)
      → P d
      → (reqs : Message) (d' : Deck) (out : List Sent)
      → services_cabins_step ready info_reply d ≡ ok (reqs, d', out)
      → P d'
  unfolding services_cabins_step
  cabins_step-Keeps none info_reply d h reqs d' out e = subst P (ground arith) h
  cabins_step-Keeps (some m) info_reply d h reqs d' out e =
      let (p, handled, same) = bind-eq-ok (handle_services_cabins_input m info_reply d) _ e in
      subst P (ground arith) ((k.cabins m info_reply d h).at p.0 p.1 handled)

  ships_step-Keeps :
      (reqs : Message) (ready : Option Message) (d : Deck)
      → P d
      → Keeps P (services_ships_step reqs ready d)
  unfolding services_ships_step
  ships_step-Keeps reqs none d h = search keeps_rules
  ships_step-Keeps reqs (some m) d h = k.ships (reqs ++ m) d h

  pub services_step-Keeps :
      (round : ServicesRound) (d : Deck) → P d → Keeps P (services_listener_step round d)
  unfolding services_listener_step
  services_step-Keeps round d h =
      Gives-bind (services_cabins_step round.cabins round.info_reply d) _ λ x e.
        Keeps-after (services_ships_step x.0 round.ships x.1) x.2 (
          ships_step-Keeps x.0 round.ships x.1
            (cabins_step-Keeps round.cabins round.info_reply d h x.0 x.1 x.2 e))

module _ (visit : Map CabinInfo → Map CabinInfo) where
  server_listener_worker-Keeps :
      (rounds : List ServerRound) (d : Deck)
      → Reach visit d
      → Keeps (Reach visit) (server_listener_worker visit rounds d)
  unfolding server_listener_worker
  server_listener_worker-Keeps [] d r = search keeps_rules
  server_listener_worker-Keeps (round ∷ rounds) d r =
      split round.alive round.control (server_listener_worker-Keeps rounds)
    where
      split :
          (alive control : Bool)
          → ((d' : Deck)
              → Reach visit d'
              → Keeps (Reach visit) (server_listener_worker visit rounds d'))
          → Keeps (Reach visit) (
              server_listener_worker visit
                (record { alive = alive; server = round.server; control = control } ∷ rounds)
                d)
      split false control later = search keeps_rules
      split true control later = Gives-bind (server_listener_step visit round.server d) _ λ x e.
          let here = (server_step-Keeps (Reach-IsKept visit) round.server d r).at x.0 x.1 e in
          Gives-if control _ _ (λ _. Gives-ok (x.0, x.1) here)
            (λ _. Keeps-after (server_listener_worker visit rounds x.0) x.1 (later x.0 here))

  services_listener_worker-Keeps :
      (rounds : List ServicesRound) (d : Deck)
      → Reach visit d
      → Keeps (Reach visit) (services_listener_worker rounds d)
  unfolding services_listener_worker services_listener_step
  services_listener_worker-Keeps [] d r = search keeps_rules
  services_listener_worker-Keeps (round ∷ rounds) d r =
      split round.alive round.control (services_listener_worker-Keeps rounds)
    where
      split :
          (alive control : Bool)
          → ((d' : Deck)
              → Reach visit d'
              → Keeps (Reach visit) (services_listener_worker rounds d'))
          → Keeps (Reach visit) (
              services_listener_worker
                (record round { alive = alive; control = control } ∷ rounds)
                d)
      split false control later = search keeps_rules
      split true control later = Gives-bind (services_listener_step round d) _ λ x e.
          let here = (services_step-Keeps (Reach-IsKept visit) round d r).at x.0 x.1 e in
          Gives-if control _ _ (λ _. Gives-ok (x.0, x.1) here)
            (λ _. Keeps-after (services_listener_worker rounds x.0) x.1 (later x.0 here))

  -- From a deck that messages have led to, a run of the loop for the servers and then one of the loop
  -- for the services, over any rounds that they handle without a fault, lead to a deck in which
  -- every client is in no cabin or in a registered one.
  pub listeners_keep-IsPlaced :
      (k : ClientId) (server_rounds : List ServerRound) (services_rounds : List ServicesRound)
      (d d' d'' : Deck) (out more : List Sent)
      → Reach visit d
      → server_listener_worker visit server_rounds d ≡ ok (d', out)
      → services_listener_worker services_rounds d' ≡ ok (d'', more)
      → IsPlaced k d''
  listeners_keep-IsPlaced k server_rounds services_rounds d d' d'' out more r e e' =
      let mid = (server_listener_worker-Keeps server_rounds d r).at d' out e in
      Reach-IsPlaced k ((services_listener_worker-Keeps services_rounds d' mid).at d'' more e')
