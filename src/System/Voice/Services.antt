-- ===== src/System/Voice/Services.antt =====
-- The handlers of src/server/Shipdeck.cpp for cabins and ships send no text to a cabin and change no
-- client's name.
use pirate_servers.Base.{
  String, ◌≡◌, refl, ap, List, [], ◌∷◌, Option, none, some, arith, ◌++◌, subst, ◌∙◌,
}
use pirate_servers.Base.Map.{Map, index, touch}
use pirate_servers.Base.Outcome.{ok_injective, bind-eq-ok, ok}
use pirate_servers.Wire.{Message}
use pirate_servers.Defines.{ClientId, CabinId, ClientInfo, no_client}
use pirate_servers.Deck.{Deck, Sent, to_server, to_cabins, touch_client}
use pirate_servers.Deck.Keeps.{Gives, Gives-ok, keeps_rules}
use pirate_servers.Deck.Services.{
  add_registered, register, forward, handle_services_cabins_input, handle_services_ships_input,
}
use pirate_servers.Deck.Threads.{ready}
use pirate_servers.Deck.Workers.{services_listener_step, services_cabins_step, services_ships_step}
use pirate_servers.System.Voice.{spoken-append, spoken, IsMute}
use pirate_servers.System.Voice.Handlers.{silent-IsMute, touched-IsMute, to_server-IsMute}

module _ (d : Deck) where
  add_registered_names :
      (reply : Message) (d' : Deck) → add_registered reply d ≡ ok d' → d'.client_map ≡ d.client_map
  unfolding add_registered
  add_registered_names [] d' e = cc
  add_registered_names (g ∷ []) d' e = cc
  add_registered_names (g ∷ t ∷ []) d' e = cc
  add_registered_names (g ∷ t ∷ desc ∷ rest) d' e = ground arith

  replied-IsMute : (c : CabinId) → IsMute d d (to_cabins (c ∷ "SHIP" ∷ "SUCCESS" ∷ c ∷ []) ∷ [])
  replied-IsMute c = record { names = λ k. refl; mute = λ u. refl }

  registered-IsMute :
      (c : CabinId) (reply : Message) (d' : Deck)
      → add_registered reply d ≡ ok d'
      → IsMute d d' (to_cabins (c ∷ "SHIP" ∷ "SUCCESS" ∷ c ∷ []) ∷ [])
  registered-IsMute c reply d' e = record {
    names = λ k.
        ap (λ (m : Map ClientInfo). (index k no_client m).c_username)
          (add_registered_names reply d' e);
    mute = λ u. refl;
  }

  register-IsMute :
      (input : Message) (next : Option Message) → Gives (IsMute d) (register input next d)
  unfolding register
  register-IsMute input none = search (keeps_rules, silent-IsMute, replied-IsMute) depth 20
  register-IsMute input (some reply) =
      search (keeps_rules, silent-IsMute, registered-IsMute) depth 20

  looked_up-IsMute :
      (crew_id : ClientId) (name : String) (out : List Sent)
      → ((u : String) → spoken u out ≡ [])
      → IsMute d
          (touch_client crew_id (record d { crew_name_to_id = touch name "" d.crew_name_to_id }))
          out
  looked_up-IsMute crew_id name out mute = touched-IsMute d crew_id _ out refl mute

  none_spoken : (u : String) → spoken u [] ≡ []
  none_spoken u = refl

  forward-IsMute : (input : Message) → Gives (IsMute d) (forward input d)
  unfolding forward
  forward-IsMute input = search (keeps_rules, looked_up-IsMute, none_spoken) depth 25

  pub cabins-IsMute :
      (input : Message) (next : Option Message)
      → Gives (IsMute d) (handle_services_cabins_input input next d)
  unfolding handle_services_cabins_input
  cabins-IsMute input next =
      search (keeps_rules, register-IsMute, forward-IsMute, silent-IsMute) depth 25

  pub ships-IsMute : (input : Message) → Gives (IsMute d) (handle_services_ships_input input d)
  unfolding handle_services_ships_input
  ships-IsMute input = Gives-ok (d, to_server input ∷ []) (to_server-IsMute d input)

-- One mute step behind another.
then-IsMute :
    {d d' d'' : Deck} (out more : List Sent)
    → IsMute d d' out
    → IsMute d' d'' more
    → IsMute d d'' (out ++ more)
then-IsMute out more first second = record {
  names = λ k. second.names k ∙ first.names k;
  mute = λ u. spoken-append u out more ∙ rw (first.mute u) (second.mute u);
}

still-IsMute : (d : Deck) → IsMute d d []
still-IsMute d = record { names = λ k. refl; mute = λ u. refl }

ships_step-IsMute :
    (reqs : Message) (ships : Option Message) (d d' : Deck) (out : List Sent)
    → services_ships_step reqs ships d ≡ ok (d', out)
    → IsMute d d' out
unfolding services_ships_step
ships_step-IsMute reqs none d d' out e =
    subst (λ (r : Deck × List Sent). IsMute d r.0 r.1) (ok_injective e) (still-IsMute d)
ships_step-IsMute reqs (some m) d d' out e = (ships-IsMute d (reqs ++ m)).at d' out e

cabins_step-IsMute :
    (cabins info_reply : Option Message) (d : Deck) (r : Message × Deck × List Sent)
    → services_cabins_step cabins info_reply d ≡ ok r
    → IsMute d r.1 r.2
unfolding services_cabins_step
cabins_step-IsMute none info_reply d r e =
    subst (λ (x : Message × Deck × List Sent). IsMute d x.1 x.2) (ok_injective e) (still-IsMute d)
cabins_step-IsMute (some reqs) info_reply d r e =
    let (x, returned, last) = bind-eq-ok (handle_services_cabins_input reqs info_reply d) _ e in
    subst (λ (y : Message × Deck × List Sent). IsMute d y.1 y.2) (ok_injective last)
      ((cabins-IsMute d reqs info_reply).at x.0 x.1 returned)

pub services-IsMute :
    (cabins info_reply ships : Option Message) (d d' : Deck) (out : List Sent)
    → services_listener_step (ready cabins info_reply ships) d ≡ ok (d', out)
    → IsMute d d' out
unfolding services_listener_step
services-IsMute cabins info_reply ships d d' out e =
    let (first, e1, later) = bind-eq-ok (services_cabins_step cabins info_reply d) _ e in
    let (second, e2, last) = bind-eq-ok (services_ships_step first.0 ships first.1) _ later in
    subst (λ (r : Deck × List Sent). IsMute d r.0 r.1) (ok_injective last)
      (then-IsMute first.2 second.1 (cabins_step-IsMute cabins info_reply d first e1)
        (ships_step-IsMute first.0 ships first.1 second.0 second.1 e2))
