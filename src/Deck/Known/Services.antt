-- ===== src/Deck/Known/Services.antt =====
-- Each round of the services (src/server/Shipdeck.cpp) leaves the ship deck knowing a client as before, if
-- the client is known whenever a name leads to it.
use pirate_servers.Base.{String, ◌≡◌, refl, sym, ap, subst, ◌∙◌, List, [], ◌∷◌, Option, none, some}
use pirate_servers.Base.Map.{index, index-touch, touch}
use pirate_servers.Base.Outcome.{ok, ok_injective, bind-eq-ok}
use pirate_servers.Wire.{Message}
use pirate_servers.Defines.{ClientId}
use pirate_servers.Deck.{Deck, Sent, touch_client}
use pirate_servers.Deck.Keeps.{Gives, keeps_rules}
use pirate_servers.Deck.Services.{
  add_registered, register, forward, handle_services_cabins_input, handle_services_ships_input,
}
use pirate_servers.Deck.Threads.{ready}
use pirate_servers.Deck.Workers.{services_listener_step, services_cabins_step, services_ships_step}
use pirate_servers.Deck.Known.{IsSteady, KnownIf, still-IsSteady, touch-IsSteady}

module _ (c_id : ClientId) (d : Deck)
    (ids : (name : String) → KnownIf c_id (index name "" d.crew_name_to_id) d) where
  abbrev Steady : Deck → List Sent → Type 0
  Steady d' out = IsSteady c_id d d'

  registered-IsSteady :
      (reply : Message) (d' : Deck) → add_registered reply d ≡ ok d' → IsSteady c_id d d'
  unfolding add_registered
  registered-IsSteady [] d' e = cc
  registered-IsSteady (g ∷ []) d' e = cc
  registered-IsSteady (g ∷ t ∷ []) d' e = cc
  registered-IsSteady (g ∷ t ∷ desc ∷ rest) d' e =
      subst (IsSteady c_id d) (ok_injective e) (record { keys = refl; ids = λ name e. e })

  forwarded-IsSteady :
      (name : String)
      → IsSteady c_id d (
          touch_client
            (index name "" d.crew_name_to_id)
            (record d { crew_name_to_id = touch name "" d.crew_name_to_id }))
  forwarded-IsSteady name =
      let looked_up = touch-IsSteady c_id (index name "" d.crew_name_to_id) d (ids name) in
      record {
        keys = looked_up.keys;
        ids = λ other e. sym (index-touch name other "" d.crew_name_to_id) ∙ e;
      }

  register-Steady : (input : Message) (next : Option Message) → Gives Steady (register input next d)
  unfolding register
  register-Steady input none = search (keeps_rules, still-IsSteady c_id) depth 20
  register-Steady input (some reply) =
      search (keeps_rules, still-IsSteady c_id, registered-IsSteady) depth 20

  forward-Steady : (input : Message) → Gives Steady (forward input d)
  unfolding forward
  forward-Steady input = search (keeps_rules, forwarded-IsSteady) depth 25

  cabins-Steady :
      (input : Message) (next : Option Message)
      → Gives Steady (handle_services_cabins_input input next d)
  unfolding handle_services_cabins_input
  cabins-Steady input next =
      search (keeps_rules, register-Steady, forward-Steady, still-IsSteady c_id) depth 25

  cabins_step-IsSteady :
      (cabins info_reply : Option Message) (r : Message × Deck × List Sent)
      → services_cabins_step cabins info_reply d ≡ ok r
      → IsSteady c_id d r.1
  unfolding services_cabins_step
  cabins_step-IsSteady none info_reply r e =
      subst (λ (x : Message × Deck × List Sent). IsSteady c_id d x.1) (ok_injective e)
        (still-IsSteady c_id d)
  cabins_step-IsSteady (some reqs) info_reply r e =
      let (x, returned, last) = bind-eq-ok (handle_services_cabins_input reqs info_reply d) _ e in
      subst (λ (y : Message × Deck × List Sent). IsSteady c_id d y.1) (ok_injective last)
        ((cabins-Steady reqs info_reply).at x.0 x.1 returned)

  ships_step-same :
      (reqs : Message) (ships : Option Message) (d1 d' : Deck) (out : List Sent)
      → services_ships_step reqs ships d1 ≡ ok (d', out)
      → d1 ≡ d'
  unfolding services_ships_step handle_services_ships_input
  ships_step-same reqs none d1 d' out e = ap (λ x. x.0) (ok_injective e)
  ships_step-same reqs (some m) d1 d' out e = ap (λ x. x.0) (ok_injective e)

  pub services-IsSteady :
      (cabins info_reply ships : Option Message) (d' : Deck) (out : List Sent)
      → services_listener_step (ready cabins info_reply ships) d ≡ ok (d', out)
      → IsSteady c_id d d'
  unfolding services_listener_step
  services-IsSteady cabins info_reply ships d' out e =
      let (first, e1, later) = bind-eq-ok (services_cabins_step cabins info_reply d) _ e in
      let (second, e2, last) = bind-eq-ok (services_ships_step first.0 ships first.1) _ later in
      subst (IsSteady c_id d)
        (ships_step-same first.0 ships first.1 second.0 second.1 e2
          ∙ ap (λ x. x.0) (ok_injective last))
        (cabins_step-IsSteady cabins info_reply first e1)
