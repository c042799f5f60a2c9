-- ===== src/System/Registration.antt =====
-- How a cabin registers: `Cabin::authenticate_with_server` of src/server/Cabin.cpp against
-- `ShipDeck::handle_services_cabins_input` of src/server/Shipdeck.cpp.
use pirate_servers.Base.{
  String, ◌≡◌, refl, some, [], ◌∷◌, true, false, arith, ◌==◌, eq_iff, if◌then◌else◌, ap,
}
use pirate_servers.Base.Map.{
  contains, lookup, insert, lookup-insert, lookup-insert_self, or_default,
}
use pirate_servers.Base.Outcome.{ok}
use pirate_servers.Wire.{Message}
use pirate_servers.Defines.{cabin_info}
use pirate_servers.Defines.Decimal.{to_string}
use pirate_servers.Deck.{Deck, to_cabins, cabin_named}
use pirate_servers.Deck.Services.{register, add_registered, handle_services_cabins_input}
use pirate_servers.Cabin.{Cabin, auth_msg, new_cabin}

-- A cabin whose identity is not registered yet and the ship deck, each with what the other sends:
-- the cabin is alive under its identity, the deck has its title and description and no players, and
-- the title leads to the cabin.
pub registration :
    (id title description : String) (d : Deck)
    → contains id d.cabin_id_to_info ≡ false
    → let reply = "SHIP" ∷ "SUCCESS" ∷ id ∷ [] in
      let named = record (cabin_info title description) { g_id = id } in
      (c : Cabin) × (info : Message) × (d' : Deck) × (new_cabin title description reply
        ≡ ok (c, auth_msg ∷ info ∷ []))
      × (c.alive ≡ true)
      × (c.info ≡ named)
      × (handle_services_cabins_input (id ∷ auth_msg) (some (id ∷ info)) d
          ≡ ok (d', to_cabins (id ∷ reply) ∷ []))
      × (lookup id d'.cabin_id_to_info ≡ some named)
      × (cabin_named title d' ≡ id)
unfolding new_cabin handle_services_cabins_input register add_registered
registration id title description d fresh =
    let named = record (cabin_info title description) { g_id = id } in
    let added = record d {
      cabin_name_to_id = insert title id d.cabin_name_to_id;
      cabin_id_to_info = insert id named d.cabin_id_to_info;
      default_cabin = if d.default_cabin == "" then title else d.default_cabin;
    } in
    (
      record { info = named; alive = true },
      title ∷ description ∷ to_string 0 ∷ [],
      added,
      refl,
      refl,
      refl,
      rw fresh,
      lookup-insert_self id named d.cabin_id_to_info,
      ap (or_default "") (lookup-insert_self title id d.cabin_name_to_id),
    )

-- The first message that arrives after a registration is taken for the new cabin's, whoever sent it:
-- if another cabin, registered before, sends to a user at that time, that cabin is entered anew, with
-- the title SEND, the kind of its message as description and no players; the message is lost, and the
-- new cabin, which has its success, is not known.
pub registration_takes_any_reply :
    (id other m_type : String) (rest : Message) (d : Deck)
    → contains id d.cabin_id_to_info ≡ false
    → contains other d.cabin_id_to_info ≡ true
    → (d' : Deck) × (handle_services_cabins_input
          (id ∷ auth_msg)
          (some (other ∷ "SEND" ∷ m_type ∷ rest))
          d
        ≡ ok (d', to_cabins (id ∷ "SHIP" ∷ "SUCCESS" ∷ id ∷ []) ∷ []))
      × (lookup other d'.cabin_id_to_info
          ≡ some (record (cabin_info "SEND" m_type) { g_id = other }))
      × (contains id d'.cabin_id_to_info ≡ false)
      × (cabin_named "SEND" d' ≡ other)
unfolding handle_services_cabins_input register add_registered
registration_takes_any_reply id other m_type rest d fresh known =
    let entry = record (cabin_info "SEND" m_type) { g_id = other } in
    let added = record d {
      cabin_name_to_id = insert "SEND" other d.cabin_name_to_id;
      cabin_id_to_info = insert other entry d.cabin_id_to_info;
      default_cabin = if d.default_cabin == "" then "SEND" else d.default_cabin;
    } in
    (
      added,
      rw fresh,
      lookup-insert_self other entry d.cabin_id_to_info,
      ground (arith, eq_iff other id, lookup-insert other id entry d.cabin_id_to_info),
      ap (or_default "") (lookup-insert_self "SEND" other d.cabin_name_to_id),
    )
