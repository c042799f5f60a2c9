-- ===== src/System/Voice/Settles.antt =====
-- What a message makes the ship deck (src/server/Shipdeck.cpp) tell the cabins in the name of a user, and
-- whether it knows the user's client behind it, where the client's first message is a login.
use pirate_servers.Base.{
  String, ◌≡◌, refl, sym, ap, subst, ◌∙◌, inl, inr, eq_iff, eq_refl, true, false, List, [], ◌∷◌,
  ◌++◌, arith,
}
use pirate_servers.Base.Map.{Map, contains}
use pirate_servers.Base.Outcome.{ok, ok_injective}
use pirate_servers.Wire.{Message}
use pirate_servers.Defines.{ClientId, ServerId, CabinInfo}
use pirate_servers.Deck.{Deck, Sent}
use pirate_servers.Deck.Crew.{login, handle_crewmate_input}
use pirate_servers.Deck.Workers.{dispatch_server}
use pirate_servers.System.Texts.{texts_of}
use pirate_servers.System.Voice.{spoken}
use pirate_servers.System.Voice.Handlers.{login_names, login_mute}
use pirate_servers.System.Voice.Settled.{message-SameName, message-Steady, login_known}
use pirate_servers.System.Voice.Theirs.{is_apart, from_client, heard, Others}
use pirate_servers.System.Voice.Exact.{
  is_login, begins_with_login, IsIn, Standing, IdsKnown, mine-cases, own-from, not_own, none_spoken,
  own_spoken,
}

module _ (s_id : ServerId) (c_id : ClientId) (u : String) (visit : Map CabinInfo → Map CabinInfo)
    (d : Deck) (others : Others s_id c_id u d) where
  abbrev Settles : List Message → Message → Deck → List Sent → Type 0
  Settles sent_so_far m d' out =
      Standing s_id c_id u d' (sent_so_far ++ from_client s_id c_id u (m ∷ []))
      × IdsKnown s_id c_id u d'
      × (spoken u out ≡ heard s_id c_id u (m ∷ []))

  first_login :
      (password : String) (rest : Message) (d' : Deck) (out : List Sent)
      → contains c_id d.client_map ≡ false
      → dispatch_server visit (s_id ∷ c_id ∷ "CREW" ∷ "LOGIN" ∷ u ∷ password ∷ rest) d
        ≡ ok (d', out)
      → IsIn s_id c_id u d' × (spoken u out ≡ [])
  unfolding dispatch_server handle_crewmate_input
  first_login password rest d' out unknown e =
      let now : ok (login visit s_id c_id u password d) ≡ ok (d', out) = rw unknown at e in
      subst (λ (r : Deck × List Sent). IsIn s_id c_id u r.0 × (spoken u r.1 ≡ []))
        (ok_injective now)
        (
          (
            login_known visit s_id c_id u password d,
            login_names visit s_id c_id u password d c_id ∙ rw (eq_refl c_id) refl,
          ),
          login_mute visit s_id c_id u password d u,
        )

  -- The first message of the client, a login.
  login-Settles :
      (x : Message) (d' : Deck) (out : List Sent)
      → contains c_id d.client_map ≡ false
      → is_login u x ≡ true
      → dispatch_server visit (s_id ∷ c_id ∷ x) d ≡ ok (d', out)
      → IsIn s_id c_id u d' × (spoken u out ≡ heard s_id c_id u ((s_id ∷ c_id ∷ x) ∷ []))
  login-Settles [] d' out unknown first e = cc
  login-Settles (sender ∷ []) d' out unknown first e = cc
  login-Settles (sender ∷ kind ∷ []) d' out unknown first e = cc
  login-Settles (sender ∷ kind ∷ name ∷ []) d' out unknown first e = cc
  login-Settles (sender ∷ kind ∷ name ∷ password ∷ rest) d' out unknown first e =
      let x = sender ∷ kind ∷ name ∷ password ∷ rest in
      let from : sender ≡ "CREW" = (eq_iff sender "CREW").0 (ground arith) in
      let is_first : kind ≡ "LOGIN" = (eq_iff kind "LOGIN").0 (ground arith) in
      let named : name ≡ u = (eq_iff name u).0 (ground arith) in
      let whole : x ≡ "CREW" ∷ "LOGIN" ∷ u ∷ password ∷ rest = rw (from, is_first, named) refl in
      let (inside, quiet) = first_login password rest d' out unknown (
        subst (λ (y : Message). dispatch_server visit (s_id ∷ c_id ∷ y) d ≡ ok (d', out)) whole
          e) in
      (
        inside,
        quiet
            ∙ sym (
                ap (texts_of "CREW") (own-from s_id c_id u x)
                ∙ ap (λ (y : Message). texts_of "CREW" (y ∷ [])) whole),
      )

  known-Settles :
      (sent_so_far : List Message) (m : Message) (d' : Deck) (out : List Sent)
      → IsIn s_id c_id u d
      → is_apart s_id c_id u m ≡ true
      → dispatch_server visit m d ≡ ok (d', out)
      → Settles sent_so_far m d' out
  known-Settles sent_so_far m d' out inside apart e =
      let steady = (message-Steady c_id visit d m (λ crew_id at same. inside.0)).at d' out e in
      let name = (message-SameName c_id visit d m inside.0).at d' out e in
      let known = steady.keys ∙ inside.0 in
      (
        inr (known, name ∙ inside.1),
        λ n same. known,
        elim (mine-cases s_id c_id u m) [
          | inl none ↦
              none_spoken s_id c_id u visit d others m d' out apart e (ap (texts_of "CREW") none)
          | inr (x, own) ↦
              subst (λ (n : Message). spoken u out ≡ heard s_id c_id u (n ∷ [])) (sym own)
                (own_spoken s_id c_id u visit d others x d' out inside
                  (subst (λ (n : Message). is_apart s_id c_id u n ≡ true) own apart)
                  (subst (λ (n : Message). dispatch_server visit n d ≡ ok (d', out)) own e))
        ],
      )

  pub message-Settles :
      (sent_so_far : List Message) (m : Message) (d' : Deck) (out : List Sent)
      → IdsKnown s_id c_id u d
      → Standing s_id c_id u d sent_so_far
      → is_apart s_id c_id u m ≡ true
      → begins_with_login u (sent_so_far ++ from_client s_id c_id u (m ∷ [])) ≡ true
      → dispatch_server visit m d ≡ ok (d', out)
      → Settles sent_so_far m d' out
  message-Settles sent_so_far m d' out ids (inr inside) apart begins e =
      known-Settles sent_so_far m d' out inside apart e
  message-Settles sent_so_far m d' out ids (inl (nothing, unknown)) apart begins e =
      elim (mine-cases s_id c_id u m) [
        | inl none ↦
            let steady =
              (message-Steady c_id visit d m
                  (λ crew_id at same. absurd (not_own s_id c_id u m none apart crew_id at same))).at
                d' out e in
            (
              inl (rw (nothing, none) refl, steady.keys ∙ unknown),
              λ name same. steady.keys ∙ ids name (steady.ids name same),
              none_spoken s_id c_id u visit d others m d' out apart e (ap (texts_of "CREW") none),
            )
        | inr (x, own) ↦
            let first : is_login u x ≡ true =
              ap (begins_with_login u) (
                sym (own-from s_id c_id u x)
                ∙ ap (λ (n : Message). from_client s_id c_id u (n ∷ [])) (sym own)
                ∙ ap (λ (l : List Message). l ++ from_client s_id c_id u (m ∷ [])) (sym nothing))
              ∙ begins in
            let (inside, spoken_out) =
              login-Settles x d' out unknown first
                (subst (λ (n : Message). dispatch_server visit n d ≡ ok (d', out)) own e) in
            (
              inr inside,
              λ name same. inside.0,
              spoken_out ∙ ap (λ (n : Message). heard s_id c_id u (n ∷ [])) (sym own),
            )
      ]
