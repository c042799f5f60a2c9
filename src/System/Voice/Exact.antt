-- ===== src/System/Voice/Exact.antt =====
-- What a message makes the ship deck (src/server/Shipdeck.cpp) tell the cabins in the name of a user whose
-- client's first message is a login by this name.
use mathlib.Core.List.{Sublist, eq-nil_of_sublist-nil, append-nil}
use pirate_servers.Base.{
  String, ◌≡◌, ◌≢◌, refl, sym, ap, ap₂, subst, ◌∙◌, inl, inr, ◌⊎◌, eq_iff, eq_refl, ◌==◌, ◌&&◌,
  Bool, true, false, Bool-cases, List, [], ◌∷◌, arith,
}
use pirate_servers.Base.Map.{Map, contains, index}
use pirate_servers.Base.Outcome.{ok, ok_injective}
use pirate_servers.Wire.{Message, frame}
use pirate_servers.Defines.{ClientId, ServerId, CabinInfo}
use pirate_servers.Deck.{Deck, Sent, to_cabins, client_at}
use pirate_servers.Deck.Crew.{handle_crewmate_input, handle_crewmate_input_text}
use pirate_servers.Deck.Workers.{dispatch_server}
use pirate_servers.System.Follow.{name_of}
use pirate_servers.System.Texts.{texts_in, texts_of}
use pirate_servers.System.Voice.{spoken}
use pirate_servers.Deck.Known.{KnownIf}
use pirate_servers.System.Voice.Theirs.{is_apart, from_client, heard, Others, message_speaks}

abbrev pub is_login : String → Message → Bool
is_login u (sender ∷ kind ∷ name ∷ password ∷ rest) =
    (sender == "CREW") && ((kind == "LOGIN") && (name == u))
is_login u _ = false

-- Whether the first of the messages, if there is one, is a login by the name.
abbrev pub begins_with_login : String → List Message → Bool
begins_with_login u [] = true
begins_with_login u (m ∷ messages) = is_login u m

module _ (s_id : ServerId) (c_id : ClientId) (u : String) where
  abbrev pub IsIn : Deck → Type 0
  IsIn d = (contains c_id d.client_map ≡ true) × (name_of c_id d ≡ u)

  -- The client has sent nothing yet and is not known, or is known by the name.
  abbrev pub Standing : Deck → List Message → Type 0
  Standing d sent_so_far = ((sent_so_far ≡ []) × (contains c_id d.client_map ≡ false)) ⊎ IsIn d

  abbrev pub IdsKnown : Deck → Type 0
  IdsKnown d = (name : String) → KnownIf c_id (index name "" d.crew_name_to_id) d

  pub mine-cases :
      (m : Message)
      → (from_client s_id c_id u (m ∷ []) ≡ []) ⊎ ((x : Message) × (m ≡ s_id ∷ c_id ∷ x))
  mine-cases [] = inl refl
  mine-cases (s ∷ []) = elim (Bool-cases (s == s_id)) [
    | inl mine ↦ inl (rw mine refl)
    | inr other ↦ inl (rw other refl)
  ]
  mine-cases (s ∷ c ∷ x) = elim (Bool-cases (s == s_id)) [
    | inr other ↦ inl (rw other refl)
    | inl mine ↦ elim (Bool-cases (c == c_id)) [
      | inr another ↦ inl (rw (mine, another) refl)
      | inl own ↦
          inr
            (x, ap₂ (λ (a b : String). a ∷ b ∷ x) ((eq_iff s s_id).0 mine) ((eq_iff c c_id).0 own))
    ]
  ]

  pub own-from : (x : Message) → from_client s_id c_id u ((s_id ∷ c_id ∷ x) ∷ []) ≡ x ∷ []
  own-from x = rw (eq_refl s_id, eq_refl c_id) refl

  pub not_own :
      (m : Message)
      → from_client s_id c_id u (m ∷ []) ≡ []
      → is_apart s_id c_id u m ≡ true
      → (crew_id : ClientId) → frame m 1 ≡ ok crew_id
      → crew_id ≢ c_id
  not_own [] none apart crew_id at same = cc
  not_own (s ∷ []) none apart crew_id at same = cc
  not_own (s ∷ c ∷ x) none apart crew_id at same =
      let own : (c == c_id) ≡ true = (eq_iff c c_id).1 (ok_injective at ∙ same) in
      let through : (s == s_id) ≡ true = rw own at apart in
      let mine : x ∷ [] ≡ [] = rw (through, own) at none in cc

  module _ (visit : Map CabinInfo → Map CabinInfo) (d : Deck) (others : Others s_id c_id u d) where
    pub none_spoken :
        (m : Message) (d' : Deck) (out : List Sent)
        → is_apart s_id c_id u m ≡ true
        → dispatch_server visit m d ≡ ok (d', out)
        → heard s_id c_id u (m ∷ []) ≡ []
        → spoken u out ≡ heard s_id c_id u (m ∷ [])
    none_spoken m d' out apart e quiet =
        eq-nil_of_sublist-nil (
          subst (Sublist (spoken u out)) quiet
            (message_speaks s_id c_id u visit d others m d' out apart e).1)
        ∙ sym quiet

    text_spoken :
        (d' : Deck) (out : List Sent) (text : String) (rest : Message)
        → IsIn d
        → dispatch_server visit (s_id ∷ c_id ∷ "CREW" ∷ "TEXT" ∷ text ∷ rest) d ≡ ok (d', out)
        → spoken u out ≡ text ∷ []
    unfolding dispatch_server handle_crewmate_input handle_crewmate_input_text
    text_spoken d' out text rest inside e =
        let now : ok (
          d,
          to_cabins ((client_at c_id d).curr_cabin ∷ "TEXT" ∷ name_of c_id d ∷ text ∷ []) ∷ [],
        )
            ≡ ok (d', out) =
          rw inside.0 at e in
        sym (ap (λ (r : Deck × List Sent). spoken u r.1) (ok_injective now))
        ∙ rw (inside.1, eq_refl u) refl

    own_quiet :
        (x : Message) (d' : Deck) (out : List Sent)
        → texts_in "CREW" x ≡ []
        → is_apart s_id c_id u (s_id ∷ c_id ∷ x) ≡ true
        → dispatch_server visit (s_id ∷ c_id ∷ x) d ≡ ok (d', out)
        → spoken u out ≡ heard s_id c_id u ((s_id ∷ c_id ∷ x) ∷ [])
    own_quiet x d' out quiet apart e =
        none_spoken (s_id ∷ c_id ∷ x) d' out apart e
          (ap (texts_of "CREW") (own-from x) ∙ append-nil (texts_in "CREW" x) ∙ quiet)

    pub own_spoken :
        (x : Message) (d' : Deck) (out : List Sent)
        → IsIn d
        → is_apart s_id c_id u (s_id ∷ c_id ∷ x) ≡ true
        → dispatch_server visit (s_id ∷ c_id ∷ x) d ≡ ok (d', out)
        → spoken u out ≡ heard s_id c_id u ((s_id ∷ c_id ∷ x) ∷ [])
    own_spoken [] d' out inside apart e = own_quiet [] d' out refl apart e
    own_spoken (sender ∷ []) d' out inside apart e = own_quiet (sender ∷ []) d' out refl apart e
    own_spoken (sender ∷ kind ∷ []) d' out inside apart e =
        own_quiet (sender ∷ kind ∷ []) d' out refl apart e
    own_spoken (sender ∷ kind ∷ text ∷ rest) d' out inside apart e =
        let x = sender ∷ kind ∷ text ∷ rest in
        elim (Bool-cases ((sender == "CREW") && (kind == "TEXT"))) [
          | inr silent ↦ own_quiet x d' out (rw silent refl) apart e
          | inl speaks ↦
              let from : sender ≡ "CREW" = (eq_iff sender "CREW").0 (ground arith) in
              let is_text : kind ≡ "TEXT" = (eq_iff kind "TEXT").0 (ground arith) in
              text_spoken d' out text rest inside (
                subst
                  (λ (k : String).
                    dispatch_server visit (s_id ∷ c_id ∷ "CREW" ∷ k ∷ text ∷ rest) d ≡ ok (d', out))
                  is_text
                  (subst
                    (λ (k : String).
                      dispatch_server visit (s_id ∷ c_id ∷ k ∷ kind ∷ text ∷ rest) d ≡ ok (d', out))
                    from e))
              ∙ sym (ap (texts_of "CREW") (own-from x) ∙ rw speaks refl)
        ]
