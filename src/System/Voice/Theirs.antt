-- ===== src/System/Voice/Theirs.antt =====
-- The ship deck (src/server/Shipdeck.cpp) speaks in the name of a user only for that user's client.
use mathlib.Core.List.{Sublist, nil-sublist}
use mathlib.Core.List.Sublist as Sublists
use pirate_servers.Base.{
  String, ◌≡◌, ◌≢◌, refl, sym, subst, ◌∙◌, String-cases, inl, inr, eq_iff, ◌==◌, ◌&&◌, not, Bool,
  true, false, Bool-cases, List, [], ◌∷◌, arith, if◌then◌else◌,
}
use pirate_servers.Base.Map.{Map, contains}
use pirate_servers.Base.Outcome.{Outcome, ok, ok_injective, bind-eq-ok}
use pirate_servers.Wire.{Message, frame}
use pirate_servers.Defines.{ClientId, ServerId, CabinInfo}
use pirate_servers.Deck.{Deck, Sent, to_cabins, client_at}
use pirate_servers.Deck.Crew.{
  login, handle_crewmate_input, handle_crewmate_input_command, handle_crewmate_input_text,
}
use pirate_servers.Deck.Workers.{dispatch_server}
use pirate_servers.System.Follow.{name_of}
use pirate_servers.System.Texts.{behind, texts_of}
use pirate_servers.System.Voice.{spoken, IsMute}
use pirate_servers.System.Voice.Handlers.{login_names, login_mute, command-IsMute, touch_names}

-- A login by a name, behind the identities.
abbrev pub logs_in_as : String → Message → Bool
logs_in_as u (sender ∷ kind ∷ name ∷ rest) = (kind == "LOGIN") && (name == u)
logs_in_as u _ = false

module _ (s_id : ServerId) (c_id : ClientId) (u : String) where
  -- A message of the client comes through its server, and no other client logs in by the user's name.
  abbrev pub is_apart : Message → Bool
  is_apart (server ∷ crew ∷ m) = if crew == c_id then server == s_id else not (logs_in_as u m)
  is_apart _ = true

  abbrev pub all_apart : List Message → Bool
  all_apart [] = true
  all_apart (m ∷ served) = is_apart m && all_apart served

  -- The messages of the client, through its server, and the texts among them.
  abbrev pub from_client : List Message → List Message
  from_client served = behind c_id (behind s_id served)

  abbrev pub heard : List Message → List String
  heard served = texts_of "CREW" (from_client served)

  -- No other client has the user's name.
  abbrev pub Others : Deck → Type 0
  Others d = (k : ClientId) → k ≢ c_id → name_of k d ≢ u

  abbrev pub Goes : Message → Deck → List Sent → Type 0
  Goes m d' out = Others d' × Sublist (spoken u out) (heard (m ∷ []))

  module _ (visit : Map CabinInfo → Map CabinInfo) (d : Deck) (others : Others d) where
    mute-Goes : (m : Message) (d' : Deck) (out : List Sent) → IsMute d d' out → Goes m d' out
    mute-Goes m d' out quiet = (
      λ k other same. others k other (sym (quiet.names k) ∙ same),
      subst (λ (l : List String). Sublist l (heard (m ∷ []))) (sym (quiet.mute u)) (nil-sublist _),
    )

    stays :
        (m : Message) (d' : Deck) (out : List Sent)
        → ◌≡◌ {A = Outcome (Deck × List Sent)} (ok (d, [])) (ok (d', out))
        → Goes m d' out
    stays m d' out e =
        subst (λ (r : Deck × List Sent). Goes m r.0 r.1) (ok_injective e) (others, nil-sublist _)

    module _ (server crew sender kind text : String) (rest : Message) where
      abbrev input : Message
      input = server ∷ crew ∷ sender ∷ kind ∷ text ∷ rest

      own_text :
          is_apart input ≡ true
          → (sender == "CREW") ≡ true
          → (kind == "TEXT") ≡ true
          → crew ≡ c_id
          → heard (input ∷ []) ≡ text ∷ []
      own_text apart from is_text own =
          let mine : (crew == c_id) ≡ true = (eq_iff crew c_id).1 own in
          let through : (server == s_id) ≡ true = ground arith in
          rw (through, mine, from, is_text) refl

      said :
          (cab_id : String)
          → is_apart input ≡ true
          → (sender == "CREW") ≡ true
          → (kind == "TEXT") ≡ true
          → Sublist
              (spoken u (to_cabins (cab_id ∷ "TEXT" ∷ name_of crew d ∷ text ∷ []) ∷ []))
              (heard (input ∷ []))
      said cab_id apart from is_text = elim (Bool-cases (name_of crew d == u)) [
        | inr unnamed ↦ rw unnamed (nil-sublist _)
        | inl named ↦ elim (String-cases crew c_id) [
          | inl own ↦ rw (own_text apart from is_text own, named) (Sublists.refl (text ∷ []))
          | inr other ↦ absurd (others crew other ((eq_iff (name_of crew d) u).0 named))
        ]
      ]

      text_speaks :
          (d' : Deck) (out : List Sent)
          → is_apart input ≡ true
          → (sender == "CREW") ≡ true
          → (kind == "TEXT") ≡ true
          → handle_crewmate_input_text visit input d ≡ ok (d', out)
          → Goes input d' out
      unfolding handle_crewmate_input_text
      text_speaks d' out apart from is_text e =
          subst (λ (r : Deck × List Sent). Goes input r.0 r.1) (ok_injective e)
            (
              λ k other same. others k other (sym (touch_names d crew d refl k) ∙ same),
              said (client_at crew d).curr_cabin apart from is_text,
            )

      not_theirs : is_apart input ≡ true → (kind == "LOGIN") ≡ true → crew ≢ c_id → text ≢ u
      not_theirs apart first other theirs =
          let named : (text == u) ≡ true = (eq_iff text u).1 theirs in
          ground (arith, eq_iff crew c_id)

      login_speaks :
          (password : String)
          → is_apart input ≡ true
          → (kind == "LOGIN") ≡ true
          → let r = login visit server crew text password d in Goes input r.0 r.1
      login_speaks password apart first =
          let names = login_names visit server crew text password d in
          (
            λ k other same. elim (String-cases crew k) [
              | inl own ↦
                  not_theirs apart first (λ theirs. other (sym own ∙ theirs))
                    (sym (names k ∙ rw ((eq_iff crew k).1 own) refl) ∙ same)
              | inr another ↦ others k other (sym (names k ∙ ground (arith, eq_iff crew k)) ∙ same)
            ],
            rw (login_mute visit server crew text password d u) (nil-sublist _),
          )

      crew_speaks :
          (d' : Deck) (out : List Sent)
          → is_apart input ≡ true
          → (sender == "CREW") ≡ true
          → handle_crewmate_input visit input d ≡ ok (d', out)
          → Goes input d' out
      unfolding handle_crewmate_input
      crew_speaks d' out apart from e =
          elim (Bool-cases (kind == "LOGIN" && not (contains crew d.client_map))) [
            | inl first ↦
                let (password, _, last) = bind-eq-ok (frame input 5) _ (rw first at e) in
                subst (λ (r : Deck × List Sent). Goes input r.0 r.1) (ok_injective last)
                  (login_speaks password apart (ground arith))
            | inr later ↦ elim (Bool-cases (contains crew d.client_map)) [
              | inr unknown ↦ stays input d' out (rw (later, unknown) at e)
              | inl known ↦ elim (Bool-cases (kind == "COMMAND")) [
                | inl command ↦
                    mute-Goes input d' out
                      ((command-IsMute d visit input).at d' out (rw (later, known, command) at e))
                | inr other ↦ elim (Bool-cases (kind == "TEXT")) [
                  | inl is_text ↦
                      text_speaks d' out apart from is_text (rw (later, known, other, is_text) at e)
                  | inr neither ↦ stays input d' out (rw (later, known, other, neither) at e)
                ]
              ]
            ]
          ]

    pub message_speaks :
        (m : Message) (d' : Deck) (out : List Sent)
        → is_apart m ≡ true
        → dispatch_server visit m d ≡ ok (d', out)
        → Goes m d' out
    unfolding dispatch_server handle_crewmate_input handle_crewmate_input_command
        handle_crewmate_input_text
    message_speaks [] d' out apart e = cc
    message_speaks (s ∷ []) d' out apart e = cc
    message_speaks (s ∷ c ∷ []) d' out apart e = cc
    message_speaks (s ∷ c ∷ sender ∷ []) d' out apart e =
        stays (s ∷ c ∷ sender ∷ []) d' out (ground arith)
    message_speaks (s ∷ c ∷ sender ∷ kind ∷ []) d' out apart e =
        stays (s ∷ c ∷ sender ∷ kind ∷ []) d' out (ground arith)
    message_speaks (s ∷ c ∷ sender ∷ kind ∷ text ∷ rest) d' out apart e =
        let m = s ∷ c ∷ sender ∷ kind ∷ text ∷ rest in
        elim (Bool-cases (sender == "SHIP")) [
          | inl ship ↦ stays m d' out (rw ship at e)
          | inr other ↦ elim (Bool-cases (sender == "SUB")) [
            | inl sub ↦ stays m d' out (rw (other, sub) at e)
            | inr another ↦ elim (Bool-cases (sender == "CREW")) [
              | inl crew ↦
                  crew_speaks s c sender kind text rest d' out apart crew
                    (rw (other, another, crew) at e)
              | inr unknown ↦ stays m d' out (rw (other, another, unknown) at e)
            ]
          ]
        ]
