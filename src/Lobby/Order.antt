-- ===== src/Lobby/Order.antt =====
-- The lobby of src/server/LobbyCabin.cpp: what one of its users gets of a whole history, and in which
-- order.
use pirate_servers.Base.{
  ℕ, zero, suc, ◌+◌, ◌≡◌, refl, sym, ap, ◌∙◌, String, Bool, true, false, List, [], ◌∷◌, ◌++◌, map,
  bit, ◌==◌, if◌then◌else◌, arith,
}
use mathlib.Core.List.{append_assoc}
use pirate_servers.Base.Outcome.{ok}
use pirate_servers.Wire.{Message}
use pirate_servers.Cabin.Poll.{handle_all}
use pirate_servers.Cabin.Loop.{handle_all_split}
use pirate_servers.Lobby.{Lobby, new_lobby, has, send_text, handle_shipdeck_input}
use pirate_servers.Lobby.Refinement.{
  IsSetList, occurrences, occurrences-has, present_after, handle_one, has-empty,
}

-- A sender's name and a text.
abbrev pub Said : Type 0
Said = String × String

-- What a message says, if it is a text.
unfoldable pub text_of : Message → List Said
text_of (kind ∷ username ∷ text ∷ _) = if kind == "TEXT" then (username, text) ∷ [] else []
text_of _ = []

-- What a message of the lobby brings to a user.
unfoldable pub brought : String → Message → List Said
brought u (command ∷ m_type ∷ user ∷ username ∷ text ∷ []) =
    if user == u then (username, text) ∷ [] else []
brought u _ = []

unfoldable pub sent_to : String → List Message → List Said
sent_to u [] = []
sent_to u (m ∷ sent) = brought u m ++ sent_to u sent

-- The texts of a history that come while a user is there.
unfoldable pub attended : String → Bool → List Message → List Said
attended u there [] = []
attended u there (m ∷ history) =
    (if there then text_of m else []) ++ attended u (present_after u m there) history

pub sent_to-append :
    (u : String) (first second : List Message)
    → sent_to u (first ++ second) ≡ sent_to u first ++ sent_to u second
unfolding sent_to
sent_to-append u [] second = refl
sent_to-append u (m ∷ first) second =
    ap (◌++◌ (brought u m)) (sent_to-append u first second)
    ∙ sym (append_assoc (brought u m) (sent_to u first) (sent_to u second))

copies : ℕ → Said → List Said
copies zero said = []
copies (suc n) said = said ∷ copies n said

copies_more :
    (b : Bool) (n : ℕ) (said : Said)
    → copies (bit b + n) said ≡ (if b then said ∷ [] else []) ++ copies n said
unfolding copies
copies_more true n said = let step : 1 + n ≡ suc n = omega arith in ap (λ k. copies k said) step
copies_more false n said = let step : 0 + n ≡ n = omega arith in ap (λ k. copies k said) step

sent_to-texts :
    (u username text : String) (users : List String)
    → sent_to u (map (send_text username text) users)
      ≡ copies (occurrences u users) (username, text)
unfolding sent_to brought copies occurrences
sent_to-texts u username text [] = refl
sent_to-texts u username text (v ∷ users) =
    ap (◌++◌ (if v == u then (username, text) ∷ [] else [])) (sent_to-texts u username text users)
    ∙ sym (copies_more (v == u) (occurrences u users) (username, text))

copies-bit : (b : Bool) (said : Said) → copies (bit b) said ≡ (if b then said ∷ [] else [])
unfolding copies
copies-bit true said = refl
copies-bit false said = refl

module _ (visit : List String → List String)
    (each_once : (u : String) (users : List String)
      → occurrences u (visit users) ≡ occurrences u users) where
  text_sent :
      (u username text : String) (users : List String)
      → IsSetList users
      → sent_to u (map (send_text username text) (visit users))
        ≡ (if has u users then (username, text) ∷ [] else [])
  text_sent u username text users s =
      sent_to-texts u username text (visit users)
      ∙ ap (λ n. copies n (username, text)) (each_once u users ∙ occurrences-has u users s)
      ∙ copies-bit (has u users) (username, text)

  one_delivered :
      (u : String) (m : Message) (l l' : Lobby) (sent : List Message)
      → handle_shipdeck_input visit m l ≡ ok (l', sent)
      → IsSetList l.users
      → sent_to u sent ≡ (if has u l.users then text_of m else [])
  unfolding handle_shipdeck_input text_of
  one_delivered u [] l l' sent e s = cc
  one_delivered u (kind ∷ []) l l' sent e s = unfold sent_to in ground arith
  one_delivered u (kind ∷ v ∷ []) l l' sent e s = unfold sent_to in ground arith
  one_delivered u (kind ∷ v ∷ text ∷ rest) l l' sent e s =
      unfold sent_to in ground (arith, text_sent u v text l.users s)

  many_delivered :
      (u : String) (history : List Message) (l l' : Lobby) (sent : List Message)
      → handle_all (handle_shipdeck_input visit) history l ≡ ok (l', sent)
      → IsSetList l.users
      → sent_to u sent ≡ attended u (has u l.users) history
  unfolding attended
  many_delivered u [] l l' sent e s = unfold handle_all sent_to in ground arith
  many_delivered u (m ∷ history) l l' sent e s =
      let (mid, first, more, e1, e2, whole) =
        handle_all_split (handle_shipdeck_input visit) m history l l' sent e in
      let (s1, at_mid) = handle_one visit m l mid first e1 s in
      rw (
        whole,
        sent_to-append u first more,
        one_delivered u m l mid first e1 s,
        many_delivered u history mid l' more e2 s1,
        at_mid u,
      )

  -- What a lobby that starts empty sends to a user, over any messages that it handles, is what the
  -- texts among them say that come while the user's last JOIN or DISCONNECT is a JOIN: each once,
  -- and in their order. The set of users may yield its elements in any order.
  pub history_delivered :
      (history : List Message) (l : Lobby) (sent : List Message)
      → handle_all (handle_shipdeck_input visit) history new_lobby ≡ ok (l, sent)
      → (u : String) → sent_to u sent ≡ attended u false history
  history_delivered history l sent e u =
      many_delivered u history new_lobby l sent e tt
      ∙ ap (λ there. attended u there history) (has-empty u)
