-- ===== src/System/Chain/Passing.antt =====
-- What a running server (src/server/Server.cpp) passes on of one client, whatever the ships send.
use pirate_servers.Base.{
  String, ◌≡◌, refl, sym, ap, subst, ◌∙◌, ◌==◌, eq_iff, true, false, Bool-cases, inl, inr, Option,
  none, some, List, [], ◌∷◌, ◌++◌, arith,
}
use pirate_servers.Base.Interleaving.{Interleaving, none_left, from_first, from_second}
use pirate_servers.Base.Outcome.{ok, ok_injective, bind-eq-ok}
use pirate_servers.Wire.{Message}
use pirate_servers.Server.{
  Server, Passed, to_shipdeck, Round, from_ship, from_shipdeck, ship_listener_step,
  ship_listener_task,
}
use pirate_servers.Server.Threads.{Process, Steps, started}
use pirate_servers.Server.Threads.Order.{server_passes_in_order}
use pirate_servers.Server.Threads.Traffic.{to_deck, to_deck-append, from_crew}
use pirate_servers.System.Texts.{behind, behind-append}

behind-interleaved :
    (id : String) {xs ys zs : List Message}
    → Interleaving xs ys zs
    → behind id xs ≡ []
    → behind id zs ≡ behind id ys
behind-interleaved id none_left e = refl
behind-interleaved id (from_first {x = []} i) e = behind-interleaved id i e
behind-interleaved id (from_first {x = sender ∷ m} {xs} i) e = elim (Bool-cases (sender == id)) [
  | inl mine ↦ let some_left : m ∷ behind id xs ≡ [] = rw mine at e in cc
  | inr other ↦ rw other (behind-interleaved id i (rw other at e))
]
behind-interleaved id (from_second {y = []} i) e = behind-interleaved id i e
behind-interleaved id (from_second {y = sender ∷ m} i) e = elim (Bool-cases (sender == id)) [
  | inl mine ↦ rw mine (ap (◌∷◌ m) (behind-interleaved id i e))
  | inr other ↦ rw other (behind-interleaved id i e)
]

module _ (left : Message → Message) (id : String) (no_ship : (id == "SHIP") ≡ false) where
  not_ship : (sender : String) → (sender == "SHIP") ≡ true → (sender == id) ≡ false
  not_ship sender ship =
      ap (λ (t : String). t == id) ((eq_iff sender "SHIP").0 ship)
      ∙ ground (arith, eq_iff "SHIP" id, eq_iff id "SHIP")

  from_ship-behind :
      (ship : Option Message) (r : Message × List Passed)
      → from_ship left ship ≡ ok r
      → behind id (to_deck r.1) ≡ []
  unfolding from_ship to_deck
  from_ship-behind none r e =
      subst (λ (x : Message × List Passed). behind id (to_deck x.1) ≡ []) (ok_injective e) refl
  from_ship-behind (some []) r e = cc
  from_ship-behind (some (sender ∷ m)) r e = elim (Bool-cases (sender == "SHIP")) [
    | inl ship ↦
        let now : ok (left (sender ∷ m), to_shipdeck (sender ∷ m) ∷ []) ≡ ok r = rw ship at e in
        subst (λ (x : Message × List Passed). behind id (to_deck x.1) ≡ []) (ok_injective now)
          (rw (not_ship sender ship) refl)
    | inr other ↦
        let now : ok (sender ∷ m, []) ≡ ok r = rw other at e in
        subst (λ (x : Message × List Passed). behind id (to_deck x.1) ≡ []) (ok_injective now) refl
  ]

  deck_silent :
      (reqs : Message) (shipdeck : Option Message) → to_deck (from_shipdeck left reqs shipdeck) ≡ []
  unfolding to_deck
  deck_silent reqs none = refl
  deck_silent reqs (some m) = refl

  step-behind :
      (r : Round) (out : List Passed)
      → ship_listener_step left r ≡ ok out
      → behind id (to_deck out) ≡ []
  unfolding ship_listener_step
  step-behind r out e =
      let (first, sent, last) = bind-eq-ok (from_ship left r.ship) _ e in
      let whole : first.1 ++ from_shipdeck left first.0 r.shipdeck ≡ out = ok_injective last in
      ap (λ l. behind id (to_deck l)) (sym whole)
      ∙ ap (behind id) (to_deck-append first.1 (from_shipdeck left first.0 r.shipdeck))
      ∙ behind-append id (to_deck first.1) (to_deck (from_shipdeck left first.0 r.shipdeck))
      ∙ rw (from_ship-behind r.ship first sent, deck_silent first.0 r.shipdeck) refl

  task-behind :
      (rounds : List Round) (out : List Passed)
      → ship_listener_task left rounds ≡ ok out
      → behind id (to_deck out) ≡ []
  unfolding ship_listener_task to_deck
  task-behind [] out e = ap (λ l. behind id (to_deck l)) (sym (ok_injective e))
  task-behind (r ∷ rs) out e = elim (Bool-cases r.alive) [
    | inr dead ↦
        let now : ok [] ≡ ok out = rw dead at e in
        ap (λ l. behind id (to_deck l)) (sym (ok_injective now))
    | inl alive ↦
        let (first, sent, goes) = bind-eq-ok (ship_listener_step left r) _ (rw alive at e) in
        elim (Bool-cases r.control) [
          | inl told ↦
              let now : ok first ≡ ok out = rw told at goes in
              ap (λ l. behind id (to_deck l)) (sym (ok_injective now)) ∙ step-behind r first sent
          | inr untold ↦
              let (more, later, last) =
                bind-eq-ok (ship_listener_task left rs) _ (rw untold at goes) in
              let whole : first ++ more ≡ out = ok_injective last in
              ap (λ l. behind id (to_deck l)) (sym whole)
              ∙ ap (behind id) (to_deck-append first more)
              ∙ behind-append id (to_deck first) (to_deck more)
              ∙ rw (step-behind r first sent, task-behind rs more later) refl
        ]
  ]

  -- Whatever the threads of a server do in whatever order and whatever the ships send: what the deck
  -- has been sent of an identity that is not the word SHIP is just what the server took in from it,
  -- each message as it is, once and in order.
  pub client_passes :
      (s : Server) (p : Process)
      → Steps left (started s) p
      → behind id (to_deck p.passed) ≡ behind id (from_crew p.crew_rounds)
  client_passes s p steps =
      let (out, ran, _, order) = server_passes_in_order left s p steps in
      behind-interleaved id order (task-behind p.rounds out ran)
