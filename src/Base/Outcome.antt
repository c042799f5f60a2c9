-- ===== src/Base/Outcome.antt =====
-- What a call of the program can end in: a value, or a fault that ends the process or the thread.
use mathlib.Core.Path.{◌≡◌, refl}
use mathlib.Core.Bool.{Bool, true, false}
use mathlib.Core.Logic.{◌⊎◌, inl, inr}
use mathlib.Core.Option.{Option, none, some}
use Prim.Native.String.{String}

-- `out_of_range` is an element read past the end of a message, which the language leaves undefined;
-- `bad_substr` the exception of `std::string::substr` behind the end of its text; `failed_assert`
-- an assertion that does not hold; `too_many_parts` the exception of `zmq::recv_multipart_n` at a
-- message with more parts than asked for; `bind_error` and
-- `connect_error` those of a socket that cannot be bound, and of one that cannot be connected.
pub data Fault : Type 0 where
  out_of_range bad_substr failed_assert too_many_parts bind_error connect_error : Fault

pub data Outcome {ℓ} (A : Type ℓ) : Type ℓ where
  ok : A → Outcome A
  err : Fault → Outcome A

module _ {ℓ κ} {A : Type ℓ} {B : Type κ} where
  infixl 5 ◌>>=◌
  abbrev pub ◌>>=◌ : Outcome A → (A → Outcome B) → Outcome B
  err fault >>= next = err fault
  ok value >>= next = next value

  -- A chain that returns has a first step that returns.
  pub bind-eq-ok :
      (first : Outcome A) (next : A → Outcome B) {last : B}
      → (first >>= next) ≡ ok last
      → (value : A) × (first ≡ ok value) × (next value ≡ ok last)
  bind-eq-ok (err fault) next returns = cc
  bind-eq-ok (ok value) next returns = (value, refl, returns)

abbrev pub is_ok {ℓ} : {A : Type ℓ} → Outcome A → Bool
is_ok (ok a) = true
is_ok (err e) = false

pub value_of_is_ok {ℓ} : {A : Type ℓ} (m : Outcome A) → is_ok m ≡ true → (a : A) × (m ≡ ok a)
value_of_is_ok (ok a) h = (a, refl)
value_of_is_ok (err e) h = cc

pub Outcome-cases {ℓ} :
    {A : Type ℓ} (m : Outcome A) → ((a : A) × (m ≡ ok a)) ⊎ ((fault : Fault) × (m ≡ err fault))
Outcome-cases (ok a) = inl (a, refl)
Outcome-cases (err fault) = inr (fault, refl)

-- `socket.bind(address)`, and the endpoint that the socket has then if it could be bound.
abbrev pub bound : Option String → Outcome String
bound none = err bind_error
bound (some endpoint) = ok endpoint

-- `socket.connect(address)`, with what the sockets library answers.
abbrev pub connected : (String → Bool) → String → Outcome String
connected connects address = elim (connects address) [
  | true ↦ ok address
  | false ↦ err connect_error
]

pub ok_injective {ℓ} : {A : Type ℓ} {a b : A} → ok a ≡ ok b → a ≡ b
ok_injective {A} {a} {b} e = cc
