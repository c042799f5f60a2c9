-- ===== src/Wire.antt =====
-- Messages of the sockets. A frame is a text whose characters stand for the bytes of the frame.
-- Of src/client/Client.cpp and src/server/*.cpp: how handlers read the frames that they are given.
pub mod Spans
use pirate_servers.Base.{
  ℕ, String, ◌-◌, Option, none, some, List, length, drop, take, leb, ltb, nat_eq, get_elem?,
  if◌then◌else◌,
}
use pirate_servers.Base.Outcome.{Outcome, ok, err, out_of_range}
use pirate_servers.Base.Word.{u64_mod}

abbrev pub Frame : Type 0
Frame = String

abbrev pub Message : Type 0
Message = List Frame

abbrev pub or_fault {ℓ} : {A : Type ℓ} → Option A → Outcome A
or_fault none = err out_of_range
or_fault (some a) = ok a

-- `input[i]`.
abbrev pub frame : Message → ℕ → Outcome Frame
frame input i = or_fault (get_elem? input i)

-- `input.subspan(offset, count)`. The greatest `size_t` means: up to the end.
pub subspan : Message → ℕ → ℕ → Outcome Message
subspan input offset count =
    if ltb (length input) offset
    then err out_of_range
    else if nat_eq count (u64_mod - 1)
    then ok (drop offset input)
    else if leb count (length input - offset)
    then ok (take count (drop offset input))
    else err out_of_range
