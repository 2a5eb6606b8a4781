-- ===== src/Rust/Utf8.antt =====
-- UTF-8 as `str::from_utf8` and `from_utf8_lossy` read it: an automaton over the bytes.
pub mod Laws
use surrealdb_c.Prelude.{
  ℕ, zero, suc, Bool, true, false, ◌&&◌, Option, none, some, [], ◌∷◌, ◌++◌, Text, leb, ltb, ◌==◌,
  if◌then◌else◌,
}

-- Between two characters, or inside one: the range of the next byte, and how many bytes follow it.
pub data State : Type 0 where
  start : State
  expect : ℕ → ℕ → ℕ → State

unfoldable pub in_range : ℕ → ℕ → ℕ → Bool
in_range lo hi b = leb lo b && leb b hi

-- The first byte of a character.
unfoldable pub lead : ℕ → Option State
unfolding in_range
lead b =
    if ltb b 0x80
    then some start
    else if in_range 0xc2 0xdf b
    then some (expect 0x80 0xbf 0)
    else if b == 0xe0
    then some (expect 0xa0 0xbf 1)
    else if in_range 0xe1 0xec b
    then some (expect 0x80 0xbf 1)
    else if b == 0xed
    then some (expect 0x80 0x9f 1)
    else if in_range 0xee 0xef b
    then some (expect 0x80 0xbf 1)
    else if b == 0xf0
    then some (expect 0x90 0xbf 2)
    else if in_range 0xf1 0xf3 b
    then some (expect 0x80 0xbf 2)
    else if b == 0xf4
    then some (expect 0x80 0x8f 2)
    else none

abbrev after : ℕ → State
after zero = start
after (suc k) = expect 0x80 0xbf k

unfoldable pub next : State → ℕ → Option State
unfolding lead in_range
next start b = lead b
next (expect lo hi more) b = if in_range lo hi b then some (after more) else none

abbrev pub is_start : State → Bool
is_start start = true
is_start (expect _ _ _) = false

unfoldable pub valid_from : State → Text → Bool
valid_from s [] = is_start s
valid_from s (b ∷ bs) = elim (next s b) [ none ↦ false | some s' ↦ valid_from s' bs ]

-- `CStr::to_str`: the text, if it is UTF-8.
unfoldable pub to_str : Text → Option Text
unfolding valid_from next
to_str t = if valid_from start t then some t else none

-- U+FFFD.
abbrev pub replacement : Text
replacement = 0xef ∷ 0xbf ∷ 0xbd ∷ []

-- The bytes of an unfinished character, with the state that they lead to.
abbrev pub Pending : Type 0
Pending = State × Text

-- One byte: what is written, and the state and pending bytes that it leaves. A byte that does not
-- continue the pending character ends it with one replacement and is read afresh.
pub begin : ℕ → Text × Pending
begin b = elim (next start b) [
  | none ↦ (replacement, (start, []))
  | some start ↦ (b ∷ [], (start, []))
  | some (expect lo hi more) ↦ ([], (expect lo hi more, b ∷ []))
]

pub lossy_step : Pending → ℕ → Text × Pending
unfolding begin
lossy_step (start, p) b = begin b
lossy_step (expect lo hi more, p) b = elim (next (expect lo hi more) b) [
  | none ↦ (replacement ++ (begin b).0, (begin b).1)
  | some start ↦ (p ++ b ∷ [], (start, []))
  | some (expect lo' hi' more') ↦ ([], (expect lo' hi' more', p ++ b ∷ []))
]

unfoldable pub lossy_from : Pending → Text → Text
unfolding lossy_step
lossy_from (s, p) [] = if is_start s then [] else replacement
lossy_from s (b ∷ bs) = (lossy_step s b).0 ++ lossy_from (lossy_step s b).1 bs

-- `CStr::to_string_lossy`
unfoldable pub to_string_lossy : Text → Text
unfolding lossy_from next
to_string_lossy t = lossy_from (start, []) t
