-- ===== src/Lab/Console.antt =====
-- factory/lab/src/host.rs: how `thread_manager` cleans a line of console output before it is stored as an event.
-- A text is the list of its code points.
pub mod Clean
pub mod Examples
use buildomat.Prelude.{
  ℕ, ◌+◌, ◌-◌, Bool, true, false, ◌&&◌, ◌||◌, List, [], ◌∷◌, ◌++◌, ltb, ◌==◌, if◌then◌else◌,
  is_empty, is_whitespace,
}

unfoldable pub trim_end : List ℕ → List ℕ
trim_end [] = []
trim_end (c ∷ cs) =
    let rest = trim_end cs in if is_empty rest && is_whitespace c then [] else c ∷ rest

abbrev pub is_ascii_control : ℕ → Bool
is_ascii_control c = ltb c 0x20 || c == 0x7f

-- The display unit of a character that is no backspace. The letter of another control character is a
-- u8, in which the sum fits.
unfoldable pub unit_of : ℕ → List ℕ
unit_of c =
    if c == 0xa
    then b'\\' ∷ b'n' ∷ []
    else if c == 0xd
    then b'\\' ∷ b'r' ∷ []
    else if c == 0x9
    then b'\\' ∷ b't' ∷ []
    else if c == 0
    then b'^' ∷ b'@' ∷ []
    else if c == 0x1b
    then b'^' ∷ b'[' ∷ []
    else if c == 0x1c
    then b'^' ∷ b'\\' ∷ []
    else if c == 0x1d
    then b'^' ∷ b']' ∷ []
    else if c == 0x1e
    then b'^' ∷ b'_' ∷ []
    else if is_ascii_control c
    then b'^' ∷ ((c - 1) + b'A') ∷ []
    else c ∷ []

abbrev pub popped : List (List ℕ) → List (List ℕ)
popped [] = []
popped (u ∷ us) = us

-- The loop over the characters: the display units so far, the last one first.
unfoldable pub sanitise : List (List ℕ) → List ℕ → List (List ℕ)
unfolding unit_of
sanitise us [] = us
sanitise us (c ∷ cs) = sanitise (if c == 0x8 then popped us else unit_of c ∷ us) cs

unfoldable pub join_units : List (List ℕ) → List ℕ → List ℕ
join_units [] out = out
join_units (u ∷ us) out = join_units us (u ++ out)

-- What is stored of a line.
unfoldable pub console_text : List ℕ → List ℕ
unfolding trim_end sanitise join_units
console_text line = trim_end (join_units (sanitise [] (trim_end line)) [])
