-- ===== src/Lab/Console/Examples.antt =====
-- Lines of a console.
use buildomat.Prelude.{◌≡◌, refl, false, [], ◌∷◌, any, codes, ℕ, List, is_whitespace}
use buildomat.Lab.Console.{trim_end, is_ascii_control, unit_of, sanitise, join_units, console_text}
use buildomat.Lab.Console.Clean.{console_text-clean, console_text-plain}

-- A bell, a digit that is erased again, an escape, and a line feed at the end.
abbrev progress : List ℕ
progress = 0x7 ∷ b'9' ∷ 0x8 ∷ b'1' ∷ 0x1b ∷ b'c' ∷ 0xa ∷ []

progress_shown : console_text progress ≡ codes "^G1^[c"
unfolding console_text trim_end is_whitespace sanitise unit_of join_units
progress_shown = refl

-- A record separator is shown as a unit separator is, and a delete as an inverted question mark.
separators : console_text (0x1e ∷ 0x1f ∷ 0x7f ∷ []) ≡ b'^' ∷ b'_' ∷ b'^' ∷ b'_' ∷ b'^' ∷ 0xbf ∷ []
unfolding console_text trim_end is_whitespace sanitise unit_of join_units
separators = refl

console_text-clean_example : any is_ascii_control (console_text progress) ≡ false
console_text-clean_example = console_text-clean progress

console_text-plain_example :
    console_text (b'a' ∷ b' ' ∷ b'b' ∷ b' ' ∷ []) ≡ trim_end (b'a' ∷ b' ' ∷ b'b' ∷ b' ' ∷ [])
console_text-plain_example = console_text-plain (b'a' ∷ b' ' ∷ b'b' ∷ b' ' ∷ []) refl
