-- ===== src/Lab/InstanceId.antt =====
-- factory/lab/src/worker.rs and factory/lab/src/db/models.rs: the ID of an instance, "nodename/sequencenumber".
pub mod RoundTrip
use buildomat.Prelude.{
  ℕ, zero, suc, ◌+◌, ◌*◌, ◌-◌, ◌/◌, ◌%◌, ◌^◌, Bool, true, false, ◌&&◌, Option, none, some, String,
  ltb, leb, ◌==◌, if◌then◌else◌, text_trim,
}
use Prim.Native.Char.{Char, code}
use Prim.Native.String
use text.Mathlib.Text.{◌==◌ as str_eq}
use buildomat.Lab.Models.{Instance}

unfoldable pub digit : ℕ → Char
digit zero = "0"
digit (suc zero) = "1"
digit (suc (suc zero)) = "2"
digit (suc (suc (suc zero))) = "3"
digit (suc (suc (suc (suc zero)))) = "4"
digit (suc (suc (suc (suc (suc zero))))) = "5"
digit (suc (suc (suc (suc (suc (suc zero)))))) = "6"
digit (suc (suc (suc (suc (suc (suc (suc zero))))))) = "7"
digit (suc (suc (suc (suc (suc (suc (suc (suc zero)))))))) = "8"
digit _ = "9"

-- The decimal digits of a number, in front of a text. The fuel is the number: it is divided by ten.
unfoldable pub digits : ℕ → ℕ → String → String
digits zero n out = String.◌∷◌ (digit n) out
digits (suc k) n out =
    let rest = digits k (n / 10) (String.◌∷◌ (digit (n % 10)) out) in
    if ltb n 10 then String.◌∷◌ (digit n) out else rest

unfoldable pub to_string : ℕ → String
to_string n = digits n n String.[]

-- `u64::from_str`: an optional plus sign and at least one digit, where the number has to fit.
unfoldable pub scan : String → ℕ → Option ℕ
scan String.[] n = some n
scan (String.◌∷◌ c s) n =
    let rest = scan s (n * 10 + (code c - b'0')) in
    if (leb b'0' (code c) && leb (code c) b'9') && ltb (n * 10 + (code c - b'0')) (2 ^ 64)
    then rest
    else none

unfoldable pub scan_some : String → Option ℕ
scan_some String.[] = none
scan_some (String.◌∷◌ c s) = scan (String.◌∷◌ c s) 0

unfoldable pub u64_from_str : String → Option ℕ
u64_from_str String.[] = none
u64_from_str (String.◌∷◌ c s) = if code c == b'+' then scan_some s else scan_some (String.◌∷◌ c s)

-- `Instance::id`.
unfoldable pub with_seq : String → ℕ → String
with_seq String.[] seq = String.◌∷◌ "/" (to_string seq)
with_seq (String.◌∷◌ c s) seq = String.◌∷◌ c (with_seq s seq)

unfoldable pub id_of : Instance → String
id_of i = with_seq i.nodename i.seq

abbrev pub in_front : Char → Option (String × String) → Option (String × String)
in_front c none = none
in_front c (some (s, t)) = some (String.◌∷◌ c s, t)

-- `splitn(2, '/')`, where it gives two parts.
unfoldable pub split_slash : String → Option (String × String)
split_slash String.[] = none
split_slash (String.◌∷◌ c s) =
    let rest = split_slash s in if code c == b'/' then some (String.[], s) else in_front c rest

abbrev pub with_number : String → Option ℕ → Option (String × ℕ)
with_number nodename none = none
with_number nodename (some seq) = some (nodename, seq)

abbrev pub parsed_parts : Option (String × String) → Option (String × ℕ)
parsed_parts none = none
parsed_parts (some (s, t)) =
    if str_eq (text_trim s) "" then none else with_number s (u64_from_str t)

unfoldable pub parse_instance_id : String → Option (String × ℕ)
parse_instance_id private = parsed_parts (split_slash private)
