-- ===== src/Bunyan.antt =====
-- bunyan/src/lib.rs: the decoder that cuts a stream of bytes into the lines of a Bunyan log.
pub mod Lines
pub mod Examples
use buildomat.Prelude.{
  ℕ, zero, suc, ◌+◌, Bool, true, false, List, [], ◌∷◌, ◌++◌, Option, none, some, String, Result, ok,
  err, ◌==◌, if◌then◌else◌, take, drop, length, any, is_empty,
}
use mathlib.Core.List.{reverse}

pub data BunyanLevel : Type 0 where
  fatal error warn info debug trace : BunyanLevel

-- `v` is the bit pattern of its i64, `time` the nanoseconds of the time stamp.
pub record BunyanEntry (Value : Type 0) : Type 0 where
  pub v : ℕ
  pub level : BunyanLevel
  pub name : String
  pub hostname : String
  pub pid : ℕ
  pub time : ℕ
  pub msg : String
  pub component : Option String
  pub extra : List (String × Value)

unfoldable pub render : BunyanLevel → String
render fatal = "FATA"
render error = "ERRO"
render warn = "WARN"
render info = "INFO"
render debug = "DEBG"
render trace = "TRAC"

-- A line that is no entry is kept as its code points.
pub data BunyanLine (Value : Type 0) : Type 0 where
  entry : BunyanEntry Value → BunyanLine Value
  other : List ℕ → BunyanLine Value

pub record BunyanDecoder (Value : Type 0) : Type 0 where
  pub accum : List ℕ
  pub q : List (BunyanLine Value)

abbrev pub map_option : (ℕ → ℕ) → Option ℕ → Option ℕ
map_option f none = none
map_option f (some n) = some (f n)

infixl 5 ◌>>=◌
abbrev pub ◌>>=◌ : {A B : Type 0} → Option A → (A → Option B) → Option B
none >>= f = none
some a >>= f = f a

-- `iter().position(|&a| a == b'\n')`
unfoldable pub position : List ℕ → Option ℕ
position [] = none
position (c ∷ cs) = if c == 0xa then some 0 else map_option suc (position cs)

drop_newlines : List ℕ → List ℕ
drop_newlines [] = []
drop_newlines (c ∷ cs) = if c == 0xa then drop_newlines cs else c ∷ cs

-- `trim_end_matches('\n')`
unfoldable pub trim_end_newlines : List ℕ → List ℕ
unfolding drop_newlines
trim_end_newlines cs = reverse (drop_newlines (reverse cs))

-- What `serde_json` and `from_utf8_lossy` do: the map of the first value of each key, the map as a
-- JSON value, the value as an entry, and the text of the bytes.
pub record Codec (Value Sigh : Type 0) : Type 0 where
  pub from_slice : List ℕ → Option Sigh
  pub to_value : Sigh → Option Value
  pub from_value : Value → Option (BunyanEntry Value)
  pub from_utf8_lossy : List ℕ → List ℕ

module _ {Value : Type 0} where
  unfoldable pub new : BunyanDecoder Value
  new = record { accum = []; q = [] }

  unfoldable pub pop : BunyanDecoder Value → Option (BunyanLine Value) × BunyanDecoder Value
  pop d = elim d.q [ [] ↦ (none, d) | l ∷ ls ↦ (some l, record d { q = ls }) ]

  -- An entry of a version that is not 0 is no entry.
  versioned : BunyanEntry Value → Option (BunyanEntry Value)
  versioned be = if be.v == 0 then some be else none

module _ {Value Sigh : Type 0} (c : Codec Value Sigh) where
  parsed : List ℕ → Option (BunyanEntry Value)
  parsed bytes = do
    sigh ← c.from_slice bytes
    j ← c.to_value sigh
    be ← c.from_value j
    versioned be

  -- A line that was not parsed is emitted as it is.
  emitted : List ℕ → Option (BunyanEntry Value) → BunyanLine Value
  emitted bytes none = other (trim_end_newlines (c.from_utf8_lossy bytes))
  emitted bytes (some be) = entry be

  unfoldable pub line_of : List ℕ → BunyanLine Value
  unfolding versioned parsed emitted
  line_of bytes = emitted bytes (parsed bytes)

  unfoldable pub process : ℕ → BunyanDecoder Value → BunyanDecoder Value
  process len d = record { accum = drop len d.accum; q = d.q ++ line_of (take len d.accum) ∷ [] }

  -- The loop of `feed`; `none` means that the fuel ran out.
  unfoldable pub feed_loop : ℕ → BunyanDecoder Value → Option (BunyanDecoder Value)
  feed_loop zero d = none
  feed_loop (suc fuel) d = elim (position d.accum) [
    | none ↦ some d
    | some i ↦ feed_loop fuel (process (suc i) d)
  ]

  -- Every round uses a byte at least, so the bytes bound the rounds.
  unfoldable pub feed : List ℕ → BunyanDecoder Value → Option (BunyanDecoder Value)
  unfolding position process feed_loop
  feed input d =
      let d' : BunyanDecoder Value = record d { accum = d.accum ++ input } in
      feed_loop (suc (length d'.accum)) d'

  -- `none` is the assertion that a line is left.
  unfoldable pub fin : BunyanDecoder Value → Option (BunyanDecoder Value)
  unfolding process
  fin d =
      if any (λ a. a == 0xa) d.accum
      then none
      else some (if is_empty d.accum then d else process (length d.accum) d)
