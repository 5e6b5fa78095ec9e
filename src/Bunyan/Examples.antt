-- ===== src/Bunyan/Examples.antt =====
-- The decoder on small streams.
use buildomat.Prelude.{
  ℕ, ◌≡◌, refl, List, [], ◌∷◌, ◌++◌, none, some, ◌==◌, if◌then◌else◌, length, map,
}
use buildomat.Bunyan.{
  BunyanEntry, Codec, entry, other, info, new, feed, fin, line_of, trim_end_newlines, ◌>>=◌,
}
use buildomat.Bunyan.Lines.{feed-append, feed_all, feed_all-fin, pieces, flatten}

abbrev hello : BunyanEntry ℕ
hello = record {
  v = 0;
  level = info;
  name = "agent";
  hostname = "host";
  pid = 7;
  time = 0;
  msg = "hello";
  component = none;
  extra = [];
}

-- A codec for which a line of one brace is an entry of the version in its second byte.
abbrev braces : Codec ℕ (List ℕ)
braces = record {
  from_slice = λ xs. if length xs == 3 then some xs else none;
  to_value = λ xs. elim xs [ [] ↦ none | x ∷ ys ↦ elim ys [ [] ↦ none | y ∷ zs ↦ some y ] ];
  from_value = λ v. some (record hello { v = v });
  from_utf8_lossy = λ xs. xs;
}

abbrev stream : List (List ℕ)
stream = (b'{' ∷ []) ∷ (0 ∷ 0xa ∷ b'{' ∷ 1 ∷ []) ∷ (0xa ∷ b'x' ∷ []) ∷ []

-- An entry that two reads bring, one of a wrong version, and a line that is not finished.
stream_lines :
    (feed_all braces stream new >>= fin braces)
    ≡ some (record { accum = []; q = entry hello ∷ other (b'{' ∷ 1 ∷ []) ∷ other (b'x' ∷ []) ∷ [] })
unfolding new feed fin line_of trim_end_newlines
stream_lines = refl

feed_all-fin_example :
    ((feed_all braces stream new >>= fin braces)
      ≡ some (record { accum = []; q = map (line_of braces) (pieces (flatten stream)) }))
    × (flatten (pieces (flatten stream)) ≡ flatten stream)
feed_all-fin_example = feed_all-fin braces stream

feed-append_example :
    feed braces ((b'{' ∷ 0 ∷ []) ++ 0xa ∷ b'x' ∷ []) new
    ≡ (feed braces (b'{' ∷ 0 ∷ []) new >>= feed braces (0xa ∷ b'x' ∷ []))
feed-append_example = feed-append braces (b'{' ∷ 0 ∷ []) (0xa ∷ b'x' ∷ []) new
