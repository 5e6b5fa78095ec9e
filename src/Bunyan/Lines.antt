-- ===== src/Bunyan/Lines.antt =====
-- The lines of a stream, and that the decoder finds them however the stream is cut into reads.
use buildomat.Prelude.{
  ℕ, zero, suc, ◌<◌, ◌≡◌, refl, sym, ap, ◌∙◌, inl, inr, true, false, List, [], ◌∷◌, ◌++◌, map,
  Option, none, some, arith, ◌==◌, if◌then◌else◌, take, drop, length, any, Bool-cases, Option-cases,
}
use mathlib.Core.List.{append-nil, append_assoc, map-append}
use buildomat.Bunyan.{
  BunyanLine, BunyanDecoder, Codec, position, new, line_of, process, feed_loop, feed, fin, ◌>>=◌,
}

glue : ℕ → List (List ℕ) → List (List ℕ)
glue c [] = []
glue c (p ∷ ps) = (c ∷ p) ∷ ps

-- The complete lines, each with its newline, and the bytes behind the last newline.
unfoldable pub lines : List ℕ → List (List ℕ)
unfolding glue
lines [] = []
lines (c ∷ cs) = if c == 0xa then (c ∷ []) ∷ lines cs else glue c (lines cs)

unfoldable pub unfinished : List ℕ → List ℕ
unfinished [] = []
unfinished (c ∷ cs) =
    let rest = unfinished cs in
    if c == 0xa then rest else if any (λ a. a == 0xa) cs then rest else c ∷ rest

lines-none : (xs : List ℕ) → any (λ a. a == 0xa) xs ≡ false → lines xs ≡ []
unfolding lines
lines-none [] h = refl
lines-none (c ∷ cs) h = ground (arith, lines-none cs)

unfinished-none : (xs : List ℕ) → any (λ a. a == 0xa) xs ≡ false → unfinished xs ≡ xs
unfolding unfinished
unfinished-none [] h = refl
unfinished-none (c ∷ cs) h = ground (arith, unfinished-none cs)

position-none : (xs : List ℕ) → position xs ≡ none → any (λ a. a == 0xa) xs ≡ false
unfolding position
position-none [] h = refl
position-none (c ∷ cs) h = ground (arith, position-none cs)

position-any : (xs : List ℕ) (i : ℕ) → position xs ≡ some i → any (λ a. a == 0xa) xs ≡ true
unfolding position
position-any [] i h = absurd (ground arith)
position-any (c ∷ cs) i h = elim (Option-cases (position cs)) [
  | inl e ↦ ground arith
  | inr (k, e) ↦ ground (arith, position-any cs k e)
]

-- The first newline ends the first line.
position-lines :
    (xs : List ℕ) (i : ℕ)
    → position xs ≡ some i
    → lines xs ≡ take (suc i) xs ∷ lines (drop (suc i) xs)
unfolding position lines glue
position-lines [] i h = absurd (ground arith)
position-lines (c ∷ cs) i h = elim (Option-cases (position cs)) [
  | inl e ↦ ground arith
  | inr (k, e) ↦ ground (arith, position-lines cs k e)
]

position-unfinished :
    (xs : List ℕ) (i : ℕ) → position xs ≡ some i → unfinished xs ≡ unfinished (drop (suc i) xs)
unfolding position unfinished
position-unfinished [] i h = absurd (ground arith)
position-unfinished (c ∷ cs) i h = elim (Option-cases (position cs)) [
  | inl e ↦ ground arith
  | inr (k, e) ↦ ground (arith, position-unfinished cs k e, position-any cs k e)
]

drop-lt : (xs : List ℕ) (i : ℕ) → position xs ≡ some i → length (drop (suc i) xs) < length xs
unfolding position
drop-lt [] i h = absurd (ground arith)
drop-lt (c ∷ cs) i h = elim (Option-cases (position cs)) [
  | inl e ↦ ground arith
  | inr (k, e) ↦ ground (arith, drop-lt cs k e)
]

lines-some :
    (xs : List ℕ)
    → any (λ a. a == 0xa) xs ≡ true
    → (p : List ℕ) × (ps : List (List ℕ)) × (lines xs ≡ p ∷ ps)
unfolding lines
lines-some [] h = absurd (ground arith)
lines-some (c ∷ cs) h = elim (Bool-cases (c == 0xa)) [
  | inl e ↦ (c ∷ [], lines cs, ground arith)
  | inr e ↦ let (p, ps, k) = lines-some cs (ground arith) in (c ∷ p, ps, ground (arith, glue))
]

any-append :
    (xs ys : List ℕ) → any (λ a. a == 0xa) xs ≡ true → any (λ a. a == 0xa) (xs ++ ys) ≡ true
any-append [] ys h = absurd (ground arith)
any-append (c ∷ cs) ys h = ground (arith, any-append cs ys)

-- More bytes complete the line that is unfinished, and leave those before it.
lines-append : (xs ys : List ℕ) → lines (xs ++ ys) ≡ lines xs ++ lines (unfinished xs ++ ys)
unfolding lines unfinished glue
lines-append [] ys = refl
lines-append (c ∷ cs) ys = elim (Bool-cases (any (λ a. a == 0xa) cs)) [
  | inl e ↦ let (p, ps, k) = lines-some cs e in ground (arith, lines-append cs ys)
  | inr e ↦ ground (arith, lines-append cs ys, lines-none cs e, unfinished-none cs e)
]

unfinished-append : (xs ys : List ℕ) → unfinished (xs ++ ys) ≡ unfinished (unfinished xs ++ ys)
unfolding unfinished
unfinished-append [] ys = refl
unfinished-append (c ∷ cs) ys = elim (Bool-cases (any (λ a. a == 0xa) cs)) [
  | inl e ↦ ground (arith, unfinished-append cs ys, any-append cs ys e)
  | inr e ↦ ground (arith, unfinished-append cs ys, unfinished-none cs e)
]

unfinished_open : (xs : List ℕ) → any (λ a. a == 0xa) (unfinished xs) ≡ false
unfolding unfinished
unfinished_open [] = refl
unfinished_open (c ∷ cs) = elim (Bool-cases (any (λ a. a == 0xa) cs)) [
  | inl e ↦ ground (arith, unfinished_open cs)
  | inr e ↦ ground (arith, unfinished_open cs)
]

abbrev pub flatten : List (List ℕ) → List ℕ
flatten [] = []
flatten (x ∷ xs) = x ++ flatten xs

abbrev pub last_piece : List ℕ → List (List ℕ)
last_piece [] = []
last_piece (c ∷ cs) = (c ∷ cs) ∷ []

-- A stream cut behind each of its newlines.
abbrev pub pieces : List ℕ → List (List ℕ)
pieces xs = lines xs ++ last_piece (unfinished xs)

take_all : (xs : List ℕ) → take (length xs) xs ≡ xs
take_all [] = refl
take_all (x ∷ xs) = ap (λ t. x ∷ t) (take_all xs)

drop_all : (xs : List ℕ) → drop (length xs) xs ≡ []
drop_all [] = refl
drop_all (x ∷ xs) = drop_all xs

flatten-append : (xs ys : List (List ℕ)) → flatten (xs ++ ys) ≡ flatten xs ++ flatten ys
flatten-append [] ys = refl
flatten-append (x ∷ xs) ys =
    ground (arith, flatten-append xs ys, append_assoc x (flatten xs) (flatten ys))

flatten-last : (xs : List ℕ) → flatten (last_piece xs) ≡ xs
flatten-last [] = refl
flatten-last (c ∷ cs) = append-nil (c ∷ cs)

lines-unfinished : (xs : List ℕ) → flatten (lines xs) ++ unfinished xs ≡ xs
unfolding lines unfinished glue
lines-unfinished [] = refl
lines-unfinished (c ∷ cs) = elim (Bool-cases (any (λ a. a == 0xa) cs)) [
  | inl e ↦ let (p, ps, k) = lines-some cs e in ground (arith, lines-unfinished cs)
  | inr e ↦ ground (arith, lines-none cs e, unfinished-none cs e)
]

pieces-flatten : (xs : List ℕ) → flatten (pieces xs) ≡ xs
pieces-flatten xs =
    rw (flatten-append (lines xs) (last_piece (unfinished xs)), flatten-last (unfinished xs))
      (lines-unfinished xs)

module _ {Value Sigh : Type 0} (c : Codec Value Sigh) where
  -- What a decoder becomes once the lines of its bytes are out.
  unfoldable pub fed : BunyanDecoder Value → BunyanDecoder Value
  fed d = record { accum = unfinished d.accum; q = d.q ++ map (line_of c) (lines d.accum) }

  fed-none : (d : BunyanDecoder Value) → any (λ a. a == 0xa) d.accum ≡ false → fed d ≡ d
  unfolding fed
  fed-none d e = ground (arith, lines-none d.accum e, unfinished-none d.accum e, append-nil d.q)

  fed-process :
      (d : BunyanDecoder Value) (i : ℕ)
      → position d.accum ≡ some i
      → fed (process c (suc i) d) ≡ fed d
  unfolding fed process
  fed-process d i e = ground (
    arith,
    position-lines d.accum i e,
    position-unfinished d.accum i e,
    append_assoc d.q (line_of c (take (suc i) d.accum) ∷ [])
        (map (line_of c) (lines (drop (suc i) d.accum))),
  )

  shorter :
      {fuel : ℕ} (d : BunyanDecoder Value) (i : ℕ)
      → length (drop (suc i) d.accum) < length d.accum
      → length d.accum < suc fuel
      → length (process c (suc i) d).accum < fuel
  unfolding process
  shorter d i k h = omega arith

  feed_loop_lem :
      (fuel : ℕ) (d : BunyanDecoder Value)
      → length d.accum < fuel
      → feed_loop c fuel d ≡ some (fed d)
  unfolding feed_loop
  feed_loop_lem zero d h = absurd (omega arith)
  feed_loop_lem (suc fuel) d h = elim (Option-cases (position d.accum)) [
    | inl e ↦ rw (e, feed_loop) (ap some (sym (fed-none d (position-none d.accum e))))
    | inr (i, e) ↦
        rw (e, feed_loop)
          (feed_loop_lem fuel (process c (suc i) d) (shorter d i (drop-lt d.accum i e) h)
            ∙ ap some (fed-process d i e))
  ]

  feed_lem :
      (input : List ℕ) (d : BunyanDecoder Value)
      → feed c input d ≡ some (fed (record d { accum = d.accum ++ input }))
  unfolding feed
  feed_lem input d =
      feed_loop_lem (suc (length (d.accum ++ input))) (record d { accum = d.accum ++ input })
        (omega arith)

  fed_twice :
      (a b : List ℕ) (d : BunyanDecoder Value)
      → fed (record (fed (record d { accum = d.accum ++ a })) {
        accum = (fed (record d { accum = d.accum ++ a })).accum ++ b;
      })
        ≡ fed (record d { accum = d.accum ++ (a ++ b) })
  unfolding fed
  fed_twice a b d = ground (
    arith,
    append_assoc d.accum a b,
    unfinished-append (d.accum ++ a) b,
    lines-append (d.accum ++ a) b,
    map-append (line_of c) (lines (d.accum ++ a)) (lines (unfinished (d.accum ++ a) ++ b)),
    append_assoc d.q (map (line_of c) (lines (d.accum ++ a)))
        (map (line_of c) (lines (unfinished (d.accum ++ a) ++ b))),
  )

  -- It makes no difference whether bytes come in one read or in two.
  pub feed-append :
      (a b : List ℕ) (d : BunyanDecoder Value) → feed c (a ++ b) d ≡ (feed c a d >>= feed c b)
  feed-append a b d =
      rw (feed_lem (a ++ b) d, feed_lem a d, feed_lem b (fed (record d { accum = d.accum ++ a })))
        (ap some (sym (fed_twice a b d)))

  -- The reads of a stream, one after the other.
  abbrev pub feed_all : List (List ℕ) → BunyanDecoder Value → Option (BunyanDecoder Value)
  feed_all [] d = some d
  feed_all (x ∷ xs) d = feed c x d >>= feed_all xs

  feed_all_lem :
      (xs : List (List ℕ)) (d : BunyanDecoder Value)
      → any (λ a. a == 0xa) d.accum ≡ false
      → feed_all xs d ≡ some (fed (record d { accum = d.accum ++ flatten xs }))
  unfolding fed
  feed_all_lem [] d h = ap some (rw (append-nil d.accum) (sym (fed-none d h)))
  feed_all_lem (x ∷ xs) d h = rw (feed_lem x d) (
      feed_all_lem xs (fed (record d { accum = d.accum ++ x })) (unfinished_open (d.accum ++ x))
      ∙ ap some (fed_twice x (flatten xs) d))

  fin_closed :
      (xs : List ℕ) (q : List (BunyanLine Value))
      → any (λ a. a == 0xa) xs ≡ false
      → fin c (record { accum = xs; q = q })
        ≡ some (record { accum = []; q = q ++ map (line_of c) (last_piece xs) })
  unfolding fin process
  fin_closed [] q h = rw (append-nil q) refl
  fin_closed (x ∷ xs) q h = rw (h, take_all (x ∷ xs), drop_all (x ∷ xs)) refl

  fin-fed :
      (bytes : List ℕ)
      → fin c (fed (record { accum = bytes; q = [] }))
        ≡ some (record { accum = []; q = map (line_of c) (pieces bytes) })
  unfolding fed
  fin-fed bytes =
      fin_closed (unfinished bytes) (map (line_of c) (lines bytes)) (unfinished_open bytes)
      ∙ rw (map-append (line_of c) (lines bytes) (last_piece (unfinished bytes))) refl

  -- From a new decoder, the reads of a stream and the end of it give each line of the stream, in
  -- order, and then the bytes behind the last newline, if there are any: however the stream is cut
  -- into reads, nothing is lost, and the assertion of `fin` holds.
  pub feed_all-fin :
      (xs : List (List ℕ))
      → ((feed_all xs new >>= fin c)
          ≡ some (record { accum = []; q = map (line_of c) (pieces (flatten xs)) }))
        × (flatten (pieces (flatten xs)) ≡ flatten xs)
  unfolding new
  feed_all-fin xs =
      (rw (feed_all_lem xs new refl) (fin-fed (flatten xs)), pieces-flatten (flatten xs))
