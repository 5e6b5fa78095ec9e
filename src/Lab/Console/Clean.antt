-- ===== src/Lab/Console/Clean.antt =====
-- What the cleaning of a console line gives.
use buildomat.Prelude.{
  ℕ, ◌≡◌, refl, ◌∙◌, ap, Bool, false, List, [], ◌∷◌, ◌++◌, ◌==◌, any, All, arith, Bool-cases, inl,
  inr,
}
use buildomat.Lab.Console.{
  trim_end, is_ascii_control, unit_of, popped, sanitise, join_units, console_text,
}

module _ (p : ℕ → Bool) where
  any-append : (xs ys : List ℕ) → any p xs ≡ false → any p ys ≡ false → any p (xs ++ ys) ≡ false
  any-append [] ys h k = k
  any-append (x ∷ xs) ys h k = ground (arith, any-append xs ys)

  any-trim_end : (cs : List ℕ) → any p cs ≡ false → any p (trim_end cs) ≡ false
  unfolding trim_end
  any-trim_end [] h = refl
  any-trim_end (c ∷ cs) h = ground (arith, any-trim_end cs)

  any-join_units :
      (us : List (List ℕ)) (out : List ℕ)
      → All (λ u. any p u ≡ false) us
      → any p out ≡ false
      → any p (join_units us out) ≡ false
  unfolding join_units
  any-join_units [] out h k = k
  any-join_units (u ∷ us) out h k = any-join_units us (u ++ out) h.1 (any-append u out h.0 k)

clean_unit : (c : ℕ) → any is_ascii_control (unit_of c) ≡ false
unfolding unit_of
clean_unit c = ground arith

clean_popped :
    (us : List (List ℕ))
    → All (λ u. any is_ascii_control u ≡ false) us
    → All (λ u. any is_ascii_control u ≡ false) (popped us)
clean_popped [] h = h
clean_popped (u ∷ us) h = h.1

clean_units :
    (cs : List ℕ) (us : List (List ℕ))
    → All (λ u. any is_ascii_control u ≡ false) us
    → All (λ u. any is_ascii_control u ≡ false) (sanitise us cs)
unfolding sanitise
clean_units [] us h = h
clean_units (c ∷ cs) us h = elim (Bool-cases (c == 0x8)) [
  | inl e ↦ rw e (clean_units cs (popped us) (clean_popped us h))
  | inr e ↦ rw e (clean_units cs (unit_of c ∷ us) (clean_unit c, h))
]

-- What is stored of a line of console output has no ASCII control character.
pub console_text-clean : (line : List ℕ) → any is_ascii_control (console_text line) ≡ false
unfolding console_text
console_text-clean line =
    any-trim_end is_ascii_control (join_units (sanitise [] (trim_end line)) [])
      (any-join_units is_ascii_control _ [] (clean_units (trim_end line) [] tt) refl)

plain_unit : (c : ℕ) → is_ascii_control c ≡ false → unit_of c ≡ c ∷ []
unfolding unit_of
plain_unit c h = ground (arith, h)

join-sanitise :
    (cs : List ℕ) (us : List (List ℕ))
    → any is_ascii_control cs ≡ false
    → join_units (sanitise us cs) [] ≡ join_units us cs
unfolding sanitise join_units
join-sanitise [] us h = refl
join-sanitise (c ∷ cs) us h =
    let plain : is_ascii_control c ≡ false = ground (arith, h) in
    let rest : any is_ascii_control cs ≡ false = ground (arith, h) in
    let shown : (c == 0x8) ≡ false = ground (arith, plain) in
    rw (shown, plain_unit c plain) (join-sanitise cs ((c ∷ []) ∷ us) rest)

trim_end_idempotent : (cs : List ℕ) → trim_end (trim_end cs) ≡ trim_end cs
unfolding trim_end
trim_end_idempotent [] = refl
trim_end_idempotent (c ∷ cs) = ground (arith, trim_end_idempotent cs)

-- A line without ASCII control characters is stored as it is, but for the white space at its end.
pub console_text-plain :
    (line : List ℕ) → any is_ascii_control line ≡ false → console_text line ≡ trim_end line
unfolding console_text join_units
console_text-plain line h =
    ap trim_end (join-sanitise (trim_end line) [] (any-trim_end is_ascii_control line h))
    ∙ trim_end_idempotent line
