-- ===== src/Lab/InstanceId/RoundTrip.antt =====
-- The ID of an instance is read back as it was written.
use buildomat.Prelude.{
  ℕ, zero, suc, ◌+◌, ◌*◌, ◌/◌, ◌%◌, ◌^◌, ◌≡◌, ◌≤◌, ◌<◌, refl, ap, ◌∙◌, false, some, String, ltb,
  arith, Bool-cases, inl, inr, codes, contains, text_trim,
}
use Prim.Native.Char.{code}
use text.Mathlib.Text.{◌==◌ as str_eq}
use buildomat.Lab.Models.{Instance}
use buildomat.Lab.InstanceId.{
  digit, digits, to_string, scan, scan_some, u64_from_str, with_seq, id_of, split_slash,
  parse_instance_id,
}

digit-code : (d : ℕ) → d < 10 → code (digit d) ≡ b'0' + d
unfolding digit
digit-code zero h = refl
digit-code (suc zero) h = refl
digit-code (suc (suc zero)) h = refl
digit-code (suc (suc (suc zero))) h = refl
digit-code (suc (suc (suc (suc zero)))) h = refl
digit-code (suc (suc (suc (suc (suc zero))))) h = refl
digit-code (suc (suc (suc (suc (suc (suc zero)))))) h = refl
digit-code (suc (suc (suc (suc (suc (suc (suc zero))))))) h = refl
digit-code (suc (suc (suc (suc (suc (suc (suc (suc zero)))))))) h = refl
digit-code (suc (suc (suc (suc (suc (suc (suc (suc (suc zero))))))))) h = refl
digit-code (suc (suc (suc (suc (suc (suc (suc (suc (suc (suc n)))))))))) h =
    absurd (omega (arith, h))

scan-digit :
    (n d : ℕ) (out : String)
    → d < 10
    → n * 10 + d < 2 ^ 64
    → scan (String.◌∷◌ (digit d) out) n ≡ scan out (n * 10 + d)
unfolding scan
scan-digit n d out h fits = ground (arith, digit-code d h, fits)

scan-digits : (k n : ℕ) (out : String) → n ≤ k → n < 2 ^ 64 → scan (digits k n out) 0 ≡ scan out n
unfolding digits
scan-digits zero n out h fits =
    scan-digit 0 n out (omega (arith, h)) (omega (arith, fits)) ∙ ap (scan out) (omega arith)
scan-digits (suc k) n out h fits = elim (Bool-cases (ltb n 10)) [
  | inl e ↦
      rw e
        (scan-digit 0 n out (ground (arith, e)) (omega (arith, fits)) ∙ ap (scan out) (omega arith))
  | inr e ↦ rw e (
      scan-digits k (n / 10) _ (ground (arith, e)) (omega (arith, fits))
      ∙ scan-digit (n / 10) (n % 10) out (omega arith) (omega (arith, fits))
      ∙ ap (scan out) (omega arith))
]

digits-some : (k n : ℕ) (out : String) → scan_some (digits k n out) ≡ scan (digits k n out) 0
unfolding digits scan_some
digits-some zero n out = refl
digits-some (suc k) n out = elim (Bool-cases (ltb n 10)) [
  | inl e ↦ rw e refl
  | inr e ↦ rw e (digits-some k (n / 10) _)
]

digits-unsigned :
    (k n : ℕ) (out : String) → n ≤ k → u64_from_str (digits k n out) ≡ scan_some (digits k n out)
unfolding digits u64_from_str
digits-unsigned zero n out h = ground (arith, digit-code n (omega (arith, h)))
digits-unsigned (suc k) n out h = elim (Bool-cases (ltb n 10)) [
  | inl e ↦ rw e (ground (arith, digit-code n (ground (arith, e))))
  | inr e ↦ rw e (digits-unsigned k (n / 10) _ (ground (arith, e)))
]

u64_from_str-to_string : (n : ℕ) → n < 2 ^ 64 → u64_from_str (to_string n) ≡ some n
unfolding to_string scan
u64_from_str-to_string n fits =
    digits-unsigned n n String.[] (omega arith)
    ∙ digits-some n n String.[]
    ∙ scan-digits n n String.[] (omega arith) fits

split_slash-with_seq :
    (s : String) (seq : ℕ)
    → contains b'/' (codes s) ≡ false
    → split_slash (with_seq s seq) ≡ some (s, to_string seq)
unfolding split_slash with_seq
split_slash-with_seq String.[] seq h = refl
split_slash-with_seq (String.◌∷◌ c s) seq h = ground (arith, split_slash-with_seq s seq)

-- The ID of an instance, whose node name is not blank and has no slash and whose number fits in 64 bits,
-- is read back as the node name and the number.
pub parse_instance_id-id_of :
    (i : Instance)
    → contains b'/' (codes i.nodename) ≡ false
    → str_eq (text_trim i.nodename) "" ≡ false
    → i.seq < 2 ^ 64
    → parse_instance_id (id_of i) ≡ some (i.nodename, i.seq)
unfolding parse_instance_id id_of
parse_instance_id-id_of i slash blank fits =
    rw (split_slash-with_seq i.nodename i.seq slash, blank, u64_from_str-to_string i.seq fits) refl
