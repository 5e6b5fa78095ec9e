-- ===== src/Lab/Worker/Scrub.antt =====
-- Which workers the lab factory has the server destroy.
use buildomat.Prelude.{
  ℕ, ◌^◌, ◌≡◌, ◌≤◌, ◌<◌, ap₂, refl, sym, ap, ◌∙◌, ◌⊎◌, inl, inr, Bool, true, false, not, ◌&&◌, List,
  [], ◌∷◌, Option, none, some, String, All, any, map, arith, codes, contains, text_trim, Bool-cases,
}
use text.Mathlib.Text.{◌==◌ as str_eq}
use text.Mathlib.TextEquality.{eq_iff}
use buildomat.Sql.{select, find, count}
use buildomat.Sql.Counts.{any_miss, any-count}
use buildomat.Lab.Models.{Instance, destroyed_row}
use buildomat.Lab.Database.{Database, instance_at}
use buildomat.Lab.Changes.{HasKeys}
use buildomat.Lab.InstanceId.{id_of, with_seq, parse_instance_id}
use buildomat.Lab.InstanceId.RoundTrip.{parse_instance_id-id_of}
use buildomat.Lab.Worker.{FactoryWorker, is_detritus, scrubbed, no_instance}

-- The node name is not blank and has no slash, and the number fits in 64 bits.
pub record IsNamed (i : Instance) : Type 0 where
  pub slash : contains b'/' (codes i.nodename) ≡ false
  pub blank : str_eq (text_trim i.nodename) "" ≡ false
  pub fits : i.seq < 2 ^ 64

-- The private data of a worker is the ID of the instance.
abbrev pub is_for : Option String → Instance → Bool
is_for none i = false
is_for (some p) i = str_eq p (id_of i)

abbrev pub has_active : Database → FactoryWorker → Bool
has_active s w = any (λ i. not (destroyed_row i) && is_for w.private i) s.instance_rows

-- What the factory associates with a worker: nothing yet, or the ID of an instance, with or without a
-- row.
abbrev pub IsAssociated : FactoryWorker → Type 0
IsAssociated w = (w.private ≡ none) ⊎ ((i : Instance) × IsNamed i × (w.private ≡ some (id_of i)))

parsed : (i : Instance) → IsNamed i → parse_instance_id (id_of i) ≡ some (i.nodename, i.seq)
parsed i n = parse_instance_id-id_of i n.slash n.blank n.fits

key_name : Option (String × ℕ) → String
key_name none = ""
key_name (some (n, q)) = n

key_seq : Option (String × ℕ) → ℕ
key_seq none = 0
key_seq (some (n, q)) = q

one_id :
    (i r : Instance)
    → IsNamed i
    → IsNamed r
    → str_eq (id_of i) (id_of r) ≡ instance_at i.nodename i.seq r
unfolding id_of key_name key_seq
one_id i r n m = elim (Bool-cases (str_eq (id_of i) (id_of r))) [
  | inl e ↦
      let ids : id_of i ≡ id_of r = (eq_iff (id_of i) (id_of r)).0 e in
      let q : some (i.nodename, i.seq) ≡ some (r.nodename, r.seq) =
        sym (parsed i n) ∙ ap parse_instance_id ids ∙ parsed r m in
      let names : r.nodename ≡ i.nodename = sym (ap key_name q) in
      let seqs : r.seq ≡ i.seq = sym (ap key_seq q) in
      let same : str_eq r.nodename i.nodename ≡ true = (eq_iff r.nodename i.nodename).1 names in
      rw e (ground arith)
  | inr e ↦ elim (Bool-cases (instance_at i.nodename i.seq r)) [
    | inr k ↦ e ∙ sym k
    | inl k ↦
        let names : r.nodename ≡ i.nodename = (eq_iff r.nodename i.nodename).0 (ground arith) in
        let seqs : r.seq ≡ i.seq = ground arith in
        rw k ((eq_iff (id_of i) (id_of r)).1 (sym (ap₂ with_seq names seqs)))
  ]
]

active_at :
    (i : Instance) (rows : List Instance)
    → IsNamed i
    → All IsNamed rows
    → any (λ r. not (destroyed_row r) && is_for (some (id_of i)) r) rows
      ≡ any (λ r. not (destroyed_row r) && instance_at i.nodename i.seq r) rows
active_at i [] n m = refl
active_at i (r ∷ rows) n m = rw (one_id i r n m.0, active_at i rows n m.1) refl

found_active :
    (p : Instance → Bool) (rows : List Instance)
    → count p rows ≤ 1
    → no_instance (find p rows) ≡ not (any (λ r. not (destroyed_row r) && p r) rows)
unfolding find count
found_active p [] h = refl
found_active p (r ∷ rows) h = elim (Bool-cases (p r)) [
  | inl e ↦
      let none_left : any p rows ≡ false = any-count p rows (ground arith) in
      ground
        (arith, any_miss p (λ r. not (destroyed_row r) && p r) rows (λ x h. ground arith) none_left)
  | inr e ↦ ground (arith, found_active p rows)
]

no_private :
    (s : Database) (rows : List Instance)
    → any (λ i. not (destroyed_row i) && is_for none i) rows ≡ false
no_private s [] = refl
no_private s (r ∷ rows) = ground (arith, no_private s rows)

module _ (s : Database) (keys : HasKeys s) (named : All IsNamed s.instance_rows) where
  detritus-active : (w : FactoryWorker) → IsAssociated w → is_detritus s w ≡ not (has_active s w)
  unfolding is_detritus
  detritus-active w (inl e) = rw (e, no_private s s.instance_rows) refl
  detritus-active w (inr (i, n, e)) =
      rw (e, parsed i n, active_at i s.instance_rows n named)
        (found_active (instance_at i.nodename i.seq) s.instance_rows (keys i.nodename i.seq))

  -- Take a database without two instances of one key, whose instances have a node name that is not blank
  -- and has no slash and a number that fits in 64 bits, and workers whose private data is none or the ID
  -- of such an instance, with or without a row. The workers that the loop has destroyed are exactly those
  -- that have no active instance: the ID of no instance that is not destroyed is their private data.
  pub scrubbed-active :
      (ws : List FactoryWorker)
      → All IsAssociated ws
      → scrubbed s ws ≡ map (λ w. w.id) (select (λ w. not (has_active s w)) ws)
  unfolding scrubbed select
  scrubbed-active [] h = refl
  scrubbed-active (w ∷ ws) h = rw (detritus-active w h.0, scrubbed-active ws h.1) (ground arith)
