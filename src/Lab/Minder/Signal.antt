-- ===== src/Lab/Minder/Signal.antt =====
-- What a host may have before it has signalled that it is up, and after.
use buildomat.Prelude.{
  ◌<◌, ◌≡◌, refl, sym, ap, subst, ◌∙◌, inl, inr, true, false, not, List, [], ◌∷◌, some, String, ok,
  err, arith, ◌==◌, is_some, All, Bool-cases, Option-cases,
}
use text.Mathlib.Text.{◌==◌ as str_eq}
use text.Mathlib.TextEquality.{eq_iff}
use buildomat.Sql.{select, find, count, update}
use buildomat.Sql.Lemmas.{map-All}
use buildomat.Sql.Counts.{select-update, select-count, All-select, All-unique, find-none}
use buildomat.Lab.Models.{
  Instance, InstanceState, preboot, booted, destroying, destroyed, is_preboot, in_preboot,
  should_teardown,
}
use buildomat.Lab.Database.{
  Database, instance_for_host, instance_boot, instance_at, active_on, one_active, set_state,
  update_instance, boot_from,
}
use buildomat.Lab.Changes.{HasKeys}
use buildomat.Lab.Minder.{
  Config, HostConfig, access_denied, host_config, signal, signal_for, boot_now, os_file,
  postboot_script, ipxe_script, media_for, ipxe_of, hold_ipxe, answer, ◌>>=◌,
}

-- The one active instance of a host, which is not booting.
Up : String → Database → Type 0
Up host s =
    (i : Instance) × (select (active_on host) s.instance_rows ≡ i ∷ []) × (is_preboot i ≡ false)

signal_for_inv :
    (i : Instance) (key : String) (s s' : Database)
    → signal_for (some i) key s ≡ ok s'
    → boot_now i s ≡ ok s'
unfolding signal_for
signal_for_inv i key s s' e = elim (Bool-cases (not (str_eq i.key key))) [
  | inl k ↦ absurd (ground arith)
  | inr k ↦ elim (Bool-cases (should_teardown i)) [
    | inl t ↦ absurd (ground arith)
    | inr t ↦ ground arith
  ]
]

-- A signal that is accepted found one active instance.
signalled :
    (host key : String) (s s' : Database) (xs : List Instance)
    → (answer (one_active xs s) >>= λ i. signal_for i key s) ≡ ok s'
    → (i : Instance) × (xs ≡ i ∷ []) × (boot_now i s ≡ ok s')
unfolding one_active
signalled host key s s' [] e = absurd (unfold signal_for in ground arith)
signalled host key s s' (i ∷ []) e = (i, refl, signal_for_inv i key s s' e)
signalled host key s s' (i ∷ j ∷ is) e = absurd (ground arith)

preboot_of : (st : InstanceState) → in_preboot st ≡ true → st ≡ preboot
preboot_of preboot e = refl
preboot_of booted e = absurd (ground arith)
preboot_of destroying e = absurd (ground arith)
preboot_of destroyed e = absurd (ground arith)

module _ (host : String) (s : Database) (i : Instance) (keys : HasKeys s)
    (alone : select (active_on host) s.instance_rows ≡ i ∷ []) where
  in_table : 0 < count (instance_at i.nodename i.seq) s.instance_rows
  in_table =
      (select-count (active_on host) (instance_at i.nodename i.seq) s.instance_rows [] i alone
        (ground (arith, eq_iff i.nodename i.nodename))).1

  fetched_row : find (instance_at i.nodename i.seq) s.instance_rows ≡ some i
  fetched_row = elim (Option-cases (find (instance_at i.nodename i.seq) s.instance_rows)) [
    | inl e ↦
        absurd (omega (arith, in_table, find-none (instance_at i.nodename i.seq) s.instance_rows e))
    | inr (r, e) ↦
        let same : i ≡ r =
          row_of r (
            All-unique (instance_at i.nodename i.seq) s.instance_rows r e
              (keys i.nodename i.seq)) in
        e ∙ ap some (sym same)
  ]
    where
      row_of :
          (r : Instance)
          → All (λ x. instance_at i.nodename i.seq x ≡ true → x ≡ r) s.instance_rows
          → i ≡ r
      row_of r h =
          (subst (All (λ x. instance_at i.nodename i.seq x ≡ true → x ≡ r)) alone (
              All-select (λ x. instance_at i.nodename i.seq x ≡ true → x ≡ r) (active_on host)
                s.instance_rows h)).0
            (ground (arith, eq_iff i.nodename i.nodename))

  abbrev with_boot : Database
  with_boot = record s {
    instance_rows = update (instance_at i.nodename i.seq) (set_state booted) s.instance_rows;
  }

  boots : i.state ≡ preboot → instance_boot i.nodename i.seq s ≡ ok (tt, with_boot)
  unfolding instance_boot boot_from update_instance
  boots k =
      let one : (count (instance_at i.nodename i.seq) s.instance_rows == 1) ≡ true =
        ground (arith, in_table, keys i.nodename i.seq) in
      rw (fetched_row, k, one, boot_from) refl

  with_boot-select :
      i.state ≡ preboot → select (active_on host) with_boot.instance_rows ≡ set_state booted i ∷ []
  with_boot-select k =
      select-update (active_on host) (instance_at i.nodename i.seq) (set_state booted)
        s.instance_rows
        (map-All s.instance_rows (λ r h a. ground (arith, h a, k))
          (All-unique (instance_at i.nodename i.seq) s.instance_rows i fetched_row
            (keys i.nodename i.seq)))
      ∙ ap (update (instance_at i.nodename i.seq) (set_state booted)) alone
      ∙ hit
    where
      hit :
          update (instance_at i.nodename i.seq) (set_state booted) (i ∷ [])
          ≡ set_state booted i ∷ []
      hit = unfold update in ground (arith, eq_iff i.nodename i.nodename)

  boot_now-Up : (s' : Database) → boot_now i s ≡ ok s' → Up host s'
  unfolding boot_now Up is_preboot
  boot_now-Up s' e = elim (Bool-cases (is_preboot i)) [
    | inl k ↦
        let st : i.state ≡ preboot = preboot_of i.state k in
        let same : with_boot ≡ s' = ground (arith, boots st) in
        (
          set_state booted i,
          subst (λ t. select (active_on host) t.instance_rows ≡ set_state booted i ∷ []) same
              (with_boot-select st),
          refl,
        )
    | inr k ↦
        let same : s ≡ s' = ground arith in
        (i, subst (λ t. select (active_on host) t.instance_rows ≡ i ∷ []) same alone, k)
  ]

module _ (c : Config) (host : String) (s : Database) (hc : HostConfig)
    (configured : host_config c host ≡ ok hc) (plain : is_some hc.debug_os_dir ≡ false) where
  -- Once the one active instance of a host is up, the host has nothing to boot.
  denied :
      (file : List String)
      → Up host s
      → (os_file c s host file ≡ err access_denied)
        × (postboot_script c s host ≡ err access_denied)
        × ((i : Instance) × (ipxe_script c s host ≡ ok (hold_ipxe (some i) false)))
  unfolding Up os_file postboot_script ipxe_script media_for ipxe_of instance_for_host one_active
  denied file (i, alone, up) = (
    rw (configured, plain, alone, one_active, up) refl,
    rw (configured, alone, one_active, up, plain) refl,
    (i, rw (configured, alone, one_active, plain, up) refl),
  )

-- Take a database without two instances of one key, and a host that does not boot debug media. When a
-- signal of the host is accepted, then right after it the host gets no boot media and no postboot
-- script, and its boot script tells it to hold.
pub signal-denied :
    (c : Config) (host key : String) (s s' : Database) (hc : HostConfig) (file : List String)
    → HasKeys s
    → host_config c host ≡ ok hc
    → is_some hc.debug_os_dir ≡ false
    → signal c host key s ≡ ok s'
    → (os_file c s' host file ≡ err access_denied)
      × (postboot_script c s' host ≡ err access_denied)
      × ((i : Instance) × (ipxe_script c s' host ≡ ok (hold_ipxe (some i) false)))
unfolding signal instance_for_host
signal-denied c host key s s' hc file keys configured plain e =
    let (i, alone, now_up) =
      signalled host key s s' (select (active_on host) s.instance_rows) (rw configured at e) in
    denied c host s' hc configured plain file (boot_now-Up host s i keys alone s' now_up)
