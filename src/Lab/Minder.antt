-- ===== src/Lab/Minder.antt =====
-- factory/lab/src/minder.rs: the requests that a lab host makes while it boots. The reading of files
-- and the substitution of tokens in a script are left out: an answer is the path of a file, or the
-- script with the instance whose keys it is given.
pub mod Signal
use buildomat.Prelude.{
  ℕ, Bool, true, false, not, ◌&&◌, ◌||◌, List, [], ◌∷◌, ◌++◌, Option, none, some, String, Result,
  ok, err, if◌then◌else◌, is_some, any, codes, contains,
}
use text.Mathlib.Text.{◌==◌ as str_eq}
use buildomat.Sql.{find}
use buildomat.Lab.Models.{Instance, is_preboot, should_teardown}
use buildomat.Lab.Database.{Database, Failure, Reason, conflict, instance_for_host, instance_boot}

-- The parts of the configuration that these requests use.
pub record HostConfig : Type 0 where
  pub name : String
  pub debug_os_dir : Option String
  pub debug_os_postboot_sh : Option String

pub record TargetConfig : Type 0 where
  pub target : String
  pub os_dir : String

pub record Config : Type 0 where
  pub hosts : List HostConfig
  pub targets : List TargetConfig

pub data HttpError : Type 0 where
  invalid_host invalid_target access_denied no_relative_path : HttpError
  invalid_key tearing_down no_instance internal assertion : HttpError
  conflicted : Reason → HttpError

abbrev pub or_500 : Failure → HttpError
or_500 (conflict r) = conflicted r
or_500 _ = internal

infixl 5 ◌>>=◌ ◌>>◌
abbrev pub ◌>>=◌ :
    {A B : Type 0} → Result HttpError A → (A → Result HttpError B) → Result HttpError B
ok a >>= f = f a
err e >>= f = err e

abbrev pub ◌>>◌ :
    {B : Type 0} → Result HttpError (Unit {0}) → Result HttpError B → Result HttpError B
m >> k = m >>= λ _. k

abbrev pub deny_if : Bool → HttpError → Result HttpError (Unit {0})
deny_if true e = err e
deny_if false e = ok tt

abbrev pub answer : {A : Type 0} → Result Failure (A × Database) → Result HttpError A
answer (ok (a, s)) = ok a
answer (err e) = err (or_500 e)

abbrev known_host : Option HostConfig → Result HttpError HostConfig
known_host none = err invalid_host
known_host (some h) = ok h

unfoldable pub host_config : Config → String → Result HttpError HostConfig
host_config c name = known_host (find (λ h. str_eq h.name name) c.hosts)

abbrev known_target : Option TargetConfig → Result HttpError String
known_target none = err invalid_target
known_target (some t) = ok t.os_dir

unfoldable pub target_os_dir : Config → String → Result HttpError String
target_os_dir c target = known_target (find (λ t. str_eq t.target target) c.targets)

-- Whether the instance is still booting.
abbrev pub booting : Option Instance → Bool
booting none = false
booting (some i) = is_preboot i

-- Whether the host may have boot media, and of which target.
abbrev pub boot_target : Option Instance → Bool × Option String
boot_target none = (false, none)
boot_target (some i) = (is_preboot i, some i.target)

unfoldable pub media_for : HostConfig → String → Database → Result HttpError (Bool × Option String)
media_for hc host s =
    if is_some hc.debug_os_dir
    then ok (true, none)
    else (do i ← answer (instance_for_host host s); ok (boot_target i))

unfoldable pub media_dir : Config → Option String → Option String → Result HttpError String
media_dir c (some dir) target = ok dir
media_dir c none none = err assertion
media_dir c none (some t) = target_os_dir c t

-- The components of the path below the directory.
unfoldable pub below : List String → Result HttpError (List String)
below [] = ok []
below (f ∷ fs) = do
  deny_if (contains b'/' (codes f)) assertion
  deny_if (str_eq f "." || str_eq f "..") no_relative_path
  rest ← below fs
  ok (f ∷ rest)

unfoldable pub os_file : Config → Database → String → List String → Result HttpError (List String)
os_file c s host file = do
  hc ← host_config c host
  media ← media_for hc host s
  deny_if (not media.0) access_denied
  dir ← media_dir c hc.debug_os_dir media.1
  path ← below file
  ok (dir ∷ path)

unfoldable pub boot_now : Instance → Database → Result HttpError Database
boot_now i s =
    if is_preboot i
    then elim (instance_boot i.nodename i.seq s) [ ok (u, t) ↦ ok t | err e ↦ err (or_500 e) ]
    else ok s

unfoldable pub signal_for : Option Instance → String → Database → Result HttpError Database
signal_for none key s = err no_instance
signal_for (some i) key s = do
  deny_if (not (str_eq i.key key)) invalid_key
  deny_if (should_teardown i) tearing_down
  boot_now i s

unfoldable pub signal : Config → String → String → Database → Result HttpError Database
signal c host key s = do
  hc ← host_config c host
  i ← answer (instance_for_host host s)
  signal_for i key s

-- A script from a file, no script, or one of the scripts that come with the factory.
pub data Script : Type 0 where
  from_file : String → Option Instance → Script
  blank : Script
  postboot : Option Instance → Script
  debug_ipxe regular_ipxe hold_ipxe : Option Instance → Bool → Script

unfoldable pub postboot_of : HostConfig → Option Instance → Script
postboot_of hc i = elim hc.debug_os_postboot_sh [
  | some path ↦ from_file path i
  | none ↦ if is_some hc.debug_os_dir then blank else postboot i
]

unfoldable pub postboot_script : Config → Database → String → Result HttpError Script
postboot_script c s host = do
  hc ← host_config c host
  i ← answer (instance_for_host host s)
  deny_if (not (booting i) && not (is_some hc.debug_os_dir)) access_denied
  ok (postboot_of hc i)

-- The flag is the marker of a boot rather than of a hold.
unfoldable pub ipxe_of : HostConfig → Option Instance → Script
ipxe_of hc i =
    if is_some hc.debug_os_dir
    then debug_ipxe i (booting i)
    else if booting i
    then regular_ipxe i true
    else hold_ipxe i false

unfoldable pub ipxe_script : Config → Database → String → Result HttpError Script
ipxe_script c s host = do
  hc ← host_config c host
  i ← answer (instance_for_host host s)
  ok (ipxe_of hc i)
