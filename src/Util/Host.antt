-- ===== src/Util/Host.antt =====
-- The file-system helpers of pkg/util/util.go over the machine that they run on. The system calls
-- (with `k8s.io/utils/mount` and `/proc/self/mountinfo`) are the parameter `Host`.
use mathlib.Core.List.{reverse}
use mathlib.Core.Bool.{◌||◌}
use mathlib.Core.Logic.{dite}
use mathlib.Core.WellFounded.{Acc}
use native.Mathlib.Decide.{dec_lt}
use hostpathpv_plugin.Base.{
  ℕ, zero, suc, ◌+◌, ◌-◌, ◌/◌, ◌%◌, ◌<◌, Bool, ◌&&◌, not, List, [], ◌∷◌, ◌++◌, Option, none, some,
  arith, GoString, str_eq, leb, ◌==◌, if◌then◌else◌, length, get_elem?, clean, slash, Result, ok,
  err, Act,
}

-- `no_data` is the error with the text "no data available", ENODATA.
pub data HostError : Type 0 where
  no_data not_exist call_failed no_backing_device : HostError

pub record Host (W : Type 0) : Type 0 where
  pub now : W → ℕ × W
  pub missing : GoString → W → Bool
  pub mkdir_all : GoString → Act W HostError (Unit {0})
  pub remove_all : GoString → Act W HostError (Unit {0})
  pub read_dir : GoString → W → Result HostError (List (GoString × Bool))
  pub likely_not_mount_point : GoString → W → Result HostError Bool
  pub lstat_dev : GoString → W → Result HostError (ℕ × ℕ)
  pub mountinfo : W → Result HostError (List GoString)
  pub set_xattr : GoString → GoString → GoString → Act W HostError (Unit {0})
  pub get_xattr : GoString → GoString → W → Result HostError GoString

Acc-below : (k n : ℕ) → n < k → Acc ◌<◌ n
Acc-below zero n h = elim h [ ]
Acc-below (suc k) n h = Acc.intro n (λ m below. Acc-below k m (omega arith))

-- The decimal digits of a number, in front of the text so far.
decimal_digits : (n : ℕ) → Acc ◌<◌ n → GoString → GoString
decimal_digits n (Acc.intro _ smaller) out =
    dite (dec_lt 9 n)
      (λ h. decimal_digits (n / 10) (smaller (n / 10) (omega arith)) ((b'0' + n % 10) ∷ out))
      (λ _. (b'0' + n) ∷ out)

-- %d
unfoldable pub decimal : ℕ → GoString
unfolding decimal_digits Acc-below dec_lt
decimal n = decimal_digits n (Acc-below (suc n) n (omega arith)) []

is_space : ℕ → Bool
is_space c = c == 32 || (leb 9 c && leb c 13)

close_word : GoString → List GoString → List GoString
close_word [] words = words
close_word (c ∷ w) words = reverse (c ∷ w) ∷ words

-- The word and the words read so far are reversed.
fields_from : GoString → List GoString → GoString → List GoString
unfolding is_space close_word
fields_from word words [] = reverse (close_word word words)
fields_from word words (c ∷ s) =
    fields_from (if is_space c then [] else c ∷ word)
      (if is_space c then close_word word words else words) s

-- strings.Fields, on ASCII text
unfoldable pub fields : GoString → List GoString
unfolding fields_from
fields = fields_from [] []

module _ {W : Type 0} (host : Host W) where
  -- os.Stat and IsNotExist; CheckDirExists is the same test
  unfoldable pub is_path_exist : GoString → W → Bool
  is_path_exist dir w = not (host.missing dir w)

  unfoldable pub mk_dir : GoString → Act W HostError (Unit {0})
  unfolding is_path_exist
  mk_dir dir w = if is_path_exist dir w then (ok tt, w) else host.mkdir_all dir w

  unfoldable pub delete_file : GoString → Act W HostError (Unit {0})
  unfolding is_path_exist
  delete_file path w = if is_path_exist path w then host.remove_all path w else (ok tt, w)

  abbrev sub_dirs : GoString → List (GoString × Bool) → List GoString
  sub_dirs parent [] = []
  sub_dirs parent ((name, is_dir) ∷ rest) =
      let others = sub_dirs parent rest in
      if is_dir then clean (parent ++ (slash ∷ name)) ∷ others else others

  -- A directory that cannot be read has no sub-directories.
  unfoldable pub get_sub_dirs : GoString → W → List GoString
  get_sub_dirs parent_dir w = elim (host.read_dir (clean parent_dir) w) [
    | ok entries ↦ sub_dirs (clean parent_dir) entries
    | err e ↦ []
  ]

  unfoldable pub is_mount_point : GoString → W → Result HostError Bool
  is_mount_point p w = elim (host.likely_not_mount_point p w) [
    | ok not_mnt ↦ ok (not not_mnt)
    | err e ↦ err e
  ]

  abbrev token_or_empty : Option GoString → GoString
  token_or_empty none = []
  token_or_empty (some t) = t

  -- The device token of a line of mountinfo, if the line is about the device and the mount point.
  abbrev line_device : GoString → GoString → List GoString → Option GoString
  line_device numbers mount_point tokens =
      if leb 5 (length tokens)
        && (str_eq (token_or_empty (get_elem? tokens 2)) numbers
            && str_eq (token_or_empty (get_elem? tokens 4)) mount_point)
      then get_elem? tokens (length tokens - 2)
      else none

  abbrev find_device : GoString → GoString → List GoString → Result HostError GoString
  find_device numbers mount_point [] = err no_backing_device
  find_device numbers mount_point (line ∷ lines) =
      let later = find_device numbers mount_point lines in
      elim (line_device numbers mount_point (fields line)) [ some d ↦ ok d | none ↦ later ]

  abbrev device_numbers : ℕ × ℕ → GoString
  device_numbers (major, minor) = decimal major ++ (b':' ∷ decimal minor)

  abbrev device_in :
      GoString
      → Result HostError (ℕ × ℕ)
      → Result HostError (List GoString)
      → Result HostError GoString
  device_in mount_point (err e) lines = err e
  device_in mount_point (ok numbers) (err e) = err e
  device_in mount_point (ok numbers) (ok lines) =
      find_device (device_numbers numbers) mount_point lines

  -- The first line of mountinfo with the path's device and mount point decides.
  unfoldable pub get_dev_for_path : GoString → W → Result HostError GoString
  unfolding decimal fields
  get_dev_for_path mount_point w =
      device_in (clean mount_point) (host.lstat_dev (clean mount_point) w) (host.mountinfo w)
