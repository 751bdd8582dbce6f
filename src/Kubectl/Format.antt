-- ===== src/Kubectl/Format.antt =====
-- pkg/kubectl-plugin/common.go: sizes and shares as texts. `two_decimals` is `%.2f` for a sign and a
-- magnitude.
use hostpathpv_plugin.Base.{
  ℕ, suc, ◌-◌, ◌^◌, Bool, true, false, ◌++◌, GoString, codes, length, ltb, if◌then◌else◌, ℤ, pos,
  negsuc,
}
use hostpathpv_plugin.Util.Host.{decimal}
use hostpathpv_plugin.Util.Float.{Float, of_int, times, over}
use hostpathpv_plugin.Kubectl.Display.{get_num_space}

module _ (two_decimals : Bool → Float → GoString) where
  abbrev share : Bool → ℕ → ℕ → GoString
  share negative used capacity =
      codes "("
      ++ (two_decimals negative (times (over (of_int used) (of_int capacity)) (of_int 100))
          ++ codes "%)")

  unfoldable pub get_percent_str : ℤ → ℤ → GoString
  get_percent_str used (negsuc n) = codes "(00.00%)"
  get_percent_str (pos used) (pos capacity) =
      if ltb 0 capacity then share false used capacity else codes "(00.00%)"
  get_percent_str (negsuc n) (pos capacity) =
      if ltb 0 capacity then share true (suc n) capacity else codes "(00.00%)"

  abbrev in_unit : ℕ → ℕ → GoString → GoString
  in_unit size unit name = two_decimals false (over (of_int size) (of_int unit)) ++ name

  abbrev sized : ℤ → GoString
  sized (negsuc n) = codes "-" ++ (decimal (suc n) ++ codes " B")
  sized (pos size) =
      if ltb size 1024
      then decimal size ++ codes " B"
      else if ltb size (1024 ^ 2)
      then in_unit size 1024 (codes "KB")
      else if ltb size (1024 ^ 3)
      then in_unit size (1024 ^ 2) (codes "MB")
      else if ltb size (1024 ^ 4)
      then in_unit size (1024 ^ 3) (codes "GB")
      else if ltb size (1024 ^ 5)
      then in_unit size (1024 ^ 4) (codes "TB")
      else in_unit size (1024 ^ 5) (codes "PB")

  -- A text of less than nine bytes is filled up on the left.
  unfoldable pub convert_int_to_string : ℤ → GoString
  unfolding get_num_space
  convert_int_to_string size =
      let ret = sized size in
      if ltb (length ret) 9 then get_num_space (9 - length ret) (codes " ") ++ ret else ret
