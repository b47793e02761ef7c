-- ===== src/Version/Tests.antt =====
-- Runs of Version/Compare on concrete versions, and the theorems at concrete inputs.
use am_linux_terminal_robot.Common.{◌≡◌, refl, some, Option, Bytes, codes, starts_with, true, false}
use am_linux_terminal_robot.Version.Compare.{
  version_less, version_greater, compare_bytes, compare_blob, compare_loop, compare_fuel, advance,
  verdict, validate, validate_loop, continues, start,
}
use am_linux_terminal_robot.Version.Token.{
  get_token, read_token, read_number, read_zeros, zeros, number, find_suffix, next_token, next_raw,
}
use am_linux_terminal_robot.Version.Order.{flip_mask, compare_blob-flip_mask}
use am_linux_terminal_robot.Version.Termination.{compare_terminates}

compare_run : compare_bytes (codes "1.2.3") (codes "1.10") ≡ version_less
unfolding compare_bytes compare_loop advance verdict get_token read_token read_number read_zeros
    zeros number find_suffix next_token next_raw starts_with
compare_run = refl

revision_run : compare_bytes (codes "1.0b-r3") (codes "1.0b-r2") ≡ version_greater
unfolding compare_bytes compare_loop advance verdict get_token read_token read_number read_zeros
    zeros number find_suffix next_token next_raw starts_with
revision_run = refl

-- A pre-release of a version whose last component is a zero is taken for newer.
pre_release_run : compare_bytes (codes "1.0_alpha1") (codes "1.0") ≡ version_greater
unfolding compare_bytes compare_loop advance verdict get_token read_token read_number read_zeros
    zeros number find_suffix next_token next_raw starts_with
pre_release_run = refl

validate_run : validate (codes "1.2.3b_pre4-r7") ≡ true
unfolding validate validate_loop get_token read_token read_number read_zeros zeros number
    find_suffix next_token next_raw starts_with
validate_run = refl

validate_bad_run : validate (codes "1.2.3b_pre4-x7") ≡ false
unfolding validate validate_loop get_token read_token read_number read_zeros zeros number
    find_suffix next_token next_raw starts_with
validate_bad_run = refl

abbrev older : Option Bytes
older = some (codes "1.2.3")

abbrev newer : Option Bytes
newer = some (codes "1.10_rc2-r1")

compare_blob-flip_mask_example : compare_blob newer older ≡ flip_mask (compare_blob older newer)
compare_blob-flip_mask_example = compare_blob-flip_mask older newer

compare_terminates_example :
    continues (
      compare_loop
        (compare_fuel (codes "1.2") (codes "1.3_p"))
        (start (codes "1.2") (codes "1.3_p")))
    ≡ false
compare_terminates_example = compare_terminates (codes "1.2") (codes "1.3_p")
