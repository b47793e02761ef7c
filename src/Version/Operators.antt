-- ===== src/Version/Operators.antt =====
-- The operators of a dependency: `apk_version_op_string` and `apk_version_result_mask`.
use am_linux_terminal_robot.Common.{ℕ, zero, suc, ◌≡◌, ◌≢◌, ◌<◌, ◌++◌, ◌∷◌, Bytes, arith}
use am_linux_terminal_robot.Version.Compare.{op_string, result_mask}

-- A mask that asks for less or greater, not both, or for equality, is read back from its operator,
-- also with the version's text behind it, if that does not begin with an equals sign.
pub result_mask-op_string :
    (mask c : ℕ) (s : Bytes)
    → 0 < mask
    → mask < 6
    → c ≢ b'='
    → result_mask (op_string mask ++ c ∷ s) ≡ mask
unfolding op_string result_mask
result_mask-op_string zero c s p l h = absurd (omega arith)
result_mask-op_string (suc zero) c s p l h = ground arith
result_mask-op_string (suc (suc zero)) c s p l h = ground arith
result_mask-op_string (suc (suc (suc zero))) c s p l h = ground arith
result_mask-op_string (suc (suc (suc (suc zero)))) c s p l h = ground arith
result_mask-op_string (suc (suc (suc (suc (suc zero))))) c s p l h = ground arith
result_mask-op_string (suc (suc (suc (suc (suc (suc m)))))) c s p l h = absurd (omega arith)
