-- ===== src/Io/Output/Closing.antt =====
-- About fdo_close of apk-tools/src/io.c, after writes that took all of their bytes.
use am_linux_terminal_robot.Common.{
  concat, not, ◌&&◌, if◌then◌else◌, ◌≡◌, refl, ap, ◌∙◌, ◌⊎◌, inl, inr, Bool, true, false, some,
  List, ◌++◌, Bytes, append-nil, arith, ℤ, pos, ltb_ℤ,
}
use am_linux_terminal_robot.Io.Output.{
  FdOstream, fdo_flush, fdo_close, to_fd, writes, tmp_action, closed_rc,
}
use am_linux_terminal_robot.Io.Output.Contents.{IsWrite, Took, writes-Took, fdo_flush-Flushes}

module _ {F : Type 0} (write : F → Bytes → F × ℤ) (contents : F → Bytes) where
  closed_rc_lem : (fos : FdOstream F) → closed_rc write fos (pos 0) ≡ fos.rc
  closed_rc_lem fos =
      elim fos.standard as (λ b. (if not b && false then pos 0 else fos.rc) ≡ fos.rc) [
        | true ↦ refl
        | false ↦ refl
      ]

  -- After writes to a new stream that all took their bytes, and where close itself does not fail,
  -- fdo_close returns zero, and a temporary file is renamed, whatever the last flush does; either
  -- that flush failed, or the descriptor has been given all bytes written, in their order. A call of
  -- write with some bytes is taken to fail or to write a first part of them of a byte at least.
  pub closed_after_writes :
      (w : IsWrite write contents) (ss : List Bytes) (fd : F) (tmp standard : Bool)
      (fos : FdOstream F)
      → writes write ss (to_fd write fd tmp standard) ≡ some fos
      → ((fdo_close write fos (pos 0)).rc ≡ pos 0)
        × ((fdo_close write fos (pos 0)).tmp ≡ tmp_action write tmp (pos 0))
        × ((ltb_ℤ (fdo_flush write fos).1 (pos 0) ≡ true)
            ⊎ (contents (fdo_close write fos (pos 0)).fd ≡ contents fd ++ concat ss))
  unfolding fdo_close
  closed_after_writes w ss fd tmp standard fos e = (
    no_error,
    ap (λ r. tmp_action write fos.tmpfile r) no_error
        ∙ ap (λ b. tmp_action write b (pos 0)) t.same_tmp,
    elim (fdo_flush-Flushes write contents w fos) [
      | inl f ↦ inl f
      | inr (_, f) ↦ inr (f.whole ∙ t.whole ∙ ap (λ b. b ++ concat ss) (append-nil (contents fd)))
    ],
  )
    where
      t : Took write contents (to_fd write fd tmp standard) (concat ss) fos
      t = writes-Took write contents w ss (to_fd write fd tmp standard) fos (omega arith) e

      no_error : closed_rc write fos (pos 0) ≡ pos 0
      no_error = closed_rc_lem fos ∙ t.same_rc
