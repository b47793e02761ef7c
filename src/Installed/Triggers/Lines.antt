-- ===== src/Installed/Triggers/Lines.antt =====
-- About a line of the file of triggers of apk-tools/src/database.c.
use am_linux_terminal_robot.Common.{
  ℕ, zero, suc, ◌<◌, ◌≡◌, ◌≢◌, refl, sym, ap, ◌∙◌, none, some, List, [], ◌∷◌, ◌++◌, append_assoc,
  append-nil, Bytes, map, length, length-append, All, All-append, arith, pos,
}
use am_linux_terminal_robot.Blob.Scan.{c_string, cstr, split, segment_loop, for_each_segment}
use am_linux_terminal_robot.Blob.Splitting.{Lacks}
use am_linux_terminal_robot.Blob.Pull.{pull_char}
use am_linux_terminal_robot.Blob.Push.{b64_chunks}
use am_linux_terminal_robot.Blob.Plain.{no_newline, b64_chunks-IsPlain}
use am_linux_terminal_robot.Blob.Checksum.{Checksum, checksum_sha1, csum_blob}
use am_linux_terminal_robot.Blob.Checksums.{IsData, pull_sha1_back}
use am_linux_terminal_robot.Files.{pkg_info_ops}
use am_linux_terminal_robot.Hash.{get}
use am_linux_terminal_robot.Package.Info.{bytes_of}
use am_linux_terminal_robot.Io.Lines.Cuts.{split-text, split-Lacks}
use am_linux_terminal_robot.Installed.Triggers.{
  TriggerDb, parse_triggers, triggers_of, with_triggers, after_segments, for_installed, for_package,
  after_csum, read_line,
}

-- A trigger is a C string with a byte at least, and no blank or newline.
pub record IsTrigger (t : Bytes) : Type 0 where
  pub some_byte : 0 < length (c_string t)
  pub no_blank : Lacks b' ' (c_string t)
  pub on_line : Lacks b'\n' (c_string t)

-- The triggers behind the checksum.
unfoldable pub spaced : List Bytes → Bytes
spaced [] = []
spaced (t ∷ ts) = b' ' ∷ (c_string t ++ spaced ts)

abbrev pub sum_text : Checksum → Bytes
sum_text csum = b'Q' ∷ b'1' ∷ b64_chunks csum.data_bytes 20

abbrev pub line_of : Checksum → List Bytes → Bytes
line_of csum ts = sum_text csum ++ spaced ts

-- A trigger as it is allocated when it is read.
abbrev pub allocated : Bytes → Bytes
allocated t = cstr (c_string t)

parse_lem :
    (acc : List Bytes) (s : Bytes)
    → 0 < length s
    → parse_triggers acc s ≡ (acc ++ cstr s ∷ [], pos 0)
unfolding parse_triggers
parse_lem acc [] h = absurd (omega (arith, h))
parse_lem acc (c ∷ s) h = refl

loop_last :
    (fuel : ℕ) (acc : List Bytes) (s : Bytes)
    → 0 < length s
    → split b' ' [] s ≡ none
    → segment_loop parse_triggers b' ' [] (suc fuel) acc s ≡ some (acc ++ cstr s ∷ [], pos 0)
unfolding segment_loop
loop_last fuel acc s h e = rw (e, segment_loop) (rw (parse_lem acc s h) (ground (arith, h)))

loop_more :
    (fuel : ℕ) (acc : List Bytes) (s l r : Bytes)
    → 0 < length l
    → split b' ' [] s ≡ some (l, r)
    → segment_loop parse_triggers b' ' [] (suc fuel) acc s
      ≡ segment_loop parse_triggers b' ' [] fuel (acc ++ cstr l ∷ []) r
unfolding segment_loop
loop_more fuel acc s l r h e = rw (e, segment_loop) (rw (parse_lem acc l h) refl)

segments :
    (fuel : ℕ) (acc : List Bytes) (t : Bytes) (ts : List Bytes)
    → IsTrigger t
    → All IsTrigger ts
    → length (c_string t ++ spaced ts) < fuel
    → segment_loop parse_triggers b' ' [] fuel acc (c_string t ++ spaced ts)
      ≡ some (acc ++ map allocated (t ∷ ts), pos 0)
unfolding spaced
segments zero acc t ts h hs l = absurd (omega (arith, l))
segments (suc fuel) acc t [] h hs l =
    ap (segment_loop parse_triggers b' ' [] (suc fuel) acc) (append-nil (c_string t))
    ∙ loop_last fuel acc (c_string t) h.some_byte (split-Lacks b' ' (c_string t) h.no_blank)
segments (suc fuel) acc t (u ∷ ts) h (hu, hs) l =
    loop_more fuel acc (c_string t ++ spaced (u ∷ ts)) (c_string t) (c_string u ++ spaced ts)
      h.some_byte (split-text b' ' (c_string t) (c_string u ++ spaced ts) h.no_blank)
    ∙ segments fuel (acc ++ allocated t ∷ []) u ts hu hs
        (omega (arith, l, length-append (c_string t) (b' ' ∷ (c_string u ++ spaced ts))))
    ∙ ap (λ a. some (a, pos 0)) (append_assoc acc (allocated t ∷ []) (map allocated (u ∷ ts)))

-- What stands behind the checksum of a line is read as the triggers.
spaced_read :
    (acc ts : List Bytes)
    → All IsTrigger ts
    → for_each_segment parse_triggers b' ' [] acc (bytes_of (pull_char (some (spaced ts)) b' '))
      ≡ some (acc ++ map allocated ts, pos 0)
unfolding for_each_segment spaced pull_char
spaced_read acc [] h = unfold segment_loop split in ap (λ a. some (a, pos 0)) (sym (append-nil acc))
spaced_read acc (t ∷ ts) (h, hs) =
    segments (suc (length (c_string t ++ spaced ts))) acc t ts h hs (omega arith)

pulled :
    (c : Checksum) → c.type ≡ checksum_sha1 → c ≡ record { data_bytes = c.data_bytes; type = 20 }
pulled c e = ap (λ t. record { data_bytes = c.data_bytes; type = t }) e

-- A line that is written for an installed package with a SHA-1 checksum adds its triggers.
pub read_line-line_of :
    (db : TriggerDb) (old csum pkg : Checksum) (ts before : List Bytes)
    → csum.type ≡ checksum_sha1
    → IsData csum
    → length old.data_bytes ≡ 20
    → All IsTrigger ts
    → get pkg_info_ops db.packages (csum_blob csum) ≡ some pkg
    → triggers_of db.installed (csum_blob pkg) ≡ some before
    → read_line db old (line_of csum ts)
      ≡ some (with_triggers db (csum_blob pkg) (before ++ map allocated ts), csum)
unfolding read_line
read_line-line_of db old csum pkg ts before h d e hs found mine =
    ap (after_csum db) (
      pull_sha1_back csum.data_bytes (spaced ts) old d.all_bytes d.size e
      ∙ ap (λ c. some (c, some (spaced ts))) (sym (pulled csum h)))
    ∙ ap (for_package db csum (pull_char (some (spaced ts)) b' ')) found
    ∙ ap (for_installed db csum (csum_blob pkg) (pull_char (some (spaced ts)) b' ')) mine
    ∙ ap (after_segments db csum (csum_blob pkg)) (spaced_read before ts hs)

spaced-Lacks : (ts : List Bytes) → All IsTrigger ts → Lacks b'\n' (spaced ts)
unfolding spaced
spaced-Lacks [] h = tt
spaced-Lacks (t ∷ ts) (h, hs) = (
  (λ e. absurd (ground (arith, e))),
  All-append (λ c. c ≢ b'\n') (c_string t) (spaced ts) h.on_line (spaced-Lacks ts hs),
)

pub line_of-Lacks :
    (csum : Checksum) (ts : List Bytes)
    → IsData csum
    → All IsTrigger ts
    → Lacks b'\n' (line_of csum ts)
line_of-Lacks csum ts d hs =
    All-append (λ c. c ≢ b'\n') (sum_text csum) (spaced ts)
      (
        (λ e. absurd (ground (arith, e))),
        (
          (λ e. absurd (ground (arith, e))),
          no_newline _ (b64_chunks-IsPlain csum.data_bytes 20 d.all_bytes (omega arith)),
        ),
      )
      (spaced-Lacks ts hs)
