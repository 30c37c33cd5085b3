-- ===== src/Log.antt =====
-- src/platform/cg_log.c: what `writev` is given, in its order. The macros of
-- include/platform/cg_log.h add the level, the file and the line.
use compuguessr.Base.{ℕ, List, ◌++◌, take}
use compuguessr.Base.Text.{codes, c_str}

unfoldable pub write : List ℕ → List ℕ → List ℕ → List ℕ → List ℕ
write level file line msg =
    codes "("
    ++ c_str file
    ++ codes "."
    ++ c_str line
    ++ codes ") ["
    ++ c_str level
    ++ codes "] "
    ++ c_str msg

-- 19 bytes of the date are written, whatever they are.
unfoldable pub write_ts : List ℕ → List ℕ → List ℕ → List ℕ → List ℕ → List ℕ
write_ts datetime level file line msg =
    take 19 datetime
    ++ codes ": ("
    ++ c_str file
    ++ codes "."
    ++ c_str line
    ++ codes ") ["
    ++ c_str level
    ++ codes "] "
    ++ c_str msg
