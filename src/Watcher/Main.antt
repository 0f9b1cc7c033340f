-- ===== src/Watcher/Main.antt =====
-- `open_at_saved_offset` and the loop of scripts/codex_approval_watcher.py.
use rfc_codex_gentoo_stage.Prelude.{
  ℕ, ℤ, pos, negsuc, leb_ℤ, eq_ℤ, String, Bool, true, false, ◌&&◌, List, [], ◌∷◌, Option, none,
  some, if◌then◌else◌,
}
use rfc_codex_gentoo_stage.Value.{Value, bool, int, dict, Fields, get}
use rfc_codex_gentoo_stage.Watcher.Lines.{Watch, process_line}

-- the log file as `stat` gives it
pub record Stat : Type 0 where
  pub inode : ℕ
  pub dev : ℕ
  pub size : ℕ

-- a truth value is a number, too
unfoldable pub number_of : Value → Option ℤ
number_of (int n) = some n
number_of (bool true) = some (pos 1)
number_of (bool false) = some (pos 0)
number_of v = none

abbrev pub is_number : ℕ → Option ℤ → Bool
is_number n none = false
is_number n (some m) = eq_ℤ m (pos n)

abbrev pub saved_offset : ℕ → Option ℤ → Option ℤ
saved_offset size none = none
saved_offset size (some offset) = if leb_ℤ offset (pos size) then some offset else none

-- the saved offset, if the saved state is of this very file
unfoldable pub usable_offset : Fields → Stat → Option ℤ
unfolding number_of get
usable_offset saved stat =
    if is_number stat.inode (number_of (get saved "inode"))
      && is_number stat.dev (number_of (get saved "dev"))
    then saved_offset stat.size (number_of (get saved "offset"))
    else none

-- `fh.seek(offset)`; `none` is the `ValueError` of a negative offset
abbrev pub seek : ℤ → Option ℕ
seek (pos n) = some n
seek (negsuc n) = none

abbrev pub start_from : ℕ → Option ℤ → Option ℕ
start_from size none = some size
start_from size (some offset) = seek offset

-- Where reading starts, for the JSON value of the saved state: `{}` if there is none.
unfoldable pub start_offset : Bool → Value → Stat → Option ℕ
unfolding usable_offset
start_offset true (dict saved) stat = some 0
start_offset false (dict saved) stat = start_from stat.size (usable_offset saved stat)
start_offset from_start v stat = none

-- What `readline` gives: a line, with the offset behind it, or nothing at the end of what is written so far.
pub data Read : Type 0 where
  line_read : String → ℕ → Read
  at_end : Read

pub data Ending : Type 0 where
  finished : Ending
  interrupted : Ending
  raised : Ending

-- how the loop ended, the watch, and the offset that is saved at the end
pub record Watched : Type 0 where
  pub ending : Ending
  pub watch : Watch
  pub offset : ℕ

module _ (loads : String → Option Value) (str_of : Value → String) (once : Bool) where
  -- The loop, for the reads that are made before it is interrupted. The state is saved however it ends.
  unfoldable pub run_reads : List Read → Watch → ℕ → Watched
  unfolding process_line
  run_reads [] watch offset = record { ending = interrupted; watch = watch; offset = offset }
  run_reads (at_end ∷ reads) watch offset =
      let later = run_reads reads watch offset in
      if once then record { ending = finished; watch = watch; offset = offset } else later
  run_reads (line_read line behind ∷ reads) watch offset =
      elim (process_line loads str_of line watch) [
        | none ↦ record { ending = raised; watch = watch; offset = behind }
        | some next ↦ run_reads reads next behind
      ]
