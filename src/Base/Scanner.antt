-- ===== src/Base/Scanner.antt =====
-- bufio.Scanner over the lines of a file.
pub mod Written
use a_from_scratch_linux_use.Base.{
  ℕ, Bool, true, false, List, [], ◌∷◌, ◌++◌, ◌==◌, leb, if◌then◌else◌, Bytes, is_nil, length,
}

-- What a bufio.Scanner gives: its lines, and whether it ends with an error.
pub record Scanned : Type 0 where
  pub lines : List Bytes
  pub failed : Bool

-- The longest token of a Scanner is one byte shorter than this.
abbrev pub max_token_size : ℕ
max_token_size = 65536

abbrev pub drop_cr : Bytes → Bytes
drop_cr [] = []
drop_cr (c ∷ []) = if c == 13 then [] else c ∷ []
drop_cr (c ∷ d ∷ cs) = c ∷ drop_cr (d ∷ cs)

-- A line in front of the lines behind it; a line that is too long ends the scan.
abbrev pub add_line : Bytes → Scanned → Scanned
add_line line rest =
    if leb max_token_size (length line)
    then record { lines = []; failed = true }
    else record { lines = drop_cr line ∷ rest.lines; failed = rest.failed }

-- bufio.ScanLines; `current` is the line so far.
unfoldable pub scan_lines : Bytes → Bytes → Scanned
scan_lines current [] =
    if is_nil current
    then record { lines = []; failed = false }
    else add_line current (record { lines = []; failed = false })
scan_lines current (c ∷ cs) =
    let fresh = scan_lines [] cs in
    let longer = scan_lines (current ++ (c ∷ [])) cs in
    if c == 10 then add_line current fresh else longer

-- Lines, each with the newline behind it.
unfoldable pub text_of : List Bytes → Bytes
text_of [] = []
text_of (line ∷ lines) = line ++ (10 ∷ text_of lines)
