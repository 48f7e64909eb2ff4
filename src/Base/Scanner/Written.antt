-- ===== src/Base/Scanner/Written.antt =====
-- The scan of a text that was written line by line.
use a_from_scratch_linux_use.Base.{
  append_assoc, ◌∙◌, append-nil, sym, refl, ap, ◌<◌, arith, length, false, true, ◌&&◌, [], ◌++◌,
  ◌≡◌, ◌==◌, ◌∷◌, All, not, ℕ, Bool, List, Bytes,
}
use a_from_scratch_linux_use.Base.Scanner.{text_of, Scanned, scan_lines, add_line, drop_cr}

-- Neither a newline nor a carriage return.
abbrev pub in_line : ℕ → Bool
in_line c = not (c == 10) && not (c == 13)

-- A line that a Scanner gives back as it is.
abbrev pub Tidy : Bytes → Type 0
Tidy line = All (λ c. in_line c ≡ true) line × (length line < 65536)

drop_cr_tidy : (line : Bytes) → All (λ c. in_line c ≡ true) line → drop_cr line ≡ line
drop_cr_tidy [] h = refl
drop_cr_tidy (c ∷ []) h = ground (arith, h.0)
drop_cr_tidy (c ∷ d ∷ cs) h = ap (◌∷◌ c) (drop_cr_tidy (d ∷ cs) h.1)

scan_line :
    (line current rest : Bytes)
    → All (λ c. in_line c ≡ true) line
    → scan_lines current (line ++ (10 ∷ rest)) ≡ add_line (current ++ line) (scan_lines [] rest)
unfolding scan_lines
scan_line [] current rest h = ap (λ t. add_line t (scan_lines [] rest)) (sym (append-nil current))
scan_line (c ∷ line) current rest h =
    ground (
      arith,
      h.0,
      scan_line line (current ++ (c ∷ [])) rest h.1,
      append_assoc current (c ∷ []) line,
    )

add-Tidy :
    (line : Bytes) (rest : Scanned)
    → Tidy line
    → add_line line rest ≡ record { lines = line ∷ rest.lines; failed = rest.failed }
add-Tidy line rest h = ground (arith, h.1, drop_cr_tidy line h.0)

pub scan_lines-text_of :
    (lines : List Bytes)
    → All Tidy lines
    → scan_lines [] (text_of lines) ≡ record { lines = lines; failed = false }
unfolding text_of scan_lines
scan_lines-text_of [] h = refl
scan_lines-text_of (line ∷ lines) h =
    scan_line line [] (text_of lines) h.0.0
    ∙ add-Tidy line (scan_lines [] (text_of lines)) h.0
    ∙ ap (λ r. record { lines = line ∷ Scanned.lines r; failed = Scanned.failed r })
        (scan_lines-text_of lines h.1)
