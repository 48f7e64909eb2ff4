-- ===== src/Qmp/Snapshots.antt =====
-- ParseSnapshotList of internal/qmp/client.go.
use a_from_scratch_linux_use.Base.{
  fields_from, true, contains, trim_space, ◌&&◌, none, [], str, ◌++◌, is_nil, ◌==◌, some, false,
  has_prefix, if◌then◌else◌, ◌∷◌, Bool, Option, List, Bytes, ℕ,
}

-- SnapshotInfo
pub record SnapshotInfo : Type 0 where
  pub id : Bytes
  pub tag : Bytes
  pub vm_size : Bytes
  pub date : Bytes
  pub vm_clock : Bytes

abbrev extend : ℕ → List Bytes → List Bytes
extend c [] = (c ∷ []) ∷ []
extend c (p ∷ ps) = (c ∷ p) ∷ ps

-- strings.Split(s, "\n")
unfoldable pub split_lines : Bytes → List Bytes
split_lines [] = [] ∷ []
split_lines (c ∷ s) = let rest = split_lines s in if c == 10 then [] ∷ rest else extend c rest

-- A row by its fields, of which there are five or more: with six, the date has two.
unfoldable pub parse_row : List Bytes → Option SnapshotInfo
parse_row (i ∷ t ∷ size ∷ d ∷ clock ∷ []) =
    some (record { id = i; tag = t; vm_size = size; date = d; vm_clock = clock })
parse_row (i ∷ t ∷ size ∷ d ∷ time ∷ clock ∷ more) =
    some (record { id = i; tag = t; vm_size = size; date = d ++ (32 ∷ time); vm_clock = clock })
parse_row (i ∷ t ∷ size ∷ d ∷ []) = none
parse_row (i ∷ t ∷ size ∷ []) = none
parse_row (i ∷ t ∷ []) = none
parse_row (i ∷ []) = none
parse_row [] = none

unfoldable pub is_heading : Bytes → Bool
is_heading line =
    has_prefix line (str "ID") && (contains line (str "TAG") && contains line (str "VM SIZE"))

abbrev add_row : Option SnapshotInfo → List SnapshotInfo → List SnapshotInfo
add_row none rest = rest
add_row (some s) rest = s ∷ rest

-- The loop over the lines; rows count behind the heading only.
unfoldable pub parse_rows : Bool → List Bytes → List SnapshotInfo
parse_rows in_table [] = []
parse_rows in_table (line ∷ lines) = elim (is_nil (trim_space line)) [
  | true ↦ parse_rows in_table lines
  | false ↦ elim (is_heading (trim_space line)) [
    | true ↦ parse_rows true lines
    | false ↦ elim in_table [
      | false ↦ parse_rows false lines
      | true ↦ add_row (parse_row (fields_from [] (trim_space line))) (parse_rows true lines)
    ]
  ]
]

-- ParseSnapshotList
unfoldable pub parse_snapshot_list : Bytes → List SnapshotInfo
parse_snapshot_list output = parse_rows false (split_lines output)
