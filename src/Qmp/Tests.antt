-- ===== src/Qmp/Tests.antt =====
-- Runs of the client, with answers that are texts.
use a_from_scratch_linux_use.Qmp.Answered.{execute-Answers, at, open_client, script, IsNoise}
use a_from_scratch_linux_use.Qmp.Snapshots.{
  parse_row, is_heading, split_lines, parse_rows, parse_snapshot_list,
}
use a_from_scratch_linux_use.Qmp.{
  read_line, receive, Reply, SnapshotInfo, handshake, execute, dial_timeout, is_skipped, Json,
}
use a_from_scratch_linux_use.Base.Io.{ok}
use a_from_scratch_linux_use.Base.{
  fields_from, contains, trim_space, arith, true, refl, inr, ◌≡◌, inl, if◌then◌else◌, none, [],
  ◌++◌, some, All, ◌∷◌, str, has_prefix, Option, List, Bytes,
}

abbrev no_error : Bytes → Option Bytes → Reply Bytes
no_error event value = record { return = value; error = none; event = event }

-- A line that begins with "E" is an event, any other the text that is returned.
abbrev json : Json Bytes
json = record {
  is_greeting = λ b. has_prefix b (str "QMP");
  encode = λ cmd args. some cmd;
  decode =
      λ b. if has_prefix b (str "E") then some (no_error b none) else some (no_error [] (some b));
  as_text = λ v. some v;
  print = λ v. [];
  as_status = λ v. none;
}

abbrev stop_event : Bytes
stop_event = str "{\"event\": \"STOP\"}" ++ 10 ∷ []

abbrev noise : List Bytes
noise = (13 ∷ 10 ∷ []) ∷ stop_event ∷ str "E1" ∷ []

noise-IsNoise : All (IsNoise json) noise
unfolding is_skipped trim_space contains
noise-IsNoise = (inl refl, (inl refl, (inr (no_error (str "E1") none, refl, refl, refl), tt)))

execute-Answers_example :
    execute script json 9
      (str "cont")
      []
      (open_client (at (noise ++ str " done " ∷ str "next" ∷ []) []))
    ≡ (open_client (at (str "next" ∷ []) ((str "cont" ++ 10 ∷ []) ∷ [])), ok (some (str "done")))
unfolding is_skipped trim_space contains
execute-Answers_example =
    execute-Answers json (str "cont") [] (str "cont") noise (str " done ") (str "next" ∷ []) []
      (no_error [] (some (str "done"))) 9 refl noise-IsNoise (refl, refl, refl) (omega arith)

dialed : dial_timeout script json 9 (at (str "QMP" ∷ str "{}" ∷ []) [], true) ≡ (
  at [] ((str "qmp_capabilities" ++ 10 ∷ []) ∷ []),
  ok (open_client (at [] ((str "qmp_capabilities" ++ 10 ∷ []) ∷ []))),
)
unfolding dial_timeout handshake execute receive read_line is_skipped trim_space contains
dialed = refl

abbrev row : Bytes → SnapshotInfo
row size = record {
  id = str "1";
  tag = str "base";
  vm_size = size;
  date = str "2024-01-01 10:00:00";
  vm_clock = str "00:01:02";
}

listed :
    parse_snapshot_list (
      str "List of snapshots:"
      ++ 10
        ∷ (str "ID  TAG  VM SIZE  DATE  VM CLOCK"
            ++ 10 ∷ (str "1 base 12M 2024-01-01 10:00:00 00:01:02" ++ 10 ∷ [])))
    ≡ row (str "12M") ∷ []
unfolding parse_snapshot_list parse_rows split_lines trim_space is_heading has_prefix contains
    parse_row fields_from
listed = refl
