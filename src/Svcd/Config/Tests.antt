-- ===== src/Svcd/Config/Tests.antt =====
-- Concrete service files, and the theorems about their readers at them.
use a_from_scratch_linux_use.Base.{
  ◌⊎◌, ◌↔◌, ℕ, none, some, [], ◌∷◌, ◌++◌, Bytes, str, str_eq, cut, one_of, trim_space, trim_left,
  trim_right, to_lower, to_upper, lower_byte, upper_byte, has_prefix, has_suffix, ◌≡◌, refl,
}
use a_from_scratch_linux_use.Base.Int.{pos, negsuc, int64}
use a_from_scratch_linux_use.Base.Scanner.{scan_lines}
use a_from_scratch_linux_use.Svcd.Spec.{ServiceSpec}
use a_from_scratch_linux_use.Svcd.Config.Values.{
  single_quote, double_quote, Floats, unquote, parse_array, scan_items, quote_step,
  parse_memory_limit, split_unit, trim_cutset, parse_int, digits,
}
use a_from_scratch_linux_use.Svcd.Config.Lines.{
  parsed, panicked, strip_comment, quoted_behind, parse_line, parse_statement, parse_entry,
  parse_lines, assign, assign_text,
}
use a_from_scratch_linux_use.Svcd.Config.Reader.{
  default_spec, read_spec, parse_service_spec_from_bytes,
}
use a_from_scratch_linux_use.Svcd.Config.Accepted.{unquote_panics}

abbrev fl : Floats ℕ
fl = record { zero_float = 0; parse_float = λ t. none }

abbrev array : Bytes
array = str "[\"-p\", '80, 81',]"

array_read : parse_array array ≡ some (str "-p" ∷ str "80, 81" ∷ [])
unfolding parse_array scan_items quote_step unquote trim_space trim_left trim_right has_prefix
    has_suffix str_eq
array_read = refl

memory_read : parse_memory_limit (str "64MB") ≡ some (pos 67108864)
unfolding parse_memory_limit split_unit trim_cutset parse_int digits int64 trim_space trim_left
    trim_right has_suffix to_upper upper_byte str_eq
memory_read = refl

-- 8 exabytes wrap to a negative limit.
memory_wraps : parse_memory_limit (str "8589934592G") ≡ some (negsuc 9223372036854775807)
unfolding parse_memory_limit split_unit trim_cutset parse_int digits int64 trim_space trim_left
    trim_right has_suffix to_upper upper_byte str_eq
memory_wraps = refl

abbrev file : Bytes
file = str "exec = '/bin/web' # the server" ++ (10 ∷ str "name=web")

abbrev web : ServiceSpec ℕ
web = record (default_spec fl) { name = str "web"; exec = str "/bin/web" }

file_read : parse_service_spec_from_bytes fl file ≡ parsed web
unfolding parse_service_spec_from_bytes read_spec scan_lines parse_lines parse_line parse_statement
    parse_entry assign assign_text one_of strip_comment quoted_behind cut unquote trim_space
    trim_left trim_right to_lower lower_byte has_prefix has_suffix str_eq
file_read = refl

-- One quote character where a text is read stops the program.
quote_panics : parse_service_spec_from_bytes fl (str "name = \"") ≡ panicked
unfolding parse_service_spec_from_bytes read_spec scan_lines parse_lines parse_line parse_statement
    parse_entry assign one_of strip_comment quoted_behind cut unquote trim_space trim_left
    trim_right to_lower lower_byte has_prefix has_suffix str_eq
quote_panics = refl

unquote_panics_example : (unquote (str " \" ") ≡ none) ↔ (
    (trim_space (str " \" ") ≡ double_quote ∷ []) ⊎ (trim_space (str " \" ") ≡ single_quote ∷ []))
unquote_panics_example = unquote_panics (str " \" ")
