-- ===== src/Svcd/Config/Lines.antt =====
-- One line of a service file: the loop that ParseServiceConfig and ParseServiceSpecFromBytes of
-- internal/svcd/config.go both have. The float64 of a quota is a type `F`.
use a_from_scratch_linux_use.Base.{
  ℕ, suc, Bool, not, ◌&&◌, ◌||◌, Option, none, some, List, [], ◌∷◌, ◌++◌, ◌==◌, if◌then◌else◌,
  Bytes, str, str_eq, is_nil, one_of, cut, trim_space, to_lower, has_prefix,
}
use a_from_scratch_linux_use.Base.Int.{ℤ}
use a_from_scratch_linux_use.Svcd.Spec.{ServiceSpec}
use a_from_scratch_linux_use.Svcd.Config.Values.{
  backslash, is_quote, inner, enclosed, unquote, Quotes, outside, toggle, parse_array, parse_int,
  parse_memory_limit, Floats, parse_cpu_quota, parse_bool,
}

pub data ConfigError : Type 0 where
  bad_memory_limit bad_cpu_quota : ℕ → Bytes → ConfigError
  cannot_open cannot_read empty_file missing_exec missing_name : ConfigError

-- What a reader gives; `panicked` where Go stops the program.
pub data Outcome {ℓ} (A : Type ℓ) : Type ℓ where
  parsed : A → Outcome A
  rejected : ConfigError → Outcome A
  panicked : Outcome A

abbrev pub and_then {ℓ κ} : {A : Type ℓ} {B : Type κ} → Outcome A → (A → Outcome B) → Outcome B
and_then (parsed a) f = f a
and_then (rejected e) f = rejected e
and_then panicked f = panicked

-- A value that panics where there is none.
abbrev pub checked {ℓ} : {A : Type ℓ} → Option A → Outcome A
checked none = panicked
checked (some a) = parsed a

-- A value that fails with an error where there is none.
abbrev pub required {ℓ} : {A : Type ℓ} → ConfigError → Option A → Outcome A
required e none = rejected e
required e (some a) = parsed a

-- inQuotes behind a text; `prev` is the byte before it. The quoting has no escapes of its own.
unfoldable pub quoted_behind : Bytes → ℕ → Quotes → Bool
quoted_behind [] prev q = q.in_quotes
quoted_behind (c ∷ cs) prev q =
    quoted_behind cs c (if is_quote c && not (prev == backslash) then toggle c q else q)

-- A line without its comment, if its first '#' stands outside quotes.
unfoldable pub strip_comment : Bytes → Bytes
unfolding cut quoted_behind
strip_comment line = elim (cut b'#' line) [
  | none ↦ line
  | some (before, rest) ↦ if quoted_behind before 0 outside then line else trim_space before
]

-- strconv.Atoi of max_restarts: on an error the value stays.
abbrev or_else : Option ℤ → ℤ → ℤ
or_else none old = old
or_else (some n) old = n

abbrev text_keys : List Bytes
text_keys =
    str "name"
    ∷ str "exec"
    ∷ str "directory"
    ∷ str "root_dir"
    ∷ str "rootdir"
    ∷ str "chroot"
    ∷ str "restart"
    ∷ str "seccomp_profile"
    ∷ str "max_restarts"
    ∷ []

abbrev list_keys : List Bytes
list_keys =
    str "args"
    ∷ str "env"
    ∷ str "environment"
    ∷ str "after"
    ∷ str "capabilities_add"
    ∷ str "capabilities.add"
    ∷ str "capabilities_drop"
    ∷ str "capabilities.drop"
    ∷ []

-- The variables of the loop: the specification so far and the section.
pub record Reading (F : Type 0) : Type 0 where
  pub spec : ServiceSpec F
  pub section : Bytes

module _ {F : Type 0} where
  -- The keys with a text.
  unfoldable pub assign_text : ServiceSpec F → Bytes → Bytes → ServiceSpec F
  unfolding one_of
  assign_text s key t =
      if str_eq key (str "name")
      then record s { name = t }
      else if str_eq key (str "exec")
      then record s { exec = t }
      else if str_eq key (str "directory")
      then record s { directory = t }
      else if one_of key (str "root_dir" ∷ str "rootdir" ∷ str "chroot" ∷ [])
      then record s { root_dir = t }
      else if str_eq key (str "restart")
      then record s { restart = t }
      else if str_eq key (str "seccomp_profile")
      then record s { seccomp_profile = t }
      else if str_eq key (str "max_restarts")
      then record s { max_restarts = or_else (parse_int (trim_space t)) s.max_restarts }
      else s

  -- The keys with a list.
  unfoldable pub assign_list : ServiceSpec F → Bytes → List Bytes → ServiceSpec F
  unfolding one_of
  assign_list s key items =
      if str_eq key (str "args")
      then record s { args = items }
      else if one_of key (str "env" ∷ str "environment" ∷ [])
      then record s { env = s.env ++ items }
      else if str_eq key (str "after")
      then record s { after = items }
      else if one_of key (str "capabilities_add" ∷ str "capabilities.add" ∷ [])
      then record s { capabilities_add = items }
      else if one_of key (str "capabilities_drop" ∷ str "capabilities.drop" ∷ [])
      then record s { capabilities_drop = items }
      else s

module _ {F : Type 0} (fl : Floats F) where
  -- The switch over the keys, for one `key = value` of line `n`.
  unfoldable pub assign : ServiceSpec F → ℕ → Bytes → Bytes → Outcome (ServiceSpec F)
  unfolding one_of assign_text assign_list
  assign s n key val =
      if one_of key text_keys
      then and_then (checked (unquote val)) (λ t. parsed (assign_text s key t))
      else if one_of key list_keys
      then and_then (checked (parse_array val)) (λ items. parsed (assign_list s key items))
      else if str_eq key (str "no_new_privs")
      then and_then (checked (parse_bool val)) (λ b. parsed (record s { no_new_privs = b }))
      else if str_eq key (str "memory_limit")
      then and_then (checked (unquote val)) (λ t.
        and_then (required (bad_memory_limit n val) (parse_memory_limit t))
          (λ z. parsed (record s { memory_limit = z })))
      else if str_eq key (str "cpu_quota")
      then and_then (checked (unquote val)) (λ t.
        and_then (required (bad_cpu_quota n val) (parse_cpu_quota fl t))
          (λ f. parsed (record s { cpu_quota = f })))
      else parsed s

  -- A `key = value` line; in the section for the environment every key is a variable.
  unfoldable pub parse_entry : Reading F → ℕ → Bytes → Bytes → Outcome (Reading F)
  unfolding assign
  parse_entry r n key val =
      if one_of r.section (str "env" ∷ str "environment" ∷ [])
      then and_then (checked (unquote val)) (λ t.
        let s = r.spec in
        parsed (record r { spec = record s { env = s.env ++ ((key ++ (str "=" ++ t)) ∷ []) } }))
      else and_then (assign r.spec n (to_lower key) val) (λ s. parsed (record r { spec = s }))

  parse_pair : Reading F → ℕ → Option (Bytes × Bytes) → Outcome (Reading F)
  unfolding parse_entry
  parse_pair r n none = parsed r
  parse_pair r n (some (key, val)) = parse_entry r n (trim_space key) (trim_space val)

  -- A line that is neither blank nor a comment, without its comment.
  unfoldable pub parse_statement : Reading F → ℕ → Bytes → Outcome (Reading F)
  unfolding parse_pair
  parse_statement r n line =
      if is_nil line
      then parsed r
      else if enclosed line (str "[") (str "]")
      then parsed (record r { section = to_lower (trim_space (inner line)) })
      else parse_pair r n (cut b'=' line)

  -- Line `n` of the file.
  unfoldable pub parse_line : Reading F → ℕ → Bytes → Outcome (Reading F)
  unfolding parse_statement
  parse_line r n text =
      let line = trim_space text in
      if is_nil line || has_prefix line (str "#")
      then parsed r
      else parse_statement r n (strip_comment line)

  -- All the lines; `n` of them have been read.
  unfoldable pub parse_lines : Reading F → ℕ → List Bytes → Outcome (Reading F)
  parse_lines r n [] = parsed r
  parse_lines r n (line ∷ lines) =
      and_then (parse_line r (suc n) line) (λ r'. parse_lines r' (suc n) lines)
