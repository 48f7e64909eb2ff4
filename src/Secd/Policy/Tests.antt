-- ===== src/Secd/Policy/Tests.antt =====
-- Runs of internal/secd on a process.
use a_from_scratch_linux_use.Base.Bits.{or_bit, test_bit}
use a_from_scratch_linux_use.Secd.Tests.{linux}
use a_from_scratch_linux_use.Secd.Policy.{drop_privileges, enforce_security_policy, SecurityPolicy}
use a_from_scratch_linux_use.Secd.Policy.Dropping.{
  drop_privileges-KeepsAll, drop_capabilities-Dropped, KeepsAll, Dropped,
}
use a_from_scratch_linux_use.Secd.Capabilities.{
  capability_names, keep, full_name, collect_caps, parse_capability, drop_capabilities, names_all,
}
use a_from_scratch_linux_use.Secd.Policy.Process.{process_kernel, process_caps, Process}
use a_from_scratch_linux_use.Secd.Capabilities.Sets.{HasRange}
use a_from_scratch_linux_use.Base.{
  has_prefix, one_of, trim_space, to_upper, refl, none, [], ◌∷◌, false, str_eq, ◌≡◌, str, true,
  arith, if◌then◌else◌, List, Bytes, ℕ,
}

-- Two of the capabilities by their numbers.
abbrev number : Bytes → ℕ
number name =
    if str_eq name (str "CAP_NET_RAW") then 13 else if str_eq name (str "CAP_BPF") then 39 else 0

number-HasRange : HasRange number
number-HasRange name = ground arith

abbrev process : Process
process = record {
  works = record { isolation = true; no_new_privs = true; capset = true; seccomp = true };
  effective = λ j. true;
  permitted = λ j. true;
  inheritable = λ j. true;
  bounding = λ j. true;
  no_new_privs = false;
  filters = [];
}

abbrev two_caps : List Bytes
two_caps = str " cap_bpf" ∷ str "net_raw" ∷ []

two_caps-names_all : names_all two_caps ≡ false
unfolding names_all str_eq to_upper trim_space
two_caps-names_all = refl

dropped_word : ((drop_capabilities number process_caps two_caps process).0).effective 39 ≡ true
unfolding drop_capabilities names_all collect_caps keep parse_capability full_name capability_names
    str_eq to_upper trim_space one_of has_prefix test_bit or_bit
dropped_word = refl

drop_capabilities-Dropped_example :
    Dropped number two_caps 12 process (drop_capabilities number process_caps two_caps process)
drop_capabilities-Dropped_example =
    drop_capabilities-Dropped number two_caps 12 process number-HasRange (ground arith)

abbrev misspelt : SecurityPolicy
misspelt = record {
  seccomp_profile = str "strict";
  caps_add = str "NET_RAW" ∷ str "NET_RAV" ∷ [];
  caps_drop = str "ALL" ∷ [];
  no_new_privs = true;
  rootfs = [];
}

misspelt-names_all : names_all misspelt.caps_add ≡ false
unfolding names_all str_eq to_upper trim_space
misspelt-names_all = refl

net_rav-none : parse_capability number (str "NET_RAV") ≡ none
unfolding parse_capability full_name capability_names one_of str_eq has_prefix to_upper trim_space
net_rav-none = refl

drop_privileges-KeepsAll_example :
    KeepsAll number linux misspelt.caps_add process
      (drop_privileges process_kernel number linux misspelt process)
unfolding str_eq to_upper trim_space
drop_privileges-KeepsAll_example =
    drop_privileges-KeepsAll number linux misspelt (str "NET_RAW" ∷ []) [] (str "NET_RAV") process
      refl misspelt-names_all refl net_rav-none

abbrev restricted : SecurityPolicy
restricted = record misspelt { seccomp_profile = str "strict"; caps_add = str "NET_RAW" ∷ [] }

enforced : Process
enforced = (enforce_security_policy process_kernel number linux restricted process).0
