-- ===== src/Secd/Capabilities.antt =====
-- internal/secd/capabilities.go. The number of a capability is the constant unix.<NAME>, and the
-- calls of the kernel are a record; a set of capabilities is the word of its bits.
pub mod Sets
use a_from_scratch_linux_use.Base.{
  mem, ℕ, zero, suc, ◌+◌, ◌-◌, Bool, true, false, not, ◌||◌, Option, none, some, List, [], ◌∷◌,
  ◌++◌, ◌==◌, ltb, if◌then◌else◌, Bytes, str, str_eq, one_of, trim_space, to_upper, has_prefix,
}
use a_from_scratch_linux_use.Base.Bits.{or_bit}
use a_from_scratch_linux_use.Base.Io.{
  Io, Result, ok, err, from_result, pure, raise, call, or_raise, ◌>>=◌, ◌>>◌,
}

-- The keys of capNameToNum.
unfoldable pub capability_names : List Bytes
capability_names =
    str "CAP_CHOWN"
    ∷ str "CAP_DAC_OVERRIDE"
    ∷ str "CAP_DAC_READ_SEARCH"
    ∷ str "CAP_FOWNER"
    ∷ str "CAP_FSETID"
    ∷ str "CAP_KILL"
    ∷ str "CAP_SETGID"
    ∷ str "CAP_SETUID"
    ∷ str "CAP_SETPCAP"
    ∷ str "CAP_LINUX_IMMUTABLE"
    ∷ str "CAP_NET_BIND_SERVICE"
    ∷ str "CAP_NET_BROADCAST"
    ∷ str "CAP_NET_ADMIN"
    ∷ str "CAP_NET_RAW"
    ∷ str "CAP_IPC_LOCK"
    ∷ str "CAP_IPC_OWNER"
    ∷ str "CAP_SYS_MODULE"
    ∷ str "CAP_SYS_RAWIO"
    ∷ str "CAP_SYS_CHROOT"
    ∷ str "CAP_SYS_PTRACE"
    ∷ str "CAP_SYS_PACCT"
    ∷ str "CAP_SYS_ADMIN"
    ∷ str "CAP_SYS_BOOT"
    ∷ str "CAP_SYS_NICE"
    ∷ str "CAP_SYS_RESOURCE"
    ∷ str "CAP_SYS_TIME"
    ∷ str "CAP_SYS_TTY_CONFIG"
    ∷ str "CAP_MKNOD"
    ∷ str "CAP_LEASE"
    ∷ str "CAP_AUDIT_WRITE"
    ∷ str "CAP_AUDIT_CONTROL"
    ∷ str "CAP_SETFCAP"
    ∷ str "CAP_MAC_OVERRIDE"
    ∷ str "CAP_MAC_ADMIN"
    ∷ str "CAP_SYSLOG"
    ∷ str "CAP_WAKE_ALARM"
    ∷ str "CAP_BLOCK_SUSPEND"
    ∷ str "CAP_AUDIT_READ"
    ∷ str "CAP_PERFMON"
    ∷ str "CAP_BPF"
    ∷ str "CAP_CHECKPOINT_RESTORE"
    ∷ []

-- unix.CapUserData
pub record CapUserData : Type 0 where
  pub effective : ℕ
  pub permitted : ℕ
  pub inheritable : ℕ

pub data SecdError : Type 0 where
  unknown_capability : Bytes → SecdError
  capset_failed : SecdError
  unshare_failed private_failed bind_failed old_root_failed pivot_failed chdir_failed : SecdError
  no_new_privs_failed seccomp_failed : SecdError
  invalid_profile : Bytes → SecdError

-- The calls that change the capabilities of the process; a result is not given where the source
-- does not look at it.
pub record CapKernel (W : Type 0) : Type 0 where
  pub capset : CapUserData → CapUserData → W → W × Bool
  pub capbset_drop : ℕ → W → W

-- strings.EqualFold(strings.TrimSpace(s), t) for a t in capitals.
abbrev pub is_word : Bytes → Bytes → Bool
is_word t s = str_eq (to_upper (trim_space s)) t

-- A name as capNameToNum has it.
unfoldable pub full_name : Bytes → Bytes
full_name name =
    let upper = to_upper (trim_space name) in
    if has_prefix upper (str "CAP_") then upper else str "CAP_" ++ upper

-- The words of a set of capabilities.
pub record CapSet : Type 0 where
  pub low : ℕ
  pub high : ℕ

abbrev pub no_caps : CapSet
no_caps = record { low = 0; high = 0 }

-- effLow and effHigh with one capability more; permLow and permHigh are always the same. A
-- shift by 32 or more gives 0.
unfoldable pub keep : ℕ → CapSet → CapSet
keep c set =
    if ltb c 32
    then record set { low = or_bit set.low c }
    else if ltb (c - 32) 32
    then record set { high = or_bit set.high (c - 32) }
    else set

-- Effective and permitted alike, nothing inheritable.
abbrev pub word_of : ℕ → CapUserData
word_of x = record { effective = x; permitted = x; inheritable = 0 }

-- The first loop of DropCapabilities: whether the list names "ALL".
unfoldable pub names_all : List Bytes → Bool
names_all [] = false
names_all (s ∷ names) = is_word (str "ALL") s || names_all names

abbrev add_known : Bool → Option ℕ → Option (List ℕ) → Option (List ℕ)
add_known true c rest = rest
add_known false none rest = rest
add_known false (some c) none = none
add_known false (some c) (some kept) = some (c ∷ kept)

module _ (cap : Bytes → ℕ) where
  -- ParseCapability, none for an unknown name.
  unfoldable pub parse_capability : Bytes → Option ℕ
  unfolding full_name
  parse_capability name =
      let upper = full_name name in if one_of upper capability_names then some (cap upper) else none

  -- The second loop of DropCapabilities.
  unfoldable pub collect_caps : CapSet → List Bytes → Result SecdError CapSet
  unfolding parse_capability keep
  collect_caps set [] = ok set
  collect_caps set (s ∷ names) = elim (is_word (str "NONE") s) [
    | true ↦ collect_caps set names
    | false ↦ elim (parse_capability s) [
      | none ↦ err (unknown_capability s)
      | some c ↦ collect_caps (keep c set) names
    ]
  ]

  module _ {W : Type 0} (k : CapKernel W) where
    -- DropCapabilities
    unfoldable pub drop_capabilities : List Bytes → Io W SecdError (Unit {0})
    unfolding collect_caps names_all
    drop_capabilities keep_caps = if names_all keep_caps then pure tt else do
      set ← from_result (collect_caps no_caps keep_caps)
      call (k.capset (word_of set.low) (word_of set.high)) capset_failed

    -- DropAllCapabilities
    unfoldable pub drop_all_capabilities : Io W SecdError (Unit {0})
    unfolding drop_capabilities
    drop_all_capabilities = drop_capabilities (str "NONE" ∷ [])

    -- The loop over the `n` capabilities from `c` on.
    unfoldable pub drop_from : ℕ → ℕ → List ℕ → W → W
    drop_from zero c keep_map w = w
    drop_from (suc n) c keep_map w =
        drop_from n (c + 1) keep_map (if mem c keep_map then w else k.capbset_drop c w)

  -- keepMap, or none where "ALL" is met first; unknown names are passed over.
  unfoldable pub keep_map : List Bytes → Option (List ℕ)
  unfolding parse_capability
  keep_map [] = some []
  keep_map (s ∷ names) = elim (is_word (str "ALL") s) [
    | true ↦ none
    | false ↦ add_known (is_word (str "NONE") s) (parse_capability s) (keep_map names)
  ]

  -- DropCapabilityBoundingSet, which always succeeds.
  unfoldable pub drop_capability_bounding_set : {W : Type 0} → CapKernel W → List Bytes → W → W
  unfolding keep_map drop_from
  drop_capability_bounding_set k keep_caps w = elim (keep_map keep_caps) [
    | none ↦ w
    | some kept ↦ drop_from k 64 0 kept w
  ]
