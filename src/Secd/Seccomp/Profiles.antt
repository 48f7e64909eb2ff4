-- ===== src/Secd/Seccomp/Profiles.antt =====
-- What the named profiles allow.
use a_from_scratch_linux_use.Base.{
  mem, ℕ, ◌+◌, ◌≤◌, ◌<◌, ◌≡◌, ◌↔◌, refl, ◌∙◌, Bool, true, false, not, ◌||◌, ◌&&◌, Option, none,
  some, List, [], ◌∷◌, ◌++◌, ◌==◌, ==_iff, if◌then◌else◌, arith, Bytes, str, length, length-append,
  ◌⊎◌, inl, inr, one_of, str_eq, str_eq_iff, to_lower, trim_space,
}
use a_from_scratch_linux_use.Secd.Unix.{Unix, SockFilter, SeccompData, Machine}
use a_from_scratch_linux_use.Secd.Names.{
  syscall_names, strict_names, app_default_names, net_service_names,
}
use a_from_scratch_linux_use.Secd.Seccomp.{
  compile_whitelist_filter, action_allow, action_kill_process, syscall_map, add_number, collect,
  compile_from_names, get_profile_filter,
}
use a_from_scratch_linux_use.Secd.Seccomp.Filters.{exec-compile_whitelist_filter}

abbrev pub normal : Bytes → Bytes
normal n = to_lower (trim_space n)

abbrev is_number : ℕ → Option ℕ → Bool
is_number x none = false
is_number x (some y) = x == y

-- `x` is the number of a syscall that `names` names.
abbrev pub named : Unix → ℕ → List Bytes → Bool
named u x [] = false
named u x (n ∷ names) = is_number x (syscall_map u (normal n)) || named u x names

mem-append_one : (x y : ℕ) (nums : List ℕ) → mem x (nums ++ y ∷ []) ≡ (mem x nums || x == y)
mem-append_one x y [] = ground arith
mem-append_one x y (z ∷ nums) = ground (arith, mem-append_one x y nums)

mem_eq : (x y : ℕ) (nums : List ℕ) → mem y nums ≡ true → (x == y) ≡ true → mem x nums ≡ true
mem_eq x y nums h e = rw ((==_iff x y).0 e) h

module _ (u : Unix) where
  mem-add_number :
      (x : ℕ) (nums : List ℕ) (o : Option ℕ)
      → mem x (add_number u nums o) ≡ (mem x nums || is_number x o)
  unfolding add_number
  mem-add_number x nums none = ground arith
  mem-add_number x nums (some y) = ground (arith, mem-append_one x y nums, mem_eq x y nums)

  length-add_number :
      (nums : List ℕ) (o : Option ℕ) → length (add_number u nums o) ≤ length nums + 1
  unfolding add_number
  length-add_number nums none = omega arith
  length-add_number nums (some y) = ground (arith, length-append nums (y ∷ []))

  mem-collect :
      (x : ℕ) (names : List Bytes) (nums : List ℕ)
      → mem x (collect u nums names) ≡ (mem x nums || named u x names)
  unfolding collect
  mem-collect x [] nums = ground arith
  mem-collect x (n ∷ names) nums =
      let o = syscall_map u (normal n) in
      ground (arith, mem-collect x names (add_number u nums o), mem-add_number x nums o)

  length-collect :
      (names : List Bytes) (nums : List ℕ)
      → length (collect u nums names) ≤ length nums + length names
  unfolding collect
  length-collect [] nums = omega arith
  length-collect (n ∷ names) nums =
      let o = syscall_map u (normal n) in
      omega (arith, length-collect names (add_number u nums o), length-add_number nums o)

-- The administrative syscalls of SyscallMap.
abbrev pub admin_names : List Bytes
admin_names =
    str "reboot"
    ∷ str "kexec_load"
    ∷ str "init_module"
    ∷ str "delete_module"
    ∷ str "swapon"
    ∷ str "swapoff"
    ∷ str "pivot_root"
    ∷ str "ptrace"
    ∷ []

-- Different names of SyscallMap have different numbers.
abbrev pub IsDistinct : Unix → Type 0
IsDistinct u =
    (a b : Bytes)
    → one_of a syscall_names ≡ true
    → one_of b syscall_names ≡ true
    → u.sys a ≡ u.sys b
    → a ≡ b

abbrev pub is_unrestricted : Bytes → Bool
is_unrestricted profile =
    one_of (normal profile) (str "unrestricted" ∷ str "disabled" ∷ str "none" ∷ [] ∷ [])

-- No name of `names`, once normalised, is in `others`.
avoids : List Bytes → List Bytes → Bool
avoids others [] = true
avoids others (n ∷ names) = not (one_of (normal n) others) && avoids others names

profiles_avoid_admin :
    (avoids admin_names strict_names ≡ true)
    × (avoids admin_names app_default_names ≡ true)
    × (avoids admin_names net_service_names ≡ true)
unfolding avoids strict_names app_default_names net_service_names one_of str_eq to_lower trim_space
profiles_avoid_admin = (refl, refl, refl)

-- Every name of `names` is one of `others`.
includes : List Bytes → List Bytes → Bool
includes others [] = true
includes others (n ∷ names) = one_of n others && includes others names

one_of-includes :
    (s : Bytes) (names others : List Bytes)
    → one_of s names ≡ true
    → includes others names ≡ true
    → one_of s others ≡ true
unfolding one_of includes
one_of-includes s [] others o h = cc
one_of-includes s (n ∷ names) others o h =
    ground (arith, str_eq_iff s n, one_of-includes s names others)

admin_known : includes syscall_names admin_names ≡ true
unfolding includes syscall_names one_of str_eq
admin_known = refl

strict_short : length strict_names < 256
unfolding strict_names
strict_short = omega arith

app_short : length app_default_names < 256
unfolding app_default_names
app_short = omega arith

net_short : length net_service_names < 256
unfolding net_service_names
net_short = omega arith

module _ (u : Unix) where
  named-avoids :
      (others names : List Bytes) (s : Bytes)
      → IsDistinct u
      → one_of s others ≡ true
      → one_of s syscall_names ≡ true
      → avoids others names ≡ true
      → named u (u.sys s) names ≡ false
  unfolding avoids syscall_map
  named-avoids others [] s distinct o k h = refl
  named-avoids others (n ∷ names) s distinct o k h =
      ground (arith, named-avoids others names s distinct o k, distinct s (normal n) k)

module _ {u : Unix} (m : Machine u) where
  -- A filter compiled from at most 255 names allows exactly the syscalls that the names give a
  -- number of SyscallMap, applies the default action to the others, and kills on another
  -- architecture.
  pub exec-compile_from_names :
      (names : List Bytes) (default_action : ℕ) (d : SeccompData) (a : ℕ)
      → length names < 256
      → m.exec (compile_from_names u names default_action) d a
        ≡ some (
            if d.arch == u.audit_arch_x86_64
            then (if named u d.nr names then action_allow u else default_action)
            else action_kill_process u)
  unfolding compile_from_names
  exec-compile_from_names names default_action d a h =
      exec-compile_whitelist_filter m (collect u [] names) default_action d a
        (omega (arith, length-collect u names []))
      ∙ rw (mem-collect u d.nr names [])

  restricted_profile :
      (profile : Bytes) (default_action : ℕ) (f : List SockFilter)
      → get_profile_filter u profile default_action ≡ some f
      → is_unrestricted profile ≡ false
      → (f ≡ compile_from_names u strict_names default_action)
        ⊎ ((f ≡ compile_from_names u app_default_names default_action)
            ⊎ (f ≡ compile_from_names u net_service_names default_action))
  unfolding get_profile_filter
  restricted_profile profile default_action f e r = ground arith

  names_deny :
      (names : List Bytes) (s : Bytes) (default_action : ℕ) (d : SeccompData) (a : ℕ)
      → IsDistinct u
      → one_of s admin_names ≡ true
      → one_of s syscall_names ≡ true
      → avoids admin_names names ≡ true
      → length names < 256
      → d.arch ≡ u.audit_arch_x86_64
      → d.nr ≡ u.sys s
      → m.exec (compile_from_names u names default_action) d a ≡ some default_action
  names_deny names s default_action d a distinct o known safe short arch nr =
      exec-compile_from_names names default_action d a short
      ∙ rw (
        (==_iff d.arch u.audit_arch_x86_64).1 arch,
        nr,
        named-avoids u admin_names names s distinct o known safe,
      )

  -- No filter of a restricted profile lets an administrative syscall through: it gets the default
  -- action, as long as different syscalls have different numbers.
  pub profile_denies_admin :
      (profile s : Bytes) (default_action : ℕ) (f : List SockFilter) (d : SeccompData) (a : ℕ)
      → IsDistinct u
      → get_profile_filter u profile default_action ≡ some f
      → is_unrestricted profile ≡ false
      → one_of s admin_names ≡ true
      → d.arch ≡ u.audit_arch_x86_64
      → d.nr ≡ u.sys s
      → m.exec f d a ≡ some default_action
  profile_denies_admin profile s default_action f d a distinct e r o arch nr =
      let known = one_of-includes s admin_names syscall_names o admin_known in
      let (strict, app, net) = profiles_avoid_admin in
      elim (restricted_profile profile default_action f e r) [
        | inl p ↦ rw p (
            names_deny strict_names s default_action d a distinct o known strict strict_short arch
              nr)
        | inr (inl p) ↦ rw p (
            names_deny app_default_names s default_action d a distinct o known app app_short arch
              nr)
        | inr (inr p) ↦ rw p (
            names_deny net_service_names s default_action d a distinct o known net net_short arch
              nr)
      ]

module _ (u : Unix) where
  -- GetProfileFilter fails exactly on the names that are none of the seven profile names.
  pub get_profile_filter-none :
      (profile : Bytes) (default_action : ℕ)
      → (get_profile_filter u profile default_action ≡ none) ↔ (
          (is_unrestricted profile ≡ false)
          × (one_of (normal profile) (str "strict" ∷ str "app-default" ∷ str "net-service" ∷ [])
              ≡ false))
  unfolding get_profile_filter one_of
  get_profile_filter-none profile default_action =
      (λ e. (ground arith, ground arith), λ h. ground arith)

  -- No profile has an empty filter.
  pub get_profile_filter-nonempty :
      (profile : Bytes) (action : ℕ) → get_profile_filter u profile action ≡ some [] → ⊥
  unfolding get_profile_filter compile_from_names compile_whitelist_filter
  get_profile_filter-nonempty profile action h = ground arith
