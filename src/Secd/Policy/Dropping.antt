-- ===== src/Secd/Policy/Dropping.antt =====
-- What internal/secd makes of the capabilities of a process.
use a_from_scratch_linux_use.Secd.Policy.{drop_privileges, SecurityPolicy}
use a_from_scratch_linux_use.Base.Bits.{test_bit}
use a_from_scratch_linux_use.Secd.Unix.{Unix}
use a_from_scratch_linux_use.Secd.Capabilities.Sets.{
  collect_caps-unknown, collect_caps-has, has-no_caps, is_kept, HasRange,
}
use a_from_scratch_linux_use.Base.Io.{
  ignoring, modify, from_result, ◌>>=◌, ◌>>◌, checked, call, ok, pure, err, Result,
}
use a_from_scratch_linux_use.Secd.Capabilities.{
  parse_capability, is_word, keep_map, drop_capability_bounding_set, drop_from, capset_failed,
  word_of, no_caps, collect_caps, names_all, CapSet, SecdError, drop_capabilities,
}
use a_from_scratch_linux_use.Base.{
  [], zero, ◌+◌, mem, suc, ◌++◌, none, subst, ◌&&◌, Option, sym, inl, inr, ◌||◌, str, ap, ◌∷◌, ◌∙◌,
  is_nil, some, ◌-◌, ltb, refl, ◌⊎◌, true, if◌then◌else◌, false, ◌≡◌, ◌<◌, List, Bytes, ℕ, Bool,
}
use a_from_scratch_linux_use.Secd.Policy.Process.{
  process_kernel, with_caps, if_works, process_caps, Process,
}

in_words_zero : (j : ℕ) → (if ltb j 32 then test_bit 0 j else test_bit 0 (j - 32)) ≡ false
in_words_zero j = has-no_caps j

module _ (cap : Bytes → ℕ) where
  -- How DropCapabilities leaves capability `j` of a process.
  abbrev pub Dropped : List Bytes → ℕ → Process → Process × Result SecdError (Unit {0}) → Type 0
  Dropped keep_caps j p (p', err e) = (names_all keep_caps ≡ false) × (p' ≡ p)
  Dropped keep_caps j p (p', ok x) =
      ((names_all keep_caps ≡ true) × (p' ≡ p))
      ⊎ ((p'.effective j ≡ is_kept cap keep_caps j)
          × (p'.permitted j ≡ is_kept cap keep_caps j)
          × (p'.inheritable j ≡ false))

  collected-Dropped :
      (names : List Bytes) (j : ℕ) (p : Process) (r : Result SecdError CapSet)
      → HasRange cap
      → j < 64
      → names_all names ≡ false
      → collect_caps cap no_caps names ≡ r
      → Dropped names j p (elim r [
        | err e ↦ (p, err e)
        | ok set ↦ call (process_caps.capset (word_of set.low) (word_of set.high)) capset_failed p
      ])
  collected-Dropped names j p (err e) range lt n h = (n, refl)
  collected-Dropped names j p (ok set) range lt n h = capset_cases p.works.capset
    where
      capset_cases :
          (b : Bool)
          → Dropped names j p (
              checked capset_failed
                (if_works b (with_caps (word_of set.low) (word_of set.high) p) p))
      capset_cases true =
          let held = collect_caps-has cap names no_caps set j range lt h in
          let e = held ∙ ap (λ b. b || is_kept cap names j) (has-no_caps j) in
          inr (e, e, in_words_zero j)
      capset_cases false = (n, refl)

  -- DropCapabilities keeps exactly the capabilities that the list names, effective and permitted
  -- but not inheritable; with "ALL" in the list, or with an error, it changes nothing.
  pub drop_capabilities-Dropped :
      (names : List Bytes) (j : ℕ) (p : Process)
      → HasRange cap
      → j < 64
      → Dropped names j p (drop_capabilities cap process_caps names p)
  unfolding drop_capabilities
  drop_capabilities-Dropped names j p range lt = branch (names_all names) refl
    where
      branch :
          (b : Bool)
          → names_all names ≡ b
          → Dropped names j p (
              (if b then pure tt else do
                set ← from_result (collect_caps cap no_caps names)
                call (process_caps.capset (word_of set.low) (word_of set.high)) capset_failed)
                p)
      branch true e = inl (e, refl)
      branch false e = collected-Dropped names j p (collect_caps cap no_caps names) range lt e refl

  -- What a change of the bounding set leaves alone.
  abbrev SameCaps : Process → Process → Type 0
  SameCaps p p' =
      (p'.effective ≡ p.effective) × (p'.permitted ≡ p.permitted) × (p'.inheritable ≡ p.inheritable)

  bound_one-SameCaps :
      (b : Bool) (c : ℕ) (p : Process) → SameCaps p (if b then p else process_caps.capbset_drop c p)
  bound_one-SameCaps true c p = (refl, refl, refl)
  bound_one-SameCaps false c p = (refl, refl, refl)

  drop_from-SameCaps :
      (n c : ℕ) (kept : List ℕ) (p : Process) → SameCaps p (drop_from cap process_caps n c kept p)
  unfolding drop_from
  drop_from-SameCaps zero c kept p = (refl, refl, refl)
  drop_from-SameCaps (suc n) c kept p =
      let p1 = if mem c kept then p else process_caps.capbset_drop c p in
      let (e, f, g) = drop_from-SameCaps n (c + 1) kept p1 in
      let (e1, f1, g1) = bound_one-SameCaps (mem c kept) c p in (e ∙ e1, f ∙ f1, g ∙ g1)

  bounding-SameCaps :
      (names : List Bytes) (p : Process)
      → SameCaps p (drop_capability_bounding_set cap process_caps names p)
  unfolding drop_capability_bounding_set
  bounding-SameCaps names p = branch (keep_map cap names)
    where
      branch :
          (o : Option (List ℕ))
          → SameCaps p (elim o [ none ↦ p | some kept ↦ drop_from cap process_caps 64 0 kept p ])
      branch none = (refl, refl, refl)
      branch (some kept) = drop_from-SameCaps 64 0 kept p

  drop_capabilities-unknown :
      (names : List Bytes) (e : SecdError) (p : Process)
      → names_all names ≡ false
      → collect_caps cap no_caps names ≡ err e
      → drop_capabilities cap process_caps names p ≡ (p, err e)
  unfolding drop_capabilities
  drop_capabilities-unknown names e p n h = rw (n, h)

  module _ (u : Unix) where
    -- The step has succeeded, has done no more than to reduce the bounding set, and has left the
    -- other capabilities of the process as they were.
    abbrev pub KeepsAll : List Bytes → Process → Process × Result SecdError (Unit {0}) → Type 0
    KeepsAll names p result =
        (result.1 ≡ ok tt)
        × (result.0 ≡ drop_capability_bounding_set cap process_caps names p)
        × SameCaps p result.0

    is_nil-append : (before after : List Bytes) (s : Bytes) → is_nil (before ++ s ∷ after) ≡ false
    is_nil-append [] after s = refl
    is_nil-append (b ∷ before) after s = refl

    -- A name that is no capability stops DropCapabilities: with one in the list to keep, and
    -- without "ALL" in it, the step succeeds, and the process keeps its effective, permitted and
    -- inheritable capabilities; only its bounding set is reduced, as DropCapabilityBoundingSet does
    -- for that list.
    pub drop_privileges-KeepsAll :
        (policy : SecurityPolicy) (before after : List Bytes) (s : Bytes) (p : Process)
        → policy.caps_add ≡ before ++ s ∷ after
        → names_all policy.caps_add ≡ false
        → is_word (str "NONE") s ≡ false
        → parse_capability cap s ≡ none
        → KeepsAll policy.caps_add p (drop_privileges process_kernel cap u policy p)
    unfolding drop_privileges
    drop_privileges-KeepsAll policy before after s p adds n h k =
        branch (is_nil policy.caps_drop) (is_nil policy.caps_add)
          (subst (λ l. is_nil l ≡ false) (sym adds) (is_nil-append before after s))
      where
        turned_off : KeepsAll policy.caps_add p (
            (modify (drop_capability_bounding_set cap process_caps policy.caps_add)
                >> ignoring (drop_capabilities cap process_caps policy.caps_add))
              p)
        turned_off =
            let bound = drop_capability_bounding_set cap process_caps policy.caps_add p in
            let (e, fails) = collect_caps-unknown cap before after s no_caps h k in
            let failed =
              drop_capabilities-unknown policy.caps_add e bound n
                (ap (collect_caps cap no_caps) adds ∙ fails) in
            subst (λ r. KeepsAll policy.caps_add p (r.0, ok tt)) (sym failed)
              (refl, refl, bounding-SameCaps policy.caps_add p)

        branch :
            (b d : Bool)
            → d ≡ false
            → KeepsAll policy.caps_add p (
                (if b && d
                    then pure tt
                    else modify (drop_capability_bounding_set cap process_caps policy.caps_add)
                      >> ignoring (drop_capabilities cap process_caps policy.caps_add))
                  p)
        branch b true e = cc
        branch true false e = turned_off
        branch false false e = turned_off
