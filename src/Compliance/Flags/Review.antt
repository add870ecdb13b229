-- ===== src/Compliance/Flags/Review.antt =====
-- From a flag that is raised to its resolution.
use ftg_chain.Base.{
  ℕ, ◌+◌, ◌<◌, ◌≡◌, subst, refl, sym, ap, ◌∙◌, inl, inr, true, false, some, List, [], ◌∷◌, ◌++◌,
  String, str_eq, some_eq, arith,
}
use ftg_chain.Base.Word.{add64, half, add64_nat}
use ftg_chain.Base.Lists.{length, select}
use ftg_chain.Base.Time.{Time}
use ftg_chain.Base.Result.{ok}
use ftg_chain.Compliance.Types.{Keeper, SuspiciousActivity, new_keeper}
use ftg_chain.Compliance.Flags.{
  flag_id, new_flag, check_transaction, is_pending, get_pending_flags, resolve_flag,
}
use ftg_chain.Compliance.Flags.Reached.{
  Unused, resolve_in-append, Call, run, check_transaction-cases, run-Reviewed,
}

select-snoc :
    (fs : List SuspiciousActivity) (f : SuspiciousActivity)
    → is_pending f ≡ false
    → select is_pending (fs ++ f ∷ []) ≡ select is_pending fs
select-snoc [] f h = rw h refl
select-snoc (g ∷ fs) f h = ground (arith, select-snoc fs f h)

select-pending :
    (fs : List SuspiciousActivity) (f : SuspiciousActivity)
    → is_pending f ≡ true
    → select is_pending (fs ++ f ∷ []) ≡ select is_pending fs ++ f ∷ []
select-pending [] f h = rw h refl
select-pending (g ∷ fs) f h = ground (arith, select-pending fs f h)

-- A flag with an unused identifier at the end of the list, and its resolution.
resolve_flag-last :
    (k : Keeper) (seq : ℕ) (f : SuspiciousActivity) (r : String) (later : Time)
    → Unused f.id k.suspicious_flags
    → str_eq r "pending" ≡ false
    → let k' : Keeper = record k {
      flag_seq = seq;
      suspicious_flags = k.suspicious_flags ++ f ∷ [];
    } in
      ((resolve_flag f.id r later k').1 ≡ ok tt)
      × (get_pending_flags (resolve_flag f.id r later k').0 ≡ get_pending_flags k)
unfolding get_pending_flags resolve_flag
resolve_flag-last k seq f r later unused other =
    rw (resolve_in-append f.id r later k.suspicious_flags [] f unused refl, resolve_flag)
      (
        refl,
        select-snoc k.suspicious_flags (record f { reviewed_at = some later; resolution = r })
            other,
      )

-- From a new keeper, after any history of fewer than 2 ^ 63 - 1 checks and resolutions that
-- dereferences no nil pointer: a flag that CheckTransaction raises is pending, and to resolve it by
-- its identifier, otherwise than as "pending", succeeds and leaves pending exactly the flags that
-- were pending before the check.
pub check_transaction-resolve_flag :
    (cs : List Call) (u w : String) (amount : ℕ) (t : String) (now : Time) (k k' : Keeper)
    (f : SuspiciousActivity) (r : String) (later : Time)
    → length cs + 1 < half
    → run cs new_keeper ≡ some k
    → check_transaction u w amount t now k ≡ some (k', some f)
    → str_eq r "pending" ≡ false
    → (get_pending_flags k' ≡ get_pending_flags k ++ f ∷ [])
      × ((resolve_flag f.id r later k').1 ≡ ok tt)
      × (get_pending_flags (resolve_flag f.id r later k').0 ≡ get_pending_flags k)
unfolding get_pending_flags new_flag flag_id
check_transaction-resolve_flag cs u w amount t now k k' f r later h e raised other =
    let v =
      run-Reviewed cs 1 new_keeper k (record { within = omega arith; numbered = λ n hn above. tt })
        e in
    elim (check_transaction-cases u w amount t now k k' (some f) raised) [
      | inl (same, none_raised) ↦ absurd (cc)
      | inr (state, flag) ↦
          let s : f ≡ new_flag u w amount t now (add64 k.flag_seq 1) = some_eq flag in
          let next : add64 k.flag_seq 1 ≡ k.flag_seq + 1 =
            add64_nat k.flag_seq 1 (let x = v.within in omega arith) in
          let state' : k' ≡ record k {
            flag_seq = add64 k.flag_seq 1;
            suspicious_flags = k.suspicious_flags ++ f ∷ [];
          } =
            rw s state in
          let unused : Unused f.id k.suspicious_flags =
            subst (λ j. Unused j k.suspicious_flags) (sym (ap (λ x. x.id) s))
              (v.numbered (add64 k.flag_seq 1) (let x = v.within in omega arith) (omega arith)) in
          let (done, rest) = resolve_flag-last k (add64 k.flag_seq 1) f r later unused other in
          (
            ap get_pending_flags state' ∙ select-pending k.suspicious_flags f (rw s refl),
            ap (λ x. (resolve_flag f.id r later x).1) state' ∙ done,
            ap (λ x. get_pending_flags (resolve_flag f.id r later x).0) state' ∙ rest,
          )
    ]
