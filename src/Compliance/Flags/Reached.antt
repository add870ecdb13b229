-- ===== src/Compliance/Flags/Reached.antt =====
-- Histories of checks and resolutions, and the numbers of the flags.
use native.Mathlib.Nat.{zero-add, suc-add}
use ftg_chain.Base.{
  ℕ, suc, ◌+◌, ◌<◌, ◌≡◌, ◌≢◌, ◌⊎◌, subst, refl, sym, ap, ◌∙◌, inl, inr, ◌&&◌, Option, none, some,
  List, [], ◌∷◌, ◌++◌, String, str_eq, eq_iff, eq_false_of_ne, some_eq, arith, Bool-cases,
  Option-cases,
}
use ftg_chain.Base.Word.{add64, sle, half, add64_nat}
use ftg_chain.Base.Dict.{lookup}
use ftg_chain.Base.Sprintf.{sprintf-ne}
use ftg_chain.Base.Lists.{length, All, All-append}
use ftg_chain.Base.Time.{Time}
use ftg_chain.Compliance.Types.{Keeper, SuspiciousActivity}
use ftg_chain.Compliance.Flags.{flag_id, new_flag, check_transaction, resolve_in, resolve_flag}

-- No flag of the list has the identifier.
abbrev pub Unused : String → List SuspiciousActivity → Type 0
Unused id = All (λ f. f.id ≢ id)

pub resolve_in-append :
    (id r : String) (now : Time) (fs gs : List SuspiciousActivity) (f : SuspiciousActivity)
    → Unused id fs
    → f.id ≡ id
    → resolve_in id r now (fs ++ f ∷ gs)
      ≡ some (fs ++ record f { reviewed_at = some now; resolution = r } ∷ gs)
unfolding resolve_in
resolve_in-append id r now [] gs f unused own = rw ((eq_iff f.id id).1 own) refl
resolve_in-append id r now (g ∷ fs) gs f (ne, unused) own =
    rw (eq_false_of_ne g.id id ne, resolve_in-append id r now fs gs f unused own) refl

-- The numbers above the counter are used by no flag.
abbrev pub Numbered : Keeper → Type 0
Numbered k = (n : ℕ) → n < half → k.flag_seq < n → Unused (flag_id n) k.suspicious_flags

-- A keeper that the calls of the module can reach, with `room` numbers left.
pub record Reviewed (room : ℕ) (k : Keeper) : Type 0 where
  pub within : k.flag_seq + room < half
  pub numbered : Numbered k

pub data Call : Type 0 where
  checks : String → String → ℕ → String → Time → Call
  resolves : String → String → Time → Call

unfoldable pub step : Call → Keeper → Option Keeper
step (checks u w amount t now) k = elim (check_transaction u w amount t now k) [
  | none ↦ none
  | some x ↦ some x.0
]
step (resolves id r now) k = some (resolve_flag id r now k).0

unfoldable pub run : List Call → Keeper → Option Keeper
run [] k = some k
run (c ∷ cs) k = elim (step c k) [ none ↦ none | some k' ↦ run cs k' ]

resolve_in-Unused :
    (j id r : String) (now : Time) (fs gs : List SuspiciousActivity)
    → resolve_in id r now fs ≡ some gs
    → Unused j fs
    → Unused j gs
unfolding resolve_in
resolve_in-Unused j id r now [] gs e unused = absurd (cc)
resolve_in-Unused j id r now (f ∷ fs) gs e (ne, unused) = elim (Bool-cases (str_eq f.id id)) [
  | inl same ↦ subst (Unused j) (some_eq (rw (same, resolve_in) at e)) (ne, unused)
  | inr other ↦ elim (Option-cases (resolve_in id r now fs)) [
    | inl missing ↦
        let s : none ≡ some gs = rw missing at (rw (other, resolve_in) at e) in absurd (cc)
    | inr (hs, done) ↦
        subst (Unused j) (some_eq (rw done at (rw (other, resolve_in) at e)))
          (ne, resolve_in-Unused j id r now fs hs done unused)
  ]
]

-- A transaction that is checked changes nothing, or raises a flag under the next number.
pub check_transaction-cases :
    (u w : String) (amount : ℕ) (t : String) (now : Time) (k k' : Keeper)
    (flagged : Option SuspiciousActivity)
    → check_transaction u w amount t now k ≡ some (k', flagged)
    → ((k' ≡ k) × (flagged ≡ none))
      ⊎ (let f = new_flag u w amount t now (add64 k.flag_seq 1) in
          (k' ≡ record k {
            flag_seq = add64 k.flag_seq 1;
            suspicious_flags = k.suspicious_flags ++ f ∷ [];
          })
          × (flagged ≡ some f))
unfolding check_transaction
check_transaction-cases u w amount t now k k' flagged e =
    elim (Option-cases (lookup "CTR" k.rules)) [
      | inl missing ↦ absurd (ground (arith, missing))
      | inr (rule, found) ↦
          elim (Bool-cases (rule.enabled && sle k.config.large_transaction_threshold amount)) [
            | inl large ↦ inr (
                let s = some_eq (rw large at (rw (found, check_transaction) at e)) in
                (sym (ap (λ x. x.0) s), sym (ap (λ x. x.1) s)))
            | inr small ↦ inl (
                let s = some_eq (rw small at (rw (found, check_transaction) at e)) in
                (sym (ap (λ x. x.0) s), sym (ap (λ x. x.1) s)))
          ]
    ]

Unused-snoc :
    (id : String) (fs : List SuspiciousActivity) (f : SuspiciousActivity)
    → Unused id fs
    → f.id ≢ id
    → Unused id (fs ++ f ∷ [])
Unused-snoc id fs f unused ne = All-append (λ g. g.id ≢ id) fs (f ∷ []) unused (ne, tt)

module _ (room : ℕ) (k : Keeper) (v : Reviewed (suc room) k) where
  idle : Reviewed room k
  idle = record { within = let h = v.within in omega arith; numbered = v.numbered }

  raises :
      (u w : String) (amount : ℕ) (t : String) (now : Time)
      → Reviewed room (record k {
        flag_seq = add64 k.flag_seq 1;
        suspicious_flags =
            k.suspicious_flags ++ new_flag u w amount t now (add64 k.flag_seq 1) ∷ [];
      })
  unfolding new_flag flag_id
  raises u w amount t now =
      let h = v.within in
      let next : add64 k.flag_seq 1 ≡ k.flag_seq + 1 = add64_nat k.flag_seq 1 (omega arith) in
      record {
        within = omega arith;
        numbered = λ n hn above.
            Unused-snoc (flag_id n) k.suspicious_flags
              (new_flag u w amount t now (add64 k.flag_seq 1)) (v.numbered n hn (omega arith))
              (sprintf-ne "SAR-" 6 (add64 k.flag_seq 1) n (omega arith) hn (omega arith));
      }

  step-Reviewed : (c : Call) (k' : Keeper) → step c k ≡ some k' → Reviewed room k'
  unfolding step resolve_flag
  step-Reviewed (resolves id r now) k' e =
      elim (Option-cases (resolve_in id r now k.suspicious_flags)) [
        | inl missing ↦ subst (Reviewed room) (some_eq (rw (missing, step, resolve_flag) at e)) idle
        | inr (fs, done) ↦
            subst (Reviewed room) (some_eq (rw (done, step, resolve_flag) at e)) (record {
              within = idle.within;
              numbered = λ n hn above.
                  resolve_in-Unused (flag_id n) id r now k.suspicious_flags fs done
                    (v.numbered n hn above);
            })
      ]
  step-Reviewed (checks u w amount t now) k' e =
      elim (Option-cases (check_transaction u w amount t now k)) [
        | inl missing ↦ let s : none ≡ some k' = rw (missing, step) at e in absurd (cc)
        | inr ((k₁, flagged), done) ↦
            let s : k₁ ≡ k' = some_eq (rw (done, step) at e) in
            elim (check_transaction-cases u w amount t now k k₁ flagged done) [
              | inl (same, none_raised) ↦ subst (Reviewed room) (sym same ∙ s) idle
              | inr (raised, flag) ↦
                  subst (Reviewed room) (sym raised ∙ s) (raises u w amount t now)
            ]
      ]

pub run-Reviewed :
    (cs : List Call) (room : ℕ) (k k' : Keeper)
    → Reviewed (length cs + room) k
    → run cs k ≡ some k'
    → Reviewed room k'
unfolding run
run-Reviewed [] room k k' v e = subst (Reviewed room) (some_eq e) (rw (zero-add room) at v)
run-Reviewed (c ∷ cs) room k k' v e = elim (Option-cases (step c k)) [
  | inl fault ↦ let s : none ≡ some k' = rw (fault, run) at e in absurd (cc)
  | inr (k₁, done) ↦
      run-Reviewed cs room k₁ k'
        (step-Reviewed (length cs + room) k (rw (suc-add (length cs) room) at v) c k₁ done)
        (rw (done, run) at e)
]
