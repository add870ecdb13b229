-- ===== src/Exchange/Matching/Runs.antt =====
-- The loop of matchOrder as a relation: how a run that returns has gone.
use mathlib.Core.Option
use mathlib.Core.Path.{subst}
use ftg_chain.Base.{
  ℕ, ◌≡◌, refl, inl, inr, true, false, Option, none, some, List, [], ◌∷◌, String, str_eq,
  Bool-cases, Option-cases,
}
use ftg_chain.Base.Word.{add64, slt}
use ftg_chain.Base.Dict.{lookup}
use ftg_chain.Base.Time.{Time}
use ftg_chain.Exchange.Types.{Keeper, TradingPair, Order, Trade}
use ftg_chain.Exchange.Matching.{
  is_beyond, fill_qty, new_trade, fill, execute_fill, Matched, kept, traded, stopped, match_from,
}

same_some : {m n : Matched} → some m ≡ some n → m ≡ n
same_some e = cc

module _ (pair : TradingPair) (block_height : ℕ) (now : Time) (today : String) where
  abbrev pub trade_of : Keeper → Order → Order → Trade
  trade_of k o maker = new_trade o maker pair (add64 k.trade_seq 1) block_height now

  pub data Runs : List String → Keeper → Order → Matched → Type 0 where
    at_end : (k : Keeper) (o : Order) → Runs [] k o (stopped k o [])
    taker_filled :
        (book : List String) (k : Keeper) (o : Order)
        → slt 0 o.remaining_qty ≡ false
        → Runs book k o (stopped k o book)
    price_reached :
        (id : String) (rest : List String) (k : Keeper) (o maker : Order)
        → lookup id k.orders ≡ some maker
        → is_beyond o maker ≡ true
        → Runs (id ∷ rest) k o (stopped k o (id ∷ rest))
    own_order :
        (id : String) (rest : List String) (k : Keeper) (o maker : Order) (m : Matched)
        → lookup id k.orders ≡ some maker
        → str_eq maker.wallet_id o.wallet_id ≡ true
        → Runs rest k o m
        → Runs (id ∷ rest) k o (kept id m)
    trades :
        (id : String) (rest : List String) (k k' : Keeper) (o maker : Order) (m : Matched)
        → slt 0 o.remaining_qty ≡ true
        → lookup id k.orders ≡ some maker
        → is_beyond o maker ≡ false
        → str_eq maker.wallet_id o.wallet_id ≡ false
        → execute_fill pair block_height now today id maker o k ≡ some k'
        → Runs rest k' (fill (fill_qty o maker) o) m
        → Runs (id ∷ rest) k o (traded id (fill (fill_qty o maker) maker) (trade_of k o maker) m)

  map-eq-some :
      {A : Type 0} (f : A → Matched) (x : Option A) {m : Matched}
      → Option.map f x ≡ some m
      → (a : A) × (x ≡ some a) × (f a ≡ m)
  map-eq-some f none e = cc
  map-eq-some f (some a) e = (a, refl, cc)

  pub Runs-match_from :
      (book : List String) (k : Keeper) (o : Order) {m : Matched}
      → match_from pair block_height now today book k o ≡ some m
      → Runs book k o m
  unfolding match_from
  Runs-match_from [] k o e = subst (Runs [] k o) (same_some e) (at_end k o)
  Runs-match_from (id ∷ rest) k o e = elim (Bool-cases (slt 0 o.remaining_qty)) [
    | inr full ↦
        subst (Runs (id ∷ rest) k o) (same_some (rw (full, match_from) at e))
          (taker_filled (id ∷ rest) k o full)
    | inl open_qty ↦ elim (Option-cases (lookup id k.orders)) [
      | inl missing ↦
          let f : none ≡ some _ = rw (missing, match_from) at (rw (open_qty, match_from) at e) in
          absurd (cc)
      | inr (maker, found) ↦ elim (Bool-cases (is_beyond o maker)) [
        | inl beyond ↦
            subst (Runs (id ∷ rest) k o)
              (same_some (
                rw (beyond, match_from) at
                  (rw (found, match_from) at (rw (open_qty, match_from) at e))))
              (price_reached id rest k o maker found beyond)
        | inr within ↦ elim (Bool-cases (str_eq maker.wallet_id o.wallet_id)) [
          | inl own ↦
              let (m', run, last) =
                map-eq-some (kept id) (match_from pair block_height now today rest k o) (
                  rw (own, match_from) at
                    (rw (within, match_from) at
                      (rw (found, match_from) at (rw (open_qty, match_from) at e)))) in
              subst (Runs (id ∷ rest) k o) last
                (own_order id rest k o maker m' found own (Runs-match_from rest k o run))
          | inr other ↦
              elim (Option-cases (execute_fill pair block_height now today id maker o k)) [
                | inl fault ↦
                    let f : none ≡ some _ =
                      rw (fault, match_from) at
                        (rw (other, match_from) at
                          (rw (within, match_from) at
                            (rw (found, match_from) at (rw (open_qty, match_from) at e)))) in
                    absurd (cc)
                | inr (k', done) ↦
                    let (m', run, last) =
                      map-eq-some (traded id (fill (fill_qty o maker) maker) (trade_of k o maker))
                        (match_from pair block_height now today rest k' (fill (fill_qty o maker) o))
                        (rw (done, match_from) at
                          (rw (other, match_from) at
                            (rw (within, match_from) at
                              (rw (found, match_from) at (rw (open_qty, match_from) at e))))) in
                    subst (Runs (id ∷ rest) k o) last (
                      trades id rest k k' o maker m' open_qty found within other done
                        (Runs-match_from rest k' (fill (fill_qty o maker) o) run))
              ]
        ]
      ]
    ]
  ]
