-- ===== src/Exchange/Matching/Walk.antt =====
-- The loop of matchOrder over a well-formed book.
use ftg_chain.Base.{
  ℕ, ◌≡◌, refl, sym, ap, ◌∙◌, inl, inr, Bool, true, false, some, List, [], ◌∷◌, String, arith,
  str_eq, Bool-cases, Option-cases, some_eq,
}
use ftg_chain.Base.Word.{slt}
use ftg_chain.Base.Dict.{lookup}
use ftg_chain.Base.Time.{Time}
use ftg_chain.Exchange.Types.{Keeper, TradingPair, Order}
use ftg_chain.Exchange.Wallets.Totals.{present, is_some, is_some-value}
use ftg_chain.Exchange.Limits.{update_daily_limit}
use ftg_chain.Exchange.Matching.{
  settle_trade, fill_qty, new_trade, fill, filled_maker, execute_fill, match_from, is_beyond,
}
use ftg_chain.Exchange.Matching.Fills.{execute_fill-Filled}
use ftg_chain.Exchange.Matching.Books.{
  NotIn, BookOk, SameWallets, BookOk-insert, settle_wallets-present,
}

module _ (pair : TradingPair) (block_height : ℕ) (now : Time) (today : String) where
  pub filled-SameWallets :
      (id : String) (maker o : Order) (k k' : Keeper)
      → execute_fill pair block_height now today id maker o k ≡ some k'
      → SameWallets k k'
  filled-SameWallets id maker o k k' e j =
      let f = execute_fill-Filled pair block_height now today id maker o k k' e in
      ap (λ ws. present j ws) f.wallets ∙ settle_wallets-present _ pair k.wallets j

  execute_fill-total :
      (id : String) (maker o : Order) (k : Keeper)
      → present maker.wallet_id k.wallets ≡ true
      → present o.wallet_id k.wallets ≡ true
      → is_some (execute_fill pair block_height now today id maker o k) ≡ true
  unfolding execute_fill settle_trade new_trade
  execute_fill-total id maker o k hm ho = elim (Option-cases (lookup maker.wallet_id k.wallets)) [
    | inl gone ↦ absurd (let f : false ≡ true = rw gone at hm in cc)
    | inr (mw, em) ↦ elim (Option-cases (lookup o.wallet_id k.wallets)) [
      | inl gone ↦ absurd (let f : false ≡ true = rw gone at ho in cc)
      | inr (tw, et) ↦ rw (em, execute_fill) (rw (et, execute_fill) refl)
    ]
  ]

  pub execute_fill-rest :
      (id : String) (maker o : Order) (k k' : Keeper)
      → execute_fill pair block_height now today id maker o k ≡ some k'
      → (k'.buy_book ≡ k.buy_book)
        × (k'.sell_book ≡ k.sell_book)
        × (k'.pairs ≡ k.pairs)
        × (k'.kyc_apps ≡ k.kyc_apps)
        × (k'.order_seq ≡ k.order_seq)
  unfolding execute_fill settle_trade new_trade update_daily_limit
  execute_fill-rest id maker o k k' e = elim (Option-cases (lookup maker.wallet_id k.wallets)) [
    | inl gone ↦ absurd (ground (arith, gone))
    | inr (mw, em) ↦ elim (Option-cases (lookup o.wallet_id k.wallets)) [
      | inl gone ↦ absurd (ground (arith, em, gone))
      | inr (tw, et) ↦
          let f = sym (some_eq (rw (et, execute_fill) at (rw (em, execute_fill) at e))) in
          (
            ap (λ q. q.buy_book) f,
            ap (λ q. q.sell_book) f,
            ap (λ q. q.pairs) f,
            ap (λ q. q.kyc_apps) f,
            ap (λ q. q.order_seq) f,
          )
    ]
  ]

  -- The rest of the book after a fill of its head.
  pub filled-BookOk :
      (b : Bool) (p id : String) (rest : List String) (maker o : Order) (k k' : Keeper)
      → execute_fill pair block_height now today id maker o k ≡ some k'
      → NotIn id rest
      → BookOk k b p rest
      → BookOk k' b p rest
  filled-BookOk b p id rest maker o k k' e out ok =
      let f = execute_fill-Filled pair block_height now today id maker o k k' e in
      BookOk-insert k k' b p rest id (filled_maker (fill_qty o maker) now maker) f.orders
        (λ j h. filled-SameWallets id maker o k k' e j ∙ h) out ok

  -- Over a well-formed book, for a taker that has a wallet, the loop dereferences no nil pointer.
  pub match_from-total :
      (b : Bool) (p : String) (book : List String) (k : Keeper) (o : Order)
      → BookOk k b p book
      → present o.wallet_id k.wallets ≡ true
      → is_some (match_from pair block_height now today book k o) ≡ true
  unfolding match_from fill
  match_from-total b p [] k o ok there = refl
  match_from-total b p (id ∷ rest) k o (l, out, ok) there =
      elim (Bool-cases (slt 0 o.remaining_qty)) [
        | inr full ↦ rw (full, match_from) refl
        | inl left ↦ elim (Bool-cases (is_beyond o l.order)) [
          | inl beyond ↦ rw (left, l.found, beyond, match_from) refl
          | inr within ↦ elim (Bool-cases (str_eq l.order.wallet_id o.wallet_id)) [
            | inl own ↦
                let (m, run) = is_some-value _ (match_from-total b p rest k o ok there) in
                rw (left, l.found, within, own, run, match_from) refl
            | inr other ↦
                let (k', done) =
                  is_some-value _ (execute_fill-total id l.order o k l.owner there) in
                let (m, run) = is_some-value _ (
                  match_from-total b p rest k' (fill (fill_qty o l.order) o)
                    (filled-BookOk b p id rest l.order o k k' done out ok)
                    (filled-SameWallets id l.order o k k' done o.wallet_id ∙ there)) in
                rw (left, l.found, within, other, done, run, match_from) refl
          ]
        ]
      ]
