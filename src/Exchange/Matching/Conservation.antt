-- ===== src/Exchange/Matching/Conservation.antt =====
-- Where the money goes when a trade is settled.
use ftg_chain.Base.{ℕ, ◌<◌, ◌≡◌, inl, inr, Bool, true, false, String, arith, str_eq, Bool-cases}
use ftg_chain.Base.Word.{word, add64, sub64}
use ftg_chain.Base.Dict.{Dict}
use ftg_chain.Exchange.Types.{ExchangeWallet, TradingPair, Trade, is_buy}
use ftg_chain.Exchange.Wallets.Totals.{total, total_lt, present, moved, totals}
use ftg_chain.Exchange.Limits.{quote_value}
use ftg_chain.Exchange.Matching.{settle_wallets}

-- The fees of a trade, put back to a total of the quote denomination.
abbrev pub with_fees : String → TradingPair → Trade → ℕ → ℕ
with_fees d pair t n =
    add64 (add64 n (moved (str_eq pair.quote_denom d) t.maker_fee))
      (moved (str_eq pair.quote_denom d) t.taker_fee)

-- The moves of a total that settleTrade makes, for a taker that buys and one that does not: `b` and
-- `q` say whether the total is of the base and of the quote denomination.
buyer_moves :
    (b q : Bool) (n qty quote mf tf : ℕ)
    → n < word
    → add64
        (add64
          (add64
            (add64
              (add64
                (add64 (add64 n (moved b (sub64 0 qty))) (moved q (sub64 quote mf)))
                (moved q (sub64 0 quote)))
              (moved b qty))
            (moved q (sub64 0 tf)))
          (moved q mf))
        (moved q tf)
      ≡ n
unfolding add64 sub64
buyer_moves true true n qty quote mf tf h = omega arith
buyer_moves true false n qty quote mf tf h = omega arith
buyer_moves false true n qty quote mf tf h = omega arith
buyer_moves false false n qty quote mf tf h = omega arith

seller_moves :
    (b q : Bool) (n qty quote mf tf : ℕ)
    → n < word
    → add64
        (add64
          (add64
            (add64
              (add64
                (add64 (add64 n (moved q (sub64 0 quote))) (moved b qty))
                (moved b (sub64 0 qty)))
              (moved q (sub64 quote tf)))
            (moved q (sub64 0 mf)))
          (moved q mf))
        (moved q tf)
      ≡ n
unfolding add64 sub64
seller_moves true true n qty quote mf tf h = omega arith
seller_moves true false n qty quote mf tf h = omega arith
seller_moves false true n qty quote mf tf h = omega arith
seller_moves false false n qty quote mf tf h = omega arith

module _ (d : String) (t : Trade) (pair : TradingPair) (ws : Dict ExchangeWallet)
    (maker : present t.maker_wallet ws ≡ true) (taker : present t.taker_wallet ws ≡ true) where
  pub settle_wallets-total : with_fees d pair t (total d (settle_wallets t pair ws)) ≡ total d ws
  unfolding settle_wallets
  settle_wallets-total = elim (Bool-cases (is_buy t.side)) [
    | inl buys ↦ rw buys (
        simp (totals, maker, taker)
          (buyer_moves (str_eq pair.base_denom d) (str_eq pair.quote_denom d) (total d ws)
            t.quantity (quote_value t.price t.quantity) t.maker_fee t.taker_fee (total_lt d ws)))
    | inr sells ↦ rw sells (
        simp (totals, maker, taker)
          (seller_moves (str_eq pair.base_denom d) (str_eq pair.quote_denom d) (total d ws)
            t.quantity (quote_value t.price t.quantity) t.maker_fee t.taker_fee (total_lt d ws)))
  ]
