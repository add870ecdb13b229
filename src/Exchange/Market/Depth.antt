-- ===== src/Exchange/Market/Depth.antt =====
-- The order book that GetOrderBook shows.
use ftg_chain.Base.{ℕ, true, false, ◌≤◌, ◌++◌, ◌<◌, ◌≡◌, ◌%◌, Bool, List, [], String}
use ftg_chain.Base.Word.{word, slt}
use ftg_chain.Base.Dict.{Dict}
use ftg_chain.Base.Lists.{length}
use ftg_chain.Base.Sorting.{Ordered}
use ftg_chain.Base.Time.{Time}
use ftg_chain.Exchange.Types.{Order}
use ftg_chain.Exchange.Market.{OrderBookLevel}
use ftg_chain.Exchange.Market.Levels.{level_total, level_orders, remaining_total}

-- What a cut to a depth shows of all levels: the first ones, as many as the depth allows, or all
-- where the depth is not positive. `hidden` are the others.
pub record Cut (depth : ℕ) (all shown : List OrderBookLevel) : Type 0 where
  pub hidden : List OrderBookLevel
  pub split : shown ++ hidden ≡ all
  pub uncut : slt 0 depth ≡ false → hidden ≡ []
  pub limited : slt 0 depth ≡ true → length shown ≤ depth
  pub filled : slt 0 depth ≡ true → length shown < depth → hidden ≡ []

-- What one side of an order book shows of a book of orders: of the levels of all its orders, in
-- strict order, those that come first.
pub record Side (less : OrderBookLevel → OrderBookLevel → Bool) (depth : ℕ) (orders : Dict Order)
    (ids : List String) (shown : List OrderBookLevel) : Type 0 where
  pub all : List OrderBookLevel
  pub ordered : Ordered less all
  pub quantity : level_total all ≡ remaining_total orders ids
  pub counted : level_orders all ≡ length ids % word
  pub first : Cut depth all shown
