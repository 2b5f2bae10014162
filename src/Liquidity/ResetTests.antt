-- ===== src/Liquidity/ResetTests.antt =====
-- A reset of the balances at concrete values, and the theorem applied there.
use levana_perps.Cosmwasm.{documented}
use levana_perps.Liquidity.Resetting.{crank_resets}
use levana_perps.Liquidity.Books.{IsBooked}
use levana_perps.Liquidity.ResetEnds.{crank_resets_lem}
use levana_perps.Liquidity.ResetBooks.{IsClear}
use levana_perps.Prelude.Dict.{may_load}
use levana_perps.Prelude.{ok, ℕ, ◌≡◌, refl, none, some, [], ◌∷◌}
use levana_perps.Liquidity.State.{Pool, new_addr_stats, begin}
use levana_perps.Liquidity.Run.{empty_pool}

-- Two providers hold tokens of a pool that has lost its collateral; one has crank rewards.
abbrev lost : Pool
lost = record empty_pool {
  by_addr =
      (7, record (new_addr_stats 0) { lp = 5; crank_rewards = 3 })
      ∷ (4, record (new_addr_stats 0) { xlp = 2 })
      ∷ [];
  reset = some begin;
}

-- The rewards stay, and the empty entry is removed.
abbrev cleared_pool : Pool
cleared_pool = record empty_pool {
  by_addr = (7, record (new_addr_stats 0) { crank_rewards = 3 }) ∷ [];
}

reset_run : crank_resets ⦃c = documented⦄ 3 lost ≡ ok cleared_pool
unfolding crank_resets
reset_run = refl

crank_resets_lem_example :
    (cleared_pool.reset ≡ none)
    × ((k : ℕ) → IsClear (may_load k cleared_pool.by_addr))
    × IsBooked cleared_pool
crank_resets_lem_example =
    crank_resets_lem ⦃c = documented⦄ lost (refl, (refl, tt)) refl refl refl reset_run
