-- ===== src/Lib.antt =====
-- The TypeScript SDK of the DLMM program (ts-client/src/dlmm): quotes of swaps over bins of
-- liquidity, their fees, and the arithmetic below them.
--
-- A pair holds liquidity in bins, each with a constant price. Seventy bins make a bin array, and a
-- bitmap on the pair, with an extension account, tells which arrays hold liquidity. A swap quote
-- starts at the active bin. Each round searches the bitmaps for the next array with liquidity, moves
-- the volatility accumulator with the active bin, quotes the swap within the bin if it lies in that
-- array, and goes to the next bin.
--
--   - Prelude and its children: names of the libraries, Boolean tests, lists, results, integers, bits.
--   - Constants: constants/index.ts. Pair: the accounts of types/index.ts, in the fields that are read.
--   - Math: helpers/math.ts. `mulDiv`, `mulShr` and `shlDiv` are `mul_div`, `mul_shr` and `shl_div`;
--     Math/BaseFactor is `computeBaseFactorFromFeeBps`, Math/Compression the compression of amounts,
--     Math/Power is `pow` of helpers/u64xu64_math.ts.
--   - Fee: helpers/fee.ts and `getOutAmount` of helpers/index.ts, one function for each.
--   - BinArray: helpers/binArray.ts. BinArray/Bitmap has the bitmaps, BinArray/Search the functions
--     `findNextBinArrayIndexWithLiquidity` and `findNextBinArrayWithLiquidity`, BinArray/Rewards
--     `updateBinArray`, whose result is the changed array.
--   - Volatility: `updateReference` and `updateVolatilityAccumulator` of index.ts.
--   - Swap: `swapQuote` and `swapQuoteExactOut` of index.ts. Swap/Walk has what their loops share,
--     Swap/ExactIn and Swap/ExactOut the two loops, with the local variables as the records `Fill` and
--     `FillOut`, Swap/Extra the loop for the extra bin arrays, Swap/Quote and Swap/Quote/Output the
--     functions from their arguments to their results.
--   - Token: the amounts of helpers/token_2022.ts. The fee function of the token program is an argument.
--   - Positions: the ranges of helpers/positions/index.ts, and `getPositionCount` of helpers/math.ts;
--     Positions/Claims is `chunkPositionBinRange`, and Positions/Listing the private
--     `getBinsBetweenLowerAndUpperBound` of index.ts. Positions/Processed is its `processPosition`,
--     up to the amounts without transfer fees.
--   - Rebalance: helpers/rebalance/rebalancePosition.ts. Rebalance/Withdraw is `_simulateWithdraw`,
--     Rebalance/Order the checks of the ranges, Rebalance/Amounts `toAmountIntoBins` and the flag of the
--     signs, Rebalance/Resize `_simulateResize`, Rebalance/Deposit `_simulateDeposit`, and
--     Rebalance/Deposit/Simulate has `simulateRebalance`, Rebalance/Coverage the bin arrays of the
--     ranges, Rebalance/Liquidity the parameters by strategy of helpers/rebalance/liquidity_strategy,
--     with a file for each builder, and Rebalance/Balanced `buildRebalanceStrategyParameters` of
--     helpers/rebalance/strategy/balanced.ts; the other files beside them have the totals.
--   - Weights: the weights of helpers/strategy.ts; Weights/Spot is `calculateSpotDistribution` of
--     helpers/weight.ts, Weights/Amounts helpers/weightToAmounts.ts, with the decimal numbers of their
--     package as the argument of Weights/Decimals, and Weights/Strategy `toAmountsBothSideByStrategy`.
--   - Examples: the theorems at concrete data, and tests.
--
-- BN values that are never negative are natural numbers, the others are integers; `Math.floor` of a
-- quotient is division. Numbers of JavaScript stay below 2 ^ 53 there, so that they are exact. A call
-- that throws returns `err`; BN throws at a division by zero. A `Map` is the list of its entries. The
-- accounts of bin arrays have distinct addresses, one for each index, so that the first account of an
-- index stands for its address.
--
-- Loops without a counter run on fuel. `computeBaseFactorFromFeeBps` has the numerator and one, since
-- it is divided by ten in each round; `findOptimumDecompressMultiplier` the decimals and two;
-- `findNextBinArrayIndexWithLiquidity` three rounds, for the two sides of the extension and the
-- default bitmap; the loops of the quotes take their fuel as an argument, and need one round for each
-- bin from the active one to the end of the bitmaps, and two more, which `loop_fuel` is enough for;
-- the chunking of a range has one round for each bin and one more; the coverage of a rebalance has
-- one round for each bin array of a range. The loops of the liquidity strategies take their fuel as an
-- argument: the amount of X in Q64.64 units, and one more, is enough for the base of the spot strategy,
-- and the amount of Y, and one more, for that of the curve.
--
-- Not modelled: the calls of the RPC node, addresses and transactions; the price and the amounts that
-- are computed with the package Decimal, among them the price impact and the end price of a quote, and
-- the balanced amounts that the strategies suggest; the distributions that use the package for the
-- normal distribution. The rent of an account by its size is an argument of the rebalance.
pub mod Prelude
pub mod Constants
pub mod Math
pub mod Pair
pub mod Fee
pub mod BinArray
pub mod Volatility
pub mod Token
pub mod Swap
pub mod Positions
pub mod Rebalance
pub mod Weights
pub mod Examples
