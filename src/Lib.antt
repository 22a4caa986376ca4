-- ===== src/Lib.antt =====
-- The payment core of sthrip: hub-held escrow, the balances under it, payment channels,
-- transfers, conditional, group, split and recurring payments, lending, streams, and service level
-- agreements.
--
-- An agent's request reaches a service method inside one database session (`get_db` in
-- sthrip/db/database.py), which commits at the end or rolls back on an exception. The services call
-- repositories, one for each table, and leave audit rows and webhook events. Escrow takes a
-- buyer's money from a balance, keeps it in the deal or in its milestones, and pays it out; a sweep
-- resolves what has passed its deadline. Channels take two deposits and pay two balances.
-- Conditional and group payments lock the sender's money until it is paid out or given back.
-- A loan is taken on the cheapest offer that a credit score allows, against collateral.
-- A transfer takes an amount and a commission from one balance; a split payment pays several. A
-- contract for a service comes with an escrow deal for its price.
--
-- Files:
--   Base             tests on numbers, integers (Base/Int), tables (Base/Table), and the session:
--                    a call is a function from the database to a result and a database
--                    (Base/Action); `transact` is `get_db`. Base/Keys has the keys that a query
--                    finds, Base/Sweep and Base/Counts loops over them, Base/Machine the statuses of
--                    rows as an abstract machine.
--   Models           the rows and statuses of sthrip/db/models.py and sthrip/db/enums.py, and the
--                    database with a table for each (Models/Database).
--   Ledger           sthrip/db/balance_repo.py: the methods (Ledger/Rows; `get_for_update` is
--                    `_get_for_update`), a method call as a value (Ledger/Method), what a table
--                    of balances holds (Ledger/Held).
--   Fees             `_record_fee` of both services.
--   Accounting       the books: balances, fees, amounts in escrow, in channels and in pledge,
--                    and those that conditional and group payments keep.
--   Escrow           sthrip/db/escrow_repo.py (Escrow/Repo), sthrip/db/milestone_repo.py
--                    (Escrow/MilestoneRepo) and sthrip/services/escrow_service.py: fees and trust
--                    (Escrow/Trust), whole deals (Escrow/Deals), milestones (Escrow/Milestones),
--                    the sweep (Escrow/Expiry). The other modules of Escrow hold proofs:
--                    Outcomes, MilestoneOutcomes, Creation, Resolution and AutoRelease how calls
--                    end; Conservation, MilestoneBooks and MilestoneExpiry what they do to the
--                    books; WellFormed, Reform, Preservation and SweepForm the invariant of
--                    deals; TrustRange the range of trust scores; Sweep the sweep; Progress that
--                    nothing due is left; History runs of calls; Machine, Lifecycle the statuses of deals
--                    as an abstract machine.
--   Channel          sthrip/db/channel_repo.py (Channel/Repo) and
--                    sthrip/services/channel_service.py (Channel/Service), with Updates, Closing
--                    and Commit for proofs.
--   Conditional      sthrip/db/conditional_payment_repo.py (Conditional/Repo) and
--                    sthrip/services/conditional_payment_service.py (Conditional/Service), with
--                    Outcomes, Books, Tasks and Evaluation for proofs.
--   MultiParty       sthrip/db/multi_party_repo.py (MultiParty/Repo) and
--                    sthrip/services/multi_party_service.py (MultiParty/Service), with Answers,
--                    Outcomes, Books, Calls and Expiry for proofs.
--   Lending          sthrip/db/loan_repo.py (Lending/Loans), sthrip/db/credit_repo.py
--                    (Lending/Credits) and sthrip/services/credit_service.py
--                    (Lending/Scoring, Lending/Service), with Outcomes, Requests, Offers, Scores
--                    and Defaults for proofs.
--   Stream           sthrip/db/stream_repo.py (Stream/Repo) and
--                    sthrip/services/stream_service.py (Stream/Service), with Runs for a proof.
--   Swaps            sthrip/services/rate_service.py (Swaps/Rates),
--                    sthrip/services/exchange_providers.py (Swaps/Providers),
--                    sthrip/db/swap_repo.py (Swaps/Orders) and sthrip/services/swap_service.py
--                    (Swaps/Service, Swaps/Polling), with Events, Polls, Trace, Books and Ends for
--                    proofs; and
--                    `convertbits` of sthrip/swaps/utils/bitcoin.py (Swaps/Bech32), with RoundTrip
--                    for a proof.
--   Transfer         sthrip/services/fee_calculator.py (Transfer/Commission),
--                    sthrip/services/tier_cache.py (Transfer/Tiers),
--                    sthrip/services/agent_stats_service.py (Transfer/Stats),
--                    sthrip/db/transaction_repo.py (Transfer/Repo) and
--                    sthrip/services/split_payment_service.py (Transfer/Split), with Outcomes,
--                    Charges, Shares and Paying for proofs.
--   Sla              sthrip/db/sla_repo.py (Sla/Repo) and sthrip/services/sla_service.py
--                    (Sla/Service), with Outcomes, Lifecycle, Creation, Unpaid and Enforcement for
--                    proofs.
--   Recurring        sthrip/db/recurring_repo.py (Recurring/Repo) and
--                    sthrip/services/recurring_service.py (Recurring/Service), with Charges
--                    and Commit for proofs.
--   Scenarios        runs on small databases.
--
-- How the code is read. Methods keep their names; a clock reading, a new key and a random hash
-- are arguments, so one call reads the clock once, as `now`, in seconds. Agents, deals, channels and
-- tokens are numbers, and token 0 is XMR. ValueError, LookupError, PermissionError, RuntimeError,
-- TypeError and IntegrityError are the constructors of `Error`. A raise keeps the writes made
-- before it, and `transact` undoes them. `audit_log` without a session commits its row in one of its
-- own: `own_audits` has these rows, and `transact_apart` keeps them when it undoes the rest. A deal's milestones stand in the deal's row, by sequence
-- number. `close_or_advance` is the part that `release_milestone` and `_auto_release_milestone`
-- share. The loops over what a query has found go by its keys (`count_each`). The two loops of
-- `resolve_expired` catch every exception, as `attempt` does.
--
-- Amounts are integers that count 10^-16 coin, and fee rates count ten-thousandths: a fee rate
-- of four places of an amount of twelve is exact. What other columns' fewer places round away is
-- not modelled. Loops run over lists of rows and need no fuel, but for the inner loop of
-- `convertbits`: `drain` has as many rounds as there are bits, and each takes one bit at least.
-- What `int(float(balance) * 20)` gives is a parameter of the credit score, and so is the order
-- of offers of one rate, which the query does not fix, of a request for a loan. Swap orders keep
-- an amount in a column of eight places and balances have twelve: the rounding of that column is
-- a parameter. A commission is counted in piconero, 10^4 units each; its decimals keep 28
-- digits, which is exact below 10^24 piconero.
-- The rates, the exchanges' answers and SHA-256 are parameters of the swap service. Its loop over
-- pending orders catches every exception (`counted_error`), so its commits are not told apart.
--
-- Not modelled: the savepoint retry for two sessions that create one row, locks and concurrent
-- sessions; foreign keys; the uniqueness of deal_hash and loan_hash, which are freshly salted
-- hashes; encrypted envelopes; the details of audit rows and the payload of events; pages of
-- listings; and the other services (matchmaking, reviews, treasury, spending policies), the
-- cache of exchange rates, the rest of sthrip/swaps, the bridge, the HTTP interface and the
-- clients.
pub mod Base
pub mod Models
pub mod Ledger
pub mod Fees
pub mod Accounting
pub mod Escrow
pub mod Channel
pub mod Conditional
pub mod MultiParty
pub mod Lending
pub mod Stream
pub mod Swaps
pub mod Transfer
pub mod Sla
pub mod Recurring
mod Scenarios
