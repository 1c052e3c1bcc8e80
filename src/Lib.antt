-- ===== src/Lib.antt =====
-- Agent City: the parts of the city that decide, trade and admit, modelled from the Python source as
-- functions on explicit states, with the theorems that make them correct. A store that the code mutates
-- (a dataclass, an SQLite table) is a value that each operation takes and returns; an exception or a
-- refusal is an option or a flag of the result. Integers that the code only counts up are natural numbers;
-- those that can be negative are the integers of Prelude.Int. Each file opens with the code it is about.
--
-- The parts, and the files that model them:
-- * The council, city/council.py: Council is its data (seats, mayor, proposals) and the queries;
--   Council.Election is `run_election`; Council.Proposals is `propose`, `vote`, `tally`, `mark_executed`
--   and `expire_proposals`; Council.Market is `apply_marketplace_action`; Council.Disk is `to_dict`,
--   `_restore_from_dict`, `_rotate_backups`, the save and the load at start. Council.Steps puts the
--   operations in any order. Agents vote by the weight of their prana, and the mayor's counts three times.
-- * The marketplace, city/pokedex.py: Marketplace is the tables `agent_inventory` and `marketplace_orders`
--   with the operations on them; Marketplace.Supply and Marketplace.Escrow count what is in them;
--   Marketplace.Settlement is `fill_order`, which moves prana in the steward-protocol's bank and rows in
--   SQLite, and undoes the one where the other fails. Marketplace.Steps puts the operations in any order.
-- * Visas, city/visa.py: Visa is the documents, `issue_visa`, `revoke_visa`, `upgrade_visa` and validity;
--   Visa.Storage is `to_dict` and `from_dict`.
-- * The immigration office, city/immigration.py: Immigration is the two tables and how a visa and an
--   application are saved and loaded; Immigration.Process is the operations from `submit_application` to
--   `grant_citizenship`, `register_mahajan` and `revoke_citizenship`; Immigration.Lineage is `parampara`,
--   the walk along the sponsors. Immigration.Steps puts the operations in any order. Every visa that the
--   office issues is a Visa, and its sponsor's id makes the lineage.
-- * The prana engine, city/prana_engine.py: PranaEngine is the dicts in memory over the table of agents,
--   from `boot` through `credit`, `debit` and `metabolize_batch` to `flush`; PranaEngine.Cycle is the loop of a
--   metabolic cycle, and PranaEngine.Whole puts the operations in any order.
-- * The throttle of gh, city/gh_rate.py: GhRate is `call` with its window and backoff; GhRate.Window is a run of
--   calls with the times at which processes were started, and GhRate.Backoff the delays.
-- * The threads and the comment ledger, city/thread_state.py: ThreadState is the board of threads with their
--   energies, from `record_human_comment` to `decay_all`; ThreadState.Queries is the sorted reports and
--   ThreadState.Purge `purge_stale`, which cleans both tables. CommentLedger is the rows of comments and the
--   operations on them, CommentLedger.Reports the reports.
-- * Referendums, city/referendum_system.py: Referendum is a referendum and `calculate_results`;
--   Referendum.Engine is the operations of the engine, and Referendum.Reached puts them in any order.
-- * The agent registry, city/pokedex.py: Registry is the tables `agents`, `operators` and `events` with
--   `_record_event` and `verify_event_chain`; Registry.Lifecycle is `discover` to `archive`, roles and claim
--   levels, Registry.Prana the prana on the rows, Registry.Operators the operators. Registry.Steps puts them in
--   any order. Access, of city/access.py and city/membrane.py, decides who may change it.
-- * Bounties, city/bounty.py: Bounty is `create_bounty`, `claim_bounty` and `fill_bounty_order`, over the
--   marketplace, the registry and the bank.
-- * Claims, city/claims.py: Claims is the ClaimManager over the registry.
-- * The review ledger, city/review_governance/ledger.py: ReviewLedger is the file of events, `append` and
--   `reserve_merge_attempt`.
-- * The review policy, city/review_governance/policy.py and scope.py: ReviewPolicy is `evaluate_base_drift` and
--   `evaluate_policy_c`, ReviewPolicy.Scope the canonical scope of changed files.
-- * The merge authority, city/review_governance/merge_authority.py: MergeAuthority is what a call does to the
--   ledger, the host and the clock; MergeAuthority.Checks, Entries, Reconcile and Merge are `_validate_final_state`,
--   the entries it writes, `reconcile` and `_merge`. ReviewLedger.Lineage has what it asks the ledger.
-- * Prelude holds what they share: Boolean tests, lists, dicts in insertion order (Prelude.Dict, also a
--   table with a primary key), integers, JSON values, and texts with their order and numerals.
-- * Tests holds runs on concrete inputs, at which each theorem with hypotheses is applied.
-- How the parts interact: the council's market actions set the commission that a purchase is called with;
-- an application is put to the council by the id of a proposal, and the vote's outcome is handed back to
-- the office by its caller. The ClaimManager sets the claim levels of the registry through the membrane's
-- check, and `purge_stale` cleans the threads and the comments in one call.
--
-- Code outside the repository is a parameter: the bank (Settlement.Bank, with what a transfer does as the
-- hypotheses MovesMoney and TakesBack, and of frozen accounts RefusesFrozen, AcceptsOpen and KeepsFrozen), the signature service and the router of a proposal (arguments
-- of `vote` and `propose`), the digests of SHA-256 (Visa.Digests, Registry.Codec, ReviewLedger.Coding), json.dumps and the bytes of canonical
-- JSON where only a digest or a size is made of them, the derivation of an agent's soul and identity, the
-- check of a signature, the reading of the clock, which is an argument `now`, and the host, the runner and the
-- worker of a merge (MergeAuthority.Outside).
--
-- Fractions are exact: an energy is a numerator over a denominator, a weight counts 2000ths of a vote; the
-- rounding of floating-point numbers is not modelled. A thread's energy falls below the threshold at the 36th
-- heartbeat, since 0.92 to the 36th is the first power below 0.05.
--
-- Loops are recursion on lists. One loop has fuel: the walk along the sponsors is given as many turns as
-- there are visas, and two, and ends before they are used up, since each turn sees a visa for the first time.
--
-- Not modelled: the federation (city/federation*.py, wire formats and relays), the discussions and the
-- cognition of the agents (city/brain*.py, city/discussions*.py and their prompts, which call a language
-- model), the heartbeat's hooks and handlers (city/hooks, city/karma_handlers, city/phases), which call the
-- parts above, the rest of city/review_governance, city/wiki and the scripts. Of the registry in city/pokedex.py the
-- reports and the cells are not modelled; `fill_order` takes `fill_bounty_order`, which is in Bounty, as an argument.
pub mod Access
pub mod Bounty
pub mod Claims
pub mod CommentLedger
pub mod Council
pub mod GhRate
pub mod Immigration
pub mod Marketplace
pub mod MergeAuthority
pub mod PranaEngine
pub mod Prelude
pub mod Referendum
pub mod Registry
pub mod ReviewLedger
pub mod ReviewPolicy
mod Tests
pub mod ThreadState
pub mod Visa
