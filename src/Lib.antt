-- ===== src/Lib.antt =====
-- A model of the order path of the e-commerce platform: the order saga and its seller orders
-- (services/order-saga), the stock that they reserve (services/inventory-service), the charges,
-- refunds and escrow ledger of services/payment-service, the dispatcher that carries the saga's
-- commands to them (workers/saga-dispatcher), and the parcels and the couriers' cash
-- (services/fulfillment-service); with the sellers' onboarding (services/seller-service) and the
-- reviews of what was delivered (services/reviews-service).
--
-- How the parts interact. A checkout (start_saga) splits the cart by seller and opens a saga, one
-- seller order per seller, and a reservation of stock. The dispatcher takes the commands off the
-- outbox, calls the services and reports what they answered as events. On each event, advance_saga
-- decides with the transition tables what it means, moves the saga, closes the children of a saga
-- that has ended, and puts a command on the outbox, all in one transaction. Sellers and couriers
-- move seller orders with transition_seller_order, which puts the stock and escrow commands of the
-- move on the same outbox. A reaper times out sagas that have stopped. Every transaction here is a
-- function from the tables to an answer and the new tables; what the outside world decides
-- (whether a row lock is granted, whether a commit succeeds, what another service answers, whether
-- a row is old) is an argument.
--
-- Base, and the modules below it: shared names. Booleans on numbers, lists, Python's integers
--   (Base.Int, unbounded, as Python's are), str.strip (Base.Text), sorting (Base.Sort), and an
--   HTTP answer as a value or a status code (Base.Http).
-- Saga: services/order-saga/app/services/transitions.py. `resolve` and its three tables.
--   Saga.Reaper is the first query of saga_reaper_loop in services/order-saga/app/main.py;
--   Saga.Run is the life of one row, events and sweeps in any order; Saga.Progress and Saga.Stock
--   are about that life.
-- SellerOrder: services/order-saga/app/services/cod_rules.py. `actions` is ACTIONS, and
--   plan_transition, may_cancel and TERMINAL keep their names. SellerOrder.Lifecycle is the life
--   of one seller order, with what becomes of the stock when its parent releases the order's;
--   SellerOrder.Derive is the derived order status of
--   services/order-saga/app/services/split_rules.py, and SellerOrder.LeastAdvanced is about it.
--   SellerOrder.Split is split_by_seller of the same file; its Groups and Conserved are about what
--   becomes of the lines, its Stocked about the dispatcher's reading of the same items.
-- Orchestrator: services/order-saga/app/services/saga_orchestrator.py over
--   services/order-saga/app/models.py. advance_saga with its idempotency keys and
--   cancel_children_of_ended_saga; Orchestrator.SellerOrders has transition_seller_order;
--   Orchestrator.Start has start_saga and, below it, what it stores; Orchestrator.Reap and
--   Orchestrator.Sweep have the reaper's two queries over the tables; Orchestrator.Runs has any
--   sequence of all of these; Orchestrator.Advance relates advance_saga to the state machine, and
--   Orchestrator.Children is about the children of sagas that have ended.
-- Inventory: services/inventory-service/app/services/reservation_rules.py. Inventory.Table is
--   services/inventory-service/app/models.py; Inventory.Service has reserve_inventory,
--   release_inventory and consume_inventory of
--   services/inventory-service/app/services/inventory_service.py, with the loop over the holds as
--   a recursion on the table; Inventory.Invariant is the soundness of the tables, the modules
--   below Inventory.Service the theorems on each operation, Inventory.Overlap has
--   the read and the writes of a release or a consumption apart, Overlap.Apart is about requests of
--   other orders in between, and Inventory.Runs is any sequence of these steps.
-- Escrow: services/payment-service/app/services/ledger_rules.py, with LedgerError as a value.
--   Escrow.Books is services/payment-service/app/services/escrow_service.py over the
--   ledger_entries table; Escrow.Books.Balanced and Escrow.Books.Delivery are about it.
-- Payment: services/payment-service/app/services/charge_rules.py and refund_rules.py.
--   Payment.Service has process_charge and process_refund of
--   services/payment-service/app/services/payment_service.py; Payment.Service.Refunds and
--   Payment.Service.Retries are about them.
-- Dispatcher: workers/saga-dispatcher/app/dispatch_rules.py. Dispatcher.Items is
--   plan_item_reservations, with the payloads it reads; Dispatcher.Handle is handle of
--   workers/saga-dispatcher/app/main.py, for services that are a parameter (World), with
--   Handle.Settled and Handle.Routes about it; Dispatcher.Queue is the life of one outbox row
--   under process_one; Dispatcher.Stock joins the dispatcher to inventory-service.
-- Fulfillment: services/fulfillment-service/app/services/courier_rules.py; Fulfillment.Mapping is
--   its build_index and validate_mapping. Fulfillment.Settlement is ingest_settlement of
--   services/fulfillment-service/app/services/shipment_service.py, where a row is flushed by the
--   next query, and Fulfillment.Shipments create_shipment and handle_callback of the same file;
--   Shipments.Redelivery joins the callbacks to transition_seller_order. Fulfillment.Dispatch is
--   dispatch_order of services/fulfillment-service/app/services/fulfillment_service.py.
-- Seller: services/seller-service/app/services/seller_rules.py; Seller.Moves compares its plan
--   functions with its transition table. Seller.Table is services/seller-service/app/models.py;
--   Seller.Service, with Documents, Register and Queries below it, is
--   services/seller-service/app/services/seller_service.py. Its handlers read the seller with no
--   row lock, so Seller.Sessions has a request's read and its writes as two steps of a worker,
--   and runs them in any order; below it, Vetted and Replay are about all such runs, Serial,
--   Refused and Banned about requests that do not overlap, and Race about two that do. Seller.Commission joins
--   get_commission to the booking of a delivery in Escrow.Books.
-- Reviews: services/reviews-service/app/services/review_rules.py, with Reviews.Ratings about its
--   sums. Reviews.Table is services/reviews-service/app/models.py; Reviews.Service, with Moderation
--   and Queries below it, is services/reviews-service/app/services/review_service.py, and
--   Reviews.Eligible is about submit_review. Reviews.Sessions has submissions and reports as the
--   steps between which other requests come; Sound and its children are about all such runs,
--   Rulings and Reported about requests that do not overlap, and Overturned about a ruling that
--   comes in the middle of a report.
-- The Tests modules hold concrete runs.
--
-- Bounds and fuel. No function needs fuel: each loop of the source runs over a list of rows, and
-- is a recursion on that list. Amounts and quantities are unbounded integers, as in Python; the
-- columns' 32-bit range is not modelled, so a value that a column refuses is among the commits
-- that fail.
--
-- Simplifications. Identifiers are numbers. Timestamps, currencies, log lines and the texts of
-- error details are left out, and so is an outbox payload's part that repeats them. Transactions
-- are taken one after another. For the rows that the code locks, and for the payments of an order,
-- which an advisory lock guards, the locks make them so. It is an assumption, which the code does
-- not enforce, for settlement files, and for the seller orders that an ended saga closes: there the
-- code decides on rows that it has read with no lock, and Fulfillment.Settlement.Overlap shows what
-- two overlapping files can do. The other reads with no lock are modelled: inventory-service's
-- release and consumption read the held rows without one, so that Inventory.Runs has the read and
-- the writes as two steps, with Inventory.Overlap showing what two requests of one order can do; and
-- seller-service and reviews-service, which take no row lock, are modelled with their overlaps.
-- A stored status is always one of its
-- vocabulary, except a seller's.
--
-- Not modelled: the outbox retention loop, read endpoints, the dispatcher's polling loop and
-- counters, the reading of the couriers' configuration files, and
-- the other services and workers (media, catalogue, carts,
-- search, audit, webhooks, notifications), whose rules are of the same kind but do not touch the
-- tables above. The gateways, scripts and deployment files have no logic of this kind.
pub mod Base
pub mod Dispatcher
pub mod Escrow
pub mod Fulfillment
pub mod Inventory
pub mod Orchestrator
pub mod Payment
pub mod Reviews
pub mod Saga
pub mod Seller
pub mod SellerOrder
