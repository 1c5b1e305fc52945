-- ===== src/Lib.antt =====
-- An exchange simulator: its core, exchangesim/core, its FIX layer, exchangesim/fix, and the framing of
-- exchangesim/binary, without their input and output.
--
-- The program's parts, and the file that models each:
--
--   enums.py          Enums.antt        constants as data types
--   orders.py         Orders.antt       one order and its methods
--                     Registry.antt     OrderRegistry: orders by venue id and by ClOrdID
--   events.py         Events.antt       what the engine reports
--   book.py           Book.antt         BookSide and OrderBook; Book/Ladder and Book/Levels are the
--                                       sorted list of prices and the dict of its levels
--   matching.py       Matching.antt     MatchingEngine; `amend` in Matching/Amend
--   trading_state.py  Trading.antt      the phases of a market and of its instruments
--   market.py         Market.antt       one market: its books, phase and matching engine
--   auction.py        Auction.antt      the call auction, with `uncross` of market.py
--   prices.py         Prices.antt       integer price units
--   ids.py            Ids.antt          identifiers
--   instrument.py     Instrument.antt   band and tick tables, lots, caps
--   validation.py     Validation.antt   StandardValidator
--   behaviour.py      Behaviour.antt    injected rules
--   engine.py         Engine.antt       order entry, cancel and replace, with commands.py
--
-- and of exchangesim/fix:
--
--   message.py        Fix/Message.antt  fields, the order of transmission, encoding
--                     Fix/Wire.antt     extract, decode and Framer
--   constants.py      Fix/Tag.antt, Fix/MsgType.antt
--   store.py          Fix/Store.antt    MemoryStore
--                     Fix/FileStore.antt  FileStore, its log as bytes
--   session.py        Fix/Session.antt  the state, the transport and what is sent; Replay, Logon,
--                                       Inbound and Transport below it are the handlers
--   codec.py          is_admin, in Fix/Session/Replay.antt
--
-- and of exchangesim/binary, the binary encoding:
--
--   types.py          Binary.antt       numbers, fixed-width texts, the checksum
--   message.py        Binary/Frame.antt the frame of a message and its header
--
-- Bytes.antt has what the encodings use of Python's bytes, str and int.
--
-- A request enters the engine (`new_order`, `cancel_order`, `replace_order`), which checks the
-- registry, the injected rules and the validator and calls the market (`submit`, `cancel`,
-- `amend_order`); the market looks at its phase and calls the matching engine on the book of the
-- instrument; all of them answer with lists of events. The modules below a file prove what its code
-- does; Tests holds the theorems at concrete inputs and runs of the model.
--
-- A chunk of bytes enters a session (`on_data`), whose framer takes messages off it; each is decoded,
-- checked against the session's CompIDs and the dictionary, and put in sequence: it is dispatched, or
-- queued behind a gap with a request to resend, or refused. What is dispatched is an administrative
-- message, or goes to the application, and what that sends is numbered, kept in the store and handed
-- to the transport. The dictionary and the application are parameters of the session.
--
-- Objects. An order is an object that the book, the registry and the events share. `Heap` is the
-- store of these objects, an order's address is its order_id, and a method that changes an order
-- writes the store. A `Desk` is what the matching engine works on: the store, the book of one
-- instrument and the counter of trade ids. A `Floor` is a market with the store and that counter,
-- which all markets of a venue share. The engine draws addresses from a counter, so the overflow of
-- its order ids is modelled in Ids only.
--
-- Numbers. Quantities and counters are natural numbers, as the validator makes them positive; prices
-- and notionals are integers, since a spread may have a negative price. Where the source subtracts,
-- the stop at zero is the source's own `max(0, ...)`.
--
-- Errors. A function that may raise returns a `Result`, with the exception as an `Error`.
--
-- Loops. The matching loop runs on `match_fuel`, one round for each order on the other side and two
-- more: a round removes a resting order, closes the incoming one or stops. The auction's loop runs on
-- `execute_fuel`, two rounds for each order and one more: a trade uses up an order, and an order that
-- is used up is passed once. Both are proved enough.
--
-- The framer's loop and the index of a log run on fuel for their bytes, the queue of a session on fuel
-- for its messages; each is proved enough.
--
-- Dicts are association lists; a key stands in them once. A clock is read once for a call and its
-- reading is an opaque number, or `none` without a clock.
--
-- Not modelled: texts for people, logging, `describe` methods, the market-data service (a listener
-- of the events), CSV loading, decimal parsing and printing, the audit, the dictionaries of FIX
-- dialects, the layouts of the binary messages, and everything outside these three packages (NNF,
-- TLS, venues, control plane, tools). Of Python's int, the limit on the length of a text is left
-- out, and the spaces that only texts beyond ASCII have.
--
-- A valid book (`IsValidBook`): each side's price list is sorted and lists exactly the prices that
-- have a level, no level is empty, and an order in a queue has the price and the side of the queue
-- and an open quantity.
pub mod Prelude
pub mod Enums
pub mod Orders
pub mod Fix
pub mod Book
pub mod Binary
pub mod Bytes
pub mod Events
pub mod Matching
pub mod Trading
pub mod Registry
pub mod Market
mod Tests
pub mod Prices
pub mod Ids
pub mod Instrument
pub mod Validation
pub mod Behaviour
pub mod Engine
pub mod Auction
