-- ===== src/Lib.antt =====
-- Verification library for the GenericUSBXHCI driver: the rings through which the driver and an
-- xHCI host controller exchange commands and transfers, and the queues behind them.
--
-- Base holds what the other modules share: lists over the native numbers, words of a fixed number
-- of bits, signed numbers, windows of a circular list, and the entries that lie between two
-- indices of a circular list (Base.Circle).
--
-- Trb is XHCITRB.h with the TRB accessors of Accessors.cpp and GenericUSBXHCI.h: `TRBStruct`,
-- SetTRBAddr64, GetTRBAddr64, ClearTRB and DiffTRBIndex.
--
-- Ring is Rings.cpp: the record `Ring` is the part of `ringStruct` (Private.h) that the ring
-- operations work on, with AllocRing, InitPreallocedRing, CountRingToED and NextTransferDQ, and
-- MakeBuffer of Leaf_Methods.cpp, whose memory comes from a function that stands for IOKit.
-- Ring.Fragment is the allocation of TRBs in Transfers.cpp: GetNextTRB, CloseFragment, PutBackTRB,
-- CanTDFragmentFit and FreeSlotsOnRing. Pointers into a ring are indices. PutBackTRB loops on
-- fuel, of which one step more than the ring has TRBs is enough, and CountRingToED on more than
-- twice as many.
--
-- Command is Command.cpp: InitCMDRing, EnqueCMD, DoCMDCompletion and CompleteSlotCommand work on
-- the record `CommandRing`. Command.Wait is WaitForCMD with CommandStop and CommandAbort; the
-- completion events that come in during each wait are lists, chosen by the controller, and the
-- variables that callbacks write are a function from addresses.
--
-- Retry is DoSoftRetries and GenerateNextPhysicalSegment of Transfers.cpp. Dequeue is SetTRDQPtr
-- and ParkRing of Transfers.cpp, which issue their command through Command.Wait. Streams is
-- FindStream of Streams.cpp, with fuel for the streams; Streams.Sort is swap, partition and qsort
-- of the same file, on an array that is a function of the index, with two rounds of fuel for each
-- stream and the nine places of the source's stack checked at every push. Streams.Create is
-- CreateStream and CleanupPartialStreamAllocations of the same file with UIMCreateStreams of
-- V3Overrides.cpp. Slots is GetRing, CreateRing and DeallocRing of Rings.cpp and RestartStreams of
-- Streams.cpp, on the rings of one endpoint. Status is TranslateXHCIStatus and
-- TranslateCommandCompletion of Leaf_Methods.cpp. Registers is the register accessors of
-- Accessors.cpp, on registers that hold what is written.
--
-- Links is the linked queues of Async.cpp (GetTD, PutTD, PutTDAtHead) with their pointers. Async
-- is the queues of Async.cpp: CreateTDs (Async.Create), FlushTDs, the moves to the done queue,
-- Complete, GetTDFromActiveQueueWithIndex, Abort, NeedTimeouts and UpdateTimeouts
-- (Async.Timeouts); a queue is a list of TDs there. The loops of CreateTDs and Abort have fuel:
-- the bytes of the request, and the number of scheduled TDs. Completer is Completer.cpp: AddItem,
-- InternalFlush and Finalize; the loop of InternalFlush tests at its end, so that an empty active
-- list is the dereference of a null pointer; what callbacks do during a flush is a list of calls
-- of AddItem, and the fuel counts the items that wait or are added.
--
-- Layout is _createTransfer of Transfers.cpp, on Ring.Fragment and Retry (Layout.Rounds says what
-- the rounds of its loop leave on the ring): its loop runs on the bytes that are left and one
-- round more, and the walk that gives the TRBs back after an error on one step more than the ring
-- has TRBs. Schedule is ScheduleTDs and RetireTDs of Async.cpp on top of Async and Layout; what
-- they ask of the rest of the driver (StartEndpoint, QuiesceEndpoint, SetTRDQPtr, RestartStreams
-- and the endpoint's state) is the record `Control`. Endpoints is Endpoints.cpp: the parameters of
-- bulk and interrupt endpoints, the endpoint context, and how an endpoint is started, stopped,
-- reset and quiesced through WaitForCMD; Endpoints.OnRing fills `Control` with these operations.
--
-- Events is the event rings of Interrupts.cpp: InitAnEventRing and InitEventRing (Events.Setup),
-- FilterEventRing, which runs at interrupt time and copies events to a bounce queue
-- (Events.Filter), and PollEventRing2, PollForCMDCompletions and the handling of a bounced event
-- (Events.Poll). What an event does to the rest of the driver is the record `Handlers`. The fuel
-- of the filter counts the entries that show the expected cycle state, that of the pollers the
-- events that wait; the filter does not run while a poller does, and the memory that the
-- controller writes stays as it is during the loop of the filter; the readings of USBSts are given
-- by round. TransferEvent is processTransferEvent2 and DoStopCompletion: which ring an event is
-- for, and what it does to the TDs there, with RetireTDs of Schedule. Its fuel is for
-- CountRingToED and FindStream.
--
-- Not modelled: isochronous endpoints with the interrupt-time half of their events, device slots,
-- the memory and the deletion of streams, and the root hub; and power management, the IOKit
-- classes that only pass calls on and the printing of diagnostics, which hold little logic of
-- their own.
pub mod Base
pub mod Trb
pub mod Ring
pub mod Command
pub mod Events
pub mod Layout
pub mod Schedule
pub mod TransferEvent
pub mod Dequeue
pub mod Links
pub mod Async
pub mod Endpoints
pub mod Completer
pub mod Slots
pub mod Streams
pub mod Status
pub mod Registers
pub mod Retry
